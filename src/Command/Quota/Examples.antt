-- ===== src/Command/Quota/Examples.antt =====
-- Requests that race for a quota of the demo server.
use tturl.Common.{ℕ, ◌-◌, ◌≤◌, ◌≡◌, refl, arith, List, [], ◌∷◌}
use tturl.Command.Quota.{QuotaUse, snapshot, use_quota, use_all, new_use, received, refused}
use tturl.Command.Quota.Race.{IsGapWithin, HasReceipts, use_all-overrun}

-- Two of three requests check before either counts.
abbrev two_race : List ℕ
two_race = 0 ∷ 1 ∷ 1 ∷ 0 ∷ 2 ∷ []

two_race-result :
    use_all (new_use 3) two_race
    ≡ record { quota = record { accepted = 2 }; requests = received 2 ∷ received 1 ∷ refused ∷ [] }
unfolding use_all new_use
two_race-result = refl

two_race-IsGapWithin : IsGapWithin 2 (new_use 3) two_race
unfolding use_quota new_use
two_race-IsGapWithin =
    (omega arith, (omega arith, (omega arith, (omega arith, (omega arith, omega arith)))))

use_all-overrun_example :
    let u : QuotaUse = use_all (new_use 3) two_race in
    (u.quota.accepted ≤ 2) × ((snapshot u.quota).overrun ≤ 2 - 1) × HasReceipts u
use_all-overrun_example =
    use_all-overrun 2 3 two_race (omega arith) (omega arith) two_race-IsGapWithin
