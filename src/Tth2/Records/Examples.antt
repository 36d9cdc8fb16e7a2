-- ===== src/Tth2/Records/Examples.antt =====
-- The planner on two bodies.
use tturl.Common.{◌≡◌, refl, some, none, [], ◌∷◌}
use tturl.Common.Int.{pos}
use tturl.Tth2.Records.{Bodies, plan_greedy_intermediate_record}

-- Two bodies of 10 and 40 bytes, the second ahead by 4.
abbrev two_bodies : Bodies
two_bodies = record {
  data_len = 10 ∷ 40 ∷ [];
  sent = 0 ∷ 4 ∷ [];
  caps = 9 ∷ 35 ∷ [];
  carrying = 0 ∷ 1 ∷ [];
}

two_bodies_plan :
    plan_greedy_intermediate_record two_bodies (pos 21) (0 ∷ 0 ∷ []) ≡ some (some (5 ∷ 16 ∷ []))
unfolding plan_greedy_intermediate_record
two_bodies_plan = refl

no_credit_plan : plan_greedy_intermediate_record two_bodies (pos 0) (0 ∷ 0 ∷ []) ≡ some none
unfolding plan_greedy_intermediate_record
no_credit_plan = refl
