-- ===== src/Timing/Schedule.antt =====
-- internal/timing/campaign_schedule.go: the units of work that the workers of a campaign take and the
-- positions of a trial. A lock held for a whole call makes the call one step; `uint64` is a number
-- with its wrap-around. The permutation of a random order is the draw of the source's generator.
pub mod Units
mod Examples
use tturl.Common.{
  ℕ, zero, suc, ◌+◌, ◌%◌, ◌^◌, Bool, ◌&&◌, Option, none, some, List, [], ◌∷◌, map, upto, ltb, leb,
  if◌then◌else◌,
}

pub record CampaignQueue : Type 0 where
  pub next_unit : ℕ
  pub limit : ℕ

-- `take`: a unit, or no more of them.
unfoldable pub take_unit : CampaignQueue → CampaignQueue × Option ℕ
take_unit q =
    if ltb 0 q.limit && leb q.limit q.next_unit
    then (q, none)
    else (record q { next_unit = (q.next_unit + 1) % 2 ^ 64 }, some q.next_unit)

-- The results of a number of calls, by whichever workers make them.
unfoldable pub take_units : ℕ → CampaignQueue → List (Option ℕ)
unfolding take_unit
take_units zero q = []
take_units (suc calls) q = let r = take_unit q in r.1 ∷ take_units calls r.0

unfoldable pub campaign_order : ℕ → ℕ → Bool → List ℕ → List ℕ
campaign_order width rotation random drawn =
    if random then drawn else map (λ position. (position + rotation) % width) (upto 0 width)
