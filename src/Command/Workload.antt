-- ===== src/Command/Workload.antt =====
-- cmd/tturl/measurement.go: the number of requests that a measurement plans. Counts are natural
-- numbers, an `int` has 64 bits; `none` is an error for a workload beyond its range.
pub mod Products
mod Examples
use tturl.Common.{
  ℕ, ◌+◌, ◌-◌, ◌*◌, ◌/◌, ◌^◌, Bool, true, false, not, ◌&&◌, Option, none, some, List, [], ◌∷◌, ltb,
  ◌==◌, if◌then◌else◌, ◌>>=◌,
}

abbrev pub max_int : ℕ
max_int = 2 ^ 63 - 1

-- The loop of `checkedProduct`.
unfoldable pub checked_product_from : ℕ → List ℕ → Option ℕ
checked_product_from product [] = some product
checked_product_from product (value ∷ values) =
    let rest = checked_product_from (product * value) values in
    if not (value == 0) && ltb (max_int / value) product then none else rest

unfoldable pub checked_product : List ℕ → Option ℕ
unfolding checked_product_from
checked_product values = checked_product_from 1 values

pub record MeasurePlan : Type 0 where
  pub planned : ℕ
  pub width : ℕ
  pub warmup : ℕ
  pub warmup_width : ℕ

pub record PlannedWorkload : Type 0 where
  pub measured : ℕ
  pub initial_warmup : ℕ
  pub total : ℕ

-- The width of a warmup batch, that of a measured one unless it is given.
unfoldable pub warmup_width_of : MeasurePlan → ℕ
warmup_width_of p = if ltb 0 p.warmup && (p.warmup_width == 0) then p.width else p.warmup_width

unfoldable pub workload : MeasurePlan → ℕ → Option PlannedWorkload
unfolding checked_product warmup_width_of
workload p conns = do
  measured ← checked_product (p.planned ∷ p.width ∷ [])
  warmup ← checked_product (p.warmup ∷ conns ∷ warmup_width_of p ∷ [])
  if ltb (max_int - warmup) measured
      then none
      else some (record { measured = measured; initial_warmup = warmup; total = measured + warmup })
