-- ===== src/Command/Workload/Examples.antt =====
-- Workloads of two plans.
use tturl.Common.{◌≡◌, ◌^◌, refl, none, [], ◌∷◌}
use tturl.Command.Workload.{MeasurePlan, PlannedWorkload, checked_product, workload}

abbrev small_plan : MeasurePlan
small_plan = record { planned = 100; width = 4; warmup = 2; warmup_width = 0 }

abbrev small_workload : PlannedWorkload
small_workload = record { measured = 400; initial_warmup = 24; total = 424 }

huge_plan_refused :
    workload (record { planned = 2 ^ 62; width = 2; warmup = 0; warmup_width = 0 }) 1 ≡ none
unfolding workload
huge_plan_refused = refl

-- A prefix beyond the range is refused, though the product of them all is 0.
prefix_overflow : checked_product (2 ^ 62 ∷ 4 ∷ 0 ∷ []) ≡ none
unfolding checked_product
prefix_overflow = refl
