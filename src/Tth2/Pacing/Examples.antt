-- ===== src/Tth2/Pacing/Examples.antt =====
-- The theorems on the pace of an origin (tth2/pacing.go) at two batches of one run.
use tturl.Common.{ℕ, ◌*◌, ◌/◌, ◌≡◌, refl, some, none, false, List, [], ◌∷◌, get_elem?, leb, ltb}
use tturl.Tth2.Pacing.Clock.{Float64, PaceConfig}
use tturl.Tth2.Pacing.{PaceScheduler, new_scheduler, enqueue, step, new_run, select_admission}
use tturl.Tth2.Pacing.Steps.{clocks}
use tturl.Tth2.Pacing.Grants.{StepEffect, step-Effect}
use tturl.Tth2.Pacing.Spacing.{
  Op, opens, enqueues, cancels, closes, steps, grant_log, Spaced, grants-Spaced,
}
use tturl.Tth2.Pacing.Selection.{IsOldest, select_admission-IsOldest}
use tturl.Tth2.Pacing.RunSpacing.{RunSpaced, grants-RunSpaced}

-- Whole numbers in place of floating point.
abbrev whole : Float64
whole = record {
  F = ℕ;
  of_int = λ n. n;
  mul = λ a b. a * b;
  div = λ a b. a / b;
  ceil = λ a. a;
  at_least = λ a b. leb b a;
  to_int = λ a. a;
  positive = λ a. ltb 0 a;
  is_inf = λ a. false;
}

abbrev ten_a_second : PaceConfig whole
ten_a_second = record { requests_per_second = 10; min_batch_interval = 5_000_000 }

abbrev two_a_second : PaceConfig whole
two_a_second = record { requests_per_second = 2; min_batch_interval = 0 }

abbrev calls : List (Op whole)
calls =
    opens two_a_second
    ∷ enqueues 1 2
    ∷ enqueues 1 2
    ∷ enqueues 0 1
    ∷ steps 1_000
    ∷ steps 2_000
    ∷ steps 1_200_000_000
    ∷ cancels 1
    ∷ closes 1
    ∷ steps 3_000_000_000
    ∷ []

abbrev origin : PaceScheduler whole
origin = new_scheduler ten_a_second

-- The call of the direct run waits behind the origin's clock, and is then granted.
granted :
    grant_log origin calls
    ≡ record { time = 1_000; width = 2; run = 1 }
      ∷ record { time = 1_200_000_000; width = 1; run = 0 }
      ∷ []
unfolding grant_log new_scheduler
granted = refl

grants-Spaced_example : Spaced origin.origin (grant_log origin calls)
grants-Spaced_example = grants-Spaced origin calls

run_clock :
    get_elem? (clocks (new_run origin two_a_second)) 1
    ≡ some (record { config = two_a_second; last = 0; started = false })
unfolding new_run new_scheduler
run_clock = refl

grants-RunSpaced_example :
    RunSpaced 1
      (record { config = two_a_second; last = 0; started = false })
      (grant_log (new_run origin two_a_second) (enqueues 1 2 ∷ enqueues 1 2 ∷ steps 1_000 ∷ []))
grants-RunSpaced_example =
    grants-RunSpaced (new_run origin two_a_second) 1
      (record { config = two_a_second; last = 0; started = false })
      (enqueues 1 2 ∷ enqueues 1 2 ∷ steps 1_000 ∷ []) run_clock

step-Effect_example : StepEffect (enqueue origin 0 1) 9_000 (step (enqueue origin 0 1) 9_000)
step-Effect_example = step-Effect (enqueue origin 0 1) 9_000

abbrev two_waiting : PaceScheduler whole
two_waiting = enqueue (enqueue (new_run origin two_a_second) 1 2) 0 1

nothing_selected : two_waiting.selected ≡ none
unfolding enqueue new_run new_scheduler
nothing_selected = refl

select_admission-IsOldest_example :
    IsOldest two_waiting 5_000 two_waiting.members (select_admission two_waiting 5_000).0.selected
select_admission-IsOldest_example = select_admission-IsOldest two_waiting 5_000 nothing_selected
