-- ===== src/Command/FixedWork/Examples.antt =====
-- Fixed work at concrete measurements.
use tturl.Common.{ℕ, ◌*◌, ◌≡◌, refl, inr, arith, false, [], ◌∷◌}
use tturl.Common.Int.{ℤ, pos, negsuc}
use tturl.Command.FixedWork.{
  DemoFixedWorkBenchmark, DemoServerConfig, returned, iterations_for, benchmark_demo_fixed_work,
  resolve_demo_server_config, sort_samples,
}
use tturl.Command.FixedWork.Rounding.{Calibrates}
use tturl.Command.FixedWork.Iterations.{iterations_for-Calibrates}
use tturl.Command.FixedWork.Resolving.{Returns, IsEffective, resolve_demo_server_config-Returns}

abbrev thousand_in_three : DemoFixedWorkBenchmark
thousand_in_three = record { iterations = 1000; elapsed = pos 3000 }

ten-rounds_up : iterations_for thousand_in_three (pos 10) 1 ≡ returned 4
unfolding iterations_for
ten-rounds_up = refl

ten-rounds_down : iterations_for thousand_in_three (pos 10) 0 ≡ returned 3
unfolding iterations_for
ten-rounds_down = refl

iterations_for-Calibrates_example :
    Calibrates 1 (1000 * 10) 3000 (iterations_for thousand_in_three (pos 10) 1)
iterations_for-Calibrates_example =
    iterations_for-Calibrates thousand_in_three 10 3000 1 refl (omega arith) (omega arith)
      (omega arith) (inr refl)

-- A measurement of 500 nanoseconds for each iteration.
abbrev steady : ℕ → ℕ → ℤ
steady call iterations = pos (iterations * 500)

steady-benchmark :
    benchmark_demo_fixed_work steady
    ≡ returned (record { iterations = 4096; elapsed = pos 2048000 })
unfolding benchmark_demo_fixed_work
steady-benchmark = refl

sort-example :
    sort_samples 4 1 (pos 5 ∷ negsuc 1 ∷ pos 9 ∷ pos 2 ∷ pos 5 ∷ [])
    ≡ negsuc 1 ∷ pos 2 ∷ pos 5 ∷ pos 5 ∷ pos 9 ∷ []
unfolding sort_samples
sort-example = refl

abbrev both_set : DemoServerConfig
both_set = record {
  timing_work_max = record { maximum = pos 1000; unlimited = false };
  quota_work_target = pos 25000;
}

resolve_demo_server_config-Returns_example :
    Returns (IsEffective both_set) (resolve_demo_server_config steady both_set)
resolve_demo_server_config-Returns_example = resolve_demo_server_config-Returns steady both_set
