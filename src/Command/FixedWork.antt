-- ===== src/Command/FixedWork.antt =====
-- cmd/tturl/demo_server_quota.go: how much fixed work the demo server does. A duration is a signed
-- number of nanoseconds, a `uint64` wraps around, an error is a value without its text. What a
-- measurement reads is an argument: the duration of the `k`-th call for a number of iterations.
pub mod Rounding
pub mod Iterations
pub mod Sorting
pub mod Benchmark
pub mod Resolving
mod Examples
use tturl.Common.{
  ℕ, zero, suc, ◌+◌, ◌-◌, ◌*◌, ◌/◌, ◌%◌, ◌^◌, Bool, true, false, not, ◌&&◌, ◌||◌, List, [], ◌∷◌,
  map, upto, length, get_or, set, ltb, leb, ◌==◌, if◌then◌else◌,
}
use tturl.Common.Int.{ℤ, pos, negsuc, pos_part, ltb_ℤ, leb_ℤ, eqb_ℤ}

abbrev pub max_uint64 : ℕ
max_uint64 = 2 ^ 64 - 1

pub data WorkError : Type 0 where
  negative_target invalid_benchmark invalid_rounding too_many_iterations : WorkError
  non_positive_duration invalid_limit negative_quota_work too_much_quota_work : WorkError

pub data Outcome (A : Type 0) : Type 0 where
  failed : WorkError → Outcome A
  returned : A → Outcome A

module _ {A B : Type 0} where
  abbrev pub and_then : Outcome A → (A → Outcome B) → Outcome B
  and_then (failed e) f = failed e
  and_then (returned a) f = f a

pub record DemoFixedWorkBenchmark : Type 0 where
  pub iterations : ℕ
  pub elapsed : ℤ

abbrev pub demo_work_round_down : ℕ
demo_work_round_down = 0

abbrev pub demo_work_round_up : ℕ
demo_work_round_up = 1

-- `bits.Mul64`: the high and the low word of a product.
unfoldable pub mul64 : ℕ → ℕ → ℕ × ℕ
mul64 x y = (x * y / 2 ^ 64, x * y % 2 ^ 64)

-- `bits.Div64`, for a divisor above the high word.
unfoldable pub div64 : ℕ → ℕ → ℕ → ℕ × ℕ
div64 high low y = ((high * 2 ^ 64 + low) / y, (high * 2 ^ 64 + low) % y)

-- The end of `iterationsFor`, after the division.
unfoldable pub rounded : ℕ → ℕ → ℕ → Outcome ℕ
rounded rounding calibrated remainder =
    if (rounding == demo_work_round_up) && not (remainder == 0)
    then if calibrated == max_uint64 then failed too_many_iterations else returned (calibrated + 1)
    else if calibrated == 0
    then returned 1
    else returned calibrated

unfoldable pub iterations_for : DemoFixedWorkBenchmark → ℤ → ℕ → Outcome ℕ
unfolding mul64 div64 rounded
iterations_for b target rounding =
    let elapsed_nanos = pos_part b.elapsed in
    let product = mul64 b.iterations (pos_part target) in
    let quotient = div64 product.0 product.1 elapsed_nanos in
    if ltb_ℤ target (pos 0)
    then failed negative_target
    else if eqb_ℤ target (pos 0)
    then returned 0
    else if (b.iterations == 0) || leb_ℤ b.elapsed (pos 0)
    then failed invalid_benchmark
    else if not (rounding == demo_work_round_down) && not (rounding == demo_work_round_up)
    then failed invalid_rounding
    else if leb elapsed_nanos product.0
    then failed too_many_iterations
    else rounded rounding quotient.0 quotient.1

abbrev pub calibration_floor : ℤ  -- two milliseconds
calibration_floor = pos 2000000

abbrev pub calibration_initial : ℕ
calibration_initial = 1024

abbrev pub probe_maximum : ℕ
probe_maximum = 2 ^ 24

-- The loop that doubles the iterations, with the number of the next call; 14 doublings reach the
-- maximum.
unfoldable pub probe : (ℕ → ℕ → ℤ) → ℕ → ℕ → ℕ → ℕ × ℕ
probe measure zero call iterations = (call, iterations)
probe measure (suc fuel) call iterations =
    let again = probe measure fuel (suc call) (iterations * 2 % 2 ^ 64) in
    if ltb iterations probe_maximum
    then if ltb_ℤ (measure call iterations) calibration_floor then again else (suc call, iterations)
    else (call, iterations)

-- `samples[j], samples[j-1] = samples[j-1], samples[j]`
abbrev pub swap_back : List ℤ → ℕ → List ℤ
swap_back samples j =
    set (set samples (suc j) (get_or samples j (pos 0))) j (get_or samples (suc j) (pos 0))

-- The inner loop of the sort, from `j` down.
unfoldable pub sink : ℕ → List ℤ → List ℤ
sink zero samples = samples
sink (suc j) samples =
    let further = sink j (swap_back samples j) in
    if ltb_ℤ (get_or samples (suc j) (pos 0)) (get_or samples j (pos 0)) then further else samples

-- The outer loop, with `more` rounds left from `i` on.
unfoldable pub sort_samples : ℕ → ℕ → List ℤ → List ℤ
unfolding sink
sort_samples zero i samples = samples
sort_samples (suc more) i samples = sort_samples more (suc i) (sink i samples)

unfoldable pub benchmark_demo_fixed_work : (ℕ → ℕ → ℤ) → Outcome DemoFixedWorkBenchmark
unfolding probe sort_samples
benchmark_demo_fixed_work measure =
    let probed = probe measure 15 0 calibration_initial in
    let samples = map (λ i. measure (probed.0 + i) probed.1) (upto 0 5) in
    let elapsed = get_or (sort_samples 4 1 samples) 2 (pos 0) in
    if leb_ℤ elapsed (pos 0)
    then failed non_positive_duration
    else returned (record { iterations = probed.1; elapsed = elapsed })

pub record DemoTimingWorkLimit : Type 0 where
  pub maximum : ℤ
  pub unlimited : Bool

unfoldable pub is_limited : DemoTimingWorkLimit → Bool
is_limited l = not l.unlimited && ltb_ℤ (pos 0) l.maximum

unfoldable pub is_valid_limit : DemoTimingWorkLimit → Bool
is_valid_limit l =
    if ltb_ℤ l.maximum (pos 0) then false else not (l.unlimited && not (eqb_ℤ l.maximum (pos 0)))

pub record DemoServerConfig : Type 0 where
  pub timing_work_max : DemoTimingWorkLimit
  pub quota_work_target : ℤ

pub record DemoServerEffectiveConfig : Type 0 where
  pub work_max_iterations : ℕ
  pub quota_work_iterations : ℕ

abbrev pub demo_quota_work_maximum : ℕ
demo_quota_work_maximum = 2 ^ 24

unfoldable pub resolve_limit : DemoServerConfig → DemoFixedWorkBenchmark → Outcome ℕ
unfolding is_limited iterations_for
resolve_limit cfg b =
    if is_limited cfg.timing_work_max
    then iterations_for b cfg.timing_work_max.maximum demo_work_round_down
    else returned 0

unfoldable pub resolve_quota_work : DemoServerConfig → DemoFixedWorkBenchmark → Outcome ℕ
unfolding iterations_for
resolve_quota_work cfg b =
    if ltb_ℤ (pos 0) cfg.quota_work_target
    then and_then (iterations_for b cfg.quota_work_target demo_work_round_up)
        (λ n. if ltb demo_quota_work_maximum n then failed too_much_quota_work else returned n)
    else returned 0

-- The benchmark and what follows it.
unfoldable pub resolve_targets : (ℕ → ℕ → ℤ) → DemoServerConfig → Outcome DemoServerEffectiveConfig
unfolding benchmark_demo_fixed_work resolve_limit resolve_quota_work
resolve_targets measure cfg = and_then (benchmark_demo_fixed_work measure) (λ b.
    and_then (resolve_limit cfg b) (λ limit.
      and_then (resolve_quota_work cfg b)
        (λ work. returned (record { work_max_iterations = limit; quota_work_iterations = work }))))

unfoldable pub resolve_demo_server_config :
    (ℕ → ℕ → ℤ) → DemoServerConfig → Outcome DemoServerEffectiveConfig
unfolding is_limited is_valid_limit resolve_targets
resolve_demo_server_config measure cfg =
    if not (is_valid_limit cfg.timing_work_max)
    then failed invalid_limit
    else if ltb_ℤ cfg.quota_work_target (pos 0)
    then failed negative_quota_work
    else if not (is_limited cfg.timing_work_max) && eqb_ℤ cfg.quota_work_target (pos 0)
    then returned (record { work_max_iterations = 0; quota_work_iterations = 0 })
    else resolve_targets measure cfg
