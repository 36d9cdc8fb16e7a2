-- ===== src/Command/FixedWork/Iterations.antt =====
-- `iterationsFor` rounds the exact number of iterations (cmd/tturl/demo_server_quota.go).
use tturl.Common.{
  ℕ, ◌+◌, ◌*◌, ◌/◌, ◌%◌, ◌^◌, ◌≤◌, ◌<◌, ◌≡◌, ◌⊎◌, refl, sym, subst, inl, inr, false, not, ◌&&◌,
  ◌||◌, arith, leb, ◌==◌, if◌then◌else◌, Bool-cases,
}
use native.Mathlib.Nat.{
  div-add-mod, mod-lt, le-div_iff_mul-le, mul_comm, add-mul, mul-pos, div-lt_iff_lt-mul,
}
use tturl.Common.Int.{pos, ltb_ℤ, leb_ℤ, eqb_ℤ}
use tturl.Command.FixedWork.{
  DemoFixedWorkBenchmark, failed, too_many_iterations, mul64, div64, rounded, iterations_for,
  demo_work_round_up, demo_work_round_down,
}
use tturl.Command.FixedWork.Rounding.{IsRounded, Calibrates, rounded-Calibrates}

-- What `iterationsFor` does once its checks have passed.
iterations_by :
    (b : DemoFixedWorkBenchmark) (target elapsed rounding : ℕ)
    → b.elapsed ≡ pos elapsed
    → 1 ≤ target
    → 1 ≤ elapsed
    → 1 ≤ b.iterations
    → (not (rounding == demo_work_round_down) && not (rounding == demo_work_round_up)) ≡ false
    → let work : ℕ = b.iterations * target in
      iterations_for b (pos target) rounding ≡ (
        if leb elapsed (work / 2 ^ 64)
        then failed too_many_iterations
        else rounded rounding
            ((work / 2 ^ 64 * 2 ^ 64 + work % 2 ^ 64) / elapsed)
            ((work / 2 ^ 64 * 2 ^ 64 + work % 2 ^ 64) % elapsed))
unfolding iterations_for mul64 div64
iterations_by b target elapsed rounding e some_target some_elapsed some_iterations mode =
    let not_negative : ltb_ℤ (pos target) (pos 0) ≡ false = ground arith in
    let not_zero : eqb_ℤ (pos target) (pos 0) ≡ false = ground arith in
    let valid : ((b.iterations == 0) || leb_ℤ (pos elapsed) (pos 0)) ≡ false = ground arith in
    rw (e, not_negative, not_zero, valid, mode) refl

-- Any work is rounded to its quotient or the number after it.
pub record Rounds (rounding work elapsed : ℕ) : Type 0 where
  exact : ℕ
  is_rounded : IsRounded rounding exact work elapsed
  least : work / elapsed ≤ exact

quotient-Rounds :
    (rounding work elapsed : ℕ)
    → 1 ≤ elapsed
    → (rounding ≡ demo_work_round_down) ⊎ (rounding ≡ demo_work_round_up)
    → Rounds rounding work elapsed
quotient-Rounds rounding work elapsed some_elapsed mode =
    let q = work / elapsed in
    let parts : q * elapsed + work % elapsed ≡ work =
      rw (mul_comm q elapsed) (div-add-mod work elapsed) in
    let lt : work % elapsed < elapsed = mod-lt work some_elapsed in
    let next : (q + 1) * elapsed ≡ q * elapsed + 1 * elapsed = add-mul q 1 elapsed in
    elim mode [
      | inl down ↦ record {
        exact = q;
        is_rounded = ((λ _. (omega arith, omega arith)), λ h. absurd (omega arith));
        least = omega arith;
      }
      | inr up ↦ elim (Bool-cases (work % elapsed == 0)) [
        | inl none_left ↦ record {
          exact = q;
          is_rounded = (
            (λ h. absurd (omega arith)),
            λ _. (ground (arith, none_left), ground (arith, none_left)),
          );
          least = omega arith;
        }
        | inr some_left ↦ record {
          exact = q + 1;
          is_rounded = (
            (λ h. absurd (omega arith)),
            λ _. (ground (arith, some_left), ground (arith, some_left)),
          );
          least = omega arith;
        }
      ]
    ]

mode-test :
    (rounding : ℕ)
    → (rounding ≡ demo_work_round_down) ⊎ (rounding ≡ demo_work_round_up)
    → (not (rounding == demo_work_round_down) && not (rounding == demo_work_round_up)) ≡ false
mode-test rounding (inl e) = rw e refl
mode-test rounding (inr e) = rw e refl

too_many-Calibrates :
    (rounding work elapsed : ℕ)
    → 1 ≤ elapsed
    → (rounding ≡ demo_work_round_down) ⊎ (rounding ≡ demo_work_round_up)
    → elapsed ≤ work / 2 ^ 64
    → Calibrates rounding work elapsed (failed too_many_iterations)
too_many-Calibrates rounding work elapsed some_elapsed mode much =
    let r = quotient-Rounds rounding work elapsed some_elapsed mode in
    let product : elapsed * 2 ^ 64 ≤ work = omega arith in
    let product' : 2 ^ 64 * elapsed ≤ work = omega arith in
    let many : 2 ^ 64 ≤ work / elapsed = (le-div_iff_mul-le some_elapsed).1 product' in
    let least = r.least in
    record {
      exact = r.exact;
      is_rounded = r.is_rounded;
      returns = inr (omega (arith, least, many), refl);
    }

fits-Calibrates :
    (rounding work elapsed : ℕ)
    → 1 ≤ elapsed
    → 1 ≤ work
    → (rounding ≡ demo_work_round_down) ⊎ (rounding ≡ demo_work_round_up)
    → work / 2 ^ 64 < elapsed
    → Calibrates rounding work elapsed (rounded rounding (work / elapsed) (work % elapsed))
fits-Calibrates rounding work elapsed some_elapsed some_work mode few =
    let q = work / elapsed in
    let parts : q * elapsed + work % elapsed ≡ work =
      rw (mul_comm q elapsed) (div-add-mod work elapsed) in
    let product : work < 2 ^ 64 * elapsed = omega arith in
    let small : q < 2 ^ 64 = (div-lt_iff_lt-mul some_elapsed).1 product in
    rounded-Calibrates rounding q (work % elapsed) work elapsed mode parts
      (mod-lt work some_elapsed) some_work (omega (arith, small))

-- With a positive target and a valid benchmark, `iterationsFor` returns the iterations whose work is
-- the target's, rounded as asked and at least one, and an error exactly if they need more than 64
-- bits.
pub iterations_for-Calibrates :
    (b : DemoFixedWorkBenchmark) (target elapsed rounding : ℕ)
    → b.elapsed ≡ pos elapsed
    → 1 ≤ target
    → 1 ≤ elapsed
    → 1 ≤ b.iterations
    → (rounding ≡ demo_work_round_down) ⊎ (rounding ≡ demo_work_round_up)
    → Calibrates rounding (b.iterations * target) elapsed (iterations_for b (pos target) rounding)
iterations_for-Calibrates b target elapsed rounding e some_target some_elapsed some_iterations
      mode =
    let work : ℕ = b.iterations * target in
    let again : work / 2 ^ 64 * 2 ^ 64 + work % 2 ^ 64 ≡ work = omega arith in
    let some_work : 1 ≤ work = mul-pos some_iterations some_target in
    subst (λ r. Calibrates rounding work elapsed r)
      (sym (
        iterations_by b target elapsed rounding e some_target some_elapsed some_iterations
          (mode-test rounding mode)))
      (elim (Bool-cases (leb elapsed (work / 2 ^ 64))) [
        | inl much ↦
            rw much
              (too_many-Calibrates rounding work elapsed some_elapsed mode (ground (arith, much)))
        | inr few ↦
            rw (few, again)
              (fits-Calibrates rounding work elapsed some_elapsed some_work mode
                (ground (arith, few)))
      ])
