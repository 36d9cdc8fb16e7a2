-- ===== src/Command/FixedWork/Resolving.antt =====
-- The configuration of the demo server that is resolved from the targets
-- (cmd/tturl/demo_server_quota.go).
use tturl.Common.{
  ℕ, ◌≤◌, ◌≡◌, ◌⊎◌, refl, sym, subst, inl, inr, Bool, true, false, not, ◌&&◌, arith, ltb,
  if◌then◌else◌, Bool-cases,
}
use tturl.Common.Int.{ℤ, pos, negsuc, ltb_ℤ, leb_ℤ, eqb_ℤ}
use tturl.Command.FixedWork.{
  DemoFixedWorkBenchmark, DemoServerConfig, DemoServerEffectiveConfig, DemoTimingWorkLimit, Outcome,
  failed, returned, and_then, WorkError, negative_target, invalid_benchmark, invalid_rounding,
  invalid_limit, negative_quota_work, too_much_quota_work, is_limited, is_valid_limit,
  iterations_for, resolve_limit, resolve_quota_work, resolve_targets, resolve_demo_server_config,
  benchmark_demo_fixed_work, demo_quota_work_maximum, demo_work_round_up, demo_work_round_down,
}
use tturl.Command.FixedWork.Iterations.{iterations_for-Calibrates}
use tturl.Command.FixedWork.Benchmark.{benchmark_demo_fixed_work-Benchmarks}

-- The errors of a wrong call of `iterationsFor`, which no configuration leads to.
abbrev pub is_internal : WorkError → Bool
is_internal negative_target = true
is_internal invalid_benchmark = true
is_internal invalid_rounding = true
is_internal _ = false

-- What is returned has the property, and an error is none of a wrong call.
abbrev pub Returns : {A : Type 0} → (A → Type 0) → Outcome A → Type 0
Returns P (failed e) = is_internal e ≡ false
Returns P (returned a) = P a

module _ {A B : Type 0} (P : A → Type 0) (Q : B → Type 0) where
  Returns-and_then :
      (r : Outcome A) (f : A → Outcome B)
      → Returns P r
      → ((a : A) → P a → Returns Q (f a))
      → Returns Q (and_then r f)
  Returns-and_then (failed e) f h k = h
  Returns-and_then (returned a) f h k = k a h

weaken :
    {A : Type 0} (P Q : A → Type 0) (r : Outcome A)
    → ((a : A) → P a → Q a)
    → Returns P r
    → Returns Q r
weaken P Q (failed e) k h = h
weaken P Q (returned a) k h = k a h

abbrev IsPositive : ℤ → Type 0
IsPositive d = (n : ℕ) × (d ≡ pos n) × (1 ≤ n)

positive : (d : ℤ) → leb_ℤ d (pos 0) ≡ false → IsPositive d
positive (pos n) h = (n, refl, ground (arith, h))
positive (negsuc n) h = absurd (ground (arith, h))

above_zero : (d : ℤ) → ltb_ℤ (pos 0) d ≡ true → IsPositive d
above_zero (pos n) h = (n, refl, ground (arith, h))
above_zero (negsuc n) h = absurd (ground (arith, h))

-- A benchmark that `iterationsFor` accepts.
abbrev IsBenchmark : DemoFixedWorkBenchmark → Type 0
IsBenchmark b = (1 ≤ b.iterations) × IsPositive b.elapsed

IsBenchmark-Returns :
    (measure : ℕ → ℕ → ℤ) → Returns IsBenchmark (benchmark_demo_fixed_work measure)
IsBenchmark-Returns measure =
    let b = benchmark_demo_fixed_work-Benchmarks measure in
    let probes = b.probes in
    elim b.returns [
      | inl (e, h) ↦
          subst (λ r. Returns IsBenchmark r) (sym h)
            (omega (arith, probes.at_least), positive b.elapsed e)
      | inr (e, h) ↦ subst (λ r. Returns IsBenchmark r) (sym h) refl
    ]

iterations-Returns :
    (b : DemoFixedWorkBenchmark) (target : ℤ) (rounding : ℕ)
    → IsBenchmark b
    → IsPositive target
    → (rounding ≡ demo_work_round_down) ⊎ (rounding ≡ demo_work_round_up)
    → Returns (λ n. 1 ≤ n) (iterations_for b target rounding)
iterations-Returns b target rounding (some_iterations, (elapsed, e, some_elapsed))
      (t, e', some_target) mode =
    let c =
      iterations_for-Calibrates b t elapsed rounding e some_target some_elapsed some_iterations
        mode in
    rw e' (elim c.returns [
      | inl (small, h) ↦ subst (λ r. Returns (λ n. 1 ≤ n) r) (sym h) (omega arith)
      | inr (large, h) ↦ subst (λ r. Returns (λ n. 1 ≤ n) r) (sym h) refl
    ])

-- Work is done exactly where it is asked for.
abbrev IsFor : Bool → ℕ → Type 0
IsFor asked n = (asked ≡ true → 1 ≤ n) × (asked ≡ false → n ≡ 0)

-- The configuration is valid, each ceiling or target that is set stands for at least one iteration and
-- each that is not for none, and the work of a quota is at most 2^24.
pub record IsEffective (cfg : DemoServerConfig) (c : DemoServerEffectiveConfig) : Type 0 where
  pub valid : is_valid_limit cfg.timing_work_max ≡ true
  pub not_negative : ltb_ℤ cfg.quota_work_target (pos 0) ≡ false
  pub limit : is_limited cfg.timing_work_max ≡ true → 1 ≤ c.work_max_iterations
  pub no_limit : is_limited cfg.timing_work_max ≡ false → c.work_max_iterations ≡ 0
  pub work : ltb_ℤ (pos 0) cfg.quota_work_target ≡ true → 1 ≤ c.quota_work_iterations
  pub no_work : ltb_ℤ (pos 0) cfg.quota_work_target ≡ false → c.quota_work_iterations ≡ 0
  pub at_most : c.quota_work_iterations ≤ demo_quota_work_maximum

limit-IsPositive : (l : DemoTimingWorkLimit) → is_limited l ≡ true → IsPositive l.maximum
unfolding is_limited
limit-IsPositive l h = above_zero l.maximum (ground (arith, h))

resolve_limit-Returns :
    (cfg : DemoServerConfig) (b : DemoFixedWorkBenchmark)
    → IsBenchmark b
    → Returns (IsFor (is_limited cfg.timing_work_max)) (resolve_limit cfg b)
unfolding resolve_limit
resolve_limit-Returns cfg b ok = elim (Bool-cases (is_limited cfg.timing_work_max)) [
  | inr e ↦ rw e ((λ h. cc h), λ h. refl)
  | inl e ↦
      let r =
        iterations-Returns b cfg.timing_work_max.maximum demo_work_round_down ok
          (limit-IsPositive cfg.timing_work_max e) (inl refl) in
      rw e (
        weaken (λ n. 1 ≤ n) (IsFor true)
          (iterations_for b cfg.timing_work_max.maximum demo_work_round_down)
          (λ n h. ((λ e. h), λ e. cc e)) r)
]

resolve_quota_work-Returns :
    (cfg : DemoServerConfig) (b : DemoFixedWorkBenchmark)
    → IsBenchmark b
    → Returns
        (λ n. IsFor (ltb_ℤ (pos 0) cfg.quota_work_target) n × (n ≤ demo_quota_work_maximum))
        (resolve_quota_work cfg b)
unfolding resolve_quota_work
resolve_quota_work-Returns cfg b ok = elim (Bool-cases (ltb_ℤ (pos 0) cfg.quota_work_target)) [
  | inr e ↦ rw e (((λ h. cc h), λ h. refl), omega arith)
  | inl e ↦
      let r =
        iterations-Returns b cfg.quota_work_target demo_work_round_up ok
          (above_zero cfg.quota_work_target e) (inr refl) in
      rw e (
        Returns-and_then (λ n. 1 ≤ n) (λ n. IsFor true n × (n ≤ demo_quota_work_maximum))
          (iterations_for b cfg.quota_work_target demo_work_round_up)
          (λ n. if ltb demo_quota_work_maximum n then failed too_much_quota_work else returned n) r
          (λ n h. elim (Bool-cases (ltb demo_quota_work_maximum n)) [
            | inl much ↦ rw much refl
            | inr few ↦ rw few (((λ e. h), λ e. cc e), ground (arith, few))
          ]))
]

effective :
    (cfg : DemoServerConfig) (limit work : ℕ)
    → is_valid_limit cfg.timing_work_max ≡ true
    → ltb_ℤ cfg.quota_work_target (pos 0) ≡ false
    → IsFor (is_limited cfg.timing_work_max) limit
    → IsFor (ltb_ℤ (pos 0) cfg.quota_work_target) work
    → work ≤ demo_quota_work_maximum
    → IsEffective cfg (record { work_max_iterations = limit; quota_work_iterations = work })
effective cfg limit work valid not_negative for_limit for_work at_most = record {
  valid = valid;
  not_negative = not_negative;
  limit = for_limit.0;
  no_limit = for_limit.1;
  work = for_work.0;
  no_work = for_work.1;
  at_most = at_most;
}

resolve_targets-Returns :
    (measure : ℕ → ℕ → ℤ) (cfg : DemoServerConfig)
    → is_valid_limit cfg.timing_work_max ≡ true
    → ltb_ℤ cfg.quota_work_target (pos 0) ≡ false
    → Returns (IsEffective cfg) (resolve_targets measure cfg)
unfolding resolve_targets
resolve_targets-Returns measure cfg valid not_negative =
    Returns-and_then IsBenchmark (IsEffective cfg) (benchmark_demo_fixed_work measure) _
      (IsBenchmark-Returns measure)
      (λ b ok.
        Returns-and_then (IsFor (is_limited cfg.timing_work_max)) (IsEffective cfg)
          (resolve_limit cfg b) _ (resolve_limit-Returns cfg b ok)
          (λ limit for_limit.
            Returns-and_then
              (λ n. IsFor (ltb_ℤ (pos 0) cfg.quota_work_target) n × (n ≤ demo_quota_work_maximum))
              (IsEffective cfg) (resolve_quota_work cfg b) _ (resolve_quota_work-Returns cfg b ok)
              (λ work h. effective cfg limit work valid not_negative for_limit h.0 h.1)))

by_tests :
    {C : Type 0} (a b c : Bool) (p q r s : C) (P : C → Type 0)
    → (a ≡ false → P p)
    → (a ≡ true → b ≡ true → P q)
    → (a ≡ true → b ≡ false → c ≡ true → P r)
    → (a ≡ true → b ≡ false → P s)
    → P (if not a then p else if b then q else if c then r else s)
by_tests false b c p q r s P hp hq hr hs = hp refl
by_tests true true c p q r s P hp hq hr hs = hq refl refl
by_tests true false true p q r s P hp hq hr hs = hr refl refl refl
by_tests true false false p q r s P hp hq hr hs = hs refl refl

-- Whatever the measurements read, the configuration that is resolved is effective: each ceiling or
-- target that is set stands for at least one iteration, each that is not for none, and the work of a
-- quota is at most 2^24. An error is about the configuration, the benchmark's duration or a number
-- of iterations that is too large, never about a wrong call of `iterationsFor`.
pub resolve_demo_server_config-Returns :
    (measure : ℕ → ℕ → ℤ) (cfg : DemoServerConfig)
    → Returns (IsEffective cfg) (resolve_demo_server_config measure cfg)
unfolding resolve_demo_server_config
resolve_demo_server_config-Returns measure cfg =
    by_tests (is_valid_limit cfg.timing_work_max) (ltb_ℤ cfg.quota_work_target (pos 0))
      (not (is_limited cfg.timing_work_max) && eqb_ℤ cfg.quota_work_target (pos 0))
      (failed invalid_limit) (failed negative_quota_work)
      (returned (record { work_max_iterations = 0; quota_work_iterations = 0 }))
      (resolve_targets measure cfg) (Returns (IsEffective cfg)) (λ invalid. refl)
      (λ valid negative. refl)
      (λ valid fine none_set.
        effective cfg 0 0 valid fine ((λ h. absurd (ground (arith, none_set, h))), λ h. refl)
          ((λ h. absurd (ground (arith, none_set, h))), λ h. refl) (omega arith))
      (λ valid fine. resolve_targets-Returns measure cfg valid fine)
