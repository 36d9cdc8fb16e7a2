-- ===== src/Command/FixedWork/Benchmark.antt =====
-- What the benchmark of fixed work returns (cmd/tturl/demo_server_quota.go).
use tturl.Common.{
  ℕ, zero, suc, ◌+◌, ◌-◌, ◌*◌, ◌%◌, ◌^◌, ◌≤◌, ◌<◌, ◌≡◌, ◌⊎◌, refl, ◌∙◌, inl, inr, true, false, List,
  [], ◌∷◌, map, upto, length, get_or, arith, ltb, if◌then◌else◌, Bool-cases, sum_by,
}
use native.Mathlib.Nat.{mod-eq_of_lt}
use tturl.Common.Int.{ℤ, pos, ◌≤ℤ◌, ltb_ℤ, leb_ℤ}
use tturl.Command.FixedWork.{
  DemoFixedWorkBenchmark, Outcome, failed, returned, non_positive_duration, calibration_floor,
  calibration_initial, probe_maximum, probe, sort_samples, benchmark_demo_fixed_work,
}
use tturl.Command.FixedWork.Sorting.{IsSortedTo, sort_samples-Sorts}

-- Where the probing stops: at the maximum, or after a call that took long enough.
pub record Probes (measure : ℕ → ℕ → ℤ) (r : ℕ × ℕ) : Type 0 where
  pub at_least : calibration_initial ≤ r.1
  pub at_most : r.1 ≤ probe_maximum
  pub stopped : (r.1 ≡ probe_maximum) ⊎ (calibration_floor ≤ℤ measure (r.0 - 1) r.1)

abbrev doublings : ℕ → ℕ → ℕ
doublings zero iterations = iterations
doublings (suc d) iterations = doublings d (iterations * 2)

grows : (d iterations : ℕ) → iterations ≤ doublings d iterations
grows zero iterations = omega arith
grows (suc d) iterations = omega (arith, grows d (iterations * 2))

-- Fuel for the doublings up to the maximum is enough.
probe-Probes :
    (measure : ℕ → ℕ → ℤ) (d call iterations : ℕ)
    → doublings d iterations ≡ probe_maximum
    → calibration_initial ≤ iterations
    → Probes measure (probe measure (suc d) call iterations)
unfolding probe
probe-Probes measure zero call iterations e start =
    let full : ltb iterations probe_maximum ≡ false = ground (arith, e) in
    rw full (record { at_least = start; at_most = omega (arith, e); stopped = inl e })
probe-Probes measure (suc d) call iterations e start =
    let room = grows d (iterations * 2) in
    let doubled : iterations * 2 < 2 ^ 64 = omega (arith, room, e) in
    let wrap : iterations * 2 % 2 ^ 64 ≡ iterations * 2 = mod-eq_of_lt doubled in
    let going : ltb iterations probe_maximum ≡ true = ground (arith, room, e, start) in
    elim (Bool-cases (ltb_ℤ (measure call iterations) calibration_floor)) [
      | inr slow ↦
          rw (going, slow)
            (record {
              at_least = start;
              at_most = omega (arith, room, e);
              stopped = inr (ground (arith, slow));
            })
      | inl quick ↦
          let rest = probe-Probes measure d (suc call) (iterations * 2) e (omega (arith, start)) in
          rw (going, quick, wrap) rest
    ]

-- How many of the samples are at most, and at least, a duration.
abbrev pub up_to_it : ℤ → List ℤ → ℕ
up_to_it d samples = sum_by (λ x. if leb_ℤ x d then 1 else 0) samples

abbrev pub from_it : ℤ → List ℤ → ℕ
from_it d samples = sum_by (λ x. if leb_ℤ d x then 1 else 0) samples

-- A median of five samples: three are at most and three at least as long.
abbrev pub IsMedian : ℤ → List ℤ → Type 0
IsMedian d samples = (3 ≤ up_to_it d samples) × (3 ≤ from_it d samples)

counted : (x y : ℤ) → x ≤ℤ y → ◌≡◌ {A = ℕ} (if leb_ℤ x y then 1 else 0) 1
counted x y h = ground (arith, h)

five_ordered :
    (a b c d e : ℤ) → a ≤ℤ c → b ≤ℤ c → c ≤ℤ d → c ≤ℤ e → IsMedian c (a ∷ b ∷ c ∷ d ∷ e ∷ [])
five_ordered a b c d e ac bc cd ce =
    let itself = counted c c (omega arith) in
    (
      omega (arith, counted a c ac, counted b c bc, itself),
      omega (arith, counted c d cd, counted c e ce, itself),
    )

five-IsMedian : (xs : List ℤ) → length xs ≡ 5 → IsSortedTo 5 xs → IsMedian (get_or xs 2 (pos 0)) xs
five-IsMedian (a ∷ b ∷ c ∷ d ∷ e ∷ []) len sorted =
    five_ordered a b c d e (sorted 0 2 (omega arith) (omega arith))
      (sorted 1 2 (omega arith) (omega arith)) (sorted 2 3 (omega arith) (omega arith))
      (sorted 2 4 (omega arith) (omega arith))
five-IsMedian [] len sorted = absurd (omega (arith, len))
five-IsMedian (a ∷ []) len sorted = absurd (omega (arith, len))
five-IsMedian (a ∷ b ∷ []) len sorted = absurd (omega (arith, len))
five-IsMedian (a ∷ b ∷ c ∷ []) len sorted = absurd (omega (arith, len))
five-IsMedian (a ∷ b ∷ c ∷ d ∷ []) len sorted = absurd (omega (arith, len))
five-IsMedian (a ∷ b ∷ c ∷ d ∷ e ∷ f ∷ xs) len sorted = absurd (omega (arith, len))

-- The five samples after the probing.
abbrev pub samples_of : (ℕ → ℕ → ℤ) → ℕ × ℕ → List ℤ
samples_of measure probed = map (λ i. measure (probed.0 + i) probed.1) (upto 0 5)

sorted-IsMedian :
    (samples : List ℤ)
    → length samples ≡ 5
    → IsMedian (get_or (sort_samples 4 1 samples) 2 (pos 0)) samples
sorted-IsMedian samples len =
    let first : IsSortedTo 1 samples =
      λ a b le lt. let same : a ≡ b = omega arith in rw same (omega arith) in
    let s = sort_samples-Sorts 4 1 samples (omega (arith, len)) first in
    let r = sort_samples 4 1 samples in
    let m = get_or r 2 (pos 0) in
    let median =
      five-IsMedian r (s.size ∙ len) (λ a b le lt. s.sorted a b le (omega (arith, len))) in
    (
      omega (arith, median.0, s.same (λ x. if leb_ℤ x m then 1 else 0)),
      omega (arith, median.1, s.same (λ x. if leb_ℤ m x then 1 else 0)),
    )

pub record Benchmarks (measure : ℕ → ℕ → ℤ) (r : Outcome DemoFixedWorkBenchmark) : Type 0 where
  pub probed : ℕ × ℕ  -- the next call, and the iterations
  pub elapsed : ℤ
  pub probes : Probes measure probed
  pub median : IsMedian elapsed (samples_of measure probed)
  pub returns :
      ((leb_ℤ elapsed (pos 0) ≡ false)
        × (r ≡ returned (record { iterations = probed.1; elapsed = elapsed })))
      ⊎ ((leb_ℤ elapsed (pos 0) ≡ true) × (r ≡ failed non_positive_duration))

pub benchmark_demo_fixed_work-Benchmarks :
    (measure : ℕ → ℕ → ℤ) → Benchmarks measure (benchmark_demo_fixed_work measure)
unfolding benchmark_demo_fixed_work
benchmark_demo_fixed_work-Benchmarks measure =
    let probed : ℕ × ℕ = probe measure 15 0 calibration_initial in
    let elapsed : ℤ = get_or (sort_samples 4 1 (samples_of measure probed)) 2 (pos 0) in
    record {
      probed = probed;
      elapsed = elapsed;
      probes = probe-Probes measure 14 0 1024 refl (omega arith);
      median = sorted-IsMedian (samples_of measure probed) refl;
      returns = elim (Bool-cases (leb_ℤ elapsed (pos 0))) [
        | inl e ↦ inr (e, rw e refl)
        | inr e ↦ inl (e, rw e refl)
      ];
    }
