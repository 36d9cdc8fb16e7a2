-- ===== src/Tth2/Records/Search.antt =====
-- The binary search of the planner.
use tturl.Common.{
  ℕ, zero, suc, ◌+◌, ◌-◌, ◌/◌, ◌≤◌, ◌<◌, ◌≡◌, ◌⊎◌, refl, Bool, true, false, Bool-cases, inl, inr,
  arith, ltb,
}
use tturl.Tth2.Records.{search_progress}

-- What the loop keeps: `low` is feasible or 0, and what follows `high` is not, up to the end.
abbrev pub IsLow : (ℕ → Bool) → ℕ → Type 0
IsLow feasible low = (low ≡ 0) ⊎ (feasible low ≡ true)

abbrev pub IsHigh : (ℕ → Bool) → ℕ → ℕ → Type 0
IsHigh feasible end high = (high ≡ end) ⊎ (feasible (suc high) ≡ false)

search_progress-loop :
    (feasible : ℕ → Bool) (fuel low high end : ℕ)
    → high - low ≤ fuel
    → low ≤ high
    → IsLow feasible low
    → IsHigh feasible end high
    → let r = search_progress feasible fuel low high in IsLow feasible r × IsHigh feasible end r
unfolding search_progress
search_progress-loop feasible zero low high end enough order bottom top =
    let e : high ≡ low = omega arith in (bottom, rw e at top)
search_progress-loop feasible (suc fuel) low high end enough order bottom top =
    let mid = low + (high - low + 1) / 2 in
    elim (Bool-cases (ltb low high)) [
      | inr met ↦ let e : high ≡ low = ground (arith, met) in rw met (bottom, rw e at top)
      | inl apart ↦
          let inside : (low < mid) × (mid ≤ high) = ground (arith, apart) in
          elim (Bool-cases (feasible mid)) [
            | inl can ↦
                rw (apart, can)
                  (search_progress-loop feasible fuel mid high end (omega arith) (omega arith)
                    (inr can) top)
            | inr cannot ↦
                let e : suc (mid - 1) ≡ mid = omega arith in
                rw (apart, cannot)
                  (search_progress-loop feasible fuel low (mid - 1) end (omega arith) (omega arith)
                    bottom (inr (rw e cannot)))
          ]
    ]

-- The search of an interval from 0 has fuel enough: it ends at a progress that is feasible or 0, and
-- that is the end of the interval or has an infeasible successor.
pub search_progress-ends :
    (feasible : ℕ → Bool) (end : ℕ)
    → let r = search_progress feasible end 0 end in IsLow feasible r × IsHigh feasible end r
search_progress-ends feasible end =
    search_progress-loop feasible end 0 end end (omega arith) (omega arith) (inl refl) (inl refl)
