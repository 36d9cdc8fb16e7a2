-- ===== src/Command/FixedWork/Rounding.antt =====
-- The last step of `iterationsFor` rounds a quotient (cmd/tturl/demo_server_quota.go).
use tturl.Common.{
  ℕ, zero, suc, ◌+◌, ◌*◌, ◌≤◌, ◌<◌, ◌≡◌, ◌⊎◌, refl, sym, ap, subst, inl, inr, false, max, arith,
  ◌==◌, Bool-cases,
}
use native.Mathlib.Nat.{add-mul, zero-mul}
use tturl.Command.FixedWork.{
  Outcome, failed, returned, too_many_iterations, max_uint64, rounded, demo_work_round_up,
  demo_work_round_down,
}

-- The greatest number whose work is at most `work`, and the least whose work is at least that.
abbrev pub IsFloor : ℕ → ℕ → ℕ → Type 0
IsFloor q work elapsed = (q * elapsed ≤ work) × (work < q * elapsed + elapsed)

abbrev pub IsCeiling : ℕ → ℕ → ℕ → Type 0
IsCeiling q work elapsed = (work ≤ q * elapsed) × (q * elapsed < work + elapsed)

abbrev pub IsRounded : ℕ → ℕ → ℕ → ℕ → Type 0
IsRounded rounding q work elapsed =
    (rounding ≡ demo_work_round_down → IsFloor q work elapsed)
    × (rounding ≡ demo_work_round_up → IsCeiling q work elapsed)

-- The rounded number, but at least one; an error if it has more than 64 bits.
pub record Calibrates (rounding work elapsed : ℕ) (r : Outcome ℕ) : Type 0 where
  pub exact : ℕ
  pub is_rounded : IsRounded rounding exact work elapsed
  pub returns :
      ((exact ≤ max_uint64) × (r ≡ returned (max 1 exact)))
      ⊎ ((max_uint64 < exact) × (r ≡ failed too_many_iterations))

down-Calibrates :
    (q r work elapsed : ℕ)
    → q * elapsed + r ≡ work
    → r < elapsed
    → q ≤ max_uint64
    → Calibrates demo_work_round_down work elapsed (rounded demo_work_round_down q r)
unfolding rounded
down-Calibrates q r work elapsed e lt small = record {
  exact = q;
  is_rounded = ((λ _. (omega arith, omega arith)), λ h. absurd (omega (arith, h)));
  returns = inl (
    small,
    elim (Bool-cases (q == 0)) [
      | inl none_left ↦ rw none_left (ap returned (ground (arith, none_left)))
      | inr some_left ↦ rw some_left (ap returned (ground (arith, some_left)))
    ],
  );
}

exact-Calibrates :
    (q work elapsed : ℕ)
    → q * elapsed ≡ work
    → 1 ≤ elapsed
    → 1 ≤ q
    → q ≤ max_uint64
    → Calibrates demo_work_round_up work elapsed (rounded demo_work_round_up q 0)
unfolding rounded
exact-Calibrates q work elapsed e some_elapsed some_left small =
    let not_zero : (q == 0) ≡ false = ground arith in
    record {
      exact = q;
      is_rounded = ((λ h. absurd (omega (arith, h))), λ _. (omega arith, omega arith));
      returns = inl (small, rw not_zero (ap returned (omega arith)));
    }

up-Calibrates :
    (q r work elapsed : ℕ)
    → q * elapsed + r ≡ work
    → r < elapsed
    → 1 ≤ r
    → q ≤ max_uint64
    → Calibrates demo_work_round_up work elapsed (rounded demo_work_round_up q r)
unfolding rounded
up-Calibrates q r work elapsed e lt some_left small =
    let not_zero : (r == 0) ≡ false = ground arith in
    let next : (q + 1) * elapsed ≡ q * elapsed + 1 * elapsed = add-mul q 1 elapsed in
    record {
      exact = q + 1;
      is_rounded =
          ((λ h. absurd (omega (arith, h))), λ _. (omega (arith, next), omega (arith, next)));
      returns = elim (Bool-cases (q == max_uint64)) [
        | inl full ↦ inr (ground (arith, full), rw (not_zero, full) refl)
        | inr room ↦ inl (ground (arith, room), rw (not_zero, room) (ap returned (omega arith)))
      ];
    }

some_quotient : (q elapsed : ℕ) → 1 ≤ q * elapsed → 1 ≤ q
some_quotient zero elapsed h = absurd (let none = zero-mul elapsed in omega (arith, none))
some_quotient (suc q) elapsed h = omega arith

pub rounded-Calibrates :
    (rounding q r work elapsed : ℕ)
    → (rounding ≡ demo_work_round_down) ⊎ (rounding ≡ demo_work_round_up)
    → q * elapsed + r ≡ work
    → r < elapsed
    → 1 ≤ work
    → q ≤ max_uint64
    → Calibrates rounding work elapsed (rounded rounding q r)
rounded-Calibrates rounding q r work elapsed (inl down) e lt some_work small =
    subst (λ k. Calibrates k work elapsed (rounded k q r)) (sym down)
      (down-Calibrates q r work elapsed e lt small)
rounded-Calibrates rounding q zero work elapsed (inr up) e lt some_work small =
    subst (λ k. Calibrates k work elapsed (rounded k q 0)) (sym up)
      (exact-Calibrates q work elapsed (omega arith) (omega arith)
        (some_quotient q elapsed (omega arith)) small)
rounded-Calibrates rounding q (suc r) work elapsed (inr up) e lt some_work small =
    subst (λ k. Calibrates k work elapsed (rounded k q (suc r))) (sym up)
      (up-Calibrates q (suc r) work elapsed e lt (omega arith) small)
