-- ===== src/Command/Workload/Products.antt =====
-- `checkedProduct` and the planned workload are exact or refused.
use tturl.Common.{
  ℕ, ◌+◌, ◌*◌, ◌/◌, ◌≤◌, ◌<◌, ◌≡◌, ◌↔◌, refl, false, not, ◌&&◌, some, List, [], ◌∷◌, ltb, ◌==◌,
  arith, inl, inr, Bool-cases,
}
use native.Mathlib.Nat.{le-div_iff_mul-le}
use tturl.Command.Workload.{
  max_int, checked_product_from, checked_product, MeasurePlan, PlannedWorkload, warmup_width_of,
}

abbrev pub product_from : ℕ → List ℕ → ℕ
product_from product [] = product
product_from product (value ∷ values) = product_from (product * value) values

-- Every product on the way is an `int`.
abbrev pub Fits : ℕ → List ℕ → Type 0
Fits product [] = Unit
Fits product (value ∷ values) = (product * value ≤ max_int) × Fits (product * value) values

-- The test of the source is that the next product fits.
overflow_iff :
    (product value : ℕ)
    → ((not (value == 0) && ltb (max_int / value) product) ≡ false) ↔ (product * value ≤ max_int)
overflow_iff product value = elim (Bool-cases (value == 0)) [
  | inl nothing ↦
      let e : value ≡ 0 = ground (arith, nothing) in
      let none_over : product * value ≤ max_int = rw e (omega arith) in
      rw nothing ((λ h. none_over), (λ h. refl))
  | inr something ↦
      let positive : 0 < value = ground (arith, something) in
      let law = le-div_iff_mul-le {x = product} {y = max_int} positive in
      rw something (
        (λ h. let small : product ≤ max_int / value = ground (arith, h) in law.0 small),
        (λ h. let small = law.1 h in ground (arith, small)),
      )
]

checked_product_from_iff :
    (product : ℕ) (values : List ℕ) (p : ℕ)
    → (checked_product_from product values ≡ some p)
      ↔ ((p ≡ product_from product values) × Fits product values)
unfolding checked_product_from
checked_product_from_iff product [] p = ((λ h. (cc h, tt)), (λ h. let e = h.0 in cc e))
checked_product_from_iff product (value ∷ values) p =
    let rest = checked_product_from_iff (product * value) values p in
    let over = overflow_iff product value in
    elim (Bool-cases (not (value == 0) && ltb (max_int / value) product)) [
      | inl overflows ↦
          ((λ h. absurd (cc (rw overflows at h))), (λ h. absurd (cc (overflows, over.1 h.1.0))))
      | inr fits ↦
          let small = over.0 fits in
          (
            (λ h. let r = rest.0 (rw fits at h) in (r.0, (small, r.1))),
            (λ h. rw fits (rest.1 (h.0, h.1.1))),
          )
    ]

-- `checkedProduct` returns a number exactly if every product of a prefix of its arguments is an `int`,
-- and the number is then the product of them all.
pub checked_product_iff :
    (values : List ℕ) (p : ℕ)
    → (checked_product values ≡ some p) ↔ ((p ≡ product_from 1 values) × Fits 1 values)
unfolding checked_product
checked_product_iff values p = checked_product_from_iff 1 values p

-- The requests of a plan over a number of connections.
abbrev pub IsWorkload : MeasurePlan → ℕ → PlannedWorkload → Type 0
IsWorkload p conns w =
    (w.measured ≡ p.planned * p.width)
    × (w.initial_warmup ≡ p.warmup * conns * warmup_width_of p)
    × (w.total ≡ w.measured + w.initial_warmup)
    × (w.total ≤ max_int)
