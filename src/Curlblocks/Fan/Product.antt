-- ===== src/Curlblocks/Fan/Product.antt =====
-- `fanProduct` (internal/curlblocks/vary.go) computes the product, and never overflows.
use native.Mathlib.Nat.{
  le-div_iff_mul-le, mul_assoc, mul-le-mul, le-mul_of_pos_right, one-mul, mul-one,
}
use tturl.Common.{
  ℕ, ◌*◌, ◌/◌, ◌%◌, ◌^◌, ◌≤◌, ◌<◌, ◌≡◌, ◌↔◌, sym, ap, ◌∙◌, inl, inr, false, some, List, [], ◌∷◌,
  All, arith, Bool-cases, ltb,
}
use tturl.Common.Int.{ℤ, pos, pos_part, ltb_ℤ, ◌≤ℤ◌}
use tturl.Curlblocks.Fan.{fan_product_from, fan_product}

-- The number of combinations.
abbrev pub product : List ℤ → ℕ
product [] = 1
product (n ∷ counts) = pos_part n * product counts

abbrev pub IsCount : ℤ → Type 0
IsCount n = pos 1 ≤ℤ n

product_pos : (counts : List ℤ) → All IsCount counts → 1 ≤ product counts
product_pos [] h = omega arith
product_pos (n ∷ counts) h =
    let rest = product_pos counts h.1 in
    let here : 1 ≤ pos_part n = omega (arith, h.0) in omega (arith, mul-le-mul here rest)

-- The comparison by division is the one with the product.
over_iff : (max n total : ℕ) → 1 ≤ n → ltb (max / n) total ≡ ltb max (total * n)
over_iff max n total h = elim (Bool-cases (ltb (max / n) total)) [
  | inl over ↦ elim (Bool-cases (ltb max (total * n))) [
    | inl past ↦ over ∙ sym past
    | inr within ↦
        let le : total ≤ max / n =
          (le-div_iff_mul-le (omega (arith, h))).1 (ground (arith, within)) in
        absurd (ground (arith, over, le))
  ]
  | inr within ↦
      let le : total * n ≤ max =
        (le-div_iff_mul-le (omega (arith, h))).0 (ground (arith, within)) in
      within ∙ sym (ground (arith, le))
]

-- A running total within the ceiling is not wrapped.
unwrapped : (a max : ℕ) → a ≤ max → max < 2 ^ 63 → a % 2 ^ 64 ≡ a
unwrapped a max h k = omega arith

module _ (max : ℕ) (small : max < 2 ^ 63) where
  product_from_complete :
      (total : ℕ) (counts : List ℤ)
      → All IsCount counts
      → total * product counts ≤ max
      → fan_product_from total counts max ≡ some (total * product counts)
  unfolding fan_product_from
  product_from_complete total [] h le = ap some (sym (mul-one total))
  product_from_complete total (n ∷ counts) h le =
      let k = pos_part n in
      let count : ltb_ℤ n (pos 1) ≡ false = ground (arith, h.0) in
      let one : 1 ≤ k = omega (arith, h.0) in
      let assoc : total * k * product counts ≡ total * (k * product counts) =
        mul_assoc total k (product counts) in
      let grows : total * k ≤ total * k * product counts =
        le-mul_of_pos_right (total * k) (omega (arith, product_pos counts h.1)) in
      let within : total * k ≤ max = omega (arith, grows, assoc, le) in
      let fits : ltb (max / k) total ≡ false = over_iff max k total one ∙ ground (arith, within) in
      let rest = product_from_complete (total * k) counts h.1 (omega (arith, assoc, le)) in
      rw (count, fits, unwrapped (total * k) max within small) (rest ∙ ap some assoc)

  product_from_sound :
      (total t : ℕ) (counts : List ℤ)
      → total ≤ max
      → fan_product_from total counts max ≡ some t
      → All IsCount counts × (t ≡ total * product counts) × (t ≤ max)
  unfolding fan_product_from
  product_from_sound total t [] le h =
      let e : total ≡ t = cc h in (tt, sym e ∙ sym (mul-one total), omega (arith, e, le))
  product_from_sound total t (n ∷ counts) le h =
      let k = pos_part n in
      elim (Bool-cases (ltb_ℤ n (pos 1))) [
        | inl low ↦ cc (rw low at h)
        | inr count ↦
            let one : 1 ≤ k = ground (arith, count) in
            elim (Bool-cases (ltb (max / k) total)) [
              | inl over ↦ cc (rw (count, over) at h)
              | inr fits ↦
                  let within : total * k ≤ max =
                    (le-div_iff_mul-le (omega (arith, one))).0 (ground (arith, fits)) in
                  let exact = unwrapped (total * k) max within small in
                  let (all, e, bound) =
                    product_from_sound (total * k) t counts within (rw (count, fits, exact) at h) in
                  ((ground (arith, count), all), e ∙ mul_assoc total k (product counts), bound)
            ]
      ]

-- Under a ceiling that an `int` holds, `fanProduct` reports exactly the product of the counts, where
-- each count is at least 1 and the product is within the ceiling, and refuses everything else.
pub fan_product_iff :
    (counts : List ℤ) (max t : ℕ)
    → 1 ≤ max
    → max < 2 ^ 63
    → (fan_product counts max ≡ some t)
      ↔ (All IsCount counts × (t ≡ product counts) × (product counts ≤ max))
unfolding fan_product
fan_product_iff counts max t one small =
    let e : 1 * product counts ≡ product counts = one-mul (product counts) in
    (
      (λ h.
          let (all, same, bound) = product_from_sound max small 1 t counts one h in
          (all, same ∙ e, omega (arith, same, e, bound))),
      λ h.
          product_from_complete max small 1 counts h.0 (omega (arith, e, h.2))
          ∙ ap some (e ∙ sym h.1),
    )
