-- ===== src/Ranking/Sampler/Sums.antt =====
-- What sums say of a list: that items differ, that a test holds of all of them or of one
-- (internal/ranking/baselinereservedoutliersolver.go).
use tturl.Common.{
  ℕ, zero, suc, ◌+◌, ◌≤◌, ◌≡◌, refl, inl, inr, Bool, true, List, [], ◌∷◌, map, take, drop,
  get_elem?, some, upto, arith, All, leb, if◌then◌else◌, Bool-cases, sum_by,
}
use tturl.Common.Int.{ℤ, eqb_ℤ}
use tturl.Ranking.Comparator.{is_candidate}
use tturl.Ranking.Comparator.Arrangements.{AllDiffer, AreDistinct, any_candidate}

module _ {ℓ} {A : Type ℓ} where
  pub sum_by-map {κ} :
      {B : Type κ} (f : B → ℕ) (g : A → B) (xs : List A)
      → sum_by f (map g xs) ≡ sum_by (λ x. f (g x)) xs
  sum_by-map f g [] = refl
  sum_by-map f g (x ∷ xs) = omega (arith, sum_by-map f g xs)

  pub sum_by-take : (f : A → ℕ) (n : ℕ) (xs : List A) → sum_by f (take n xs) ≤ sum_by f xs
  sum_by-take f zero xs = omega arith
  sum_by-take f (suc n) [] = omega arith
  sum_by-take f (suc n) (x ∷ xs) = omega (arith, sum_by-take f n xs)

  pub drop-get :
      (xs : List A) (k : ℕ) {x : A} → get_elem? xs k ≡ some x → drop k xs ≡ x ∷ drop (suc k) xs
  drop-get [] k h = cc
  drop-get (y ∷ xs) zero h = cc h
  drop-get (y ∷ xs) (suc k) h = drop-get xs k h

  -- A sum of 0 has no summand above 0.
  pub sum_by-none : (f : A → ℕ) (xs : List A) → sum_by f xs ≡ 0 → All (λ x. f x ≡ 0) xs
  sum_by-none f [] h = tt
  sum_by-none f (x ∷ xs) h = (omega arith, sum_by-none f xs (omega arith))

  pub sum_by-zero : (f : A → ℕ) (xs : List A) → All (λ x. f x ≡ 0) xs → sum_by f xs ≡ 0
  sum_by-zero f [] h = refl
  sum_by-zero f (x ∷ xs) h = omega (arith, h.0, sum_by-zero f xs h.1)

  -- A test that no item passes counts nothing, whatever its weight.
  sum_by-unhit :
      (b : A → Bool) (v : ℕ) (xs : List A)
      → sum_by (λ x. if b x then 1 else 0) xs ≡ 0
      → sum_by (λ x. if b x then v else 0) xs ≡ 0
  sum_by-unhit b v [] h = refl
  sum_by-unhit b v (x ∷ xs) h = elim (Bool-cases (b x)) [
    | inl e ↦ absurd (ground (arith, e, h))
    | inr e ↦ let rest = sum_by-unhit b v xs (ground (arith, e, h)) in ground (arith, e, rest)
  ]

  -- A test that one item passes counts its weight.
  pub sum_by-once :
      (b : A → Bool) (v : ℕ) (xs : List A)
      → sum_by (λ x. if b x then 1 else 0) xs ≡ 1
      → sum_by (λ x. if b x then v else 0) xs ≡ v
  sum_by-once b v [] h = absurd (omega (arith, h))
  sum_by-once b v (x ∷ xs) h = elim (Bool-cases (b x)) [
    | inl e ↦ let rest = sum_by-unhit b v xs (ground (arith, e, h)) in ground (arith, e, rest)
    | inr e ↦ let rest = sum_by-once b v xs (ground (arith, e, h)) in ground (arith, e, rest)
  ]

pub sum_by-above : (b n : ℕ) → sum_by (λ c. if leb (b + n) c then 1 else 0) (upto b n) ≡ 0
sum_by-above b zero = refl
sum_by-above b (suc n) =
    let rest = sum_by-above (suc b) n in
    let e : suc b + n ≡ b + suc n = omega arith in let rest' = rw e at rest in ground (arith, rest')

-- How often an item stands in a list.
abbrev pub item_count : ℤ → List ℤ → ℕ
item_count x xs = sum_by (λ y. if eqb_ℤ y x then 1 else 0) xs

eqb_same : (x : ℤ) → eqb_ℤ x x ≡ true
eqb_same x = ground arith

differ_of_count : (x : ℤ) (xs : List ℤ) → item_count x xs ≡ 0 → AllDiffer x xs
differ_of_count x [] h = tt
differ_of_count x (y ∷ xs) h = elim (Bool-cases (eqb_ℤ y x)) [
  | inl e ↦ absurd (ground (arith, e, h))
  | inr e ↦ (
    (λ same. let again : eqb_ℤ y x ≡ true = rw same (eqb_same y) in cc (again, e)),
    differ_of_count x xs (ground (arith, e, h)),
  )
]

-- Items that stand at most once differ.
pub AreDistinct-of_count : (xs : List ℤ) → ((x : ℤ) → item_count x xs ≤ 1) → AreDistinct xs
AreDistinct-of_count [] h = tt
AreDistinct-of_count (x ∷ xs) h =
    let first : (if eqb_ℤ x x then 1 else 0) + item_count x xs ≤ 1 = h x in
    let first' = rw (eqb_same x) at first in
    (
      differ_of_count x xs (omega (arith, first')),
      AreDistinct-of_count xs (λ y.
          let all : (if eqb_ℤ x y then 1 else 0) + item_count y xs ≤ 1 = h y in omega (arith, all)),
    )

abbrev pub candidate_count : List ℤ → ℕ
candidate_count xs = sum_by (λ y. if is_candidate y then 1 else 0) xs

pub any_candidate-of_count : (xs : List ℤ) → 1 ≤ candidate_count xs → any_candidate xs ≡ true
any_candidate-of_count [] h = absurd (omega (arith, h))
any_candidate-of_count (x ∷ xs) h = elim (Bool-cases (is_candidate x)) [
  | inl e ↦ rw e refl
  | inr e ↦ rw e (any_candidate-of_count xs (ground (arith, e, h)))
]
