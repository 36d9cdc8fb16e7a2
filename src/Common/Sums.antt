-- ===== src/Common/Sums.antt =====
-- Sums over lists, and what a write to a list does to them.
use Prim.Native.Nat.{ℕ, zero, suc, ◌+◌, ◌≤◌, ◌<◌}
use mathlib.Core.Path.{◌≡◌, refl}
use mathlib.Core.List.{List, [], ◌∷◌, ◌++◌}
use native.Mathlib.Omega.{arith}
use tturl.Common.Tests.{◌==◌, if◌then◌else◌}
use tturl.Common.Lists.{length, set, get_or, replicate, upto, All}

module _ {ℓ} {A : Type ℓ} where
  abbrev pub sum_by : (A → ℕ) → List A → ℕ
  sum_by f [] = 0
  sum_by f (x ∷ xs) = f x + sum_by f xs

  pub get_or-set :
      (xs : List A) (i k : ℕ) (v d : A)
      → i < length xs
      → get_or (set xs i v) k d ≡ (if i == k then v else get_or xs k d)
  get_or-set [] i k v d h = absurd (omega arith)
  get_or-set (x ∷ xs) zero zero v d h = refl
  get_or-set (x ∷ xs) zero (suc k) v d h = ground arith
  get_or-set (x ∷ xs) (suc i) zero v d h = ground arith
  get_or-set (x ∷ xs) (suc i) (suc k) v d h =
      let rest = get_or-set xs i k v d (omega arith) in ground (arith, rest)

  -- A write trades one summand for another.
  pub sum_by-set :
      (f : A → ℕ) (xs : List A) (i : ℕ) (v d : A)
      → i < length xs
      → sum_by f (set xs i v) + f (get_or xs i d) ≡ sum_by f xs + f v
  sum_by-set f [] i v d h = absurd (omega arith)
  sum_by-set f (x ∷ xs) zero v d h = omega arith
  sum_by-set f (x ∷ xs) (suc i) v d h = omega (arith, sum_by-set f xs i v d (omega arith))

  pub sum_by-append :
      (f : A → ℕ) (front back : List A) → sum_by f (front ++ back) ≡ sum_by f front + sum_by f back
  sum_by-append f [] back = omega arith
  sum_by-append f (x ∷ front) back = omega (arith, sum_by-append f front back)

  pub sum_by-add :
      (f g : A → ℕ) (xs : List A) → sum_by (λ x. f x + g x) xs ≡ sum_by f xs + sum_by g xs
  sum_by-add f g [] = omega arith
  sum_by-add f g (x ∷ xs) = omega (arith, sum_by-add f g xs)

  pub sum_by_congr : (f g : A → ℕ) (xs : List A) → ((x : A) → f x ≡ g x) → sum_by f xs ≡ sum_by g xs
  sum_by_congr f g [] h = refl
  sum_by_congr f g (x ∷ xs) h = omega (arith, h x, sum_by_congr f g xs h)

  pub sum_by-le : (f g : A → ℕ) (xs : List A) → ((x : A) → f x ≤ g x) → sum_by f xs ≤ sum_by g xs
  sum_by-le f g [] h = omega arith
  sum_by-le f g (x ∷ xs) h = omega (arith, h x, sum_by-le f g xs h)

  pub sum_by-replicate : (f : A → ℕ) (n : ℕ) (a : A) → f a ≡ 0 → sum_by f (replicate n a) ≡ 0
  sum_by-replicate f zero a h = refl
  sum_by-replicate f (suc n) a h = omega (arith, h, sum_by-replicate f n a h)

  pub sum_by-one : (xs : List A) → sum_by (λ _. 1) xs ≡ length xs
  sum_by-one [] = refl
  sum_by-one (x ∷ xs) = omega (arith, sum_by-one xs)

module _ {ℓ} {A : Type ℓ} where
  -- Summands that are at least 1 and sum to at most their number are all 1.
  pub sum_by-ge : (f : A → ℕ) (xs : List A) → All (λ x. 1 ≤ f x) xs → length xs ≤ sum_by f xs
  sum_by-ge f [] h = omega arith
  sum_by-ge f (x ∷ xs) h = omega (arith, sum_by-ge f xs h.1)

  pub sum_by-tight :
      (f : A → ℕ) (xs : List A)
      → All (λ x. 1 ≤ f x) xs
      → sum_by f xs ≤ length xs
      → All (λ x. f x ≡ 1) xs
  sum_by-tight f [] h le = tt
  sum_by-tight f (x ∷ xs) h le =
      let rest = sum_by-ge f xs h.1 in
      (omega (arith, rest, h.0), sum_by-tight f xs h.1 (omega (arith, h.0)))

  -- Summands that are at most 1 and sum to at least their number are all 1.
  pub sum_by-max : (f : A → ℕ) (xs : List A) → ((x : A) → f x ≤ 1) → sum_by f xs ≤ length xs
  sum_by-max f [] h = omega arith
  sum_by-max f (x ∷ xs) h = omega (arith, sum_by-max f xs h, h x)

  pub sum_by-full :
      (f : A → ℕ) (xs : List A)
      → ((x : A) → f x ≤ 1)
      → length xs ≤ sum_by f xs
      → All (λ x. f x ≡ 1) xs
  sum_by-full f [] h le = tt
  sum_by-full f (x ∷ xs) h le =
      let rest = sum_by-max f xs h in
      (omega (arith, rest, h x), sum_by-full f xs h (omega (arith, h x)))

-- A number of the range is hit once, any other never.
pub sum_by-hit_below : (b n q : ℕ) → q < b → sum_by (λ i. if q == i then 1 else 0) (upto b n) ≡ 0
sum_by-hit_below b zero q h = refl
sum_by-hit_below b (suc n) q h =
    let rest = sum_by-hit_below (suc b) n q (omega arith) in ground (arith, rest)

pub sum_by-hit : (b n q : ℕ) → sum_by (λ i. if q == i then 1 else 0) (upto b n) ≤ 1
sum_by-hit b zero q = omega arith
sum_by-hit b (suc n) q =
    let rest = sum_by-hit (suc b) n q in
    let above = sum_by-hit_below (suc b) n q in ground (arith, rest, above)

pub sum_by-hit_lt : (b n q : ℕ) → 1 ≤ sum_by (λ i. if q == i then 1 else 0) (upto b n) → q < b + n
sum_by-hit_lt b zero q h = absurd (omega arith)
sum_by-hit_lt b (suc n) q h = let rest = sum_by-hit_lt (suc b) n q in ground (arith, rest)
