-- ===== src/Common/Counting.antt =====
-- How often a number stands in a list, and lists that hold the same numbers as often.
use Prim.Native.Nat.{ℕ, zero, suc, ◌+◌, ◌≤◌, ◌<◌}
use mathlib.Core.Path.{◌≡◌, refl}
use mathlib.Core.Logic.{inl, inr}
use mathlib.Core.Option.{some}
use mathlib.Core.List.{List, [], ◌∷◌, ◌++◌}
use native.Mathlib.Omega.{arith}
use tturl.Common.Tests.{◌==◌, if◌then◌else◌, Bool-cases}
use tturl.Common.Lists.{length, get_elem?, set, get_or, upto}

abbrev pub count : ℕ → List ℕ → ℕ
count a [] = 0
count a (x ∷ xs) = (if x == a then 1 else 0) + count a xs

-- The same numbers, as often: equality of lists as multisets.
abbrev pub SameItems : List ℕ → List ℕ → Type 0
SameItems xs ys = (a : ℕ) → count a xs ≡ count a ys

-- Joined lists hold each number as often as the two together.
pub count-append :
    (v : ℕ) (front back : List ℕ) → count v (front ++ back) ≡ count v front + count v back
count-append v [] back = omega arith
count-append v (f ∷ front) back = let rest = count-append v front back in omega (arith, rest)

-- A write trades one occurrence for another.
pub count-set :
    (a : ℕ) (xs : List ℕ) (i v : ℕ)
    → i < length xs
    → count a (set xs i v) + (if get_or xs i 0 == a then 1 else 0)
      ≡ count a xs + (if v == a then 1 else 0)
count-set a [] i v h = absurd (omega arith)
count-set a (x ∷ xs) zero v h = omega arith
count-set a (x ∷ xs) (suc i) v h = omega (arith, count-set a xs i v (omega arith))

pub count-upto_below : (a b n : ℕ) → a < b → count a (upto b n) ≡ 0
count-upto_below a b zero h = refl
count-upto_below a b (suc n) h = ground (arith, count-upto_below a (suc b) n)

-- `[b, …, b + n - 1]` holds each number of the range once, and no other.
pub count-upto : (a b n : ℕ) → b ≤ a → a < b + n → count a (upto b n) ≡ 1
count-upto a b zero h k = absurd (omega arith)
count-upto a b (suc n) h k = ground (arith, count-upto a (suc b) n, count-upto_below a (suc b) n)

pub count-get : (a : ℕ) (xs : List ℕ) (i : ℕ) → get_elem? xs i ≡ some a → 1 ≤ count a xs
count-get a [] i h = cc
count-get a (x ∷ xs) zero h = ground arith
count-get a (x ∷ xs) (suc i) h = omega (arith, count-get a xs i h)

-- No number from `b + n` on stands in the range.
pub count-upto_above : (a b n : ℕ) → b + n ≤ a → count a (upto b n) ≡ 0
count-upto_above a b zero h = refl
count-upto_above a b (suc n) h = ground (arith, count-upto_above a (suc b) n)

-- A number that is counted has a position.
pub get_elem?-of_count :
    (a : ℕ) (xs : List ℕ) → 1 ≤ count a xs → (i : ℕ) × (get_elem? xs i ≡ some a)
get_elem?-of_count a [] h = absurd (omega arith)
get_elem?-of_count a (x ∷ xs) h = elim (Bool-cases (x == a)) [
  | inl e ↦ (0, ground arith)
  | inr e ↦ let (i, at_i) = get_elem?-of_count a xs (ground arith) in (suc i, at_i)
]
