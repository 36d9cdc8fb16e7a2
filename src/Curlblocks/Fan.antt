-- ===== src/Curlblocks/Fan.antt =====
-- internal/curlblocks/vary.go: how the values of several bindings combine, and the ceiling on their
-- number. A value is a parameter. An `int` is a signed integer; the products are checked by division
-- before they are made.
pub mod Product
pub mod Combining
pub mod Zipping
mod Examples
use tturl.Common.{
  ℕ, zero, suc, ◌+◌, ◌*◌, ◌/◌, ◌%◌, ◌^◌, ◌≡◌, Bool, true, false, not, ◌||◌, Option, none, some,
  List, [], ◌∷◌, ◌++◌, map, length, get_elem?, upto, min, ltb, leb, ◌==◌, if◌then◌else◌, ◌>>=◌,
}
use tturl.Common.Int.{ℤ, pos, negsuc, pos_part, ltb_ℤ}

-- The loop of `fanProduct` from a running total, for a ceiling that is not below 0.
unfoldable pub fan_product_from : ℕ → List ℤ → ℕ → Option ℕ
fan_product_from total [] max = some total
fan_product_from total (n ∷ counts) max =
    let rest = fan_product_from (total * pos_part n % 2 ^ 64) counts max in
    if ltb_ℤ n (pos 1) then none else if ltb (max / pos_part n) total then none else rest

unfoldable pub fan_product : List ℤ → ℕ → Option ℕ
unfolding fan_product_from
fan_product counts max = fan_product_from 1 counts max

module _ {ℓ} {V : Type ℓ} where
  -- The two inner loops of `cartesianValues` over one binding.
  unfoldable pub extend_one : List V → List V → List (List V)
  extend_one prefix [] = []
  extend_one prefix (v ∷ vals) = (prefix ++ v ∷ []) ∷ extend_one prefix vals

  unfoldable pub extend_all : List (List V) → List V → List (List V)
  unfolding extend_one
  extend_all [] vals = []
  extend_all (prefix ∷ tuples) vals = extend_one prefix vals ++ extend_all tuples vals

  unfoldable pub cartesian_from : List (List V) → List (List V) → List (List V)
  unfolding extend_all
  cartesian_from tuples [] = tuples
  cartesian_from tuples (vals ∷ per_token) = cartesian_from (extend_all tuples vals) per_token

  unfoldable pub cartesian_values : List (List V) → List (List V)
  unfolding cartesian_from
  cartesian_values per_token = cartesian_from ([] ∷ []) per_token

  -- The length of the shortest binding, from the first one's.
  unfoldable pub shortest : ℕ → List (List V) → ℕ
  shortest n [] = n
  shortest n (vals ∷ per_token) =
      if ltb (length vals) n then shortest (length vals) per_token else shortest n per_token

  unfoldable pub is_ragged : ℕ → List (List V) → Bool
  is_ragged n [] = false
  is_ragged n (vals ∷ per_token) = if length vals == n then is_ragged n per_token else true

  -- `perToken[t][k]` for each `t`; an index out of range is the source's panic.
  unfoldable pub column : List (List V) → ℕ → Option (List V)
  column [] k = some []
  column (vals ∷ per_token) k = do v ← get_elem? vals k; vs ← column per_token k; some (v ∷ vs)

  unfoldable pub columns : List (List V) → List ℕ → Option (List (List V))
  unfolding column
  columns per_token [] = some []
  columns per_token (k ∷ ks) = do c ← column per_token k; cs ← columns per_token ks; some (c ∷ cs)

  -- The tuples up to the length of the shortest binding.
  unfoldable pub zip_to : ℕ → List (List V) → Option (List (List V) × Bool)
  unfolding is_ragged columns
  zip_to n per_token =
      columns per_token (upto 0 n) >>= λ tuples. some (tuples, is_ragged n per_token)

  -- Of no binding, `perToken[0]` is out of range.
  unfoldable pub zip_values : List (List V) → Option (List (List V) × Bool)
  unfolding shortest zip_to
  zip_values [] = none
  zip_values (first ∷ others) = zip_to (shortest (length first) (first ∷ others)) (first ∷ others)
