-- ===== src/Curlblocks/Fan/Examples.antt =====
-- The theorems on fans (internal/curlblocks/vary.go) at two bindings.
use tturl.Common.{ℕ, ◌≡◌, ◌↔◌, ◌≤◌, refl, some, true, List, [], ◌∷◌, length, All, arith}
use tturl.Common.Int.{pos}
use tturl.Curlblocks.Fan.{fan_product, cartesian_values, zip_values}
use tturl.Curlblocks.Fan.Product.{product, IsCount, fan_product_iff}
use tturl.Curlblocks.Fan.Combining.{odometer, sizes, cartesian_values-odometer}

abbrev bindings : List (List ℕ)
bindings = (1 ∷ 2 ∷ []) ∷ (7 ∷ 8 ∷ 9 ∷ []) ∷ []

clusterbomb :
    cartesian_values bindings
    ≡ (1 ∷ 7 ∷ []) ∷ (1 ∷ 8 ∷ []) ∷ (1 ∷ 9 ∷ []) ∷ (2 ∷ 7 ∷ []) ∷ (2 ∷ 8 ∷ []) ∷ (2 ∷ 9 ∷ []) ∷ []
unfolding cartesian_values
clusterbomb = refl

pitchfork : zip_values bindings ≡ some ((1 ∷ 7 ∷ []) ∷ (2 ∷ 8 ∷ []) ∷ [], true)
unfolding zip_values
pitchfork = refl

cartesian_values-odometer_example :
    (cartesian_values bindings ≡ odometer bindings)
    × (length (cartesian_values bindings) ≡ product (sizes bindings))
cartesian_values-odometer_example = cartesian_values-odometer bindings

fan_product_iff_example : (fan_product (pos 2 ∷ pos 3 ∷ []) 10 ≡ some 6) ↔ (
    All IsCount (pos 2 ∷ pos 3 ∷ [])
    × (6 ≡ product (pos 2 ∷ pos 3 ∷ []))
    × (product (pos 2 ∷ pos 3 ∷ []) ≤ 10))
fan_product_iff_example = fan_product_iff (pos 2 ∷ pos 3 ∷ []) 10 6 (omega arith) (omega arith)
