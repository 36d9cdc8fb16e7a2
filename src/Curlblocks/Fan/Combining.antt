-- ===== src/Curlblocks/Fan/Combining.antt =====
-- The tuples of a clusterbomb fan (internal/curlblocks/vary.go).
use tturl.Common.{
  ◌*◌, ◌≡◌, refl, sym, ap, ◌∙◌, List, [], ◌∷◌, ◌++◌, map, length, arith, length-append, length-map,
  append_assoc, append-nil, map-append,
}
use tturl.Common.Int.{ℤ, pos}
use tturl.Curlblocks.Fan.{extend_one, extend_all, cartesian_from, cartesian_values}
use tturl.Curlblocks.Fan.Product.{product}

module _ {ℓ} {V : Type ℓ} where
  -- Each value before each of the tuples: the first varies slowest.
  abbrev pub before_each : List V → List (List V) → List (List V)
  before_each [] tails = []
  before_each (v ∷ vals) tails = map (◌∷◌ v) tails ++ before_each vals tails

  -- One value of each binding in every way, as an odometer counts: the last binding varies fastest.
  abbrev pub odometer : List (List V) → List (List V)
  odometer [] = [] ∷ []
  odometer (vals ∷ per_token) = before_each vals (odometer per_token)

  abbrev join_each : List (List V) → List (List V) → List (List V)
  join_each [] tails = []
  join_each (p ∷ tuples) tails = map (◌++◌ p) tails ++ join_each tuples tails

  join_each-append :
      (xs ys tails : List (List V))
      → join_each (xs ++ ys) tails ≡ join_each xs tails ++ join_each ys tails
  join_each-append [] ys tails = refl
  join_each-append (p ∷ xs) ys tails =
      ap (λ l. map (◌++◌ p) tails ++ l) (join_each-append xs ys tails)
      ∙ sym (append_assoc (map (◌++◌ p) tails) (join_each xs tails) (join_each ys tails))

  map-extended :
      (prefix : List V) (v : V) (tails : List (List V))
      → map (◌++◌ (prefix ++ v ∷ [])) tails ≡ map (◌++◌ prefix) (map (◌∷◌ v) tails)
  map-extended prefix v [] = refl
  map-extended prefix v (t ∷ tails) =
      cc (append_assoc prefix (v ∷ []) t, map-extended prefix v tails)

  join-extend_one :
      (prefix vals : List V) (tails : List (List V))
      → join_each (extend_one prefix vals) tails ≡ map (◌++◌ prefix) (before_each vals tails)
  unfolding extend_one
  join-extend_one prefix [] tails = refl
  join-extend_one prefix (v ∷ vals) tails = cc (
    map-extended prefix v tails,
    join-extend_one prefix vals tails,
    map-append (◌++◌ prefix) (map (◌∷◌ v) tails) (before_each vals tails),
  )

  join-extend_all :
      (tuples : List (List V)) (vals : List V) (tails : List (List V))
      → join_each (extend_all tuples vals) tails ≡ join_each tuples (before_each vals tails)
  unfolding extend_all
  join-extend_all [] vals tails = refl
  join-extend_all (p ∷ tuples) vals tails =
      join_each-append (extend_one p vals) (extend_all tuples vals) tails
      ∙ cc (join-extend_one p vals tails, join-extend_all tuples vals tails)

  join_each-single : (tuples : List (List V)) → join_each tuples ([] ∷ []) ≡ tuples
  join_each-single [] = refl
  join_each-single (p ∷ tuples) = cc (append-nil p, join_each-single tuples)

  cartesian_from_lem :
      (tuples per_token : List (List V))
      → cartesian_from tuples per_token ≡ join_each tuples (odometer per_token)
  unfolding cartesian_from
  cartesian_from_lem tuples [] = sym (join_each-single tuples)
  cartesian_from_lem tuples (vals ∷ per_token) =
      cartesian_from_lem (extend_all tuples vals) per_token
      ∙ join-extend_all tuples vals (odometer per_token)

  map-nil : (tails : List (List V)) → map (◌++◌ []) tails ≡ tails
  map-nil [] = refl
  map-nil (t ∷ tails) = ap (◌∷◌ t) (map-nil tails)

  length-before_each :
      (vals : List V) (tails : List (List V))
      → length (before_each vals tails) ≡ length vals * length tails
  length-before_each [] tails = omega arith
  length-before_each (v ∷ vals) tails = omega (
    arith,
    length-append (map (◌∷◌ v) tails) (before_each vals tails),
    length-map (◌∷◌ v) tails,
    length-before_each vals tails,
  )

  -- The sizes of the bindings.
  abbrev pub sizes : List (List V) → List ℤ
  sizes per_token = map (λ vals. pos (length vals)) per_token

  length-odometer :
      (per_token : List (List V)) → length (odometer per_token) ≡ product (sizes per_token)
  length-odometer [] = refl
  length-odometer (vals ∷ per_token) =
      length-before_each vals (odometer per_token)
      ∙ ap (λ n. length vals * n) (length-odometer per_token)

  -- `cartesianValues` lists every combination of one value from each binding in odometer order, and
  -- their number is the product of the sizes.
  pub cartesian_values-odometer :
      (per_token : List (List V))
      → (cartesian_values per_token ≡ odometer per_token)
        × (length (cartesian_values per_token) ≡ product (sizes per_token))
  unfolding cartesian_values
  cartesian_values-odometer per_token =
      let e =
        cartesian_from_lem ([] ∷ []) per_token ∙ append-nil _ ∙ map-nil (odometer per_token) in
      (e, ap length e ∙ length-odometer per_token)
