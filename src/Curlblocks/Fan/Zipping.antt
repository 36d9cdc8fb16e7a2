-- ===== src/Curlblocks/Fan/Zipping.antt =====
-- The tuples of a pitchfork fan (internal/curlblocks/vary.go).
use tturl.Common.{
  ℕ, zero, suc, ◌+◌, ◌≤◌, ◌≡◌, ◌↔◌, ◌⊎◌, refl, sym, ap, subst, inl, inr, Bool, false, some, List,
  [], ◌∷◌, length, get_elem?, upto, All, All-map, arith, Bool-cases, ltb, ◌==◌, ==_iff,
  get_elem?-some,
}
use tturl.Curlblocks.Fan.{shortest, is_ragged, column, columns, zip_to, zip_values}

module _ {V : Type 0} where
  -- A tuple takes value `k` of each binding.
  abbrev pub IsColumn : ℕ → List (List V) → List V → Type 0
  IsColumn k [] [] = Unit
  IsColumn k (vals ∷ per_token) (v ∷ tuple) =
      (get_elem? vals k ≡ some v) × IsColumn k per_token tuple
  IsColumn k _ _ = ⊥

  abbrev pub HasLength : ℕ → List V → Type 0
  HasLength n vals = length vals ≡ n

  abbrev pub AtLeast : ℕ → List V → Type 0
  AtLeast n vals = n ≤ length vals

  -- Some binding has this length.
  abbrev pub SomeLength : ℕ → List (List V) → Type 0
  SomeLength n [] = ⊥
  SomeLength n (vals ∷ per_token) = (length vals ≡ n) ⊎ SomeLength n per_token

  -- `m` is the least of `n` and the sizes of the bindings.
  abbrev IsShortest : ℕ → List (List V) → ℕ → Type 0
  IsShortest n per_token m =
      (m ≤ n) × All (AtLeast m) per_token × ((m ≡ n) ⊎ SomeLength m per_token)

  shortest_lem : (n : ℕ) (per_token : List (List V)) → IsShortest n per_token (shortest n per_token)
  unfolding shortest
  shortest_lem n [] = (omega arith, tt, inl refl)
  shortest_lem n (vals ∷ per_token) = elim (Bool-cases (ltb (length vals) n)) [
    | inl less ↦
        let (le, all, which) = shortest_lem (length vals) per_token in
        let e : shortest n (vals ∷ per_token) ≡ shortest (length vals) per_token = rw less refl in
        let found : (shortest (length vals) per_token ≡ n)
            ⊎ SomeLength (shortest (length vals) per_token) (vals ∷ per_token) =
          elim which [ inl e ↦ inr (inl (sym e)) | inr s ↦ inr (inr s) ] in
        subst (IsShortest n (vals ∷ per_token)) (sym e) (ground (arith, le, less), (le, all), found)
    | inr more ↦
        let (le, all, which) = shortest_lem n per_token in
        let e : shortest n (vals ∷ per_token) ≡ shortest n per_token = rw more refl in
        let found : (shortest n per_token ≡ n)
            ⊎ SomeLength (shortest n per_token) (vals ∷ per_token) =
          elim which [ inl e ↦ inl e | inr s ↦ inr (inr s) ] in
        subst (IsShortest n (vals ∷ per_token)) (sym e) (le, (ground (arith, le, more), all), found)
  ]

  is_ragged_iff :
      (n : ℕ) (per_token : List (List V))
      → (is_ragged n per_token ≡ false) ↔ All (HasLength n) per_token
  unfolding is_ragged
  is_ragged_iff n [] = ((λ h. tt), λ h. refl)
  is_ragged_iff n (vals ∷ per_token) =
      let rest = is_ragged_iff n per_token in
      elim (Bool-cases (length vals == n)) [
        | inl same ↦
            ((λ h. ((==_iff _ _).0 same, rest.0 (rw same at h))), λ h. rw same (rest.1 h.1))
        | inr differ ↦
            ((λ h. cc (rw differ at h)), λ h. cc (differ, (==_iff (length vals) n).1 h.0))
      ]

  column_lem :
      (per_token : List (List V)) (k : ℕ)
      → All (AtLeast (suc k)) per_token
      → (tuple : List V) × (column per_token k ≡ some tuple) × IsColumn k per_token tuple
  unfolding column
  column_lem [] k h = ([], refl, tt)
  column_lem (vals ∷ per_token) k h =
      let (v, at_k) = get_elem?-some vals k h.0 in
      let (tuple, e, is_column) = column_lem per_token k h.1 in
      (v ∷ tuple, rw (at_k, e) refl, (at_k, is_column))

  columns_lem :
      (per_token : List (List V)) (a n : ℕ)
      → All (AtLeast (a + n)) per_token
      → (tuples : List (List V)) × (columns per_token (upto a n) ≡ some tuples)
        × (length tuples ≡ n)
        × ((k : ℕ) (tuple : List V)
            → get_elem? tuples k ≡ some tuple
            → IsColumn (a + k) per_token tuple)
  unfolding columns
  columns_lem per_token a zero h = ([], refl, refl, λ k t e. cc)
  columns_lem per_token a (suc n) h =
      let here : All (AtLeast (suc a)) per_token =
        All-map _ _ per_token (λ vals le. omega (arith, le)) h in
      let shift : suc a + n ≡ a + suc n = omega arith in
      let later : All (AtLeast (suc a + n)) per_token =
        All-map _ _ per_token (λ vals le. omega (arith, le)) h in
      let (tuple, e, is_column) = column_lem per_token a here in
      let (tuples, es, size, are_columns) = columns_lem per_token (suc a) n later in
      (
        tuple ∷ tuples,
        rw (e, es) refl,
        ap suc size,
        elim [
          | zero ↦ λ t at_k.
              let same : tuple ≡ t = cc at_k in
              let start : a + 0 ≡ a = omega arith in rw (← same, start) is_column
          | suc k ↦ λ t at_k.
              let next : suc a + k ≡ a + suc k = omega arith in rw (← next) (are_columns k t at_k)
        ],
      )

  -- Tuples that take the bindings side by side, as far as the shortest goes.
  pub record Zips (per_token tuples : List (List V)) (ragged : Bool) : Type 0 where
    pub as_shortest : All (AtLeast (length tuples)) per_token
    pub reached : SomeLength (length tuples) per_token
    pub are_columns :
        (k : ℕ) (tuple : List V) → get_elem? tuples k ≡ some tuple → IsColumn k per_token tuple
    pub even : (ragged ≡ false) ↔ All (HasLength (length tuples)) per_token

  zipped_at :
      (first : List V) (others : List (List V)) (n : ℕ)
      → IsShortest (length first) (first ∷ others) n
      → (tuples : List (List V)) × (ragged : Bool) × (zip_to n (first ∷ others)
          ≡ some (tuples, ragged))
        × Zips (first ∷ others) tuples ragged
  unfolding zip_to
  zipped_at first others n (le, all, which) =
      let per_token = first ∷ others in
      let enough : All (AtLeast (0 + n)) per_token =
        All-map (AtLeast n) (AtLeast (0 + n)) per_token (λ vals le. omega (arith, le)) all in
      let (tuples, e, size, are_columns) = columns_lem per_token 0 n enough in
      let reached : SomeLength n per_token = elim which [ inl e ↦ inl (sym e) | inr s ↦ s ] in
      (
        tuples,
        is_ragged n per_token,
        rw e refl,
        record {
          as_shortest = subst (λ m. All (AtLeast m) per_token) (sym size) all;
          reached = subst (λ m. SomeLength m per_token) (sym size) reached;
          are_columns = λ k tuple at_k.
              let zero_plus : 0 + k ≡ k = omega arith in rw zero_plus at (are_columns k tuple at_k);
          even =
              subst (λ m. (is_ragged n per_token ≡ false) ↔ All (HasLength m) per_token) (sym size)
                (is_ragged_iff n per_token);
        },
      )

  -- For at least one binding, `zipValues` returns as many tuples as the shortest binding has values;
  -- tuple `k` takes value `k` of each binding, and the fan is ragged exactly if the sizes differ.
  pub zip_values-Zips :
      (first : List V) (others : List (List V))
      → (tuples : List (List V)) × (ragged : Bool) × (zip_values (first ∷ others)
          ≡ some (tuples, ragged))
        × Zips (first ∷ others) tuples ragged
  unfolding zip_values
  zip_values-Zips first others =
      let per_token = first ∷ others in
      zipped_at first others (shortest (length first) per_token)
        (shortest_lem (length first) per_token)
