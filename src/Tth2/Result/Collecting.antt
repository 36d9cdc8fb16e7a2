-- ===== src/Tth2/Result/Collecting.antt =====
-- The first loop of `newBatchResult`: which indices it collects.
use tturl.Common.{
  ℕ, zero, suc, ◌+◌, ◌<◌, ◌≤◌, ◌≡◌, inl, inr, true, Option, none, some, List, [], ◌∷◌, length,
  get_elem?, arith, count, if◌then◌else◌, Option-cases, get_elem?-lt,
}
use tturl.Tth2.Result.{Result, arrived, all_arrived, collect}

module _ {R : Type 0} where
  -- 1 at an index whose response arrived, 0 elsewhere.
  abbrev pub presence : Option (Result R) → ℕ
  presence none = 0
  presence (some r) = if arrived r then 1 else 0

  collect-below :
      (i : ℕ) (rs : List (Result R)) {is : List ℕ} (j : ℕ)
      → collect i rs ≡ some is
      → j < i
      → count j is ≡ 0
  unfolding collect
  collect-below i [] j e h = ground arith
  collect-below i (r ∷ rs) {is} j e h = elim (Option-cases (collect (suc i) rs)) [
    | inl fails ↦ ground (arith, fails)
    | inr (rest, ok) ↦ ground (arith, ok, collect-below (suc i) rs {is = rest} j ok)
  ]

  -- The first loop collects exactly the indices of the responses that arrived.
  pub collect-count :
      (i : ℕ) (rs : List (Result R)) {is : List ℕ} (q : ℕ)
      → collect i rs ≡ some is
      → count (i + q) is ≡ presence (get_elem? rs q)
  unfolding collect
  collect-count i [] q e = ground arith
  collect-count i (r ∷ rs) {is} zero e = elim (Option-cases (collect (suc i) rs)) [
    | inl fails ↦ ground (arith, fails)
    | inr (rest, ok) ↦
        let same : i + 0 ≡ i = omega arith in
        rw same (ground (arith, ok, collect-below (suc i) rs {is = rest} i ok))
  ]
  collect-count i (r ∷ rs) {is} (suc q) e = elim (Option-cases (collect (suc i) rs)) [
    | inl fails ↦ ground (arith, fails)
    | inr (rest, ok) ↦
        let same : i + suc q ≡ suc i + q = omega arith in
        rw same (ground (arith, ok, collect-count (suc i) rs {is = rest} q ok))
  ]

  pub collect-length :
      (i : ℕ) (rs : List (Result R)) {is : List ℕ}
      → all_arrived rs ≡ true
      → collect i rs ≡ some is
      → length is ≡ length rs
  unfolding collect all_arrived
  collect-length i [] all e = ground arith
  collect-length i (r ∷ rs) {is} all e = elim (Option-cases (collect (suc i) rs)) [
    | inl fails ↦ ground (arith, fails)
    | inr (rest, ok) ↦ ground (arith, ok, collect-length (suc i) rs {is = rest})
  ]

  pub presence-lt : (rs : List (Result R)) (j : ℕ) → 1 ≤ presence (get_elem? rs j) → j < length rs
  presence-lt rs j h = elim (Option-cases (get_elem? rs j)) [
    | inl e ↦ absurd (ground (arith, e))
    | inr (r, e) ↦ get_elem?-lt rs j e
  ]

  pub presence-le : (o : Option (Result R)) → presence o ≤ 1
  presence-le none = omega arith
  presence-le (some r) = ground arith
