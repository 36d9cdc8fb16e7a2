-- ===== src/Ranking/Sampler/Exchanges.antt =====
-- Exchanging items keeps a list's items (internal/ranking/baselinereservedoutliersolver.go). Lists
-- with the same items have the same sums, whatever is summed.
use tturl.Common.{
  ℕ, zero, suc, ◌+◌, ◌%◌, ◌≤◌, ◌<◌, ◌≡◌, refl, sym, ap, ◌∙◌, some, List, length, get_elem?, get_or,
  set, arith, sum_by, sum_by-set, sum_by-one, get_elem?-some, get_elem?-set_self, get_elem?-set_ne,
  length-set, get_or-of_get,
}
use native.Mathlib.Decide.{ℕ_discrete}
use tturl.Ranking.Sampler.{exchange, position, later_draws}

module _ {ℓ} {A : Type ℓ} where
  abbrev pub SameSums : List A → List A → Type ℓ
  SameSums xs ys = (f : A → ℕ) → sum_by f xs ≡ sum_by f ys

  pub SameSums-length : (xs ys : List A) → SameSums xs ys → length xs ≡ length ys
  SameSums-length xs ys same = sym (sum_by-one xs) ∙ (same (λ _. 1) ∙ sum_by-one ys)

  pub record Exchanged (xs : List A) (i j : ℕ) : Type ℓ where
    pub result : List A
    pub returns : exchange xs i j ≡ some result
    pub same : SameSums result xs
    pub below : (k : ℕ) → k < i → k < j → get_elem? result k ≡ get_elem? xs k

  -- After `xs[i]` is overwritten with `xs[j]`, position `j` still holds it.
  still :
      (xs : List A) (i j : ℕ) (y : A)
      → i < length xs
      → get_elem? xs j ≡ some y
      → get_elem? (set xs i y) j ≡ some y
  still xs i j y lt at_j = elim (ℕ_discrete i j) [
    | yes e ↦ rw (← e) (get_elem?-set_self xs i y lt)
    | no e ↦ get_elem?-set_ne xs i j y e ∙ at_j
  ]

  -- An exchange of two positions of the list succeeds.
  pub exchange-Exchanged :
      (xs : List A) (i j : ℕ) → i < length xs → j < length xs → Exchanged xs i j
  unfolding exchange
  exchange-Exchanged xs i j hi hj =
      let (x, at_i) = get_elem?-some xs i hi in
      let (y, at_j) = get_elem?-some xs j hj in
      record {
        result = set (set xs i y) j x;
        returns = rw (at_i, at_j) refl;
        same = λ f.
            let first = sum_by-set f xs i y y hi in
            let lt : j < length (set xs i y) = omega (arith, length-set xs i y) in
            let second = sum_by-set f (set xs i y) j x x lt in
            let got = ap f (get_or-of_get xs i y at_i) in
            let got' = ap f (get_or-of_get (set xs i y) j x (still xs i j y hi at_j)) in
            omega (arith, first, second, got, got');
        below = λ k lt lt'.
            get_elem?-set_ne (set xs i y) j k x (λ e. omega (arith, e))
            ∙ get_elem?-set_ne xs i k y (λ e. omega (arith, e));
      }

  pub record Positioned (n : ℕ) (draws : List ℕ) (xs : List A) : Type ℓ where
    pub result : List A
    pub returns : position n draws xs ≡ some result
    pub same : SameSums result xs

  -- Whatever the draws, the items are put at positions of the comparison.
  pub position-Positioned :
      (n : ℕ) (draws : List ℕ) (xs : List A) → n ≤ length xs → Positioned n draws xs
  unfolding position
  position-Positioned zero draws xs h = record { result = xs; returns = refl; same = λ f. refl }
  position-Positioned (suc zero) draws xs h = record {
    result = xs;
    returns = refl;
    same = λ f. refl;
  }
  position-Positioned (suc (suc i)) draws xs h =
      let j = get_or draws 0 0 % (suc i + 1) in
      let e = exchange-Exchanged xs (suc i) j (omega arith) (omega arith) in
      let p =
        position-Positioned (suc i) (later_draws draws) e.result
          (omega (arith, SameSums-length e.result xs e.same)) in
      record {
        result = p.result;
        returns = rw e.returns p.returns;
        same = λ f. p.same f ∙ e.same f;
      }
