-- ===== src/Ranking/Sampler/Choosing.antt =====
-- Choosing the candidates of a comparison only reorders the active ones
-- (internal/ranking/baselinereservedoutliersolver.go).
use tturl.Common.{
  ℕ, zero, suc, ◌+◌, ◌-◌, ◌≤◌, ◌<◌, ◌≡◌, refl, sym, ◌∙◌, inl, inr, Bool, true, false, ◌&&◌, Option,
  none, some, List, [], ◌∷◌, length, drop, arith, All, ltb, leb, ◌==◌, if◌then◌else◌, Bool-cases,
  get_elem?-some, length-drop,
}
use tturl.Ranking.Sampler.{
  exchange, find_from, Covered, cover, cover_one, best_from, fill_positions, pin, pin_at,
  leader_pos,
}
use tturl.Ranking.Sampler.Exchanges.{SameSums, SameSums-length, exchange-Exchanged}

find_from-bound :
    (c : ℕ) (cs : List ℕ) (i k : ℕ) → find_from c cs i ≡ some k → (i ≤ k) × (k < i + length cs)
unfolding find_from
find_from-bound c [] i k h = cc
find_from-bound c (x ∷ cs) i k h = elim (Bool-cases (x == c)) [
  | inl e ↦ let at_i : some i ≡ some k = rw e at h in ground (arith, at_i)
  | inr e ↦ let rest = find_from-bound c cs (suc i) k (rw e at h) in ground (arith, rest)
]

-- A step that returns a list with the same items.
pub record Keeps (active : List ℕ) (r : Option (List ℕ)) : Type 0 where
  pub result : List ℕ
  pub returns : r ≡ some result
  pub same : SameSums result active

exchange-Keeps :
    (active : List ℕ) (i j : ℕ)
    → i < length active
    → j < length active
    → Keeps active (exchange active i j)
exchange-Keeps active i j hi hj =
    let e = exchange-Exchanged active i j hi hj in
    record { result = e.result; returns = e.returns; same = e.same }

-- What the loop of coverage leaves.
pub record Covers (positions : ℕ) (flags : List Bool) (active : List ℕ) (r : Option Covered)
    : Type 0 where
  pub result : Covered
  pub returns : r ≡ some result
  pub same : SameSums result.order active
  pub at_most : result.at ≤ positions
  pub rest : All (λ c. c < length flags) result.rest

record CoversOne (active : List ℕ) (covered : ℕ) (r : Option (List ℕ × ℕ)) : Type 0 where
  result : List ℕ
  at : ℕ
  returns : r ≡ some (result, at)
  same : SameSums result active
  close : at ≤ suc covered

cover_one-CoversOne :
    (active : List ℕ) (covered : ℕ) (out : Bool) (found : Option ℕ)
    → covered < length active
    → ((k : ℕ) → found ≡ some k → k < length active)
    → CoversOne active covered (cover_one active covered out found)
cover_one-CoversOne active covered true found lt within = record {
  result = active;
  at = covered;
  returns = refl;
  same = λ f. refl;
  close = omega arith;
}
cover_one-CoversOne active covered false none lt within = record {
  result = active;
  at = covered;
  returns = refl;
  same = λ f. refl;
  close = omega arith;
}
cover_one-CoversOne active covered false (some i) lt within =
    let e = exchange-Exchanged active covered i lt (within i refl) in
    record {
      result = e.result;
      at = suc covered;
      returns = rw e.returns refl;
      same = e.same;
      close = omega arith;
    }

pub cover-Covers :
    (positions : ℕ) (flags : List Bool) (coverage active : List ℕ) (covered : ℕ)
    → positions ≤ length active
    → covered ≤ positions
    → All (λ c. c < length flags) coverage
    → Covers positions flags active (cover positions flags coverage active covered)
unfolding cover
cover-Covers positions flags [] active covered room le within = record {
  result = record { order = active; at = covered; rest = [] };
  returns = refl;
  same = λ f. refl;
  at_most = le;
  rest = tt;
}
cover-Covers positions flags (c ∷ cs) active covered room le within =
    elim (Bool-cases (ltb covered positions)) [
      | inr e ↦ record {
        result = record { order = active; at = covered; rest = c ∷ cs };
        returns = rw e refl;
        same = λ f. refl;
        at_most = le;
        rest = within;
      }
      | inl e ↦
          let (out, flag) = get_elem?-some flags c within.0 in
          let lt : covered < length active = ground (arith, e) in
          let one =
            cover_one-CoversOne active covered out (find_from c (drop covered active) covered) lt
              (λ k at_k.
                let b = find_from-bound c (drop covered active) covered k at_k in
                omega (arith, b, length-drop covered active)) in
          let rest =
            cover-Covers positions flags cs one.result one.at
              (omega (arith, SameSums-length one.result active one.same))
              (ground (arith, e, one.close)) within.1 in
          record {
            result = rest.result;
            returns = rw (e, flag, one.returns) rest.returns;
            same = λ f. rest.same f ∙ one.same f;
            at_most = rest.at_most;
            rest = rest.rest;
          }
    ]

module _ {F : Type 0} (above : F → F → Bool) where
  best_from-bound :
      (buf : List F) (more j top : ℕ)
      → j + more ≤ length buf
      → top < length buf
      → (t : ℕ) × (best_from above buf more j top ≡ some t) × (t < length buf)
  unfolding best_from
  best_from-bound buf zero j top room lt = (top, refl, lt)
  best_from-bound buf (suc more) j top room lt =
      let (a, at_j) = get_elem?-some buf j (omega arith) in
      let (b, at_top) = get_elem?-some buf top lt in
      let rest =
        best_from-bound buf more (suc j) (if above a b then j else top) (omega arith)
          (elim (Bool-cases (above a b)) [ inl e ↦ rw e (omega arith) | inr e ↦ rw e lt ]) in
      (rest.0, rw (at_j, at_top) rest.1, rest.2)

  pub fill_positions-Keeps :
      (more at : ℕ) (active : List ℕ) (buf : List F)
      → at + more ≤ length active
      → length buf ≡ length active
      → Keeps active (fill_positions above more at active buf)
  unfolding fill_positions
  fill_positions-Keeps zero at active buf room len = record {
    result = active;
    returns = refl;
    same = λ f. refl;
  }
  fill_positions-Keeps (suc more) at active buf room len =
      let best =
        best_from-bound buf (length active - suc at) (suc at) at (omega (arith, len))
          (omega (arith, len)) in
      let e = exchange-Exchanged active at best.0 (omega arith) (omega (arith, len, best.2)) in
      let e' = exchange-Exchanged buf at best.0 (omega (arith, len)) best.2 in
      let rest =
        fill_positions-Keeps more (suc at) e.result e'.result
          (omega (arith, SameSums-length e.result active e.same))
          (SameSums-length e'.result buf e'.same
            ∙ (len ∙ sym (SameSums-length e.result active e.same))) in
      record {
        result = rest.result;
        returns = rw (best.1, e.returns, e'.returns) rest.returns;
        same = λ f. rest.same f ∙ e.same f;
      }

leader_pos-bound :
    (leader : Option ℕ) (active : List ℕ) (k : ℕ)
    → leader_pos leader active ≡ some k
    → k < length active
leader_pos-bound none active k h = cc
leader_pos-bound (some c) active k h = let b = find_from-bound c active 0 k h in omega (arith, b)

pin_at-Keeps :
    (positions : ℕ) (active : List ℕ) (found : Option ℕ)
    → positions < length active
    → ((k : ℕ) → found ≡ some k → k < length active)
    → Keeps active (pin_at positions active found)
pin_at-Keeps positions active none lt within = record {
  result = active;
  returns = refl;
  same = λ f. refl;
}
pin_at-Keeps positions active (some i) lt within = elim (Bool-cases (leb positions i)) [
  | inl e ↦ rw e (exchange-Keeps active (positions - 1) i (omega arith) (within i refl))
  | inr e ↦ rw e (record { result = active; returns = refl; same = λ f. refl })
]

pub pin-Keeps :
    (leads : Bool) (positions covered : ℕ) (active : List ℕ) (leader : Option ℕ)
    → Keeps active (pin leads positions covered active leader)
unfolding pin
pin-Keeps leads positions covered active leader =
    elim (Bool-cases (leads && ltb positions (length active) && ltb covered positions)) [
      | inl e ↦ rw e (
          pin_at-Keeps positions active (leader_pos leader active) (ground (arith, e))
            (leader_pos-bound leader active))
      | inr e ↦ rw e (record { result = active; returns = refl; same = λ f. refl })
    ]
