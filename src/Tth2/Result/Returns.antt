-- ===== src/Tth2/Result/Returns.antt =====
-- `newBatchResult` returns wherever its streams say how they ended, and `FullArrivalOrder` of what
-- it returns.
use tturl.Common.{
  ℕ, suc, ◌+◌, ◌≤◌, ◌≡◌, ◌≢◌, refl, inl, inr, true, false, none, some, List, [], ◌∷◌, get_elem?,
  arith, count, Bool-cases, if◌then◌else◌, ◌==◌, ==_iff,
}
use tturl.Common.Int.{pos, eqb_ℤ, ◌≤ℤ◌, eq_of_parts}
use tturl.Tth2.Result.{
  Result, BatchResult, arrived, all_arrived, full_arrival_order, collect, seq_of, sort_by_seq,
  no_duplicate_seq, new_batch_result, is_some, assign_ranks, mark_unranked,
}
use tturl.Tth2.Result.Sorting.{sort_by_seq-SameItems}
use tturl.Tth2.Result.Collecting.{presence, collect-count, presence-le}
use tturl.Tth2.Result.Ranks.{new_batch_result-IsRanking}
use tturl.Tth2.Result.FullOrder.{full_arrival_order-IsRanking, full_arrival_order-none}

module _ {R : Type 0} where
  -- Each stream ended in a response, which took a sequence number, or in a reset.
  abbrev pub Ended : Result R → Type 0
  Ended r = if arrived r then pos 0 ≤ℤ r.arrival_seq else (is_some r.reset ≡ true)

  -- No two responses took the same sequence number.
  abbrev pub DistinctSeq : List (Result R) → Type 0
  DistinctSeq rs =
      (i j : ℕ)
      → i ≢ j
      → presence (get_elem? rs i) ≡ 1
      → presence (get_elem? rs j) ≡ 1
      → seq_of rs i ≢ seq_of rs j

  collect-returns :
      (i : ℕ) (rs : List (Result R))
      → ((j : ℕ) (r : Result R) → get_elem? rs j ≡ some r → Ended r)
      → (is : List ℕ) × (collect i rs ≡ some is)
  unfolding collect
  collect-returns i [] h = ([], refl)
  collect-returns i (r ∷ rs) h =
      let (is, e) = collect-returns (suc i) rs (λ j x at. h (suc j) x at) in
      let here : Ended r = h 0 r refl in
      elim (Bool-cases (arrived r)) [
        | inl came ↦ (i ∷ is, ground (arith, came, e, here))
        | inr away ↦ (is, ground (arith, away, e, here))
      ]

  no_duplicate_seq-of_distinct :
      (rs : List (Result R)) (is : List ℕ)
      → DistinctSeq rs
      → ((j : ℕ) → count j is ≤ presence (get_elem? rs j))
      → no_duplicate_seq rs is ≡ true
  unfolding no_duplicate_seq
  no_duplicate_seq-of_distinct rs [] d h = refl
  no_duplicate_seq-of_distinct rs (i ∷ []) d h = refl
  no_duplicate_seq-of_distinct rs (i ∷ j ∷ js) d h =
      let rest = no_duplicate_seq-of_distinct rs (j ∷ js) d (λ k. omega (arith, h k)) in
      let i_here : presence (get_elem? rs i) ≡ 1 =
        ground (arith, h i, presence-le (get_elem? rs i)) in
      let j_here : presence (get_elem? rs j) ≡ 1 =
        ground (arith, h j, presence-le (get_elem? rs j)) in
      elim (Bool-cases (i == j)) [
        | inl same ↦ let e : i ≡ j = (==_iff i j).0 same in absurd (ground (arith, h j, e, j_here))
        | inr apart ↦
            let differ : seq_of rs i ≢ seq_of rs j =
              d i j (λ e. absurd (ground (arith, apart, e))) i_here j_here in
            elim (Bool-cases (eqb_ℤ (seq_of rs i) (seq_of rs j))) [
              | inl equal ↦ absurd (differ (eq_of_parts _ _ (ground (arith, equal))))
              | inr distinct ↦ rw distinct rest
            ]
      ]

  -- If each stream ended in a response with its own sequence number or in a reset, then
  -- `newBatchResult` does not panic.
  pub new_batch_result-returns :
      (rs : List (Result R))
      → ((j : ℕ) (r : Result R) → get_elem? rs j ≡ some r → Ended r)
      → DistinctSeq rs
      → (b : BatchResult R) × (new_batch_result rs ≡ some b)
  unfolding new_batch_result
  new_batch_result-returns rs h d =
      let (is, e) = collect-returns 0 rs h in
      let distinct = no_duplicate_seq-of_distinct rs (sort_by_seq rs is) d (λ j.
        let zero_plus : 0 + j ≡ j = omega arith in
        let counted : count j is ≡ presence (get_elem? rs j) =
          rw zero_plus at (collect-count 0 rs j e) in
        omega (arith, sort_by_seq-SameItems rs is j, counted)) in
      let order = sort_by_seq rs is in
      let b : BatchResult R = record {
        connection = 0;
        results = assign_ranks 0 order (mark_unranked rs);
        arrival_order = order;
      } in
      (b, rw (e, distinct) refl)

  some_missing :
      (rs : List (Result R))
      → all_arrived rs ≡ false
      → (j : ℕ) × (r : Result R) × (get_elem? rs j ≡ some r) × (arrived r ≡ false)
  unfolding all_arrived
  some_missing [] h = cc
  some_missing (r ∷ rs) h = elim (Bool-cases (arrived r)) [
    | inl came ↦ let (j, x, at, away) = some_missing rs (rw came at h) in (suc j, x, at, away)
    | inr away ↦ (0, r, refl, away)
  ]

  -- Of a batch that `newBatchResult` returned, `FullArrivalOrder` returns the arrival order if every
  -- stream has its response, and nothing if one has not.
  pub full_arrival_order-new_batch_result :
      (rs : List (Result R)) {b : BatchResult R}
      → new_batch_result rs ≡ some b
      → full_arrival_order b ≡ (if all_arrived rs then some b.arrival_order else none)
  full_arrival_order-new_batch_result rs {b} h =
      let ranking = new_batch_result-IsRanking rs h in
      elim (Bool-cases (all_arrived rs)) [
        | inl all ↦ rw all (full_arrival_order-IsRanking rs b ranking all)
        | inr missing ↦
            let (j, r, at_j, away) = some_missing rs missing in
            rw missing (full_arrival_order-none rs b ranking j r at_j away)
      ]
