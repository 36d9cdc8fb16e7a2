-- ===== src/Tth2/Result/Ranks.antt =====
-- `newBatchResult` gives dense ranks, and its order is the exact inverse of them.
use tturl.Common.{
  ℕ, ◌+◌, ◌≡◌, sym, ap, ◌∙◌, inl, inr, true, false, some, List, length, get_elem?, arith, count,
  Bool-cases, Option-cases, count-get, subst,
}
use tturl.Common.Int.{ℤ, pos, negsuc}
use tturl.Tth2.Result.{
  Result, BatchResult, arrived, all_arrived, collect, unranked, sort_by_seq, no_duplicate_seq,
  assign_ranks, mark_unranked, new_batch_result,
}
use tturl.Tth2.Result.Sorting.{
  Ascending, sort_by_seq-SameItems, length-sort_by_seq, sort_by_seq-Ascending,
}
use tturl.Tth2.Result.Collecting.{presence, collect-count, collect-length, presence-lt, presence-le}
use tturl.Tth2.Result.Assigning.{
  Ranked, assign_ranks-Ranked, get_elem?-mark_unranked, length-mark_unranked,
}

module _ {R : Type 0} where
  rank-unranked :
      (r : Result R) (v : ℤ)
      → ◌≡◌ {A = Result R}
          (record (unranked r) { arrival_rank = v })
          (record r { arrival_rank = v })
  unfolding unranked
  rank-unranked r v = ground arith

  unranked-away :
      (r : Result R) → arrived r ≡ false → unranked r ≡ record r { arrival_rank = negsuc 0 }
  unfolding unranked
  unranked-away r h = rw h

  -- What a batch says about the results `rs` of its streams.
  pub record IsRanking (rs : List (Result R)) (b : BatchResult R) : Type 0 where
    -- the order lists exactly the indices of the responses that arrived, each once
    pub lists : (j : ℕ) → count j b.arrival_order ≡ presence (get_elem? rs j)
    -- and in the sequence of their arrival
    pub ascending : Ascending rs b.arrival_order
    pub same_length : length b.results ≡ length rs
    -- a response at place `q` of the order has rank `q`, and its result is otherwise unchanged
    pub ranked :
        (q j : ℕ) (r : Result R)
        → get_elem? b.arrival_order q ≡ some j
        → get_elem? rs j ≡ some r
        → get_elem? b.results j ≡ some (record r { arrival_rank = pos q })
    -- if all arrived, the order is as long as the batch
    pub full : all_arrived rs ≡ true → length b.arrival_order ≡ length rs
    -- a stream without a response has rank -1
    pub unplaced :
        (j : ℕ) (r : Result R)
        → get_elem? rs j ≡ some r
        → arrived r ≡ false
        → get_elem? b.results j ≡ some (record r { arrival_rank = negsuc 0 })

  module _ (rs : List (Result R)) (is : List ℕ) (collected : collect 0 rs ≡ some is)
      (distinct : no_duplicate_seq rs (sort_by_seq rs is) ≡ true) where
    order : List ℕ
    order = sort_by_seq rs is

    batch : BatchResult R
    unfolding order
    batch = record {
      connection = 0;
      results = assign_ranks 0 order (mark_unranked rs);
      arrival_order = order;
    }

    order-lists : (j : ℕ) → count j order ≡ presence (get_elem? rs j)
    unfolding order
    order-lists j =
        let found : count (0 + j) is ≡ presence (get_elem? rs j) =
          collect-count 0 rs {is = is} j collected in
        let start : 0 + j ≡ j = omega arith in
        sort_by_seq-SameItems rs is j ∙ ap (λ x. count x is) (sym start) ∙ found

    order-Ranked : Ranked 0 order (mark_unranked rs) (assign_ranks 0 order (mark_unranked rs))
    order-Ranked =
        assign_ranks-Ranked 0 order (mark_unranked rs)
          (λ j c. rw (length-mark_unranked rs) (presence-lt rs j (omega (arith, order-lists j))))

    batch-IsRanking : IsRanking rs batch
    unfolding batch
    batch-IsRanking = record {
      lists = order-lists;
      ascending = unfold order in sort_by_seq-Ascending rs is distinct;
      same_length = order-Ranked.same_length ∙ length-mark_unranked rs;
      ranked = λ q j r e at_j.
          let once : count j order ≡ 1 =
            omega (arith, count-get j order q e, order-lists j, presence-le (get_elem? rs j)) in
          let rank : pos (0 + q) ≡ pos q = ap pos (omega arith) in
          order-Ranked.ranked q j (unranked r) e once (get_elem?-mark_unranked rs j r at_j)
          ∙ ap some (rank-unranked r (pos (0 + q)))
          ∙ ap (λ v. some (record r { arrival_rank = v })) rank;
      full = λ all.
          unfold order in length-sort_by_seq rs is ∙ collect-length 0 rs {is = is} all collected;
      unplaced = λ j r at_j away.
          let absent : count j order ≡ 0 = order-lists j ∙ ap presence at_j ∙ rw away in
          order-Ranked.kept j absent
          ∙ get_elem?-mark_unranked rs j r at_j
          ∙ ap some (unranked-away r away);
    }

  -- In a batch that `newBatchResult` returns, the arrival order lists exactly the streams whose response
  -- arrived, each once and in ascending arrival sequence; the stream at a place of the order has that
  -- place as its rank, a stream without a response has rank -1, and nothing else of a result changes.
  pub new_batch_result-IsRanking :
      (rs : List (Result R)) {b : BatchResult R} → new_batch_result rs ≡ some b → IsRanking rs b
  unfolding new_batch_result
  new_batch_result-IsRanking rs {b} e = elim (Option-cases (collect 0 rs)) [
    | inl fails ↦ cc (rw (fails, new_batch_result) at e)
    | inr (is, collected) ↦ elim (Bool-cases (no_duplicate_seq rs (sort_by_seq rs is))) [
      | inl distinct ↦
          let same : batch rs is collected distinct ≡ b =
            unfold batch order in ground (arith, collected, distinct) in
          subst (IsRanking rs) same (batch-IsRanking rs is collected distinct)
      | inr clash ↦ ground (arith, collected, clash)
    ]
  ]
