-- ===== src/Tth2/Result/FullOrder.antt =====
-- When `FullArrivalOrder` returns the order of a batch, and when it does not.
use tturl.Common.{
  ℕ, zero, suc, ◌+◌, ◌<◌, ◌≡◌, refl, sym, ap, ◌∙◌, inl, inr, true, false, none, some, List, [], ◌∷◌,
  length, get_elem?, arith, count, Bool-cases, count-get, get_elem?-of_count, get_elem?-some,
  get_elem?-lt,
}
use tturl.Common.Int.{ℤ, pos, negsuc}
use tturl.Tth2.Result.{Result, BatchResult, arrived, all_arrived, ranks_match, full_arrival_order}
use tturl.Tth2.Result.Collecting.{presence, presence-lt}
use tturl.Tth2.Result.Ranks.{IsRanking}

module _ {R : Type 0} where
  pub all_arrived-get :
      (rs : List (Result R)) (j : ℕ) (r : Result R)
      → all_arrived rs ≡ true
      → get_elem? rs j ≡ some r
      → arrived r ≡ true
  unfolding all_arrived
  all_arrived-get [] j r h e = cc
  all_arrived-get (x ∷ rs) zero r h e = ground arith
  all_arrived-get (x ∷ rs) (suc j) r h e = ground (arith, all_arrived-get rs j r)

  pub all_arrived-of_get :
      (rs : List (Result R))
      → ((j : ℕ) (r : Result R) → get_elem? rs j ≡ some r → arrived r ≡ true)
      → all_arrived rs ≡ true
  unfolding all_arrived
  all_arrived-of_get [] h = refl
  all_arrived-of_get (x ∷ rs) h = rw (h 0 x refl) (all_arrived-of_get rs (λ j r e. h (suc j) r e))

  arrived-rank : (r : Result R) (v : ℤ) → arrived (record r { arrival_rank = v }) ≡ arrived r
  unfolding arrived
  arrived-rank r v = refl

  pub ranks_match-of_get :
      (results : List (Result R)) (k : ℕ) (is : List ℕ)
      → ((q j : ℕ)
          → get_elem? is q ≡ some j
          → (r : Result R) × (get_elem? results j ≡ some r) × (r.arrival_rank ≡ pos (k + q)))
      → ranks_match results k is ≡ true
  unfolding ranks_match
  ranks_match-of_get results k [] h = refl
  ranks_match-of_get results k (i ∷ is) h =
      let (r, e, rank) = h 0 i refl in
      let rest = ranks_match-of_get results (suc k) is (λ q j at_q.
        let (x, at_j, rank_j) = h (suc q) j at_q in (x, at_j, rank_j ∙ ap pos (omega arith))) in
      rw (e, ranks_match) (ground (arith, rank, rest))

  module _ (rs : List (Result R)) (b : BatchResult R) (s : IsRanking rs b)
      (all : all_arrived rs ≡ true) where
    ranked_at :
        (q j : ℕ)
        → get_elem? b.arrival_order q ≡ some j
        → (r : Result R) × (get_elem? b.results j ≡ some r) × (r.arrival_rank ≡ pos (0 + q))
    ranked_at q j at_q =
        let present : j < length rs =
          presence-lt rs j (omega (arith, count-get j b.arrival_order q at_q, s.lists j)) in
        let (r, at_j) = get_elem?-some rs j present in
        (record r { arrival_rank = pos q }, s.ranked q j r at_q at_j, ap pos (omega arith))

    arrived_at : (j : ℕ) (r : Result R) → get_elem? b.results j ≡ some r → arrived r ≡ true
    arrived_at j r e =
        let present : j < length rs = omega (arith, get_elem?-lt b.results j e, s.same_length) in
        let (x, at_j) = get_elem?-some rs j present in
        let here : arrived x ≡ true = all_arrived-get rs j x all at_j in
        let one : count j b.arrival_order ≡ 1 = s.lists j ∙ ap presence at_j ∙ rw here in
        let (q, at_q) = get_elem?-of_count j b.arrival_order (omega arith) in
        let same : record x { arrival_rank = pos q } ≡ r = cc (s.ranked q j x at_q at_j) in
        rw (← same) (arrived-rank x (pos q) ∙ here)

    pub full_arrival_order-IsRanking : full_arrival_order b ≡ some b.arrival_order
    unfolding full_arrival_order
    full_arrival_order-IsRanking =
        let here = all_arrived-of_get b.results arrived_at in
        let size : length b.arrival_order ≡ length b.results = s.full all ∙ sym s.same_length in
        let match = ranks_match-of_get b.results 0 b.arrival_order ranked_at in
        ground (arith, here, size, match)

  -- Where a response is missing, the batch has no full arrival order.
  module _ (rs : List (Result R)) (b : BatchResult R) (s : IsRanking rs b) (j : ℕ) (r : Result R)
      (at_j : get_elem? rs j ≡ some r) (away : arrived r ≡ false) where
    pub full_arrival_order-none : full_arrival_order b ≡ none
    unfolding full_arrival_order
    full_arrival_order-none = elim (Bool-cases (all_arrived b.results)) [
      | inl all ↦ cc (
        arrived-rank r (negsuc 0),
        away,
        all_arrived-get b.results j _ all (s.unplaced j r at_j away),
      )
      | inr some_missing ↦ rw some_missing
    ]
