-- ===== src/Tth2/Result/Assigning.antt =====
-- The loop of `newBatchResult` that assigns the ranks.
use tturl.Common.{
  ℕ, zero, suc, ◌+◌, ◌<◌, ◌≤◌, ◌≡◌, ◌≢◌, refl, ap, ◌∙◌, none, some, List, [], ◌∷◌, length,
  get_elem?, set, arith, count, count-get, get_elem?-some, get_elem?-set_self, get_elem?-set_ne,
  get_elem?-lt, length-set,
}
use tturl.Common.Int.{pos}
use tturl.Tth2.Result.{Result, unranked, assign_ranks, mark_unranked}

module _ {R : Type 0} where
  -- The loop that assigns ranks: other results stay, and the request at each place of the order
  -- gets that rank.
  pub record Ranked (k : ℕ) (is : List ℕ) (rs rs' : List (Result R)) : Type 0 where
    pub same_length : length rs' ≡ length rs
    pub kept : (j : ℕ) → count j is ≡ 0 → get_elem? rs' j ≡ get_elem? rs j
    pub ranked :
        (q j : ℕ) (r : Result R)
        → get_elem? is q ≡ some j
        → count j is ≡ 1
        → get_elem? rs j ≡ some r
        → get_elem? rs' j ≡ some (record r { arrival_rank = pos (k + q) })

  write_rank : ℕ → ℕ → List (Result R) → List (Result R)
  write_rank k i rs = elim (get_elem? rs i) [
    | none ↦ rs
    | some r ↦ set rs i (record r { arrival_rank = pos k })
  ]

  write_rank-some :
      (k i : ℕ) (rs : List (Result R)) (r : Result R)
      → get_elem? rs i ≡ some r
      → write_rank k i rs ≡ set rs i (record r { arrival_rank = pos k })
  unfolding write_rank
  write_rank-some k i rs r e = rw (e, write_rank)

  assign_ranks_step :
      (k i : ℕ) (is : List ℕ) (rs : List (Result R))
      → assign_ranks k (i ∷ is) rs ≡ assign_ranks (suc k) is (write_rank k i rs)
  unfolding assign_ranks write_rank
  assign_ranks_step k i is rs = refl

  module _ (k i : ℕ) (is : List ℕ) (rs : List (Result R)) where
    Ranked-step :
        (x : Result R) (rs' : List (Result R))
        → get_elem? rs i ≡ some x
        → Ranked (suc k) is (set rs i (record x { arrival_rank = pos k })) rs'
        → Ranked k (i ∷ is) rs rs'
    Ranked-step x rs' at_i s = record {
      same_length = s.same_length ∙ length-set rs i _;
      kept = λ j c.
          s.kept j (ground arith) ∙ get_elem?-set_ne rs i j _ (λ e. absurd (ground (arith, e)));
      ranked = elim [
        | zero ↦ λ j r e c at_j.
            let same : i ≡ j = cc in
            let both : x ≡ r = cc in
            let last : count j is ≡ 0 = ground (arith, same) in
            let there : get_elem? (set rs i (record x { arrival_rank = pos k })) j
                ≡ some (record x { arrival_rank = pos k }) =
              rw (← same) (get_elem?-set_self rs i _ (get_elem?-lt rs i at_i)) in
            let rank : pos k ≡ pos (k + 0) = ap pos (omega arith) in
            cc (s.kept j last, there, both, rank)
        | suc q ↦ λ j r e c at_j.
            let once : count j is ≡ 1 = ground (arith, count-get j is q e) in
            let apart : i ≢ j = λ h. absurd (ground (arith, h, count-get j is q e)) in
            let there : get_elem? (set rs i (record x { arrival_rank = pos k })) j ≡ some r =
              get_elem?-set_ne rs i j _ apart ∙ at_j in
            let rank : k + suc q ≡ suc k + q = omega arith in rw rank (s.ranked q j r e once there)
      ];
    }

  pub assign_ranks-Ranked :
      (k : ℕ) (is : List ℕ) (rs : List (Result R))
      → ((j : ℕ) → 1 ≤ count j is → j < length rs)
      → Ranked k is rs (assign_ranks k is rs)
  unfolding assign_ranks
  assign_ranks-Ranked k [] rs h = record {
    same_length = refl;
    kept = λ j c. refl;
    ranked = λ q j r e c at_j. cc;
  }
  assign_ranks-Ranked k (i ∷ is) rs h =
      let (x, at_i) = get_elem?-some rs i (h i (ground arith)) in
      let rs1 = set rs i (record x { arrival_rank = pos k }) in
      let len : length rs1 ≡ length rs = length-set rs i _ in
      rw at_i (
        Ranked-step k i is rs x (assign_ranks (suc k) is rs1) at_i
          (assign_ranks-Ranked (suc k) is rs1 (λ j c. rw len (h j (omega arith)))))

  pub get_elem?-mark_unranked :
      (rs : List (Result R)) (j : ℕ) (r : Result R)
      → get_elem? rs j ≡ some r
      → get_elem? (mark_unranked rs) j ≡ some (unranked r)
  unfolding mark_unranked
  get_elem?-mark_unranked [] j r e = cc
  get_elem?-mark_unranked (x ∷ rs) zero r e = cc
  get_elem?-mark_unranked (x ∷ rs) (suc j) r e = get_elem?-mark_unranked rs j r e

  pub length-mark_unranked : (rs : List (Result R)) → length (mark_unranked rs) ≡ length rs
  unfolding mark_unranked
  length-mark_unranked [] = refl
  length-mark_unranked (x ∷ rs) = ap suc (length-mark_unranked rs)
