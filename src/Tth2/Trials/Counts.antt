-- ===== src/Tth2/Trials/Counts.antt =====
-- The two counts of a complete trial: each rank is held once, by request and by position.
use tturl.Common.{
  ℕ, zero, suc, ◌+◌, ◌≤◌, ◌<◌, ◌≡◌, ap, ◌∙◌, some, List, [], ◌∷◌, length, get_elem?, All, arith,
  upto, length-upto, get_elem?-upto, get_elem?-lt, false, All-of_get, All-get, get_elem?-some,
}
use tturl.Common.Int.{pos}
use tturl.Tth2.Result.{Result, full_arrival_order}
use tturl.Tth2.Arrangement.{IsArrangement, arrange}
use tturl.Tth2.Arrangement.Scatter.{IsArrangement-position, IsArrangement-All, arrange_lem}
use tturl.Tth2.Arrangement.Keying.{full_arrival_order-IsFull}
use tturl.Tth2.Trials.{Matrix, Trial, count_ranks}
use tturl.Tth2.Trials.Matrices.{IsSquare, row_sum, col_sum}
use tturl.Tth2.Trials.Ranks.{holds, visited, rank_count, count_ranks-Counted, covers-once}

-- Every row and every column of a matrix of counts sums to the number of trials.
pub record IsBalanced (n trials : ℕ) (m : Matrix) : Type 0 where
  pub square : IsSquare n m
  pub rows : (k : ℕ) → k < n → row_sum m k ≡ trials
  pub columns : (j : ℕ) → j < n → col_sum m j ≡ trials

module _ {R : Type 0} where
  -- A measured trial of `n` requests: its batch has a result for each of them, or it failed.
  pub record IsTrial (n : ℕ) (t : Trial R) : Type 0 where
    pub sized : length t.batch.results ≤ n
    pub complete : t.failed ≡ false → length t.batch.results ≡ n
    pub arranged : IsArrangement n t.arrangement

  rank_count-get :
      (rs : List (Result R)) (j q : ℕ) (r : Result R)
      → get_elem? rs j ≡ some r
      → r.arrival_rank ≡ pos q
      → 1 ≤ rank_count rs q
  rank_count-get [] j q r at_j e = cc
  rank_count-get (x ∷ rs) zero q r at_j e =
      let same : x ≡ r = cc at_j in
      let one : holds r.arrival_rank q ≡ 1 = rw e (ground arith) in rw same (omega (arith, one))
  rank_count-get (x ∷ rs) (suc j) q r at_j e = omega (arith, rank_count-get rs j q r at_j e)

  -- Each rank below `n` is held, if each has an index.
  all_held :
      (n : ℕ) (rs : List (Result R))
      → ((q : ℕ)
          → q < n
          → (j : ℕ) × (r : Result R) × (get_elem? rs j ≡ some r) × (r.arrival_rank ≡ pos q))
      → All (λ q. 1 ≤ rank_count rs q) (upto 0 n)
  all_held n rs h =
      All-of_get (λ q. 1 ≤ rank_count rs q) (upto 0 n)
        (λ i q e.
          let lt : i < n = omega (arith, get_elem?-lt (upto 0 n) i e, length-upto 0 n) in
          let same : 0 + i ≡ q = cc (e, get_elem?-upto 0 n i lt) in
          let below : q < n = omega (arith, same, lt) in
          let (j, r, at_j, rank) = h q below in rank_count-get rs j q r at_j rank)

  -- A count of all ranks in the rows of `n` results adds one to each row and to each column.
  pub counted-IsBalanced :
      (n trials : ℕ) (rs : List (Result R)) (m : Matrix)
      → IsBalanced n trials m
      → length rs ≡ n
      → All (λ q. 1 ≤ rank_count rs q) (upto 0 n)
      → (m' : Matrix) × (count_ranks 0 rs m ≡ some m') × IsBalanced n (trials + 1) m'
  counted-IsBalanced n trials rs m ok len held =
      let (once, range) = covers-once n rs len held in
      let (m', c) = count_ranks-Counted n 0 rs m ok.square (omega (arith, len)) range in
      (
        m',
        c.runs,
        record {
          square = c.square;
          rows = λ k lt.
              let one : visited 0 (length rs) k ≡ 1 = ground (arith, len) in
              omega (arith, c.row k, one, ok.rows k lt);
          columns = λ j lt.
              let at_j = get_elem?-upto 0 n j lt in
              let one : rank_count rs (0 + j) ≡ 1 =
                All-get (λ q. rank_count rs q ≡ 1) (upto 0 n) j once at_j in
              let start : 0 + j ≡ j = omega arith in
              omega (arith, c.column j, rw start at one, ok.columns j lt);
        },
      )

  -- The two counts of a trial with a full order.
  pub full_counts :
      (n : ℕ) (t : Trial R) (order : List ℕ)
      → IsTrial n t
      → length t.batch.results ≡ n
      → full_arrival_order t.batch ≡ some order
      → (laid : List (Result R)) × (arrange t.batch.results t.arrangement ≡ some laid)
        × (length laid ≡ n)
        × All (λ q. 1 ≤ rank_count t.batch.results q) (upto 0 n)
        × All (λ q. 1 ≤ rank_count laid q) (upto 0 n)
  full_counts n t order ok len e =
      let rs = t.batch.results in
      let f = full_arrival_order-IsFull t.batch order e in
      let held = (λ (q : ℕ) (lt : q < n).
        let (j, at_q) = get_elem?-some order q (omega (arith, f.as_long, len)) in
        let (r, at_j, rank) = f.inverse q j at_q in
        let start : 0 + q ≡ q = omega arith in
        let found : (j : ℕ) × (r : Result R) × (get_elem? rs j ≡ some r)
            × (r.arrival_rank ≡ pos q) =
          (j, r, at_j, rank ∙ ap pos start) in
        found) in
      let (laid, runs, size, reads) =
        arrange_lem rs t.arrangement (rw len (IsArrangement-All n t.arrangement ok.arranged)) in
      let held' = (λ (q : ℕ) (lt : q < n).
        let (j, r, at_j, rank) = held q lt in
        let (p, at_p) =
          IsArrangement-position n t.arrangement j ok.arranged
            (omega (arith, get_elem?-lt rs j at_j, len)) in
        let found : (p : ℕ) × (r : Result R) × (get_elem? laid p ≡ some r)
            × (r.arrival_rank ≡ pos q) =
          (p, r, reads p j at_p ∙ at_j, rank) in
        found) in
      (laid, runs, size ∙ ok.arranged.1, all_held n rs held, all_held n laid held')
