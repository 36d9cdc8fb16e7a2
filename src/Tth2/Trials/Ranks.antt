-- ===== src/Tth2/Trials/Ranks.antt =====
-- A full batch holds each rank once, so counting its ranks adds one to each row and each column.
use tturl.Common.{
  ℕ, suc, ◌+◌, ◌≤◌, ◌<◌, ◌≡◌, refl, ap, ◌∙◌, some, List, [], ◌∷◌, length, get_elem?, All, arith,
  ◌&&◌, ltb, leb, if◌then◌else◌, sum_by, sum_by-add, sum_by-hit, sum_by-ge, sum_by-max,
  sum_by-tight, sum_by-full, sum_by-hit_lt, Option-cases, All-map, upto, inl, inr, length-upto,
}
use tturl.Common.Int.{ℤ, pos, negsuc}
use tturl.Tth2.Result.{Result}
use tturl.Tth2.Arrangement.{arrange}
use tturl.Tth2.Trials.{Matrix, bump, count_ranks, count_positions}
use tturl.Tth2.Trials.Matrices.{IsSquare, Bumped, bump_lem, row_sum, col_sum, hit}

-- 1 if a rank is `q`, else 0.
abbrev pub holds : ℤ → ℕ → ℕ
holds (pos k) q = hit k q
holds (negsuc k) q = 0

abbrev pub InRange : ℕ → ℤ → Type 0
InRange n (pos k) = k < n
InRange n (negsuc k) = ⊥

-- 1 for the rows from `i` on that the loop visits.
abbrev pub visited : ℕ → ℕ → ℕ → ℕ
visited i len k = if leb i k && ltb k (i + len) then 1 else 0

rank-cases : (n : ℕ) (v : ℤ) → InRange n v → (q : ℕ) × (v ≡ pos q) × (q < n)
rank-cases n (pos k) h = (k, refl, h)
rank-cases n (negsuc k) h = absurd h

sum_by-zero : (is : List ℕ) → sum_by (λ _. 0) is ≡ 0
sum_by-zero [] = refl
sum_by-zero (i ∷ is) = omega (arith, sum_by-zero is)

-- A rank is one of those below `n`, or none of them.
holds-upto : (n : ℕ) (v : ℤ) → sum_by (holds v) (upto 0 n) ≤ 1
holds-upto n (pos k) = sum_by-hit 0 n k
holds-upto n (negsuc k) = omega (arith, sum_by-zero (upto 0 n))

holds-InRange : (n : ℕ) (v : ℤ) → sum_by (holds v) (upto 0 n) ≡ 1 → InRange n v
holds-InRange n (pos k) h = omega (arith, sum_by-hit_lt 0 n k (omega (arith, h)))
holds-InRange n (negsuc k) h = absurd (omega (arith, h, sum_by-zero (upto 0 n)))

module _ {R : Type 0} where
  abbrev pub rank_count : List (Result R) → ℕ → ℕ
  rank_count rs q = sum_by (λ r. holds r.arrival_rank q) rs

  pub record Counted (n i : ℕ) (rs : List (Result R)) (m m' : Matrix) : Type 0 where
    pub runs : count_ranks i rs m ≡ some m'
    pub square : IsSquare n m'
    pub row : (k : ℕ) → row_sum m' k ≡ row_sum m k + visited i (length rs) k
    pub column : (j : ℕ) → col_sum m' j ≡ col_sum m j + rank_count rs j

  module _ (n i : ℕ) (r : Result R) (rs : List (Result R)) (m : Matrix) where
    count_step :
        (q : ℕ)
        → r.arrival_rank ≡ pos q
        → {m' m'' : Matrix} → Bumped n m i q m'
        → Counted n (suc i) rs m' m''
        → Counted n i (r ∷ rs) m m''
    unfolding count_ranks
    count_step q e b c =
        let rank : (j : ℕ) → holds r.arrival_rank j ≡ hit q j = λ j. rw e refl in
        record {
          runs = rw (e, b.runs) c.runs;
          square = c.square;
          row = λ k. let x = c.row k in let y = b.row k in ground (arith, x, y);
          column = λ j. omega (arith, c.column j, b.column j, rank j);
        }

  pub count_ranks-Counted :
      (n i : ℕ) (rs : List (Result R)) (m : Matrix)
      → IsSquare n m
      → i + length rs ≤ n
      → All (λ r. InRange n r.arrival_rank) rs
      → (m' : Matrix) × Counted n i rs m m'
  unfolding count_ranks
  count_ranks-Counted n i [] m sq len range =
      (m, record { runs = refl; square = sq; row = λ k. ground arith; column = λ j. omega arith })
  count_ranks-Counted n i (r ∷ rs) m sq len range =
      let (q, e, lt) = rank-cases n r.arrival_rank range.0 in
      let (m', b) = bump_lem n m i q sq (omega arith) lt in
      let (m'', c) = count_ranks-Counted n (suc i) rs m' b.square (omega arith) range.1 in
      (m'', count_step n i r rs m q e b c)

  -- Counting by position reads the results through the arrangement.
  pub count_positions-arrange :
      (p : ℕ) (results : List (Result R)) (arr : List ℕ) (laid : List (Result R)) (m : Matrix)
      → arrange results arr ≡ some laid
      → count_positions p arr results m ≡ count_ranks p laid m
  unfolding arrange count_ranks count_positions
  count_positions-arrange p results [] laid m h = let e : [] ≡ laid = cc h in rw (← e) refl
  count_positions-arrange p results (i ∷ is) laid m h = elim (Option-cases (get_elem? results i)) [
    | inl missing ↦ cc (rw missing at h)
    | inr (r, at_i) ↦ elim (Option-cases (arrange results is)) [
      | inl failed ↦ cc (rw (at_i, failed) at h)
      | inr (rest, e) ↦
          let found : r ∷ rest ≡ laid = cc (rw (at_i, e) at h) in
          elim (Option-cases (bump m p r.arrival_rank)) [
            | inl panics ↦ rw (← found) (rw (at_i, panics) refl)
            | inr (m', runs) ↦
                rw (← found)
                  (rw (at_i, runs) (count_positions-arrange (suc p) results is rest m' e))
          ]
    ]
  ]

  -- Counted by rank or by result, the ranks of a batch are the same number.
  rank_count-total :
      (n : ℕ) (rs : List (Result R))
      → sum_by (rank_count rs) (upto 0 n)
        ≡ sum_by (λ r. sum_by (holds r.arrival_rank) (upto 0 n)) rs
  rank_count-total n [] = sum_by-zero (upto 0 n)
  rank_count-total n (r ∷ rs) =
      sum_by-add (holds r.arrival_rank) (rank_count rs) (upto 0 n)
      ∙ ap (λ k. sum_by (holds r.arrival_rank) (upto 0 n) + k) (rank_count-total n rs)

  -- If each of `n` results can be named by its rank, each rank is held once.
  pub covers-once :
      (n : ℕ) (rs : List (Result R))
      → length rs ≡ n
      → All (λ q. 1 ≤ rank_count rs q) (upto 0 n)
      → All (λ q. rank_count rs q ≡ 1) (upto 0 n) × All (λ r. InRange n r.arrival_rank) rs
  covers-once n rs len all =
      let in_range = λ (r : Result R). sum_by (holds r.arrival_rank) (upto 0 n) in
      let bound = λ (r : Result R). holds-upto n r.arrival_rank in
      let low = sum_by-ge (rank_count rs) (upto 0 n) all in
      let high = sum_by-max in_range rs bound in
      let same = rank_count-total n rs in
      let size = length-upto 0 n in
      (
        sum_by-tight (rank_count rs) (upto 0 n) all (omega (arith, high, same, size, len)),
        All-map (λ r. in_range r ≡ 1) (λ r. InRange n r.arrival_rank) rs
            (λ r one. holds-InRange n r.arrival_rank one)
            (sum_by-full in_range rs bound (omega (arith, low, same, size, len))),
      )
