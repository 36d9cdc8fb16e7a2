-- ===== src/Tth2/Trials/Matrices.antt =====
-- Counting in a square matrix: what a count adds to the sums of its rows and of its columns.
use tturl.Common.{
  ℕ, zero, suc, ◌+◌, ◌<◌, ◌≡◌, refl, ◌∙◌, some, List, [], ◌∷◌, length, get_elem?, get_or, set,
  replicate, All, arith, ◌==◌, if◌then◌else◌, sum_by, sum_by-set, get_or-set, sum_by-replicate,
  length-set, length-replicate, get_elem?-get_or, All-get, Bool-cases, inl, inr,
}
use tturl.Common.Int.{pos}
use tturl.Tth2.Trials.{Matrix, bump, new_rank_matrix}

-- The sums of a row and of a column.
abbrev pub row_sum : Matrix → ℕ → ℕ
row_sum m k = sum_by (λ v. v) (get_or m k [])

abbrev pub col_sum : Matrix → ℕ → ℕ
col_sum m j = sum_by (λ row. get_or row j 0) m

abbrev pub hit : ℕ → ℕ → ℕ
hit i k = if i == k then 1 else 0

pub record IsSquare (n : ℕ) (m : Matrix) : Type 0 where
  pub rows : length m ≡ n
  pub columns : All (λ row. length row ≡ n) m

pub record Bumped (n : ℕ) (m : Matrix) (i q : ℕ) (m' : Matrix) : Type 0 where
  pub runs : bump m i (pos q) ≡ some m'
  pub square : IsSquare n m'
  pub row : (k : ℕ) → row_sum m' k ≡ row_sum m k + hit i k
  pub column : (j : ℕ) → col_sum m' j ≡ col_sum m j + hit q j

All-set :
    {A : Type 0} (P : A → Type 0) (xs : List A) (i : ℕ) (v : A)
    → P v
    → All P xs
    → All P (set xs i v)
All-set P [] i v p h = tt
All-set P (x ∷ xs) zero v p h = (p, h.1)
All-set P (x ∷ xs) (suc i) v p h = (h.0, All-set P xs i v p h.1)

pub bump_lem :
    (n : ℕ) (m : Matrix) (i q : ℕ)
    → IsSquare n m
    → i < n
    → q < n
    → (m' : Matrix) × Bumped n m i q m'
unfolding bump
bump_lem n m i q sq hi hq =
    let rows : i < length m = omega (arith, sq.rows) in
    let row = get_or m i [] in
    let at_row : get_elem? m i ≡ some row = get_elem?-get_or m i [] rows in
    let len : length row ≡ n = All-get (λ r. length r ≡ n) m i sq.columns at_row in
    let short : q < length row = omega (arith, len) in
    let v = get_or row q 0 in
    let at_v : get_elem? row q ≡ some v = get_elem?-get_or row q 0 short in
    let row' = set row q (v + 1) in
    let m' : Matrix = set m i row' in
    let grown = sum_by-set (λ x. x) row q (v + 1) 0 short in
    (
      m',
      record {
        runs = rw (at_row, at_v) refl;
        square = record {
          rows = length-set m i row' ∙ sq.rows;
          columns =
              All-set (λ r. length r ≡ n) m i row' (length-set row q (v + 1) ∙ len) sq.columns;
        };
        row = λ k.
            let at_k = get_or-set m i k row' [] rows in
            elim (Bool-cases (i == k)) [
              | inl same ↦
                  let e : i ≡ k = ground (arith, same) in
                  let found : get_or m' k [] ≡ row' = at_k ∙ rw same refl in
                  rw (found, same, ← e) (omega (arith, grown))
              | inr apart ↦
                  let found : get_or m' k [] ≡ get_or m k [] = at_k ∙ rw apart refl in
                  rw (found, apart) (omega arith)
            ];
        column = λ j.
            let traded = sum_by-set (λ r. get_or r j 0) m i row' [] rows in
            let at_j = get_or-set row q j (v + 1) 0 short in
            elim (Bool-cases (q == j)) [
              | inl same ↦
                  let e : q ≡ j = ground (arith, same) in
                  let here : get_or row' j 0 ≡ v + 1 = at_j ∙ rw same refl in
                  let old : get_or row j 0 ≡ v = rw e refl in
                  rw same (omega (arith, traded, here, old))
              | inr apart ↦
                  let here : get_or row' j 0 ≡ get_or row j 0 = at_j ∙ rw apart refl in
                  rw apart (omega (arith, traded, here))
            ];
      },
    )

zeros-columns : (k n : ℕ) → All (λ (row : List ℕ). length row ≡ n) (replicate k (replicate n 0))
zeros-columns zero n = tt
zeros-columns (suc k) n = (length-replicate {A = ℕ} n 0, zeros-columns k n)

pub new_rank_matrix-IsSquare : (n : ℕ) → IsSquare n (new_rank_matrix n)
unfolding new_rank_matrix
new_rank_matrix-IsSquare n = record {
  rows = length-replicate {A = List ℕ} n (replicate n 0);
  columns = zeros-columns n n;
}

get_or-zeros : (n j : ℕ) → get_or {A = ℕ} (replicate n 0) j 0 ≡ 0
get_or-zeros zero j = refl
get_or-zeros (suc n) zero = refl
get_or-zeros (suc n) (suc j) = get_or-zeros n j

row-zeros : (k n i : ℕ) → row_sum (replicate k (replicate n 0)) i ≡ 0
row-zeros zero n i = refl
row-zeros (suc k) n zero = sum_by-replicate (λ v. v) n 0 refl
row-zeros (suc k) n (suc i) = row-zeros k n i

pub new_rank_matrix-sums :
    (n i : ℕ) → (row_sum (new_rank_matrix n) i ≡ 0) × (col_sum (new_rank_matrix n) i ≡ 0)
unfolding new_rank_matrix
new_rank_matrix-sums n i =
    (row-zeros n n i, sum_by-replicate (λ row. get_or row i 0) n (replicate n 0) (get_or-zeros n i))
