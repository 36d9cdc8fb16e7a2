-- ===== src/Tth2/Result.antt =====
-- tth2/result.go: the outcome of one batch, dense arrival ranks and the arrival order. What a
-- response holds is a parameter. A panic of the source is `none`.
pub mod Sorting
pub mod Collecting
pub mod Assigning
pub mod Ranks
pub mod FullOrder
pub mod Returns
mod Examples
use tturl.Common.{
  ℕ, zero, suc, ◌≡◌, Bool, true, false, Option, none, some, List, [], ◌∷◌, length, get_elem?, set,
  ◌&&◌, ◌==◌, if◌then◌else◌, ◌>>=◌,
}
use tturl.Common.Int.{ℤ, pos, negsuc, ltb_ℤ, eqb_ℤ}

pub record StreamError : Type 0 where
  pub stream_id : ℕ
  pub code : ℕ

pub record Result (R : Type 0) : Type 0 where
  pub response : Option R
  pub arrival_rank : ℤ
  pub reset : Option StreamError
  pub arrival_seq : ℤ
  pub stream_id : ℕ

pub record BatchResult (R : Type 0) : Type 0 where
  pub connection : ℕ
  pub results : List (Result R)
  pub arrival_order : List ℕ

abbrev pub is_some {ℓ} : {A : Type ℓ} → Option A → Bool
is_some none = false
is_some (some _) = true

module _ {R : Type 0} where
  unfoldable pub arrived : Result R → Bool
  arrived r = is_some r.response

  unfoldable pub all_arrived : List (Result R) → Bool
  unfolding arrived
  all_arrived [] = true
  all_arrived (r ∷ rs) = if arrived r then all_arrived rs else false

  unfoldable pub all_responses_arrived : BatchResult R → Bool
  unfolding all_arrived
  all_responses_arrived b = all_arrived b.results

  -- The loop of `FullArrivalOrder`: the request at each rank has that rank.
  unfoldable pub ranks_match : List (Result R) → ℕ → List ℕ → Bool
  ranks_match results rank [] = true
  ranks_match results rank (input ∷ rest) = elim (get_elem? results input) [
    | none ↦ false
    | some r ↦
        if eqb_ℤ r.arrival_rank (pos rank) then ranks_match results (suc rank) rest else false
  ]

  unfoldable pub full_arrival_order : BatchResult R → Option (List ℕ)
  unfolding all_responses_arrived ranks_match
  full_arrival_order b =
      if all_responses_arrived b && length b.arrival_order == length b.results
      then if ranks_match b.results 0 b.arrival_order then some b.arrival_order else none
      else none

  -- The first loop of `newBatchResult`: the indices of the responses, from `i` on.
  unfoldable pub collect : ℕ → List (Result R) → Option (List ℕ)
  unfolding arrived
  collect i [] = some []
  collect i (r ∷ rs) =
      let rest = collect (suc i) rs in
      if arrived r
      then (if ltb_ℤ r.arrival_seq (pos 0) then none else (rest >>= λ is. some (i ∷ is)))
      else (if is_some r.reset then rest else none)

  -- A stream that took no rank has rank -1.
  unfoldable pub unranked : Result R → Result R
  unfolding arrived
  unranked r = if arrived r then r else record r { arrival_rank = negsuc 0 }

  -- The sort key of an index; one out of range is never read.
  unfoldable pub seq_of : List (Result R) → ℕ → ℤ
  seq_of results i = elim (get_elem? results i) [ none ↦ pos 0 | some r ↦ r.arrival_seq ]

  unfoldable pub insert_by_seq : List (Result R) → ℕ → List ℕ → List ℕ
  unfolding seq_of
  insert_by_seq results i [] = i ∷ []
  insert_by_seq results i (j ∷ js) =
      if ltb_ℤ (seq_of results j) (seq_of results i)
      then j ∷ insert_by_seq results i js
      else i ∷ j ∷ js

  -- `sort.Slice` by `arrivalSeq`. It is not stable in the source; equal keys panic just below.
  unfoldable pub sort_by_seq : List (Result R) → List ℕ → List ℕ
  unfolding insert_by_seq
  sort_by_seq results [] = []
  sort_by_seq results (i ∷ is) = insert_by_seq results i (sort_by_seq results is)

  unfoldable pub no_duplicate_seq : List (Result R) → List ℕ → Bool
  unfolding seq_of
  no_duplicate_seq results [] = true
  no_duplicate_seq results (i ∷ []) = true
  no_duplicate_seq results (i ∷ j ∷ js) =
      if eqb_ℤ (seq_of results i) (seq_of results j)
      then false
      else no_duplicate_seq results (j ∷ js)

  -- `results[i].ArrivalRank = rank` along the order, from rank `rank` on.
  unfoldable pub assign_ranks : ℕ → List ℕ → List (Result R) → List (Result R)
  assign_ranks rank [] results = results
  assign_ranks rank (i ∷ is) results = assign_ranks (suc rank) is (elim (get_elem? results i) [
    | none ↦ results
    | some r ↦ set results i (record r { arrival_rank = pos rank })
  ])

  unfoldable pub mark_unranked : List (Result R) → List (Result R)
  unfolding unranked
  mark_unranked [] = []
  mark_unranked (r ∷ rs) = unranked r ∷ mark_unranked rs

  unfoldable pub new_batch_result : List (Result R) → Option (BatchResult R)
  unfolding collect mark_unranked sort_by_seq no_duplicate_seq assign_ranks
  new_batch_result results = do
    present ← collect 0 results
    let order = sort_by_seq results present
    if no_duplicate_seq results order
        then some (record {
          connection = 0;
          results = assign_ranks 0 order (mark_unranked results);
          arrival_order = order;
        })
        else none
