-- ===== src/Tth2/Trials.antt =====
-- tth2/trials.go and tth2/trialstream.go: the summary of a trial stream and its tally. A slice index
-- out of range is the source's panic, `none`; the mutex is held for a whole tally.
pub mod Matrices
pub mod Ranks
pub mod Counts
pub mod Tally
mod Examples
use tturl.Common.{
  ℕ, suc, ◌+◌, Bool, true, false, ◌||◌, Option, none, some, List, [], ◌∷◌, get_elem?, set,
  replicate, if◌then◌else◌, ◌>>=◌,
}
use tturl.Common.Int.{ℤ, pos, negsuc}
use tturl.Tth2.Result.{Result, BatchResult, is_some, full_arrival_order}

abbrev pub Matrix : Type 0
Matrix = List (List ℕ)

unfoldable pub new_rank_matrix : ℕ → Matrix
new_rank_matrix n = replicate n (replicate n 0)

pub record TrialSummary : Type 0 where
  pub trials : ℕ
  pub rank_counts : Matrix
  pub position_rank_counts : Matrix
  pub failed_trials : ℕ
  pub reset_counts : List ℕ

unfoldable pub new_trial_summary : ℕ → TrialSummary
unfolding new_rank_matrix
new_trial_summary n = record {
  trials = 0;
  rank_counts = new_rank_matrix n;
  position_rank_counts = new_rank_matrix n;
  failed_trials = 0;
  reset_counts = replicate n 0;
}

-- `noCoord` is -1: a warmup's index, and the cycle and shift of a policy without cycles.
pub record Trial (R : Type 0) : Type 0 where
  pub batch : BatchResult R
  pub arrangement : List ℕ
  pub index : ℤ
  pub cycle : ℤ
  pub shift : ℤ
  pub conn : ℕ
  pub warmup : Bool
  pub failed : Bool  -- `Err` is not nil

-- `m[i][rank]++`
unfoldable pub bump : Matrix → ℕ → ℤ → Option Matrix
bump m i (negsuc k) = none
bump m i (pos rank) = do
  row ← get_elem? m i
  v ← get_elem? row rank
  some (set m i (set row rank (v + 1)))

module _ {R : Type 0} where
  -- The loop over the results of a failed trial.
  unfoldable pub count_resets : ℕ → List (Result R) → List ℕ → Option (List ℕ)
  count_resets i [] counts = some counts
  count_resets i (r ∷ rs) counts =
      let skip = count_resets (suc i) rs counts in
      if is_some r.reset
      then (get_elem? counts i >>= λ c. count_resets (suc i) rs (set counts i (c + 1)))
      else skip

  unfoldable pub count_ranks : ℕ → List (Result R) → Matrix → Option Matrix
  unfolding bump
  count_ranks i [] m = some m
  count_ranks i (r ∷ rs) m = bump m i r.arrival_rank >>= λ m'. count_ranks (suc i) rs m'

  unfoldable pub count_positions : ℕ → List ℕ → List (Result R) → Matrix → Option Matrix
  unfolding bump
  count_positions position [] results m = some m
  count_positions position (i ∷ is) results m = do
    r ← get_elem? results i
    m' ← bump m position r.arrival_rank
    count_positions (suc position) is results m'

  unfoldable pub tally : TrialSummary → Trial R → Option TrialSummary
  unfolding count_resets count_ranks count_positions full_arrival_order
  tally s t =
      if t.warmup
      then some s
      else if t.failed || (if is_some (full_arrival_order t.batch) then false else true)
      then (count_resets 0 t.batch.results s.reset_counts >>= λ resets.
          some (record s { failed_trials = s.failed_trials + 1; reset_counts = resets }))
      else (count_ranks 0 t.batch.results s.rank_counts >>= λ ranks.
          count_positions 0 t.arrangement t.batch.results s.position_rank_counts >>= λ positions.
          some (record s {
            trials = s.trials + 1;
            rank_counts = ranks;
            position_rank_counts = positions;
          }))

  unfoldable pub tally_all : TrialSummary → List (Trial R) → Option TrialSummary
  unfolding tally
  tally_all s [] = some s
  tally_all s (t ∷ ts) = tally s t >>= λ s'. tally_all s' ts
