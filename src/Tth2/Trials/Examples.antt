-- ===== src/Tth2/Trials/Examples.antt =====
-- Tallies of two requests: a complete trial, a reset one and a warmup.
use tturl.Common.{
  ℕ, ◌+◌, ◌≡◌, refl, arith, Bool, true, false, Option, some, none, List, [], ◌∷◌, All, sum_by,
}
use tturl.Common.Int.{ℤ, pos}
use tturl.Tth2.Result.{Result, BatchResult}
use tturl.Tth2.Trials.{Trial, TrialSummary, new_trial_summary, tally_all}
use tturl.Tth2.Trials.Counts.{IsTrial}
use tturl.Tth2.Trials.Tally.{IsTallied, measured, tally_all-IsTallied}

abbrev result : Option ℕ → ℤ → Result ℕ
result response rank = record {
  response = response;
  arrival_rank = rank;
  reset = none;
  arrival_seq = pos 0;
  stream_id = 1;
}

abbrev batch_of : List (Result ℕ) → List ℕ → BatchResult ℕ
batch_of results order = record { connection = 0; results = results; arrival_order = order }

abbrev trial_of : BatchResult ℕ → Bool → Bool → Trial ℕ
trial_of batch warmup failed = record {
  batch = batch;
  arrangement = 1 ∷ 0 ∷ [];
  index = pos 0;
  cycle = pos 0;
  shift = pos 1;
  conn = 0;
  warmup = warmup;
  failed = failed;
}

-- The second request answered first, and was sent first.
abbrev three_trials : List (Trial ℕ)
three_trials =
    trial_of (batch_of (result (some 7) (pos 1) ∷ result (some 8) (pos 0) ∷ []) (1 ∷ 0 ∷ [])) false
      false
    ∷ trial_of (batch_of [] []) false true
    ∷ trial_of (batch_of [] []) true true
    ∷ []

three_tallied :
    tally_all (new_trial_summary 2) three_trials
    ≡ some (record {
      trials = 1;
      rank_counts = (0 ∷ 1 ∷ []) ∷ (1 ∷ 0 ∷ []) ∷ [];
      position_rank_counts = (1 ∷ 0 ∷ []) ∷ (0 ∷ 1 ∷ []) ∷ [];
      failed_trials = 1;
      reset_counts = 0 ∷ 0 ∷ [];
    })
unfolding new_trial_summary tally_all
three_tallied = refl

three_trials-IsTrial : All (λ (t : Trial ℕ). t.warmup ≡ false → IsTrial 2 t) three_trials
three_trials-IsTrial = (
  λ _. record { sized = omega arith; complete = λ _. refl; arranged = (λ a. omega arith, refl) },
  (
    λ _. record { sized = omega arith; complete = λ e. cc; arranged = (λ a. omega arith, refl) },
    (λ e. cc, tt),
  ),
)

tally_all-IsTallied_example :
    (s : TrialSummary) × (tally_all (new_trial_summary 2) three_trials ≡ some s)
    × IsTallied 2 s
    × (s.trials + s.failed_trials ≡ sum_by measured three_trials)
tally_all-IsTallied_example = tally_all-IsTallied 2 three_trials three_trials-IsTrial
