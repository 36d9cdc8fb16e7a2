-- ===== src/Tth2/Trials/Tally.antt =====
-- A tally counts each measured trial once, and a complete one once in every row and every column.
use tturl.Common.{
  ℕ, suc, ◌+◌, ◌≤◌, ◌≡◌, refl, ◌∙◌, sym, ◌||◌, Option, some, List, [], ◌∷◌, length, set, All, arith,
  if◌then◌else◌, Bool-cases, Option-cases, inl, inr, true, false, length-set, length-replicate,
  get_elem?-some, sum_by, subst,
}
use tturl.Tth2.Result.{Result, is_some, full_arrival_order}
use tturl.Tth2.Trials.{
  Trial, new_rank_matrix, TrialSummary, new_trial_summary, count_resets, tally, tally_all,
}
use tturl.Tth2.Trials.Matrices.{new_rank_matrix-IsSquare, new_rank_matrix-sums}
use tturl.Tth2.Trials.Ranks.{count_positions-arrange}
use tturl.Tth2.Trials.Counts.{IsBalanced, IsTrial, counted-IsBalanced, full_counts}

pub record IsTallied (n : ℕ) (s : TrialSummary) : Type 0 where
  pub ranks : IsBalanced n s.trials s.rank_counts
  pub positions : IsBalanced n s.trials s.position_rank_counts
  pub resets : length s.reset_counts ≡ n

zeros-IsBalanced : (n : ℕ) → IsBalanced n 0 (new_rank_matrix n)
zeros-IsBalanced n = record {
  square = new_rank_matrix-IsSquare n;
  rows = λ k lt. (new_rank_matrix-sums n k).0;
  columns = λ j lt. (new_rank_matrix-sums n j).1;
}

new_trial_summary-IsTallied : (n : ℕ) → IsTallied n (new_trial_summary n)
unfolding new_trial_summary
new_trial_summary-IsTallied n = record {
  ranks = zeros-IsBalanced n;
  positions = zeros-IsBalanced n;
  resets = length-replicate {A = ℕ} n 0;
}

new_totals :
    (n more k : ℕ)
    → k ≡ (new_trial_summary n).trials + (new_trial_summary n).failed_trials + more
    → k ≡ more
unfolding new_trial_summary
new_totals n more k h = omega (arith, h)

abbrev pub Tallied : ℕ → TrialSummary → ℕ → Option TrialSummary → Type 0
Tallied n s more o =
    (s' : TrialSummary) × (o ≡ some s')
    × IsTallied n s'
    × (s'.trials + s'.failed_trials ≡ s.trials + s.failed_trials + more)

module _ {R : Type 0} where
  count_resets-returns :
      (i : ℕ) (rs : List (Result R)) (counts : List ℕ)
      → i + length rs ≤ length counts
      → (counts' : List ℕ) × (count_resets i rs counts ≡ some counts')
        × (length counts' ≡ length counts)
  unfolding count_resets
  count_resets-returns i [] counts h = (counts, refl, refl)
  count_resets-returns i (r ∷ rs) counts h = elim (Bool-cases (is_some r.reset)) [
    | inl reset ↦
        let (c, at_i) = get_elem?-some counts i (omega arith) in
        let same = length-set counts i (c + 1) in
        let (counts', e, len) =
          count_resets-returns (suc i) rs (set counts i (c + 1)) (omega (arith, same)) in
        (counts', rw (reset, at_i) e, len ∙ same)
    | inr kept ↦
        let (counts', e, len) = count_resets-returns (suc i) rs counts (omega arith) in
        (counts', rw kept e, len)
  ]

  -- What a tally of one trial does to the two totals.
  abbrev pub measured : Trial R → ℕ
  measured t = if t.warmup then 0 else 1

  tally_failed :
      (n : ℕ) (s : TrialSummary) (t : Trial R)
      → IsTallied n s
      → IsTrial n t
      → t.warmup ≡ false
      → (t.failed || (if is_some (full_arrival_order t.batch) then false else true)) ≡ true
      → Tallied n s 1 (tally s t)
  unfolding tally
  tally_failed n s t ok trial cold failed =
      let (counts, e, len) =
        count_resets-returns 0 t.batch.results s.reset_counts
          (omega (arith, trial.sized, ok.resets)) in
      let s' : TrialSummary = record s {
        failed_trials = s.failed_trials + 1;
        reset_counts = counts;
      } in
      let tallied : IsTallied n s' = record {
        ranks = ok.ranks;
        positions = ok.positions;
        resets = len ∙ ok.resets;
      } in
      (s', rw (cold, failed, e) refl, tallied, omega arith)

  tally_full :
      (n : ℕ) (s : TrialSummary) (t : Trial R) (order : List ℕ)
      → IsTallied n s
      → IsTrial n t
      → t.warmup ≡ false
      → t.failed ≡ false
      → full_arrival_order t.batch ≡ some order
      → Tallied n s 1 (tally s t)
  unfolding tally
  tally_full n s t order ok trial cold good e =
      let len = trial.complete good in
      let (laid, runs, size, held, held') = full_counts n t order trial len e in
      let (ranks, e1, b1) =
        counted-IsBalanced n s.trials t.batch.results s.rank_counts ok.ranks len held in
      let (positions, e2, b2) =
        counted-IsBalanced n s.trials laid s.position_rank_counts ok.positions size held' in
      let same =
        count_positions-arrange 0 t.batch.results t.arrangement laid s.position_rank_counts runs in
      let s' : TrialSummary = record s {
        trials = s.trials + 1;
        rank_counts = ranks;
        position_rank_counts = positions;
      } in
      let tallied : IsTallied n s' = record { ranks = b1; positions = b2; resets = ok.resets } in
      (s', rw (cold, good, e, e1, same, e2) refl, tallied, omega arith)

  tally_warmup :
      (n : ℕ) (s : TrialSummary) (t : Trial R)
      → IsTallied n s
      → t.warmup ≡ true
      → Tallied n s 0 (tally s t)
  unfolding tally
  tally_warmup n s t ok warm = (s, rw warm refl, ok, omega arith)

  tally-Tallied :
      (n : ℕ) (s : TrialSummary) (t : Trial R)
      → IsTallied n s
      → (t.warmup ≡ false → IsTrial n t)
      → Tallied n s (measured t) (tally s t)
  tally-Tallied n s t ok trial = elim (Bool-cases t.warmup) [
    | inl warm ↦
        let none_more : measured t ≡ 0 = ground (arith, warm) in
        subst (λ k. Tallied n s k (tally s t)) (sym none_more) (tally_warmup n s t ok warm)
    | inr cold ↦
        let one_more : measured t ≡ 1 = ground (arith, cold) in
        subst (λ k. Tallied n s k (tally s t)) (sym one_more)
          (elim (Bool-cases t.failed) [
            | inl bad ↦ tally_failed n s t ok (trial cold) cold (rw bad refl)
            | inr good ↦ elim (Option-cases (full_arrival_order t.batch)) [
              | inl partial ↦ tally_failed n s t ok (trial cold) cold (rw (good, partial) refl)
              | inr (order, e) ↦ tally_full n s t order ok (trial cold) cold good e
            ]
          ])
  ]

  tally_all-Tallied :
      (n : ℕ) (s : TrialSummary) (ts : List (Trial R))
      → IsTallied n s
      → All (λ t. t.warmup ≡ false → IsTrial n t) ts
      → Tallied n s (sum_by measured ts) (tally_all s ts)
  unfolding tally_all
  tally_all-Tallied n s [] ok all = (s, refl, ok, omega arith)
  tally_all-Tallied n s (t ∷ ts) ok all =
      let (s', e, ok', more) = tally-Tallied n s t ok all.0 in
      let (s'', e', ok'', more') = tally_all-Tallied n s' ts ok' all.1 in
      (s'', rw e e', ok'', omega (arith, more, more'))

  -- If each measured trial has an arrangement of the `n` requests and, unless it failed, a result for
  -- each of them, then tallying any sequence of trials from an empty summary never panics. Every
  -- measured trial counts once, as complete or as failed, warmups not at all; and in both matrices
  -- every row and every column sums to the number of complete trials.
  pub tally_all-IsTallied :
      (n : ℕ) (ts : List (Trial R))
      → All (λ t. t.warmup ≡ false → IsTrial n t) ts
      → (s : TrialSummary) × (tally_all (new_trial_summary n) ts ≡ some s)
        × IsTallied n s
        × (s.trials + s.failed_trials ≡ sum_by measured ts)
  tally_all-IsTallied n ts all =
      let (s, e, ok, more) =
        tally_all-Tallied n (new_trial_summary n) ts (new_trial_summary-IsTallied n) all in
      (s, e, ok, new_totals n (sum_by measured ts) (s.trials + s.failed_trials) more)
