-- ===== src/Tth2/TrialWork/Once.antt =====
-- A run sends each trial at most once, and each trial below the limit if its workers finish.
use tturl.Common.{
  ℕ, zero, suc, ◌*◌, ◌≤◌, ◌<◌, ◌≡◌, refl, List, [], ◌∷◌, length, replicate, sum_by,
  sum_by-replicate, All, arith, ltb, upto, count-upto, count-upto_above, Bool-cases, inl, inr,
  subst, SameItems,
}
use tturl.Tth2.TrialWork.{Worker, between, finished, Move, run_moves, start_run}
use tturl.Tth2.TrialWork.Sharing.{pending, IsPlaced, IsShared, run_moves-IsShared}

start_run-IsShared : (max_trials unit conns : ℕ) → IsShared max_trials unit (start_run conns)
unfolding start_run
start_run-IsShared max_trials unit conns = record {
  shared = λ i.
      let idle = sum_by-replicate (pending max_trials unit i) conns between refl in
      let nothing : 0 * unit ≡ 0 = omega arith in ground (arith, idle, nothing);
  placed = placed_between conns;
}
  where
    placed_between :
        (conns : ℕ) → All (IsPlaced max_trials unit (0 * unit)) (replicate conns between)
    placed_between zero = tt
    placed_between (suc conns) = (tt, placed_between conns)

finished-idle :
    (max_trials unit i : ℕ) (ws : List Worker)
    → All (λ w. w ≡ finished) ws
    → sum_by (pending max_trials unit i) ws ≡ 0
finished-idle max_trials unit i [] h = refl
finished-idle max_trials unit i (w ∷ ws) h =
    let rest = finished-idle max_trials unit i ws h.1 in rw (h.0) (omega (arith, rest))

finished-drawn :
    (max_trials unit bound : ℕ) (ws : List Worker)
    → 0 < length ws
    → All (λ w. w ≡ finished) ws
    → All (IsPlaced max_trials unit bound) ws
    → max_trials ≤ bound
finished-drawn max_trials unit bound [] some_worker h p = absurd (omega arith)
finished-drawn max_trials unit bound (w ∷ ws) some_worker h p =
    subst (IsPlaced max_trials unit bound) (h.0) (p.0)

pub run_moves_complete :
    (max_trials unit conns : ℕ) (ms : List Move)
    → 0 < max_trials
    → 0 < unit
    → let r = run_moves max_trials unit (start_run conns) ms in
      0 < length r.workers
      → All (λ w. w ≡ finished) r.workers
      → SameItems r.sent (upto 0 max_trials)
run_moves_complete max_trials unit conns ms limited some_unit some_worker done i =
    let r = run_moves max_trials unit (start_run conns) ms in
    let ok =
      run_moves-IsShared max_trials unit limited some_unit (start_run conns) ms
        (start_run-IsShared max_trials unit conns) in
    let shared = ok.shared i in
    let idle = finished-idle max_trials unit i r.workers done in
    let all =
      finished-drawn max_trials unit (r.next_block * unit) r.workers some_worker done ok.placed in
    elim (Bool-cases (ltb i max_trials)) [
      | inl below ↦
          let lt : i < max_trials = ground (arith, below) in
          let one = count-upto i 0 max_trials (omega arith) (omega (arith, lt)) in
          ground (arith, shared, idle, all, one, lt)
      | inr above ↦
          let nothing = count-upto_above i 0 max_trials (ground (arith, above)) in
          ground (arith, shared, idle, above, nothing)
    ]
