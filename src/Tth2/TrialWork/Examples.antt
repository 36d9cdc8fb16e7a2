-- ===== src/Tth2/TrialWork/Examples.antt =====
-- Two workers share two cycles of two requests; the second one stops in another run.
use tturl.Common.{ℕ, ◌≡◌, ◌*◌, refl, arith, some, none, List, [], ◌∷◌}
use tturl.Tth2.Arrangement.{Arranger, arrange_rotate, arrange_random, new_arranger}
use tturl.Tth2.Arrangement.Orders.{new_arranger-IsReady}
use tturl.Tth2.TrialWork.{
  Move, works, stops, run_moves, start_run, stream_conns, check_run_trials, uneven_cycles,
}
use tturl.Tth2.TrialWork.Cycles.{Rotates, placings, run_moves-balances}

-- The workers take the blocks in turn.
abbrev moves : List Move
moves =
    works 0
    ∷ works 1
    ∷ works 1
    ∷ works 0
    ∷ works 0
    ∷ works 1
    ∷ works 0
    ∷ works 1
    ∷ works 0
    ∷ works 1
    ∷ []

moves_sent : (run_moves 4 2 (start_run 2) moves).sent ≡ 3 ∷ 1 ∷ 0 ∷ 2 ∷ []
unfolding run_moves start_run
moves_sent = refl

-- A worker that stops leaves a trial unsent.
stopped_sent :
    (run_moves 4 2 (start_run 2) (works 0 ∷ works 1 ∷ works 1 ∷ stops 1 ∷ works 0 ∷ [])).sent
    ≡ 0 ∷ 2 ∷ []
unfolding run_moves start_run
stopped_sent = refl

conns_within_blocks : stream_conns 8 0 10 4 ≡ 3
unfolding stream_conns
conns_within_blocks = refl

uneven_refused : check_run_trials arrange_rotate 2 3 ≡ some uneven_cycles
unfolding check_run_trials
uneven_refused = refl

random_accepted : check_run_trials arrange_random 2 3 ≡ none
unfolding check_run_trials
random_accepted = refl

abbrev in_order : ℕ → Arranger
in_order c = new_arranger arrange_rotate 2

in_order-Rotates : (c : ℕ) → Rotates 2 (in_order c)
in_order-Rotates c = record {
  policy = unfold new_arranger in refl;
  size = unfold new_arranger in refl;
  ready = new_arranger-IsReady arrange_rotate 2;
}

run_moves-balances_example :
    placings in_order 2 (run_moves (2 * 2) 2 (start_run 2) moves).sent 0 1 ≡ 2
run_moves-balances_example =
    run_moves-balances in_order 2 in_order-Rotates 2 2 moves (omega arith) (omega arith)
      (unfold run_moves start_run in omega arith) (unfold run_moves start_run in (refl, (refl, tt)))
      0 1 (omega arith) (omega arith)
