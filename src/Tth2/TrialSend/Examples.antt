-- ===== src/Tth2/TrialSend/Examples.antt =====
-- A trial that meets a dead pooled connection and loses a fresh one.
use tturl.Common.{◌≡◌, refl, arith, false, true, some, [], ◌∷◌}
use tturl.Tth2.TrialSend.{
  Turn, TrialEnd, batch_ok, batch_stale, warm_ok, warm_lost, warm_tolerated, delivered,
  replacement_failed, send_trial, take_turn,
}
use tturl.Tth2.TrialSend.Retries.{Ended, send_trial-Ended}

abbrev dead_in_pool : Turn
dead_in_pool = record {
  acquired = some false;
  stopping = false;
  warming = [];
  sending = batch_stale;
}

abbrev dies_in_priming : Turn
dies_in_priming = record {
  acquired = some true;
  stopping = false;
  warming =
      record { sending = warm_tolerated; emitted = true }
      ∷ record { sending = warm_lost; emitted = true }
      ∷ [];
  sending = batch_ok;
}

abbrev serves : Turn
serves = record {
  acquired = some true;
  stopping = false;
  warming = record { sending = warm_ok; emitted = true } ∷ [];
  sending = batch_ok;
}

replaced_once : send_trial 0 (dead_in_pool ∷ dies_in_priming ∷ serves ∷ []) ≡ some delivered
unfolding send_trial
replaced_once = refl

replaced_twice :
    send_trial 0 (dies_in_priming ∷ dies_in_priming ∷ serves ∷ []) ≡ some replacement_failed
unfolding send_trial
replaced_twice = refl

send_trial-Ended_example :
    (end : TrialEnd) × (send_trial 0 (dead_in_pool ∷ dies_in_priming ∷ serves ∷ []) ≡ some end)
    × Ended 0 (dead_in_pool ∷ dies_in_priming ∷ serves ∷ []) end
send_trial-Ended_example =
    send_trial-Ended (dead_in_pool ∷ dies_in_priming ∷ serves ∷ [])
      (unfold take_turn in omega arith)
