-- ===== src/Tth2/Sending/Examples.antt =====
-- One turn of sending two bodies.
use tturl.Common.{◌≡◌, refl, some, [], ◌∷◌, false, true}
use tturl.Common.Int.{pos}
use tturl.Tth2.Flow.{FlowControl}
use tturl.Tth2.Sending.{Sending, next_plan}

abbrev two_windows : FlowControl
two_windows = record {
  conn_window = pos 30;
  max_frame = 16_384;
  stream = pos 20 ∷ pos 100 ∷ [];
  stream_ids = 1 ∷ 3 ∷ [];
  notified = false;
}

abbrev two_sendings : Sending
two_sendings = record {
  data_len = 40 ∷ 40 ∷ [];
  sent = 0 ∷ 0 ∷ [];
  carrying = 0 ∷ 1 ∷ [];
  end_stream = true;
}

-- The greedy plan shares the credit.
two_plans :
    next_plan two_windows two_sendings 16_384 (λ _. false) (0 ∷ 0 ∷ []) ≡ some (some (15 ∷ 15 ∷ []))
unfolding next_plan
two_plans = refl
