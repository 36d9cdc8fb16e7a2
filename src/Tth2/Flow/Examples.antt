-- ===== src/Tth2/Flow/Examples.antt =====
-- The theorems on send credit (tth2/conn.go) at two streams.
use tturl.Common.{◌+◌, ◌≤◌, ◌≡◌, refl, some, true, false, List, [], ◌∷◌, arith, if◌then◌else◌, ◌&&◌}
use tturl.Common.Int.{pos, negsuc, ◌-ℤ◌, ◌+ℤ◌, leb_ℤ}
use tturl.Tth2.Flow.{FlowControl, new_flow_control, reserve, wrap_int32}
use tturl.Tth2.Flow.Windows.{IsSound}
use tturl.Tth2.Flow.Reserve.{covers, debited, demand, reserve_lem}
use tturl.Tth2.Flow.Credit.{
  FlowOp, takes, reserves, adds, adjusts, credits, Progress, run_flow, run_flow-sent,
}

abbrev fresh : FlowControl
fresh = record {
  conn_window = pos 100;
  max_frame = 16_384;
  stream = pos 60 ∷ pos 60 ∷ [];
  stream_ids = 1 ∷ 3 ∷ [];
  notified = false;
}

made : new_flow_control (pos 100) 16_384 60 (1 ∷ 3 ∷ []) ≡ fresh
unfolding new_flow_control
made = refl

fresh-IsSound : IsSound fresh
fresh-IsSound = record {
  conn_bounds = (omega arith, omega arith);
  stream_bounds = ((omega arith, omega arith), ((omega arith, omega arith), tt));
  same_length = refl;
}

reserve_lem_example :
    reserve fresh (pos 10 ∷ pos 60 ∷ [])
    ≡ some (
        if covers fresh.stream (pos 10 ∷ pos 60 ∷ [])
          && leb_ℤ (pos (demand (pos 10 ∷ pos 60 ∷ []))) fresh.conn_window
        then (
          record fresh {
            conn_window = pos 100 -ℤ pos (demand (pos 10 ∷ pos 60 ∷ []));
            stream = debited fresh.stream (pos 10 ∷ pos 60 ∷ []);
          },
          true,
        )
        else (fresh, false))
reserve_lem_example =
    reserve_lem fresh (pos 10 ∷ pos 60 ∷ []) (omega arith, (omega arith, tt)) (omega arith)
      (omega arith)

abbrev calls : List FlowOp
calls =
    takes 0 (pos 80)
    ∷ takes 1 (pos 80)
    ∷ adds 1 30
    ∷ adjusts (negsuc 19)
    ∷ credits 50
    ∷ reserves (pos 5 ∷ pos 0 ∷ [])
    ∷ takes 1 (pos 80)
    ∷ []

-- 60 and 40 bytes use the connection's window up; 5 more go out of the credit of 50.
calls_sent :
    run_flow fresh calls
    ≡ some (record {
      flow = record {
        conn_window = pos 45;
        max_frame = 16_384;
        stream = pos 5 ∷ pos 0 ∷ [];
        stream_ids = 1 ∷ 3 ∷ [];
        notified = true;
      };
      sent = 105;
      added = 50;
    })
unfolding run_flow ◌-ℤ◌ ◌+ℤ◌ wrap_int32
calls_sent = refl

run_flow-sent_example :
    (p : Progress) × (run_flow fresh calls ≡ some p) × IsSound p.flow × (p.sent ≤ 100 + p.added)
run_flow-sent_example = run_flow-sent fresh calls fresh-IsSound (
  omega arith,
  (
    omega arith,
    (
      tt,
      (tt, (tt, (((omega arith, (omega arith, tt)), omega arith, omega arith), (omega arith, tt)))),
    ),
  ),
)
