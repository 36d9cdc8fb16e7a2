-- ===== src/Tth2/Flow/Credit.antt =====
-- Any sequence of calls on the send credit of a batch: none panics, the windows stay in range, and
-- the bytes sent never exceed the connection's window and what the peer added to it.
use tturl.Common.{
  ℕ, ◌+◌, ◌≤◌, ◌<◌, ◌≡◌, refl, ◌∙◌, Option, some, List, [], ◌∷◌, length, All, arith, if◌then◌else◌,
  ◌>>=◌,
}
use tturl.Common.Int.{ℤ, pos, pos_part}
use tturl.Tth2.Flow.{
  FlowControl, take, reserve, add_stream, apply_init_delta, add_connection_send_credit,
  max_initial_window_size,
}
use tturl.Tth2.Flow.Windows.{
  IsSound, Moves, take-Moves, add_stream-Moves, apply_init_delta-Moves,
  add_connection_send_credit-Moves,
}
use tturl.Tth2.Flow.Reserve.{IsNeed, demand, reserved, reserve-Moves}

-- A call by the sender, or by the read pump for a frame of the peer.
pub data FlowOp : Type 0 where
  takes : (idx : ℕ) (want : ℤ) → FlowOp
  reserves : (needs : List ℤ) → FlowOp
  adds : (sid n : ℕ) → FlowOp
  adjusts : (delta : ℤ) → FlowOp
  credits : (n : ℕ) → FlowOp

-- A state, the bytes sent and the bytes added to the connection's window.
pub record Progress : Type 0 where
  pub flow : FlowControl
  pub sent : ℕ
  pub added : ℕ

unfoldable pub apply_flow_op : FlowControl → FlowOp → Option Progress
unfolding take reserve add_stream apply_init_delta add_connection_send_credit
apply_flow_op f (takes idx want) = do
  r ← take f idx want
  some (record { flow = r.0; sent = pos_part r.1; added = 0 })
apply_flow_op f (reserves needs) = do
  r ← reserve f needs
  some (record { flow = r.0; sent = reserved r.1 needs; added = 0 })
apply_flow_op f (adds sid n) =
    some (record { flow = (add_stream f sid (pos n)).0; sent = 0; added = 0 })
apply_flow_op f (adjusts delta) =
    some (record { flow = (apply_init_delta f delta).0; sent = 0; added = 0 })
apply_flow_op f (credits n) =
    let r = add_connection_send_credit f (pos n) in
    some (record { flow = r.0; sent = 0; added = if r.1 then n else 0 })

unfoldable pub run_flow : FlowControl → List FlowOp → Option Progress
unfolding apply_flow_op
run_flow f [] = some (record { flow = f; sent = 0; added = 0 })
run_flow f (op ∷ ops) = do
  p ← apply_flow_op f op
  q ← run_flow p.flow ops
  some (record { flow = q.flow; sent = p.sent + q.sent; added = p.added + q.added })

-- The sender names streams of its batch, and plans no more than one record at a time.
abbrev pub IsAdmissible : ℕ → FlowOp → Type 0
IsAdmissible width (takes idx want) = idx < width
IsAdmissible width (reserves needs) =
    All IsNeed needs × (length needs ≤ width) × (demand needs ≤ max_initial_window_size)
IsAdmissible width (adds sid n) = Unit
IsAdmissible width (adjusts delta) = Unit
IsAdmissible width (credits n) = Unit

apply_flow_op-Moves :
    (f : FlowControl) (op : FlowOp)
    → IsSound f
    → IsAdmissible (length f.stream_ids) op
    → (p : Progress) × (apply_flow_op f op ≡ some p) × Moves f p.flow p.sent p.added
unfolding apply_flow_op
apply_flow_op-Moves f (takes idx want) s h =
    let (f', sent, e, m) = take-Moves f idx want s (rw s.same_length h) in
    (record { flow = f'; sent = pos_part sent; added = 0 }, rw e refl, m)
apply_flow_op-Moves f (reserves needs) s h =
    let (f', ok, e, m) = reserve-Moves f needs s h.0 (rw s.same_length h.1) h.2 in
    (record { flow = f'; sent = reserved ok needs; added = 0 }, rw e refl, m)
apply_flow_op-Moves f (adds sid n) s h = (_, refl, add_stream-Moves f sid n s)
apply_flow_op-Moves f (adjusts delta) s h = (_, refl, apply_init_delta-Moves f delta s)
apply_flow_op-Moves f (credits n) s h = (_, refl, add_connection_send_credit-Moves f n s)

run_flow-Moves :
    (f : FlowControl) (ops : List FlowOp)
    → IsSound f
    → All (IsAdmissible (length f.stream_ids)) ops
    → (p : Progress) × (run_flow f ops ≡ some p) × Moves f p.flow p.sent p.added
unfolding run_flow
run_flow-Moves f [] s h = (_, refl, record { sound = s; same_ids = refl; balance = refl })
run_flow-Moves f (op ∷ ops) s h =
    let (p, e, m) = apply_flow_op-Moves f op s h.0 in
    let (q, e', m') = run_flow-Moves p.flow ops m.sound (rw m.same_ids h.1) in
    let all : Progress = record {
      flow = q.flow;
      sent = p.sent + q.sent;
      added = p.added + q.added;
    } in
    (
      all,
      rw (e, e') refl,
      record {
        sound = m'.sound;
        same_ids = m'.same_ids ∙ m.same_ids;
        balance = omega (arith, m.balance, m'.balance);
      },
    )

-- Calls on sound windows, each for streams of the batch and within one record, all return and leave
-- sound windows, and they send at most the first window of the connection plus all that was added
-- to it.
pub run_flow-sent :
    (f : FlowControl) (ops : List FlowOp)
    → IsSound f
    → All (IsAdmissible (length f.stream_ids)) ops
    → (p : Progress) × (run_flow f ops ≡ some p)
      × IsSound p.flow
      × (p.sent ≤ pos_part f.conn_window + p.added)
run_flow-sent f ops s h =
    let (p, e, m) = run_flow-Moves f ops s h in (p, e, m.sound, omega (arith, m.balance))
