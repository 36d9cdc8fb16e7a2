-- ===== src/Tth2/Flow.antt =====
-- tth2/conn.go: the send credit of one batch, the peer's SETTINGS, the stream IDs of a connection and
-- the payload of a response body. An `int32` or `uint32` is the integer it stands for, with its
-- wrap-around written out where the source narrows. A lock is held for a whole operation, so each
-- operation is one function of the state. An index out of range is the source's panic, `none`.
pub mod Credit
pub mod Windows
pub mod Reserve
mod Examples
use tturl.Common.{
  ℕ, zero, suc, ◌+◌, ◌-◌, ◌*◌, ◌%◌, ◌^◌, ◌≤◌, ◌<◌, ◌≡◌, Bool, true, false, not, ◌&&◌, ◌||◌, Option,
  none, some, List, [], ◌∷◌, map, length, get_elem?, set, ltb, leb, ◌==◌, if◌then◌else◌, ◌>>=◌,
}
use tturl.Common.Int.{ℤ, pos, negsuc, pos_part, neg_part, sub_ℕ, ◌+ℤ◌, ◌-ℤ◌, ltb_ℤ, leb_ℤ, eqb_ℤ}

abbrev pub max_data_frame_payload : ℕ
max_data_frame_payload = 16_384

abbrev pub max_initial_window_size : ℕ
max_initial_window_size = 2_147_483_647

abbrev pub max_max_frame_size : ℕ
max_max_frame_size = 16_777_215

abbrev pub max_stream_id : ℕ
max_stream_id = 2_147_483_647

abbrev pub min_int32 : ℤ
min_int32 = negsuc 2_147_483_647

-- The value of an `int32` after arithmetic that leaves its range.
unfoldable pub wrap_int32 : ℤ → ℤ
wrap_int32 a = sub_ℕ ((pos_part a + 2 ^ 31 + (2 ^ 32 - neg_part a % 2 ^ 32)) % 2 ^ 32) (2 ^ 31)

-- The window of the connection is an atomic of `http2conn` that its batches share.
pub record FlowControl : Type 0 where
  pub conn_window : ℤ
  pub max_frame : ℕ
  pub stream : List ℤ
  pub stream_ids : List ℕ
  pub notified : Bool  -- the channel `changed` holds its one item

unfoldable pub new_flow_control : ℤ → ℕ → ℕ → List ℕ → FlowControl
new_flow_control conn_window max_frame init stream_ids = record {
  conn_window = conn_window;
  max_frame = max_frame;
  stream = map (λ _. pos init) stream_ids;
  stream_ids = stream_ids;
  notified = false;
}

unfoldable pub notify : FlowControl → FlowControl
notify f = record f { notified = true }

abbrev pub min_ℤ : ℤ → ℤ → ℤ
min_ℤ a b = if ltb_ℤ b a then b else a

-- The debit of `take`: `want` capped by the frame size and by both windows.
unfoldable pub take_amount : FlowControl → ℤ → ℤ → ℤ
take_amount f window want = min_ℤ (min_ℤ (min_ℤ want (pos f.max_frame)) f.conn_window) window

unfoldable pub take : FlowControl → ℕ → ℤ → Option (FlowControl × ℤ)
unfolding take_amount
take f idx want = do
  window ← get_elem? f.stream idx
  let avail = take_amount f window want
  if leb_ℤ avail (pos 0)
      then some (f, pos 0)
      else some (
        record f {
          conn_window = f.conn_window -ℤ avail;
          stream = set f.stream idx (window -ℤ avail);
        },
        avail,
      )

-- The first loop of `reserve`, from a total: `none` when a stream lacks the credit it needs. A need
-- without a stream is an index out of range.
unfoldable pub needed : List ℤ → List ℤ → ℤ → Option (Option ℤ)
needed stream [] total = some (some total)
needed [] (n ∷ needs) total = if ltb_ℤ (pos 0) n then none else needed [] needs total
needed (w ∷ stream) (n ∷ needs) total =
    let covered = needed stream needs (wrap_int32 (total +ℤ n)) in
    let skipped = needed stream needs total in
    if ltb_ℤ (pos 0) n then (if ltb_ℤ w n then some none else covered) else skipped

-- The second loop of `reserve`.
unfoldable pub debit : List ℤ → List ℤ → Option (List ℤ)
debit stream [] = some stream
debit [] (n ∷ needs) = none
debit (w ∷ stream) (n ∷ needs) = do rest ← debit stream needs; some ((w -ℤ n) ∷ rest)

unfoldable pub reserve : FlowControl → List ℤ → Option (FlowControl × Bool)
unfolding needed debit
reserve f needs = needed f.stream needs (pos 0) >>= λ found. elim found [
  | none ↦ some (f, false)
  | some total ↦
      if ltb_ℤ f.conn_window total
      then some (f, false)
      else (debit f.stream needs >>= λ stream.
          some (record f { conn_window = f.conn_window -ℤ total; stream = stream }, true))
]

unfoldable pub available : FlowControl → ℤ × List ℤ
available f = (f.conn_window, f.stream)

-- What a WINDOW_UPDATE finds of the windows: the stream is not of this batch, its window would
-- exceed the limit, or it has these windows from now on.
pub data CreditOutcome : Type 0 where
  stale overflow : CreditOutcome
  credited : List ℤ → CreditOutcome

abbrev pub after_window : ℤ → CreditOutcome → CreditOutcome
after_window w stale = stale
after_window w overflow = overflow
after_window w (credited stream) = credited (w ∷ stream)

-- The loop of `addStream`. The two lists are as long: `newFlowControl` makes them so.
unfoldable pub credit_stream : List ℕ → List ℤ → ℕ → ℤ → CreditOutcome
credit_stream [] stream sid n = stale
credit_stream (s ∷ ids) [] sid n = stale
credit_stream (s ∷ ids) (w ∷ stream) sid n =
    let rest = credit_stream ids stream sid n in
    if s == sid
    then (if ltb_ℤ (pos max_initial_window_size) (w +ℤ n)
        then overflow
        else credited ((w +ℤ n) ∷ stream))
    else after_window w rest

-- The Boolean is true when no error is returned.
unfoldable pub after_credit : FlowControl → CreditOutcome → FlowControl × Bool
unfolding notify
after_credit f stale = (f, true)
after_credit f overflow = (f, false)
after_credit f (credited stream) = (notify (record f { stream = stream }), true)

unfoldable pub add_stream : FlowControl → ℕ → ℤ → FlowControl × Bool
unfolding credit_stream after_credit
add_stream f sid n = after_credit f (credit_stream f.stream_ids f.stream sid n)

unfoldable pub adjustable : List ℤ → ℤ → Bool
adjustable [] delta = true
adjustable (w ∷ stream) delta =
    let rest = adjustable stream delta in
    if ltb_ℤ (pos max_initial_window_size) (w +ℤ delta) || ltb_ℤ (w +ℤ delta) min_int32
    then false
    else rest

unfoldable pub apply_init_delta : FlowControl → ℤ → FlowControl × Bool
unfolding adjustable notify
apply_init_delta f delta =
    if eqb_ℤ delta (pos 0)
    then (f, true)
    else if adjustable f.stream delta
    then (notify (record f { stream = map (λ w. w +ℤ delta) f.stream }), true)
    else (f, false)

-- One turn of the loop is enough where no one else writes the window in between.
unfoldable pub add_connection_send_credit : FlowControl → ℤ → FlowControl × Bool
add_connection_send_credit f increment =
    if ltb_ℤ (pos max_initial_window_size) (f.conn_window +ℤ increment)
    then (f, false)
    else (record f { conn_window = f.conn_window +ℤ increment }, true)
