-- ===== src/Tth2/Sending.antt =====
-- tth2/conn.go: one turn of the loop of `sendGreedyBodyPhase` that sends body bytes before their last: what
-- each stream may send by the flow control, and the plan of a record for it.
pub mod Reserving
mod Examples
use tturl.Common.{
  ℕ, ◌+◌, ◌-◌, min, Bool, ◌&&◌, ◌||◌, Option, none, some, List, [], ◌∷◌, length, get_or, set,
  replicate, ltb, leb, ◌==◌, if◌then◌else◌, ◌>>=◌,
}
use tturl.Common.Int.{ℤ, pos, pos_part, ltb_ℤ}
use tturl.Tth2.Flow.{FlowControl, available}
use tturl.Tth2.Body.{tls_record_plaintext_budget, http2_frame_header_size}
use tturl.Tth2.Records.{Bodies, measure, plan_greedy_intermediate_record}
use tturl.Tth2.Scarce.{plan_scarce_credit_record}

abbrev pub greedy_credit_record_floor : ℕ
greedy_credit_record_floor = 8_192

-- The bodies of a batch and what is sent of them.
pub record Sending : Type 0 where
  pub data_len : List ℕ
  pub sent : List ℕ
  pub carrying : List ℕ
  pub end_stream : Bool

-- `cap` of stream `i`, 0 where the source's is negative.
unfoldable pub cap_for : Sending → ℕ → List ℤ → ℕ → ℕ
cap_for s max_frame stream_credit i =
    let kept = if s.end_stream then 1 else 0 in
    let cap = min (get_or s.data_len i 0 - get_or s.sent i 0 - kept) max_frame in
    let credit = get_or stream_credit i (pos 0) in
    if ltb_ℤ credit (pos cap) then pos_part credit else cap

unfoldable pub fill_caps : Sending → ℕ → List ℤ → List ℕ → List ℕ → List ℕ
unfolding cap_for
fill_caps s max_frame stream_credit [] caps = caps
fill_caps s max_frame stream_credit (i ∷ is) caps =
    let cap = cap_for s max_frame stream_credit i in
    fill_caps s max_frame stream_credit is (if ltb 0 cap then set caps i cap else caps)

unfoldable pub bodies_of : Sending → ℕ → List ℤ → Bodies
unfolding fill_caps
bodies_of s peer_max_frame stream_credit =
    let max_frame = min peer_max_frame (tls_record_plaintext_budget - http2_frame_header_size) in
    record {
      data_len = s.data_len;
      sent = s.sent;
      caps = fill_caps s max_frame stream_credit s.carrying (replicate (length s.data_len) 0);
      carrying = s.carrying;
    }

-- The payload and the bytes that a plan adds to the record.
abbrev pub planned : Bodies → List ℕ → ℕ × ℕ
planned b plan = measure (λ i. get_or plan i 0) b.carrying

-- The scarce plan replaces the greedy one if it sends more, or as much in no more bytes.
unfoldable pub choose_plan : Bodies → List ℕ → Option (List ℕ) → List ℕ
unfolding measure
choose_plan b plan none = plan
choose_plan b plan (some scarce) =
    let old = planned b plan in
    let new = planned b scarce in
    if ltb old.0 new.0 || ((new.0 == old.0) && leb new.1 old.1) then scarce else plan

unfoldable pub improve_plan : Bodies → (ℕ → Bool) → ℤ → List ℕ → List ℕ
unfolding choose_plan measure plan_scarce_credit_record
improve_plan b lagging conn_credit plan =
    if ltb (planned b plan).1 greedy_credit_record_floor
    then choose_plan b plan (plan_scarce_credit_record b lagging conn_credit)
    else plan

abbrev pub improve_result : Bodies → (ℕ → Bool) → ℤ → Option (List ℕ) → Option (List ℕ)
improve_result b lagging conn_credit none = none
improve_result b lagging conn_credit (some plan) = some (improve_plan b lagging conn_credit plan)

-- `none` is a panic, `some none` a turn that waits for credit.
unfoldable pub next_plan :
    FlowControl → Sending → ℕ → (ℕ → Bool) → List ℕ → Option (Option (List ℕ))
unfolding available bodies_of plan_greedy_intermediate_record improve_plan
next_plan f s peer_max_frame lagging scratch =
    let credit = available f in
    let b = bodies_of s peer_max_frame credit.1 in
    plan_greedy_intermediate_record b credit.0 scratch >>= λ plan.
    some (improve_result b lagging credit.0 plan)
