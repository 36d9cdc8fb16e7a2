-- ===== src/Tth2/Records.antt =====
-- tth2/conn.go: the plan of a TLS record that carries request bodies before their last bytes,
-- `planGreedyIntermediateRecordWithScratch`. A body is its length; `int32` caps and counts of sent
-- bytes are natural numbers, the connection's credit is signed, products are 128-bit as in the source.
pub mod Sizes
pub mod Residual
pub mod Search
pub mod Planning
pub mod Plans
mod Examples
use tturl.Common.{
  ℕ, zero, suc, ◌+◌, ◌-◌, ◌*◌, ◌/◌, ◌%◌, ◌^◌, max, min, ◌≡◌, Bool, true, false, ◌&&◌, ◌||◌, Option,
  none, some, List, [], ◌∷◌, length, get_or, set, replicate, ltb, leb, ◌==◌, if◌then◌else◌, ◌>>=◌,
}
use tturl.Common.Int.{ℤ, pos, pos_part, ltb_ℤ, leb_ℤ}
use tturl.Tth2.Body.{tls_record_plaintext_budget, http2_frame_header_size}

-- `bits.Mul64`: the high and the low word of a product.
abbrev pub mul64 : ℕ → ℕ → ℕ × ℕ
mul64 x y = (x * y / 2 ^ 64, x * y % 2 ^ 64)

-- `bits.Div64`: quotient and remainder, a panic if the divisor is 0 or at most the high word.
abbrev pub div64 : ℕ × ℕ → ℕ → Option (ℕ × ℕ)
div64 (hi, lo) y = let x = hi * 2 ^ 64 + lo in if leb y hi then none else some (x / y, x % y)

-- What the planner is given: for each stream the length of its body, what of it is sent and what may
-- go out now, and the streams that carry a body.
pub record Bodies : Type 0 where
  pub data_len : List ℕ
  pub sent : List ℕ
  pub caps : List ℕ
  pub carrying : List ℕ

unfoldable pub less_body_progress : Bodies → List ℕ → ℕ → ℕ → Bool
less_body_progress b plan x y =
    let done = λ (i : ℕ). get_or b.sent i 0 + get_or plan i 0 in
    let left = mul64 (done x) (get_or b.data_len y 0) in
    let right = mul64 (done y) (get_or b.data_len x 0) in
    ltb left.0 right.0 || ((left.0 == right.0) && ltb left.1 right.1)

unfoldable pub max_body_len : List ℕ → List ℕ → ℕ
max_body_len data_len [] = 0
max_body_len data_len (i ∷ is) = max (get_or data_len i 0) (max_body_len data_len is)

-- `bits.Len`, by halving: 64 halvings are enough for a `uint`.
unfoldable pub bits_len : ℕ → ℕ → ℕ
bits_len zero x = 0
bits_len (suc fuel) x = let rest = bits_len fuel (x / 2) in if x == 0 then 0 else suc rest

unfoldable pub progress_scale : Bodies → ℕ
unfolding bits_len max_body_len
progress_scale b = 2 ^ min (bits_len 64 (max_body_len b.data_len b.carrying)) 48

-- The loop that finds when a stream's next byte is due; `scratch` is the slice it writes to.
unfoldable pub first_progress : Bodies → ℕ → List ℕ → List ℕ → Option (List ℕ)
first_progress b scale [] scratch = some scratch
first_progress b scale (i ∷ is) scratch =
    let skip = first_progress b scale is scratch in
    if get_or b.caps i 0 == 0
    then skip
    else (div64 (mul64 (get_or b.sent i 0 + 1) scale) (get_or b.data_len i 0) >>= λ q.
        first_progress b scale is (set scratch i (if q.1 == 0 then q.0 else suc q.0)))

-- The bytes of one stream at a common progress, 0 where the source skips it. The quotient is that of
-- `bits.Div64`, whose divisor is positive and above the high word, since `progress` is at most `scale`.
unfoldable pub amount : Bodies → ℕ → List ℕ → ℕ → ℕ → ℕ
amount b scale first progress i =
    if (get_or b.caps i 0 == 0) || ltb progress (get_or first i 0)
    then 0
    else min (get_or b.caps i 0) (progress * get_or b.data_len i 0 / scale - get_or b.sent i 0)

-- `measure`: the payload and the bytes of the record at a common progress.
unfoldable pub measure : (ℕ → ℕ) → List ℕ → ℕ × ℕ
measure share [] = (0, 0)
measure share (i ∷ is) =
    let rest = measure share is in
    if share i == 0 then rest else (share i + rest.0, http2_frame_header_size + share i + rest.1)

-- `measure` with `write`: the plan.
unfoldable pub write_plan : (ℕ → ℕ) → List ℕ → List ℕ → List ℕ
write_plan share [] plan = plan
write_plan share (i ∷ is) plan =
    write_plan share is (if share i == 0 then plan else set plan i (share i))

abbrev pub is_feasible : ℤ → ℕ × ℕ → Bool
is_feasible conn_credit m = leb_ℤ (pos m.0) conn_credit && leb m.1 tls_record_plaintext_budget

-- The binary search for the greatest feasible progress.
unfoldable pub search_progress : (ℕ → Bool) → ℕ → ℕ → ℕ → ℕ
search_progress feasible zero low high = low
search_progress feasible (suc fuel) low high =
    let mid = low + (high - low + 1) / 2 in
    let rest =
      search_progress feasible fuel (if feasible mid then mid else low)
        (if feasible mid then high else mid - 1) in
    if ltb low high then rest else low

-- The variables of the residual pass.
pub record Draft : Type 0 where
  pub plan : List ℕ
  pub payload : ℕ
  pub record_bytes : ℕ

abbrev pub frame_cost : ℕ → ℕ
frame_cost planned = if planned == 0 then 1 + http2_frame_header_size else 1

abbrev pub is_eligible : Bodies → Draft → ℕ → Bool
is_eligible b d i =
    ltb (get_or d.plan i 0) (get_or b.caps i 0)
    && leb (d.record_bytes + frame_cost (get_or d.plan i 0)) tls_record_plaintext_budget

-- One turn of the loop that finds `best`.
abbrev pub better : (ℕ → ℕ → Bool) → ℕ → Option ℕ → Option ℕ
better less i none = some i
better less i (some best) = if less i best then some i else some best

unfoldable pub pick : (ℕ → Bool) → (ℕ → ℕ → Bool) → List ℕ → Option ℕ → Option ℕ
pick eligible less [] best = best
pick eligible less (i ∷ is) best =
    pick eligible less is (if eligible i then better less i best else best)

abbrev pub add_byte : Draft → ℕ → Draft
add_byte d i =
    let planned = get_or d.plan i 0 in
    record {
      plan = set d.plan i (planned + 1);
      payload = d.payload + 1;
      record_bytes = d.record_bytes + frame_cost planned;
    }

-- The residual pass: one byte at a time to the stream with the least progress, until there is none.
abbrev pub or_stop : Draft → (ℕ → Draft) → Option ℕ → Draft
or_stop d go none = d
or_stop d go (some best) = go best

unfoldable pub residual : Bodies → ℤ → ℕ → Draft → Draft
unfolding pick less_body_progress
residual b conn_credit zero d = d
residual b conn_credit (suc fuel) d =
    let rest =
      or_stop d (λ best. residual b conn_credit fuel (add_byte d best))
        (pick (is_eligible b d) (less_body_progress b d.plan) b.carrying none) in
    if ltb_ℤ (pos d.payload) conn_credit then rest else d

unfoldable pub common_progress : Bodies → ℤ → ℕ → List ℕ → ℕ
unfolding search_progress measure amount
common_progress b conn_credit scale first =
    search_progress
      (λ progress. is_feasible conn_credit (measure (amount b scale first progress) b.carrying))
      scale 0 scale

unfoldable pub first_draft : Bodies → (ℕ → ℕ) → Draft
unfolding measure write_plan
first_draft b share =
    let m = measure share b.carrying in
    record {
      plan = write_plan share b.carrying (replicate (length b.data_len) 0);
      payload = m.0;
      record_bytes = m.1;
    }

-- From the table of first progress on.
unfoldable pub plan_from : Bodies → ℤ → ℕ → List ℕ → Draft
unfolding common_progress amount first_draft residual
plan_from b conn_credit scale first =
    residual b conn_credit (pos_part conn_credit)
      (first_draft b (amount b scale first (common_progress b conn_credit scale first)))

-- A panic is `none`, a nil plan `some none`.
unfoldable pub plan_greedy_intermediate_record : Bodies → ℤ → List ℕ → Option (Option (List ℕ))
unfolding progress_scale first_progress plan_from
plan_greedy_intermediate_record b conn_credit scratch =
    first_progress b (progress_scale b) b.carrying scratch >>= λ first.
    let d = plan_from b conn_credit (progress_scale b) first in
    some (if d.payload == 0 then none else some d.plan)
