-- ===== src/Tth2/Scarce.antt =====
-- tth2/conn.go: the plan of a TLS record when send credit is scarce, `planScarceCreditRecord`. The
-- comparison of floating-point progress that makes a stream lag behind is a parameter.
pub mod Loop
pub mod Plans
mod Examples
use tturl.Common.{
  ℕ, zero, suc, ◌+◌, ◌-◌, ◌/◌, max, min, Bool, true, false, ◌&&◌, ◌||◌, Option, none, some, List,
  [], ◌∷◌, length, get_or, set, replicate, ltb, leb, ◌==◌, if◌then◌else◌,
}
use tturl.Common.Int.{ℤ, pos_part}
use tturl.Tth2.Body.{tls_record_plaintext_budget, http2_frame_header_size}
use tturl.Tth2.Records.{Bodies, less_body_progress, pick}

unfoldable pub max_cap : Bodies → List ℕ → ℕ
max_cap b [] = 0
max_cap b (i ∷ is) = max (get_or b.caps i 0) (max_cap b is)

unfoldable pub min_useful_cap : Bodies → ℕ
unfolding max_cap
min_useful_cap b = min 64 (max_cap b b.carrying)

abbrev pub is_candidate : Bodies → (ℕ → Bool) → ℕ → Bool
is_candidate b lagging i =
    ltb 0 (get_or b.caps i 0) && (leb (min_useful_cap b) (get_or b.caps i 0) || lagging i)

unfoldable pub candidates : Bodies → (ℕ → Bool) → List ℕ → List ℕ
unfolding min_useful_cap
candidates b lagging [] = []
candidates b lagging (i ∷ is) =
    let rest = candidates b lagging is in if is_candidate b lagging i then i ∷ rest else rest

-- A thirty-second of the body, rounded up.
abbrev pub lead_budget : Bodies → ℕ → ℕ
lead_budget b i = max 1 ((get_or b.data_len i 0 + 31) / 32)

-- The variables of the loop.
pub record Spending : Type 0 where
  pub plan : List ℕ
  pub record_bytes : ℕ
  pub credit : ℕ

abbrev pub can_lead : Bodies → Spending → ℕ → Bool
can_lead b s i =
    let planned = get_or s.plan i 0 in
    if leb (get_or b.caps i 0) planned || leb (lead_budget b i) planned
    then false
    else if ltb tls_record_plaintext_budget (s.record_bytes + http2_frame_header_size + 1)
        && (planned == 0)
    then false
    else true

-- The bytes that the chosen stream gets: `amount`, 0 also where the source's is negative.
unfoldable pub chunk : Bodies → Spending → ℕ → ℕ
chunk b s best =
    let planned = get_or s.plan best 0 in
    let wanted =
      min s.credit (min (get_or b.caps best 0 - planned) (lead_budget b best - planned)) in
    if planned == 0
    then min wanted (tls_record_plaintext_budget - s.record_bytes - http2_frame_header_size)
    else min wanted (tls_record_plaintext_budget - s.record_bytes)

abbrev pub spend : Spending → ℕ → ℕ → Spending
spend s best n =
    let planned = get_or s.plan best 0 in
    record {
      plan = set s.plan best (planned + n);
      record_bytes =
          (if planned == 0 then s.record_bytes + http2_frame_header_size else s.record_bytes) + n;
      credit = s.credit - n;
    }

abbrev pub or_break : Spending → (ℕ → Spending) → Option ℕ → Spending
or_break s go none = s
or_break s go (some best) = go best

unfoldable pub spend_all : Bodies → List ℕ → ℕ → Spending → Spending
unfolding pick less_body_progress chunk
spend_all b chosen zero s = s
spend_all b chosen (suc fuel) s =
    let rest =
      or_break s
        (λ best.
          let n = chunk b s best in
          let next = spend_all b chosen fuel (spend s best n) in if n == 0 then s else next)
        (pick (can_lead b s) (less_body_progress b s.plan) chosen none) in
    if ltb 0 s.credit then rest else s

abbrev pub start : Bodies → ℤ → Spending
start b conn_credit = record {
  plan = replicate (length b.data_len) 0;
  record_bytes = 0;
  credit = pos_part conn_credit;
}

-- Every turn spends credit, so the credit is fuel enough.
unfoldable pub plan_scarce_credit_record : Bodies → (ℕ → Bool) → ℤ → Option (List ℕ)
unfolding candidates spend_all
plan_scarce_credit_record b lagging conn_credit =
    let s =
      spend_all b (candidates b lagging b.carrying) (pos_part conn_credit) (start b conn_credit) in
    if s.record_bytes == 0 then none else some s.plan
