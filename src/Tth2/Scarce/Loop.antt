-- ===== src/Tth2/Scarce/Loop.antt =====
-- The loop of the planner for scarce credit keeps its bounds and ends.
use tturl.Common.{
  ℕ, zero, suc, ◌+◌, ◌≤◌, ◌<◌, ◌≡◌, ◌⊎◌, refl, sym, ◌∙◌, true, false, none, List, length, get_or,
  ltb, ◌==◌, arith, inl, inr, All, Bool-cases, Option-cases, length-set, length-replicate,
}
use tturl.Common.Int.{ℤ, pos_part}
use tturl.Tth2.Body.{tls_record_plaintext_budget}
use tturl.Tth2.Records.{Bodies, less_body_progress, pick}
use tturl.Tth2.Records.Sizes.{
  payload_of, size_of, frame_size, IsCapped, IsCapped-set, cap_of, total-set, get_or-below,
  get_or-replicate, total-replicate,
}
use tturl.Tth2.Records.Residual.{pick-eligible, pick-none}
use tturl.Tth2.Records.Planning.{AreBodies}
use tturl.Tth2.Scarce.{lead_budget, Spending, can_lead, chunk, spend, spend_all, start}

pub record IsSpending (b : Bodies) (conn_credit : ℤ) (s : Spending) : Type 0 where
  pub same_length : length s.plan ≡ length b.caps
  pub payload : payload_of s.plan + s.credit ≡ pos_part conn_credit
  pub size : s.record_bytes ≡ size_of s.plan
  pub capped : IsCapped (cap_of b) s.plan
  pub led : IsCapped (lead_budget b) s.plan
  pub in_record : s.record_bytes ≤ tls_record_plaintext_budget

-- The loop ends as the credit is spent, no stream may lead, or the record is full.
abbrev pub Spent : Bodies → List ℕ → Spending → Type 0
Spent b chosen s =
    (s.credit ≡ 0)
    ⊎ (All (λ i. can_lead b s i ≡ false) chosen ⊎ (s.record_bytes ≡ tls_record_plaintext_budget))

-- A chunk keeps to the credit, the cap, the lead and the record.
record IsChunk (b : Bodies) (s : Spending) (i n : ℕ) : Type 0 where
  in_credit : n ≤ s.credit
  capped : get_or s.plan i 0 + n ≤ get_or b.caps i 0
  led : get_or s.plan i 0 + n ≤ lead_budget b i
  in_record : (spend s i n).record_bytes ≤ tls_record_plaintext_budget

chunk-IsChunk :
    (b : Bodies) (s : Spending) (i : ℕ)
    → s.record_bytes ≤ tls_record_plaintext_budget
    → can_lead b s i ≡ true
    → IsChunk b s i (chunk b s i)
unfolding chunk
chunk-IsChunk b s i room can = record {
  in_credit = ground arith;
  capped = ground (arith, can);
  led = ground (arith, can);
  in_record = ground (arith, can, room);
}

-- The source breaks on an empty chunk only when the record is full.
chunk-none :
    (b : Bodies) (s : Spending) (i : ℕ)
    → s.record_bytes ≤ tls_record_plaintext_budget
    → can_lead b s i ≡ true
    → 0 < s.credit
    → chunk b s i ≡ 0
    → s.record_bytes ≡ tls_record_plaintext_budget
unfolding chunk
chunk-none b s i room can left empty = ground (arith, can, room, left, empty)

spend-IsSpending :
    (b : Bodies) (conn_credit : ℤ) (s : Spending) (i n : ℕ)
    → IsSpending b conn_credit s
    → 0 < n
    → IsChunk b s i n
    → IsSpending b conn_credit (spend s i n)
spend-IsSpending b conn_credit s i n ok positive part =
    let planned = get_or s.plan i 0 in
    let here : i < length s.plan =
      omega (arith, get_or-below b.caps i (omega (arith, part.capped, positive)), ok.same_length) in
    let grown = total-set (λ x. x) s.plan i (planned + n) here in
    let sized = total-set frame_size s.plan i (planned + n) here in
    let cost : (spend s i n).record_bytes + frame_size planned
        ≡ s.record_bytes + frame_size (planned + n) =
      ground (arith, positive) in
    record {
      same_length = length-set s.plan i (planned + n) ∙ ok.same_length;
      payload = omega (arith, ok.payload, grown, part.in_credit);
      size = omega (arith, ok.size, sized, cost);
      capped = IsCapped-set (cap_of b) s.plan i (planned + n) here part.capped ok.capped;
      led = IsCapped-set (lead_budget b) s.plan i (planned + n) here part.led ok.led;
      in_record = part.in_record;
    }

pub spend_all-Spent :
    (b : Bodies) (conn_credit : ℤ) (chosen : List ℕ) (fuel : ℕ) (s : Spending)
    → s.credit ≤ fuel
    → IsSpending b conn_credit s
    → let end = spend_all b chosen fuel s in IsSpending b conn_credit end × Spent b chosen end
unfolding spend_all
spend_all-Spent b conn_credit chosen zero s enough ok = (ok, inl (omega arith))
spend_all-Spent b conn_credit chosen (suc fuel) s enough ok =
    let eligible = can_lead b s in
    let less = less_body_progress b s.plan in
    elim (Bool-cases (ltb 0 s.credit)) [
      | inr spent ↦
          let none_left : s.credit ≡ 0 = ground (arith, spent) in rw spent (ok, inl none_left)
      | inl left ↦ elim (Option-cases (pick eligible less chosen none)) [
        | inl nobody ↦ rw (left, nobody) (ok, inr (inl (pick-none eligible less chosen nobody)))
        | inr (best, found) ↦
            let can = pick-eligible eligible less chosen none (λ c h. cc h) best found in
            let some_left : 0 < s.credit = ground (arith, left) in
            let n = chunk b s best in
            elim (Bool-cases (n == 0)) [
              | inl empty ↦
                  let full =
                    chunk-none b s best ok.in_record can some_left (ground (arith, empty)) in
                  rw (left, found, empty) (ok, inr (inr full))
              | inr filled ↦
                  let positive : 0 < n = ground (arith, filled) in
                  rw (left, found, filled)
                    (spend_all-Spent b conn_credit chosen fuel (spend s best n) (omega arith) (
                      spend-IsSpending b conn_credit s best n ok positive
                        (chunk-IsChunk b s best ok.in_record can)))
            ]
      ]
    ]

pub start-IsSpending :
    (b : Bodies) (conn_credit : ℤ) → AreBodies b → IsSpending b conn_credit (start b conn_credit)
start-IsSpending b conn_credit ok =
    let n = length b.data_len in
    let none_planned = λ (j : ℕ). get_or-replicate n j in
    record {
      same_length = length-replicate n 0 ∙ sym ok.same_length;
      payload = omega (arith, total-replicate (λ x. x) n refl);
      size = omega (arith, total-replicate frame_size n refl);
      capped = λ j. rw (none_planned j) (omega arith);
      led = λ j. rw (none_planned j) (omega arith);
      in_record = omega arith;
    }
