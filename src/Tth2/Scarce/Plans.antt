-- ===== src/Tth2/Scarce/Plans.antt =====
-- The plans of the planner for scarce credit.
use tturl.Common.{
  ℕ, ◌≤◌, ◌<◌, ◌≡◌, ◌⊎◌, refl, Bool, false, Option, none, some, List, [], ◌∷◌, get_or, leb, ◌==◌,
  arith, inl, inr, All, All-map, Bool-cases,
}
use tturl.Common.Int.{ℤ, pos_part}
use tturl.Tth2.Records.{Bodies}
use tturl.Tth2.Records.Sizes.{payload_of, size_of, IsCapped}
use tturl.Tth2.Records.Planning.{AreBodies}
use tturl.Tth2.Records.Plans.{IsPlan, IsNothing, get_or-le_total}
use tturl.Tth2.Scarce.{
  max_cap, min_useful_cap, is_candidate, candidates, lead_budget, Spending, can_lead, spend_all,
  start, plan_scarce_credit_record,
}
use tturl.Tth2.Scarce.Loop.{IsSpending, Spent, spend_all-Spent, start-IsSpending}

pub payload-le_size : (plan : List ℕ) → payload_of plan ≤ size_of plan
payload-le_size [] = omega arith
payload-le_size (x ∷ plan) = let rest = payload-le_size plan in ground (arith, rest)

size-positive : (plan : List ℕ) → 0 < size_of plan → 0 < payload_of plan
size-positive [] h = absurd (omega arith)
size-positive (x ∷ plan) h = elim (Bool-cases (x == 0)) [
  | inl empty ↦
      let later = rw empty at h in
      let rest = size-positive plan (omega (arith, later)) in omega (arith, rest)
  | inr filled ↦ ground (arith, filled)
]

-- Candidates have a cap, so candidates without one are none.
unchosen :
    (b : Bodies) (lagging : ℕ → Bool) (is : List ℕ)
    → All (λ i. get_or b.caps i 0 ≡ 0) (candidates b lagging is)
    → All (λ i. is_candidate b lagging i ≡ false) is
unfolding candidates
unchosen b lagging [] h = tt
unchosen b lagging (i ∷ is) h = elim (Bool-cases (is_candidate b lagging i)) [
  | inl chosen ↦
      let both = rw chosen at h in let no_cap = both.0 in absurd (ground (arith, chosen, no_cap))
  | inr not_chosen ↦ (not_chosen, unchosen b lagging is (rw not_chosen at h))
]

max_cap-attained :
    (b : Bodies) (is : List ℕ) {P : ℕ → Type 0}
    → All P is
    → (max_cap b is ≡ 0) ⊎ ((i : ℕ) × P i × (get_or b.caps i 0 ≡ max_cap b is))
unfolding max_cap
max_cap-attained b [] h = inl refl
max_cap-attained b (i ∷ is) h =
    let m = max_cap b is in
    elim (Bool-cases (leb m (get_or b.caps i 0))) [
      | inl here ↦ inr (i, h.0, ground (arith, here))
      | inr later ↦ elim (max_cap-attained b is h.1) [
        | inl nothing ↦ absurd (ground (arith, later, nothing))
        | inr (j, p, e) ↦ inr (j, p, ground (arith, later, e))
      ]
    ]

no_caps : (b : Bodies) (is : List ℕ) → max_cap b is ≡ 0 → All (λ i. get_or b.caps i 0 ≡ 0) is
unfolding max_cap
no_caps b [] h = tt
no_caps b (i ∷ is) h = (omega arith, no_caps b is (omega arith))

-- A stream with the greatest cap is a candidate.
candidates-none :
    (b : Bodies) (lagging : ℕ → Bool)
    → All (λ i. get_or b.caps i 0 ≡ 0) (candidates b lagging b.carrying)
    → All (λ i. get_or b.caps i 0 ≡ 0) b.carrying
unfolding min_useful_cap
candidates-none b lagging h =
    elim (max_cap-attained b b.carrying (unchosen b lagging b.carrying h)) [
      | inl nothing ↦ no_caps b b.carrying nothing
      | inr (i, not_chosen, e) ↦
          let nothing : max_cap b b.carrying ≡ 0 = ground (arith, not_chosen, e) in
          no_caps b b.carrying nothing
    ]

Spent-IsNothing :
    (b : Bodies) (lagging : ℕ → Bool) (conn_credit : ℤ) (s : Spending)
    → IsSpending b conn_credit s
    → Spent b (candidates b lagging b.carrying) s
    → s.record_bytes ≡ 0
    → IsNothing b conn_credit
Spent-IsNothing b lagging conn_credit s ok ended empty =
    let no_payload : payload_of s.plan ≡ 0 =
      omega (arith, payload-le_size s.plan, ok.size, empty) in
    elim ended [
      | inl spent ↦ inl (omega (arith, spent, no_payload, ok.payload))
      | inr (inl nobody) ↦ inr (
          candidates-none b lagging (
            All-map (λ i. can_lead b s i ≡ false) (λ i. get_or b.caps i 0 ≡ 0)
              (candidates b lagging b.carrying)
              (λ i cannot.
                let unplanned : get_or s.plan i 0 ≡ 0 =
                  omega (arith, get_or-le_total s.plan i, no_payload) in
                ground (arith, cannot, unplanned, empty))
              nobody))
      | inr (inr full) ↦ absurd (omega (arith, full, empty))
    ]

-- What a result of the planner for scarce credit promises.
abbrev pub IsScarceResult : Bodies → ℤ → Option (List ℕ) → Type 0
IsScarceResult b conn_credit none = IsNothing b conn_credit
IsScarceResult b conn_credit (some plan) = IsPlan b conn_credit plan × IsCapped (lead_budget b) plan

-- If the slices have one entry for each stream and the streams that carry a body are listed in order,
-- then, whichever streams lag behind, `planScarceCreditRecord` returns nil only if the connection has
-- no credit or no stream has a cap. A plan that it returns sends at least one byte, stays within every
-- cap, the connection's credit and one TLS record with its frame headers, and gives no stream more
-- than a thirty-second of its body, rounded up.
pub plan_scarce_credit_record_lem :
    (b : Bodies) (lagging : ℕ → Bool) (conn_credit : ℤ)
    → AreBodies b
    → IsScarceResult b conn_credit (plan_scarce_credit_record b lagging conn_credit)
unfolding plan_scarce_credit_record
plan_scarce_credit_record_lem b lagging conn_credit bodies =
    let chosen = candidates b lagging b.carrying in
    let s = spend_all b chosen (pos_part conn_credit) (start b conn_credit) in
    let end =
      spend_all-Spent b conn_credit chosen (pos_part conn_credit) (start b conn_credit)
        (omega arith) (start-IsSpending b conn_credit bodies) in
    let ok : IsSpending b conn_credit s = end.0 in
    elim (Bool-cases (s.record_bytes == 0)) [
      | inl nothing ↦
          let empty : s.record_bytes ≡ 0 = ground (arith, nothing) in
          rw nothing (Spent-IsNothing b lagging conn_credit s ok end.1 empty)
      | inr something ↦
          let filled : 0 < size_of s.plan = ground (arith, something, ok.size) in
          let plan : IsPlan b conn_credit s.plan = record {
            same_length = ok.same_length;
            sends = size-positive s.plan filled;
            capped = ok.capped;
            in_credit = omega (arith, ok.payload);
            in_record = omega (arith, ok.size, ok.in_record);
          } in
          rw something (plan, ok.led)
    ]
