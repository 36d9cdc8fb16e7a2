-- ===== src/Tth2/Records/Residual.antt =====
-- The residual pass keeps the record within its bounds and ends when no stream can take a byte.
use tturl.Common.{
  Bool, ℕ, zero, suc, ◌+◌, ◌-◌, ◌≤◌, ◌<◌, ◌≡◌, ◌⊎◌, refl, ◌∙◌, Option, none, some, List, [], ◌∷◌,
  length, get_or, Bool-cases, Option-cases, inl, inr, arith, true, false, length-set, All,
}
use tturl.Common.Int.{ℤ, pos, pos_part, ltb_ℤ}
use tturl.Tth2.Body.{tls_record_plaintext_budget}
use tturl.Tth2.Records.{
  Bodies, Draft, frame_cost, is_eligible, better, pick, add_byte, residual, less_body_progress,
}
use tturl.Tth2.Records.Sizes.{
  frame_size, payload_of, size_of, IsCapped, IsCapped-set, cap_of, total-set, get_or-below,
}

pub record IsDraft (b : Bodies) (conn_credit : ℤ) (d : Draft) : Type 0 where
  pub same_length : length d.plan ≡ length b.caps
  pub payload : d.payload ≡ payload_of d.plan
  pub size : d.record_bytes ≡ size_of d.plan
  pub capped : IsCapped (cap_of b) d.plan
  pub in_credit : d.payload ≤ pos_part conn_credit
  pub in_record : d.record_bytes ≤ tls_record_plaintext_budget

-- The credit is spent, or no stream of the batch can take another byte in this record.
abbrev pub IsFull : Bodies → ℤ → Draft → Type 0
IsFull b conn_credit d =
    (pos_part conn_credit ≤ d.payload) ⊎ All (λ i. is_eligible b d i ≡ false) b.carrying

module _ (eligible : ℕ → Bool) (less : ℕ → ℕ → Bool) where
  better-some : (i : ℕ) (best : Option ℕ) → (c : ℕ) × (better less i best ≡ some c)
  better-some i none = (i, refl)
  better-some i (some j) = elim (Bool-cases (less i j)) [
    | inl ahead ↦ (i, rw ahead refl)
    | inr behind ↦ (j, rw behind refl)
  ]

  better-eligible :
      (i : ℕ) (best : Option ℕ)
      → eligible i ≡ true
      → ((c : ℕ) → best ≡ some c → eligible c ≡ true)
      → (c : ℕ) → better less i best ≡ some c
      → eligible c ≡ true
  better-eligible i none here before c h = let e : i ≡ c = cc h in rw (← e) here
  better-eligible i (some j) here before c h = elim (Bool-cases (less i j)) [
    | inl ahead ↦ let e : i ≡ c = cc (rw ahead at h) in rw (← e) here
    | inr behind ↦ before c (rw behind at h)
  ]

  pub pick-eligible :
      (is : List ℕ) (best : Option ℕ)
      → ((c : ℕ) → best ≡ some c → eligible c ≡ true)
      → (c : ℕ) → pick eligible less is best ≡ some c
      → eligible c ≡ true
  unfolding pick
  pick-eligible [] best before c h = before c h
  pick-eligible (i ∷ is) best before c h = elim (Bool-cases (eligible i)) [
    | inl can ↦
        pick-eligible is (better less i best) (better-eligible i best can before) c (rw can at h)
    | inr cannot ↦ pick-eligible is best before c (rw cannot at h)
  ]

  pick-some : (is : List ℕ) (j : ℕ) → (c : ℕ) × (pick eligible less is (some j) ≡ some c)
  unfolding pick
  pick-some [] j = (j, refl)
  pick-some (i ∷ is) j = elim (Bool-cases (eligible i)) [
    | inl can ↦
        let better = better-some i (some j) in
        let rest = pick-some is better.0 in (rest.0, rw (can, better.1) rest.1)
    | inr cannot ↦ let rest = pick-some is j in (rest.0, rw cannot rest.1)
  ]

  pub pick-none :
      (is : List ℕ) → pick eligible less is none ≡ none → All (λ i. eligible i ≡ false) is
  unfolding pick
  pick-none [] h = tt
  pick-none (i ∷ is) h = elim (Bool-cases (eligible i)) [
    | inl can ↦ let found = pick-some is i in absurd (cc (rw can at h, found.1))
    | inr cannot ↦ (cannot, pick-none is (rw cannot at h))
  ]

add_byte-IsDraft :
    (b : Bodies) (conn_credit : ℤ) (d : Draft) (i : ℕ)
    → is_eligible b d i ≡ true
    → d.payload < pos_part conn_credit
    → IsDraft b conn_credit d
    → IsDraft b conn_credit (add_byte d i)
add_byte-IsDraft b conn_credit d i can less ok =
    let planned = get_or d.plan i 0 in
    let fits : planned + 1 ≤ get_or b.caps i 0 = ground (arith, can) in
    let room : d.record_bytes + frame_cost planned ≤ tls_record_plaintext_budget =
      ground (arith, can) in
    let here : i < length d.plan =
      omega (arith, get_or-below b.caps i (omega (arith, fits)), ok.same_length) in
    let grown = total-set (λ x. x) d.plan i (planned + 1) here in
    let sized = total-set frame_size d.plan i (planned + 1) here in
    let cost : frame_size (planned + 1) ≡ frame_size planned + frame_cost planned = ground arith in
    record {
      same_length = length-set d.plan i (planned + 1) ∙ ok.same_length;
      payload = omega (arith, ok.payload, grown);
      size = omega (arith, ok.size, sized, cost);
      capped = IsCapped-set (cap_of b) d.plan i (planned + 1) here fits ok.capped;
      in_credit = omega (arith, less);
      in_record = room;
    }

abbrev pub Ended : Bodies → ℤ → Draft → Type 0
Ended b conn_credit d = IsDraft b conn_credit d × IsFull b conn_credit d

pub residual-Ended :
    (b : Bodies) (conn_credit : ℤ) (fuel : ℕ) (d : Draft)
    → pos_part conn_credit - d.payload ≤ fuel
    → IsDraft b conn_credit d
    → Ended b conn_credit (residual b conn_credit fuel d)
unfolding residual
residual-Ended b conn_credit zero d enough ok = (ok, inl (omega arith))
residual-Ended b conn_credit (suc fuel) d enough ok =
    elim (Bool-cases (ltb_ℤ (pos d.payload) conn_credit)) [
      | inr spent ↦
          let all : pos_part conn_credit ≤ d.payload = ground (arith, spent) in
          rw spent (ok, inl all)
      | inl left ↦
          elim (Option-cases
            (pick (is_eligible b d) (less_body_progress b d.plan) b.carrying none)) [
              | inl nobody ↦
                  rw (left, nobody)
                    (
                      ok,
                      inr (
                          pick-none (is_eligible b d) (less_body_progress b d.plan) b.carrying
                            nobody),
                    )
              | inr (best, found) ↦
                  let can =
                    pick-eligible (is_eligible b d) (less_body_progress b d.plan) b.carrying none
                      (λ c h. cc h) best found in
                  let less : d.payload < pos_part conn_credit = ground (arith, left) in
                  rw (left, found)
                    (residual-Ended b conn_credit fuel (add_byte d best) (omega arith)
                      (add_byte-IsDraft b conn_credit d best can less ok))
            ]
    ]
