-- ===== src/Tth2/Records/Planning.antt =====
-- The planner as a whole: it returns, its plan is within the bounds of one record, and a nil plan means
-- that no stream can send.
use tturl.Common.{
  ℕ, suc, ◌+◌, ◌*◌, ◌/◌, ◌%◌, ◌^◌, min, ◌≤◌, ◌<◌, ◌≡◌, ◌⊎◌, refl, some, List, [], ◌∷◌, length,
  get_or, set, replicate, Bool-cases, inl, inr, arith, leb, ◌==◌, if◌then◌else◌, false,
  length-replicate, All,
}
use native.Mathlib.Nat.{zero-mul, zero-div, mul-le-mul, pow-le-pow_right}
use tturl.Common.Int.{ℤ, pos_part}
use tturl.Tth2.Body.{tls_record_plaintext_budget}
use tturl.Tth2.Records.{
  Bodies, amount, measure, first_draft, common_progress, plan_from, is_feasible, first_progress,
  progress_scale, mul64, div64, bits_len, max_body_len,
}
use tturl.Tth2.Records.Sizes.{
  cap_of, frame_size, AreIndices, write_plan-IsWritten, amount-capped, get_or-replicate,
  total-replicate,
}
use tturl.Tth2.Records.Residual.{IsDraft, Ended, residual-Ended}
use tturl.Tth2.Records.Search.{search_progress-ends}

-- The slices have one entry for each stream, and the streams that carry a body are in order.
pub record AreBodies (b : Bodies) : Type 0 where
  pub same_length : length b.caps ≡ length b.data_len
  pub indices : AreIndices (length b.data_len) 0 b.carrying

-- A body has at most 2^63 - 1 bytes, and one that may send has unsent bytes.
abbrev pub IsUnsent : Bodies → ℕ → Type 0
IsUnsent b i =
    (get_or b.caps i 0 ≡ 0)
    ⊎ ((get_or b.sent i 0 < get_or b.data_len i 0) × (get_or b.data_len i 0 < 2 ^ 63))

-- Nothing is planned at progress 0.
nothing_at_zero :
    (b : Bodies) (scale : ℕ) (first is : List ℕ) → measure (amount b scale first 0) is ≡ (0, 0)
unfolding measure amount
nothing_at_zero b scale first [] = refl
nothing_at_zero b scale first (i ∷ is) =
    let here : amount b scale first 0 i ≡ 0 =
      let target : 0 * get_or b.data_len i 0 / scale ≡ 0 =
        rw (zero-mul (get_or b.data_len i 0)) (zero-div scale) in
      ground (arith, target) in
    rw here (nothing_at_zero b scale first is)

measure-fits :
    (b : Bodies) (conn_credit : ℤ) (scale : ℕ) (first : List ℕ)
    → let m =
        measure (amount b scale first (common_progress b conn_credit scale first)) b.carrying in
      (m.0 ≤ pos_part conn_credit) × (m.1 ≤ tls_record_plaintext_budget)
unfolding common_progress
measure-fits b conn_credit scale first =
    let feasible =
      λ (p : ℕ). is_feasible conn_credit (measure (amount b scale first p) b.carrying) in
    elim ((search_progress-ends feasible scale).0) [
      | inl start ↦
          let e = nothing_at_zero b scale first b.carrying in
          rw (start, e) (omega arith, omega arith)
      | inr can ↦ ground (arith, can)
    ]

first_draft-IsDraft :
    (b : Bodies) (conn_credit : ℤ) (scale : ℕ) (first : List ℕ)
    → AreBodies b
    → IsDraft b conn_credit
        (first_draft b (amount b scale first (common_progress b conn_credit scale first)))
unfolding first_draft
first_draft-IsDraft b conn_credit scale first ok =
    let share = amount b scale first (common_progress b conn_credit scale first) in
    let n = length b.data_len in
    let empty = replicate n 0 in
    let len : length empty ≡ n = length-replicate n 0 in
    let fits = measure-fits b conn_credit scale first in
    let w =
      write_plan-IsWritten share (cap_of b)
        (amount-capped b scale first (common_progress b conn_credit scale first)) b.carrying empty 0
        (rw len ok.indices) (λ j above. get_or-replicate n j)
        (λ j. rw (get_or-replicate n j) (omega arith)) in
    let no_payload = total-replicate (λ x. x) n refl in
    let no_size = total-replicate frame_size n refl in
    record {
      same_length = omega (arith, w.same_length, len, ok.same_length);
      payload = omega (arith, w.payload, no_payload);
      size = omega (arith, w.size, no_size);
      capped = w.capped;
      in_credit = fits.0;
      in_record = fits.1;
    }

pub plan_from-Ended :
    (b : Bodies) (conn_credit : ℤ) (scale : ℕ) (first : List ℕ)
    → AreBodies b
    → Ended b conn_credit (plan_from b conn_credit scale first)
unfolding plan_from
plan_from-Ended b conn_credit scale first ok =
    let start = first_draft b (amount b scale first (common_progress b conn_credit scale first)) in
    residual-Ended b conn_credit (pos_part conn_credit) start (omega arith)
      (first_draft-IsDraft b conn_credit scale first ok)

-- The division does not panic if the quotient fits a word, and is then that of the exact product.
div64-some :
    (x y z : ℕ) → 0 < z → x * y < z * 2 ^ 64 → div64 (mul64 x y) z ≡ some (x * y / z, x * y % z)
div64-some x y z positive fits =
    let p = x * y in
    let whole : p / 2 ^ 64 * 2 ^ 64 + p % 2 ^ 64 ≡ p = omega arith in
    let low : leb z (p / 2 ^ 64) ≡ false = ground arith in rw (whole, low) refl

pub progress_scale-bound : (b : Bodies) → progress_scale b ≤ 2 ^ 48
unfolding progress_scale
progress_scale-bound b =
    let positive : 0 < 2 = omega arith in
    let width = bits_len 64 (max_body_len b.data_len b.carrying) in
    let capped : min width 48 ≤ 48 = omega arith in pow-le-pow_right positive capped

pub first_progress-returns :
    (b : Bodies) (scale : ℕ) (is scratch : List ℕ)
    → scale ≤ 2 ^ 48
    → All (IsUnsent b) is
    → (first : List ℕ) × (first_progress b scale is scratch ≡ some first)
unfolding first_progress
first_progress-returns b scale [] scratch small unsent = (scratch, refl)
first_progress-returns b scale (i ∷ is) scratch small unsent =
    elim (Bool-cases (get_or b.caps i 0 == 0)) [
      | inl skipped ↦
          let rest = first_progress-returns b scale is scratch small unsent.1 in
          (rest.0, rw skipped rest.1)
      | inr capped ↦ elim unsent.0 [
        | inl zero_cap ↦ absurd (ground (arith, capped, zero_cap))
        | inr body ↦
            let x = get_or b.sent i 0 + 1 in
            let z = get_or b.data_len i 0 in
            let product : x * scale ≤ z * 2 ^ 48 = mul-le-mul (omega (arith, body)) small in
            let q = div64-some x scale z (omega (arith, body)) (omega (arith, product, body)) in
            let next =
              set scratch i (if x * scale % z == 0 then x * scale / z else suc (x * scale / z)) in
            let rest = first_progress-returns b scale is next small unsent.1 in
            (rest.0, rw (capped, q) rest.1)
      ]
    ]
