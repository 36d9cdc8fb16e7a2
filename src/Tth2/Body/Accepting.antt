-- ===== src/Tth2/Body/Accepting.antt =====
-- What a response body comes to, however the peer cuts it into DATA frames.
use tturl.Common.{
  ℕ, ◌+◌, ◌-◌, ◌≤◌, ◌≡◌, refl, sym, ap, ◌∙◌, inl, inr, Bool, true, false, Option, some, List, [],
  ◌∷◌, ◌++◌, length, take, min, ltb, arith, Bool-cases, length-append, concat, length-take,
  take_all, take_past, append-nil, append_assoc,
}
use tturl.Common.Int.{ℤ, pos, pos_part, neg_part, ◌-ℤ◌, ltb_ℤ, leb_ℤ, int_laws, neg_part-nonneg}
use tturl.Tth2.Body.Limits.{
  limited, kept, exceeds, length-kept, pos_part_sub, room, kept-append, no_room, limited_under,
  exceeds-append,
}
use tturl.Tth2.Body.{
  ResponseBodyState, Verdict, verdict, capture, count_accepted, accept, accept_all, max_int64,
}

module _ {D : Type 0} {write : D → List ℕ → D} (d : D)
    (writes : (a b : List ℕ) → write (write d a) b ≡ write d (a ++ b))
    (limit capture_bytes : ℤ) where
  -- The state after the bytes `acc` were accepted.
  record Holds (s : ResponseBodyState D write) (acc : List ℕ) : Type 0 where
    digest : s.digest ≡ write d acc
    captured : s.captured ≡ kept capture_bytes acc
    bytes_accepted : s.bytes_accepted ≡ length acc

  capture-Holds :
      (s : ResponseBodyState D write) (acc more : List ℕ) (over : Bool)
      → Holds s acc
      → length acc + length more ≤ max_int64
      → let s' : ResponseBodyState D write = record s {
        digest = write s.digest more;
        bytes_accepted = s.bytes_accepted + length more;
      } in
        ((capture D write s' more capture_bytes over).1 ≡ verdict D write over)
        × Holds (capture D write s' more capture_bytes over).0 (acc ++ more)
  unfolding capture
  capture-Holds s acc more over h bound =
      let c = capture_bytes in
      let r = room c (kept c acc) more in
      let sum = kept-append c acc more in
      let digests : write s.digest more ≡ write d (acc ++ more) =
        ap (λ x. write x more) h.digest ∙ writes acc more in
      let counts : s.bytes_accepted + length more ≡ length (acc ++ more) =
        omega (arith, h.bytes_accepted, length-append acc more) in
      elim (Bool-cases (leb_ℤ r (pos 0))) [
        | inl full ↦
            let zero_room : min (length more) (pos_part r) ≡ 0 = omega (arith, no_room r full) in
            let same : kept c (acc ++ more) ≡ kept c acc =
              sum ∙ ap (λ n. kept c acc ++ take n more) zero_room ∙ append-nil (kept c acc) in
            rw (h.captured, full)
              (refl, record { digest = digests; captured = sym same; bytes_accepted = counts })
        | inr some_room ↦
            let few : ltb max_int64 (length (kept c acc) + min (length more) (pos_part r)) ≡ false =
              ground (arith, length-kept c acc, bound) in
            rw (h.captured, some_room, few)
              (refl, record { digest = digests; captured = sym sum; bytes_accepted = counts })
      ]

  count_accepted-Holds :
      (s : ResponseBodyState D write) (acc more : List ℕ) (over : Bool)
      → Holds s acc
      → length acc + length more ≤ max_int64
      → ((count_accepted D write s more capture_bytes over).1 ≡ verdict D write over)
        × Holds (count_accepted D write s more capture_bytes over).0 (acc ++ more)
  unfolding count_accepted
  count_accepted-Holds s acc more over h bound =
      let few : ltb max_int64 (s.bytes_accepted + length more) ≡ false =
        ground (arith, h.bytes_accepted, bound) in
      rw few (capture-Holds s acc more over h bound)

  abbrev Goes : Option (ResponseBodyState D write × Verdict D write) → Bool → List ℕ → Type 0
  Goes o over acc =
      (s' : ResponseBodyState D write) × (o ≡ some (s', verdict D write over)) × Holds s' acc

  goes :
      (x : ResponseBodyState D write × Verdict D write) (over : Bool) (acc : List ℕ)
      → (x.1 ≡ verdict D write over) × Holds x.0 acc
      → Goes (some x) over acc
  goes x over acc h = (x.0, ap (λ v. some (x.0, v)) h.0, h.1)

  -- One DATA frame, while the body is within its limit.
  accept-Holds :
      (s : ResponseBodyState D write) (acc more : List ℕ)
      → Holds s acc
      → exceeds limit acc ≡ false
      → length acc + length more ≤ max_int64
      → Goes
          (accept D write s more limit capture_bytes)
          (exceeds limit (acc ++ more))
          (limited limit (acc ++ more))
  unfolding accept
  accept-Holds s acc more h under bound =
      let p = pos_part limit in
      let total = length-append acc more in
      let remaining = limit -ℤ pos s.bytes_accepted in
      elim (Bool-cases (ltb_ℤ (pos 0) limit)) [
        | inl on ↦
            let positive : neg_part limit ≡ 0 = neg_part-nonneg limit (ground (arith, on)) in
            let le : length acc ≤ p =
              (let quiet = rw on at under in ground (arith, quiet, positive)) in
            let left : pos_part remaining ≡ p - length acc =
              pos_part_sub limit s.bytes_accepted ∙ ap (λ n. p - n) h.bytes_accepted in
            let never : neg_part remaining ≡ 0 =
              neg_part-nonneg remaining (omega (int_laws, positive, le, h.bytes_accepted)) in
            elim (Bool-cases (ltb_ℤ remaining (pos (length more)))) [
              | inl short ↦
                  let fine : ltb_ℤ remaining (pos 0) ≡ false = ground (arith, never) in
                  let over : ltb_ℤ limit (pos (length (acc ++ more))) ≡ true =
                    ground (arith, short, never, left, positive, total, le) in
                  let some_left = take (p - length acc) more in
                  let few : length acc + length some_left ≤ max_int64 =
                    omega (arith, length-take (p - length acc) more, bound) in
                  let result = count_accepted-Holds s acc some_left true h few in
                  rw (on, short, fine, left, over, take_past p acc more le) (goes _ true _ result)
              | inr enough ↦
                  let fits_all : length (acc ++ more) ≤ p =
                    ground (arith, enough, never, left, positive, total, le) in
                  let under_all : ltb_ℤ limit (pos (length (acc ++ more))) ≡ false =
                    ground (arith, fits_all, positive) in
                  rw (on, enough, under_all, take_all p (acc ++ more) fits_all)
                    (goes _ false _ (count_accepted-Holds s acc more false h bound))
            ]
        | inr off ↦ rw off (goes _ false _ (count_accepted-Holds s acc more false h bound))
      ]

  accept_all-Goes :
      (s : ResponseBodyState D write) (acc : List ℕ) (payloads : List (List ℕ))
      → Holds s acc
      → exceeds limit acc ≡ false
      → length acc + length (concat payloads) ≤ max_int64
      → Goes
          (accept_all D write s payloads limit capture_bytes)
          (exceeds limit (acc ++ concat payloads))
          (limited limit (acc ++ concat payloads))
  unfolding accept_all
  accept_all-Goes s acc [] h under bound =
      rw (append-nil acc, under, limited_under limit acc under) (s, refl, h)
  accept_all-Goes s acc (more ∷ payloads) h under bound =
      let size = length-append more (concat payloads) in
      let (s', e, h') = accept-Holds s acc more h under (omega (arith, bound, size)) in
      let assoc : (acc ++ more) ++ concat payloads ≡ acc ++ (more ++ concat payloads) =
        append_assoc acc more (concat payloads) in
      elim (Bool-cases (exceeds limit (acc ++ more))) [
        | inl over ↦
            let (over_all, same) = exceeds-append limit (acc ++ more) (concat payloads) over in
            rw (e, over, ← assoc, over_all, same) (s', refl, h')
        | inr still ↦
            let whole = limited_under limit (acc ++ more) still in
            let budget : length (acc ++ more) + length (concat payloads) ≤ max_int64 =
              omega (arith, bound, size, length-append acc more) in
            rw (e, still, ← assoc)
              (accept_all-Goes s' (acc ++ more) payloads (rw whole at h') still budget)
      ]

-- However a body is cut into DATA payloads, `accept` ends with the digest of exactly the bytes
-- that the limit leaves of the body, their number, and those of them that are to be captured; and it
-- reports an overflow exactly where the body is longer than its limit. A write of the digest is one
-- that only depends on the bytes written, and the body is no longer than an `int64` counts.
pub accept_all-body :
    {D : Type 0} {write : D → List ℕ → D} (d : D) (limit capture_bytes : ℤ)
    (payloads : List (List ℕ))
    → ((a b : List ℕ) → write (write d a) b ≡ write d (a ++ b))
    → write d [] ≡ d
    → length (concat payloads) ≤ max_int64
    → accept_all D write
        (record { digest = d; captured = []; bytes_accepted = 0 })
        payloads
        limit
        capture_bytes
      ≡ some (
        record {
          digest = write d (limited limit (concat payloads));
          captured = kept capture_bytes (limited limit (concat payloads));
          bytes_accepted = length (limited limit (concat payloads));
        },
        verdict D write (exceeds limit (concat payloads)),
      )
accept_all-body {D} {write} d limit capture_bytes payloads writes empty bound =
    let start : ResponseBodyState D write = record {
      digest = d;
      captured = [];
      bytes_accepted = 0;
    } in
    let kept_nil : kept capture_bytes [] ≡ [] =
      grind (arith, take_all {A = ℕ} (pos_part capture_bytes) []) in
    let holds : Holds d writes limit capture_bytes start [] = record {
      digest = sym empty;
      captured = sym kept_nil;
      bytes_accepted = refl;
    } in
    let (s', e, h) =
      accept_all-Goes d writes limit capture_bytes start [] payloads holds (ground arith)
        (omega (arith, bound)) in
    let body = limited limit (concat payloads) in
    let end : ResponseBodyState D write = record {
      digest = write d body;
      captured = kept capture_bytes body;
      bytes_accepted = length body;
    } in
    let same : s' ≡ end = cc (h.digest, h.captured, h.bytes_accepted) in rw (← same) e
