-- ===== src/Tth2/Body.antt =====
-- tth2/conn.go: the body of one response as its DATA arrives, and the credit that the last bytes of
-- the request bodies need. The digest is a parameter: a state and what a write makes of it. An
-- `int64` limit is a signed integer; a slice out of bounds is the source's panic, `none`.
pub mod Limits
pub mod Accepting
pub mod Tails
mod Examples
use tturl.Common.{
  ℕ, zero, suc, ◌+◌, ◌-◌, ◌^◌, ◌<◌, ◌≤◌, ◌≡◌, Bool, true, false, Option, none, some, List, [], ◌∷◌,
  ◌++◌, length, take, min, ltb, leb, ◌==◌, if◌then◌else◌, ◌>>=◌,
}
use tturl.Common.Int.{ℤ, pos, negsuc, pos_part, ◌-ℤ◌, ltb_ℤ, leb_ℤ}

abbrev pub max_int64 : ℕ
max_int64 = 2 ^ 63 - 1

abbrev pub tls_record_plaintext_budget : ℕ
tls_record_plaintext_budget = 16_384

abbrev pub http2_frame_header_size : ℕ
http2_frame_header_size = 9

-- `UnlimitedResponseBytes` is -1.
abbrev pub is_unlimited : ℤ → Bool
is_unlimited (negsuc zero) = true
is_unlimited _ = false

module _ (D : Type 0) (write : D → List ℕ → D) where
  pub record ResponseBodyState : Type 0 where
    pub digest : D
    pub captured : List ℕ
    pub bytes_accepted : ℕ

  -- The two errors of `accept`, a payload that passes the limit, and one that does not.
  pub data Verdict : Type 0 where
    fits overflows count_error capture_error : Verdict

  abbrev pub verdict : Bool → Verdict
  verdict overflow = if overflow then overflows else fits

  -- The end of `accept`: what it keeps of the accepted bytes.
  unfoldable pub capture : ResponseBodyState → List ℕ → ℤ → Bool → ResponseBodyState × Verdict
  capture s accepted capture_bytes overflow =
      let remaining =
        (if is_unlimited capture_bytes
          then pos (length accepted)
          else capture_bytes -ℤ pos (length s.captured)) in
      let n = min (length accepted) (pos_part remaining) in
      if leb_ℤ remaining (pos 0)
      then (s, verdict overflow)
      else if ltb max_int64 (length s.captured + n)
      then (s, capture_error)
      else (record s { captured = s.captured ++ take n accepted }, verdict overflow)

  -- The accepted bytes go to the digest before their number is checked.
  unfoldable pub count_accepted :
      ResponseBodyState → List ℕ → ℤ → Bool → ResponseBodyState × Verdict
  unfolding capture
  count_accepted s accepted capture_bytes overflow =
      let digested = record s { digest = write s.digest accepted } in
      if ltb max_int64 (s.bytes_accepted + length accepted)
      then (digested, count_error)
      else capture (record digested { bytes_accepted = s.bytes_accepted + length accepted })
          accepted capture_bytes overflow

  unfoldable pub accept : ResponseBodyState → List ℕ → ℤ → ℤ → Option (ResponseBodyState × Verdict)
  unfolding count_accepted
  accept s payload max_response_bytes capture_bytes =
      let remaining = max_response_bytes -ℤ pos s.bytes_accepted in
      if ltb_ℤ (pos 0) max_response_bytes
      then if ltb_ℤ remaining (pos (length payload))
        then if ltb_ℤ remaining (pos 0)
          then none
          else some (count_accepted s (take (pos_part remaining) payload) capture_bytes true)
        else some (count_accepted s payload capture_bytes false)
      else some (count_accepted s payload capture_bytes false)

  -- The DATA of one stream in `collectStream`, up to the first payload that is not accepted whole.
  unfoldable pub accept_all :
      ResponseBodyState → List (List ℕ) → ℤ → ℤ → Option (ResponseBodyState × Verdict)
  unfolding accept
  accept_all s [] limit capture_bytes = some (s, fits)
  accept_all s (payload ∷ payloads) limit capture_bytes =
      accept s payload limit capture_bytes >>= λ r. elim r.1 [
        | fits ↦ accept_all r.0 payloads limit capture_bytes
        | _ ↦ some r
      ]

-- The loop of `tailReleaseNeeds` from a number of record bytes: the needs, `none` at an invalid pivot
-- or a body tail beyond one record. A body is its length.
unfoldable pub tail_needs : List ℕ → List ℤ → ℕ → Option (List ℤ × ℕ)
tail_needs (len ∷ bodies) (pivot ∷ pivots) record_bytes =
    let need = len - pos_part pivot in
    let skip = tail_needs bodies pivots record_bytes in
    let rest = tail_needs bodies pivots (record_bytes + (http2_frame_header_size + need)) in
    if ltb_ℤ pivot (pos 0)
    then none
    else if ltb_ℤ (pos len) pivot
    then none
    else if need == 0
    then (skip >>= λ r. some (pos 0 ∷ r.0, r.1))
    else if ltb (tls_record_plaintext_budget - http2_frame_header_size) need
    then none
    else (rest >>= λ r. some (pos need ∷ r.0, r.1))
tail_needs _ _ record_bytes = some ([], record_bytes)

unfoldable pub tail_release_needs : List ℕ → List ℤ → Option (List ℤ)
unfolding tail_needs
tail_release_needs bodies pivots =
    if length pivots == length bodies
    then (tail_needs bodies pivots 0 >>= λ r.
        if ltb tls_record_plaintext_budget r.1 then none else some r.0)
    else none
