-- ===== src/Tth2/Body/Limits.antt =====
-- What the two limits of a response body leave of it.
use tturl.Common.{
  ℕ, ◌-◌, ◌<◌, ◌≤◌, ◌≡◌, refl, sym, ap, ◌∙◌, inl, inr, Bool, true, false, ◌&&◌, List, ◌++◌, length,
  take, min, leb, if◌then◌else◌, arith, Bool-cases, length-append, length-take, take_all, take_past,
  take_within, take-min, append-nil,
}
use tturl.Common.Int.{ℤ, pos, negsuc, pos_part, ◌-ℤ◌, ltb_ℤ, leb_ℤ}
use tturl.Tth2.Body.{is_unlimited}

-- The bytes that a limit leaves of a body; 0 sets no limit.
abbrev pub limited : ℤ → List ℕ → List ℕ
limited limit body = if ltb_ℤ (pos 0) limit then take (pos_part limit) body else body

-- The bytes that are kept of the accepted ones.
abbrev pub kept : ℤ → List ℕ → List ℕ
kept capture_bytes accepted =
    if is_unlimited capture_bytes then accepted else take (pos_part capture_bytes) accepted

abbrev pub exceeds : ℤ → List ℕ → Bool
exceeds limit body = ltb_ℤ (pos 0) limit && ltb_ℤ limit (pos (length body))

pub length-kept : (c : ℤ) (acc : List ℕ) → length (kept c acc) ≤ length acc
length-kept c acc = grind (arith, length-take (pos_part c) acc)

pub pos_part_sub : (c : ℤ) (l : ℕ) → pos_part (c -ℤ pos l) ≡ pos_part c - l
unfolding ◌-ℤ◌
pos_part_sub (pos n) l = ground arith
pos_part_sub (negsuc n) l = ground arith

-- What `accept` may still keep, from `more` on.
abbrev pub room : ℤ → List ℕ → List ℕ → ℤ
room c captured more = if is_unlimited c then pos (length more) else c -ℤ pos (length captured)

-- `append(s.captured, accepted[:n]...)` keeps what is kept of all.
pub kept-append :
    (c : ℤ) (acc more : List ℕ)
    → kept c (acc ++ more)
      ≡ kept c acc ++ take (min (length more) (pos_part (room c (kept c acc) more))) more
kept-append c acc more = elim (Bool-cases (is_unlimited c)) [
  | inl endless ↦ rw endless (ap (λ l. acc ++ l) (sym (take_all _ more (omega arith))))
  | inr h ↦
      let k = pos_part c in
      let len : length (take k acc) ≡ min k (length acc) = length-take k acc in
      rw (h, pos_part_sub c (length (take k acc)), take-min (k - length (take k acc)) more)
        (elim (Bool-cases (leb (length acc) k)) [
          | inl all ↦
              let le : length acc ≤ k = ground (arith, all) in
              rw (take_all k acc le) (take_past k acc more le)
          | inr some_left ↦
              let lt : k < length acc = ground (arith, some_left) in
              let none_left : k - length (take k acc) ≡ 0 = omega (arith, len, lt) in
              rw none_left (take_within k acc more (omega arith) ∙ sym (append-nil (take k acc)))
        ])
]

pub no_room : (r : ℤ) → leb_ℤ r (pos 0) ≡ true → pos_part r ≡ 0
no_room (pos n) h = ground (arith, h)
no_room (negsuc n) h = refl

pub limited_under : (limit : ℤ) (acc : List ℕ) → exceeds limit acc ≡ false → limited limit acc ≡ acc
limited_under limit acc h = elim (Bool-cases (ltb_ℤ (pos 0) limit)) [
  | inl on ↦ let quiet = rw on at h in rw on (take_all (pos_part limit) acc (ground (arith, quiet)))
  | inr off ↦ rw off refl
]

pub exceeds-append :
    (limit : ℤ) (acc more : List ℕ)
    → exceeds limit acc ≡ true
    → (exceeds limit (acc ++ more) ≡ true) × (limited limit (acc ++ more) ≡ limited limit acc)
exceeds-append limit acc more h = elim (Bool-cases (ltb_ℤ (pos 0) limit)) [
  | inl on ↦
      let loud = rw on at h in
      let size = length-append acc more in
      let within : pos_part limit ≤ length acc = ground (arith, loud, on) in
      rw on (ground (arith, loud, size), take_within (pos_part limit) acc more within)
  | inr off ↦ cc (rw off at h)
]
