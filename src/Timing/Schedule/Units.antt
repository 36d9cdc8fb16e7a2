-- ===== src/Timing/Schedule/Units.antt =====
-- Each unit of a campaign is taken once, and a rotation is an arrangement.
use tturl.Common.{
  ℕ, zero, suc, ◌+◌, ◌-◌, ◌%◌, ◌^◌, ◌≤◌, ◌<◌, ◌≡◌, refl, ap, false, ◌&&◌, none, some, List, [], ◌∷◌,
  ◌++◌, map, upto, get_or, min, ltb, leb, ◌==◌, if◌then◌else◌, arith, inl, inr, Bool-cases,
  replicate, SameItems, length-upto,
}
use native.Mathlib.Nat.{mod-lt}
use tturl.Tth2.Arrangement.{rotation}
use tturl.Tth2.Arrangement.Balance.{rotation-SameItems}
use tturl.Timing.Schedule.{CampaignQueue, take_units, campaign_order}

-- How many of a number of calls get a unit.
abbrev pub served : ℕ → CampaignQueue → ℕ
served calls q = if q.limit == 0 then calls else min calls (q.limit - q.next_unit)

-- If the number of units does not reach 2^64, then the calls of all workers, in whichever order, take
-- the units from the next one on, each once and without a gap, up to the limit if it is not 0, and
-- every later call is told that there are no more.
pub take_units_lem :
    (calls : ℕ) (q : CampaignQueue)
    → q.next_unit + calls < 2 ^ 64
    → take_units calls q
      ≡ map some (upto q.next_unit (served calls q)) ++ replicate (calls - served calls q) none
unfolding take_units
take_units_lem zero q small = ground arith
take_units_lem (suc calls) q small =
    let unit = q.next_unit in
    elim (Bool-cases (ltb 0 q.limit && leb q.limit unit)) [
      | inl over ↦
          let rest = take_units_lem calls q (omega arith) in
          let now : served (suc calls) q ≡ 0 = ground (arith, over) in
          let later : served calls q ≡ 0 = ground (arith, over) in
          let all : suc calls - 0 ≡ suc calls = omega arith in
          let all_later : calls - 0 ≡ calls = omega arith in
          rw (over, now, all) (ap (◌∷◌ none) (rw (later, all_later) at rest))
      | inr more ↦
          let e : (unit + 1) % 2 ^ 64 ≡ suc unit = omega arith in
          let q' : CampaignQueue = record q { next_unit = suc unit } in
          let rest = take_units_lem calls q' (omega arith) in
          let now : served (suc calls) q ≡ suc (served calls q') = ground (arith, more) in
          let left : suc calls - suc (served calls q') ≡ calls - served calls q' = omega arith in
          rw (more, e, now, left) (ap (◌∷◌ (some unit)) rest)
    ]

get_or-upto : (a n i : ℕ) → i < n → get_or (upto a n) i 0 ≡ a + i
get_or-upto a zero i h = absurd (omega arith)
get_or-upto a (suc n) zero h = omega arith
get_or-upto a (suc n) (suc i) h = omega (arith, get_or-upto (suc a) n i (omega arith))

map-upto_ext :
    (f g : ℕ → ℕ) (positions : List ℕ) → ((p : ℕ) → f p ≡ g p) → map f positions ≡ map g positions
map-upto_ext f g [] h = refl
map-upto_ext f g (p ∷ positions) h = rw (h p, map-upto_ext f g positions h) refl

-- If a rotation is at most the width, the order that a campaign does not draw is that of a batch:
-- `campaignOrder` is the rotation of the arranger's identity, and it has each request once.
pub campaign_order-rotation :
    (width shift : ℕ) (drawn : List ℕ)
    → 0 < width
    → shift ≤ width
    → (campaign_order width shift false drawn ≡ rotation (upto 0 width) width shift)
      × SameItems (campaign_order width shift false drawn) (upto 0 width)
unfolding campaign_order rotation
campaign_order-rotation width shift drawn positive within =
    let same =
      map-upto_ext (λ p. (p + shift) % width) (λ p. get_or (upto 0 width) ((p + shift) % width) 0)
        (upto 0 width)
        (λ p.
          omega (arith, get_or-upto 0 width ((p + shift) % width) (mod-lt (p + shift) positive))) in
    let len = length-upto 0 width in
    let items = rotation-SameItems (upto 0 width) shift (omega (arith, len)) in
    (same, rw same (rw len at items))
