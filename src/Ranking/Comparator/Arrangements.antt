-- ===== src/Ranking/Comparator/Arrangements.antt =====
-- Which arrangements reach the channel (internal/ranking/comparator.go).
use tturl.Common.{
  ℕ, ◌≤◌, ◌≡◌, ◌≢◌, ◌↔◌, ◌⊎◌, refl, sym, inl, inr, Bool, true, false, ◌||◌, none, List, [], ◌∷◌,
  length, All, arith, Bool-cases, if◌then◌else◌, ltb,
}
use tturl.Common.Int.{ℤ, eqb_ℤ, eq_of_parts}
use tturl.Ranking.Comparator.{
  Profile, ControlSupply, check_items, validate_arrangement, seen_item, is_candidate, is_supplied,
}

abbrev pub AllDiffer : ℤ → List ℤ → Type 0
AllDiffer x xs = All (λ y. x ≢ y) xs

abbrev pub AreDistinct : List ℤ → Type 0
AreDistinct [] = Unit
AreDistinct (x ∷ xs) = AllDiffer x xs × AreDistinct xs

-- A candidate, or a control that the profile supplies.
abbrev pub IsPlaceable : List (ℕ × ControlSupply) → ℤ → Type 0
IsPlaceable controls x = (is_candidate x ≡ true) ⊎ (is_supplied controls x ≡ true)

abbrev pub any_candidate : List ℤ → Bool
any_candidate [] = false
any_candidate (x ∷ xs) = if is_candidate x then true else any_candidate xs

-- Distinct items within the width, each of them placeable and one of them a candidate.
abbrev pub IsComparable : Profile → List ℤ → Type 0
IsComparable p items =
    (2 ≤ length items)
    × (length items ≤ p.max_width)
    × AreDistinct items
    × All (IsPlaceable p.controls) items
    × (any_candidate items ≡ true)

eqb_refl : (x : ℤ) → eqb_ℤ x x ≡ true
eqb_refl x = ground arith

eqb_eq : (x y : ℤ) → eqb_ℤ x y ≡ true → x ≡ y
eqb_eq x y h = eq_of_parts x y (ground (arith, h))

unseen : (x : ℤ) (seen : List ℤ) → seen_item x seen ≡ false → AllDiffer x seen
unseen x [] h = tt
unseen x (s ∷ seen) h = elim (Bool-cases (eqb_ℤ s x)) [
  | inl same ↦ cc (rw same at h)
  | inr other ↦ (
    λ e. let again : eqb_ℤ s x ≡ true = rw e (eqb_refl s) in cc (again, other),
    unseen x seen (rw other at h),
  )
]

seen_none : (x : ℤ) (seen : List ℤ) → AllDiffer x seen → seen_item x seen ≡ false
seen_none x [] h = refl
seen_none x (s ∷ seen) h = elim (Bool-cases (eqb_ℤ s x)) [
  | inl same ↦ absurd (h.0 (sym (eqb_eq s x same)))
  | inr other ↦ rw other (seen_none x seen h.1)
]

-- Nothing new was seen before.
abbrev AllNew : List ℤ → List ℤ → Type 0
AllNew seen items = All (λ x. AllDiffer x seen) items

record Fits (controls : List (ℕ × ControlSupply)) (seen items : List ℤ) (has : Bool) : Type 0 where
  fresh : AllNew seen items
  distinct : AreDistinct items
  placeable : All (IsPlaceable controls) items
  candidate : (if has then true else any_candidate items) ≡ true

later_new :
    (x : ℤ) (seen items : List ℤ) → AllNew (x ∷ seen) items → AllNew seen items × AllDiffer x items
later_new x seen [] h = (tt, tt)
later_new x seen (y ∷ items) h =
    let (rest, differ) = later_new x seen items h.1 in
    ((h.0.1, rest), ((λ e. h.0.0 (sym e)), differ))

join_new :
    (x : ℤ) (seen items : List ℤ) → AllNew seen items → AllDiffer x items → AllNew (x ∷ seen) items
join_new x seen [] h k = tt
join_new x seen (y ∷ items) h k = (((λ e. k.0 (sym e)), h.0), join_new x seen items h.1 k.1)

check-Fits :
    (controls : List (ℕ × ControlSupply)) (seen items : List ℤ) (has : Bool)
    → check_items controls seen items has ≡ none
    → Fits controls seen items has
unfolding check_items
check-Fits controls seen [] has h = record {
  fresh = tt;
  distinct = tt;
  placeable = tt;
  candidate = ground (arith, h);
}
check-Fits controls seen (x ∷ items) has h = elim (Bool-cases (seen_item x seen)) [
  | inl again ↦ cc (rw again at h)
  | inr new ↦
      let differs = unseen x seen new in
      elim (Bool-cases (is_candidate x)) [
        | inl yes_candidate ↦
            let f = check-Fits controls (x ∷ seen) items true (rw (new, yes_candidate) at h) in
            let (old, others) = later_new x seen items f.fresh in
            record {
              fresh = (differs, old);
              distinct = (others, f.distinct);
              placeable = (inl yes_candidate, f.placeable);
              candidate = ground (arith, yes_candidate);
            }
        | inr is_ctl ↦ elim (Bool-cases (is_supplied controls x)) [
          | inr away ↦ cc (rw (new, is_ctl, away) at h)
          | inl here ↦
              let f = check-Fits controls (x ∷ seen) items has (rw (new, is_ctl, here) at h) in
              let (old, others) = later_new x seen items f.fresh in
              record {
                fresh = (differs, old);
                distinct = (others, f.distinct);
                placeable = (inr here, f.placeable);
                candidate = rw is_ctl f.candidate;
              }
        ]
      ]
]

Fits-check :
    (controls : List (ℕ × ControlSupply)) (seen items : List ℤ) (has : Bool)
    → Fits controls seen items has
    → check_items controls seen items has ≡ none
unfolding check_items
Fits-check controls seen [] has f = ground (arith, f.candidate)
Fits-check controls seen (x ∷ items) has f =
    let new = seen_none x seen f.fresh.0 in
    let fresh = join_new x seen items f.fresh.1 f.distinct.0 in
    elim (Bool-cases (is_candidate x)) [
      | inl yes_candidate ↦
          let rest = Fits-check controls (x ∷ seen) items true (record {
            fresh = fresh;
            distinct = f.distinct.1;
            placeable = f.placeable.1;
            candidate = refl;
          }) in
          rw (new, yes_candidate) rest
      | inr is_ctl ↦
          let supplied : is_supplied controls x ≡ true = elim f.placeable.0 [
            | inl c ↦ cc (c, is_ctl)
            | inr s ↦ s
          ] in
          let rest = Fits-check controls (x ∷ seen) items has (record {
            fresh = fresh;
            distinct = f.distinct.1;
            placeable = f.placeable.1;
            candidate = rw is_ctl at f.candidate;
          }) in
          rw (new, is_ctl, supplied) rest
    ]

all_new : (items : List ℤ) → AllNew [] items
all_new [] = tt
all_new (x ∷ items) = (tt, all_new items)

-- For a valid profile, `validateArrangement` lets pass exactly the arrangements of two to `MaxWidth`
-- distinct items, at least one of them a candidate and each control among them supplied.
pub validate_arrangement_iff :
    (p : Profile) (items : List ℤ) → (validate_arrangement p items ≡ none) ↔ IsComparable p items
unfolding validate_arrangement
validate_arrangement_iff p items =
    elim (Bool-cases (ltb (length items) 2 || ltb p.max_width (length items))) [
      | inl bad ↦ ((λ h. cc (rw bad at h)), λ c. absurd (ground (arith, bad, c.0, c.1)))
      | inr good ↦ (
        (λ h.
            let f = check-Fits p.controls [] items false (rw good at h) in
            (ground (arith, good), ground (arith, good), f.distinct, f.placeable, f.candidate)),
        λ c. rw good (
            Fits-check p.controls [] items false
              (record { fresh = all_new items; distinct = c.2; placeable = c.3; candidate = c.4 })),
      )
    ]
