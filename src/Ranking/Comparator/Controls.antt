-- ===== src/Ranking/Comparator/Controls.antt =====
-- The IDs of controls (internal/ranking/comparator.go).
use tturl.Common.{
  ℕ, ◌+◌, ◌*◌, ◌/◌, ◌<◌, ◌≡◌, refl, ap, subst, inl, inr, true, false, some, arith, Bool-cases, ltb,
  leb,
}
use tturl.Common.Int.{ℤ, pos, negsuc}
use tturl.Ranking.Comparator.{
  control, control_kinds, is_control, is_candidate, control_word, control_kind, control_index,
  max_int,
}

coded :
    (kind index : ℕ)
    → kind < 16
    → let c = negsuc (index * control_kinds + kind) in
      (is_control c ≡ true)
      × (is_candidate c ≡ false)
      × (control_kind c ≡ kind)
      × (pos (control_index c) ≡ pos index)
unfolding is_control is_candidate control_kind control_index control_word
coded kind index low = (refl, refl, omega arith, ap pos (omega arith))

-- An ID that `Control` returns is a control's, not a candidate's, and gives its kind and its index
-- back.
pub control-roundtrip :
    (kind : ℕ) (index c : ℤ)
    → control kind index ≡ some c
    → (is_control c ≡ true)
      × (is_candidate c ≡ false)
      × (control_kind c ≡ kind)
      × (pos (control_index c) ≡ index)
unfolding control
control-roundtrip kind (negsuc n) c h = cc h
control-roundtrip kind (pos index) c h = elim (Bool-cases (leb control_kinds kind)) [
  | inl wide ↦ cc (rw wide at h)
  | inr fits ↦ elim (Bool-cases (ltb (max_int / control_kinds) index)) [
    | inl far ↦ cc (rw (fits, far) at h)
    | inr near ↦
        let e : negsuc (index * control_kinds + kind) ≡ c = cc (rw (fits, near) at h) in
        let low : kind < 16 = ground (arith, fits) in
        subst
          (λ c.
            (is_control c ≡ true)
            × (is_candidate c ≡ false)
            × (control_kind c ≡ kind)
            × (pos (control_index c) ≡ pos index))
          e (coded kind index low)
  ]
]
