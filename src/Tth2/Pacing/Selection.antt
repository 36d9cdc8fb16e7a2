-- ===== src/Tth2/Pacing/Selection.antt =====
-- Whom `selectAdmission` (tth2/pacing.go) chooses: the oldest call at the head of a queue among the
-- runs whose own clock is ready.
use tturl.Common.{
  ℕ, ◌≤◌, ◌≡◌, refl, sym, subst, inl, inr, Option, none, some, List, [], ◌∷◌, ◌++◌, All, arith, ltb,
  if◌then◌else◌, Bool-cases, append_assoc, append-nil, count, count-append, All-append, All-map,
}
use tturl.Tth2.Pacing.Clock.{Float64, ready_at}
use tturl.Tth2.Pacing.{
  PaceScheduler, run_at, admission, consider, consider_all, select_admission, prefer,
}

module _ {fp : Float64} (s : PaceScheduler fp) (now : ℕ) where
  -- The call at the head of a run's queue, if the run's clock is ready for it.
  abbrev pub candidate : ℕ → Option ℕ
  candidate r = elim (run_at s r).queue [
    | [] ↦ none
    | a ∷ _ ↦
        if ltb now (ready_at fp (run_at s r).state (admission s a).width) then none else some a
  ]

  abbrev pub AtLeast : ℕ → Option ℕ → Type 0
  AtLeast a none = Unit
  AtLeast a (some b) = a ≤ b

  -- The best of the candidates of some runs.
  abbrev pub IsOldest : List ℕ → Option (ℕ × ℕ) → Type 0
  IsOldest runs none = All (λ r. candidate r ≡ none) runs
  IsOldest runs (some (a, q)) =
      (candidate q ≡ some a) × (1 ≤ count q runs) × All (λ r. AtLeast a (candidate r)) runs

  abbrev choose : Option (ℕ × ℕ) → ℕ → Option ℕ → Option (ℕ × ℕ)
  choose selected r none = selected
  choose selected r (some a) = prefer selected a r

  consider-choose :
      (r : ℕ) (acc : Option (ℕ × ℕ) × ℕ) → (consider s now r acc).0 ≡ choose acc.0 r (candidate r)
  unfolding consider
  consider-choose r acc = ground arith

  AtLeast-trans : (a b : ℕ) (o : Option ℕ) → a ≤ b → AtLeast b o → AtLeast a o
  AtLeast-trans a b none h k = tt
  AtLeast-trans a b (some c) h k = omega arith

  AtLeast-none : (a r : ℕ) → candidate r ≡ none → AtLeast a (candidate r)
  AtLeast-none a r e = subst (AtLeast a) (sym e) tt

  AtLeast-some : (a b r : ℕ) → candidate r ≡ some b → a ≤ b → AtLeast a (candidate r)
  AtLeast-some a b r e h = subst (AtLeast a) (sym e) h

  last_counts : (seen : List ℕ) (r : ℕ) → 1 ≤ count r (seen ++ r ∷ [])
  last_counts seen r = ground (arith, count-append r seen (r ∷ []))

  earlier_counts : (seen : List ℕ) (q r : ℕ) → 1 ≤ count q seen → 1 ≤ count q (seen ++ r ∷ [])
  earlier_counts seen q r h = omega (arith, count-append q seen (r ∷ []))

  choose-IsOldest :
      (seen : List ℕ) (r : ℕ) (acc : Option (ℕ × ℕ)) (o : Option ℕ)
      → candidate r ≡ o
      → IsOldest seen acc
      → IsOldest (seen ++ r ∷ []) (choose acc r o)
  choose-IsOldest seen r none none e h = All-append _ seen (r ∷ []) h (e, tt)
  choose-IsOldest seen r none (some a) e h =
      let others = All-map _ (λ q. AtLeast a (candidate q)) seen (AtLeast-none a) h in
      (
        e,
        last_counts seen r,
        All-append _ seen (r ∷ []) others (AtLeast-some a a r e (omega arith), tt),
      )
  choose-IsOldest seen r (some (b, q)) none e h =
      (h.0, earlier_counts seen q r h.1, All-append _ seen (r ∷ []) h.2 (AtLeast-none b r e, tt))
  choose-IsOldest seen r (some (b, q)) (some a) e h = elim (Bool-cases (ltb a b)) [
    | inl older ↦
        let le : a ≤ b = ground (arith, older) in
        let others =
          All-map _ (λ p. AtLeast a (candidate p)) seen (λ p. AtLeast-trans a b (candidate p) le)
            h.2 in
        rw older (
          e,
          last_counts seen r,
          All-append _ seen (r ∷ []) others (AtLeast-some a a r e (omega arith), tt),
        )
    | inr younger ↦
        let le : b ≤ a = ground (arith, younger) in
        rw younger (
          h.0,
          earlier_counts seen q r h.1,
          All-append _ seen (r ∷ []) h.2 (AtLeast-some b a r e le, tt),
        )
  ]

  consider_all-IsOldest :
      (seen rs : List ℕ) (acc : Option (ℕ × ℕ) × ℕ)
      → IsOldest seen acc.0
      → IsOldest (seen ++ rs) (consider_all s now rs acc).0
  unfolding consider_all
  consider_all-IsOldest seen [] acc h = rw (append-nil seen) h
  consider_all-IsOldest seen (r ∷ rs) acc h =
      let here = choose-IsOldest seen r acc.0 (candidate r) refl h in
      let rest =
        consider_all-IsOldest (seen ++ r ∷ []) rs (consider s now r acc)
          (rw (consider-choose r acc) here) in
      let assoc : (seen ++ r ∷ []) ++ rs ≡ seen ++ r ∷ rs = append_assoc seen (r ∷ []) rs in
      rw (← assoc) rest

  -- With nothing selected yet, `selectAdmission` selects the oldest of the calls at the head of their
  -- run's queue whose run's clock is ready for them, and nothing only if there is none.
  pub select_admission-IsOldest :
      s.selected ≡ none → IsOldest s.members (select_admission s now).0.selected
  unfolding select_admission
  select_admission-IsOldest h =
      consider_all-IsOldest [] s.members (s.selected, 0) (subst (IsOldest []) (sym h) tt)
