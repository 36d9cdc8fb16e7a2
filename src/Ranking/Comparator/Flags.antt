-- ===== src/Ranking/Comparator/Flags.antt =====
-- What the loop over flags of `isRankPermutation` accepts: ranks in range, none of them twice.
use tturl.Common.{
  ℕ, zero, suc, ◌+◌, ◌≤◌, ◌<◌, ◌≡◌, refl, inl, inr, Bool, true, false, List, [], ◌∷◌, map, length,
  get_or, set, count, All, arith, ◌==◌, ==_iff, ==_refl, if◌then◌else◌, Bool-cases, length-set,
}
use tturl.Common.Int.{ℤ, pos_part, neg_part}
use tturl.Ranking.Comparator.{fill_flags, out_of_range}

abbrev pub InRange : ℕ → ℤ → Type 0
InRange n r = (neg_part r ≡ 0) × (pos_part r < n)

abbrev pub flagged : List Bool → ℕ → ℕ
flagged seen r = if get_or seen r false then 1 else 0

abbrev pub numbers : List ℤ → List ℕ
numbers ranks = map pos_part ranks

flagged-set :
    (seen : List Bool) (i j : ℕ)
    → i < length seen
    → flagged (set seen i true) j ≡ (if i == j then 1 else flagged seen j)
flagged-set [] i j h = absurd (omega arith)
flagged-set (x ∷ seen) zero zero h = refl
flagged-set (x ∷ seen) zero (suc j) h = ground arith
flagged-set (x ∷ seen) (suc i) zero h = ground arith
flagged-set (x ∷ seen) (suc i) (suc j) h = ground (arith, flagged-set seen i j (omega arith))

in_range : (n : ℕ) (r : ℤ) → out_of_range n r ≡ false → InRange n r
in_range n r h = ground (arith, h)

not_out : (n : ℕ) (r : ℤ) → InRange n r → out_of_range n r ≡ false
not_out n r h = ground (arith, h)

pub fill_flags_sound :
    (n : ℕ) (seen : List Bool) (ranks : List ℤ)
    → n ≤ length seen
    → fill_flags n seen ranks ≡ true
    → All (InRange n) ranks × ((r : ℕ) → r < n → flagged seen r + count r (numbers ranks) ≤ 1)
unfolding fill_flags
fill_flags_sound n seen [] len h = (tt, λ r lt. ground arith)
fill_flags_sound n seen (x ∷ ranks) len h = elim (Bool-cases (out_of_range n x)) [
  | inl out ↦ cc (rw out at h)
  | inr inside ↦ elim (Bool-cases (get_or seen (pos_part x) false)) [
    | inl taken ↦ cc (rw (inside, taken) at h)
    | inr free ↦
        let here = in_range n x inside in
        let size = length-set seen (pos_part x) true in
        let (all, once) =
          fill_flags_sound n (set seen (pos_part x) true) ranks (omega (arith, size, len))
            (rw (inside, free) at h) in
        (
          (here, all),
          λ r lt.
              let bound =
                rw (flagged-set seen (pos_part x) r (omega (arith, here.1, len))) at (once r lt) in
              elim (Bool-cases (pos_part x == r)) [
                | inl same ↦
                    let e : pos_part x ≡ r = (==_iff _ _).0 same in
                    let no_flag : flagged seen r ≡ 0 = rw (← e, free) refl in
                    ground (arith, bound, same, no_flag)
                | inr other ↦ ground (arith, bound, other)
              ],
        )
  ]
]

pub fill_flags_complete :
    (n : ℕ) (seen : List Bool) (ranks : List ℤ)
    → n ≤ length seen
    → All (InRange n) ranks
    → ((r : ℕ) → r < n → flagged seen r + count r (numbers ranks) ≤ 1)
    → fill_flags n seen ranks ≡ true
unfolding fill_flags
fill_flags_complete n seen [] len all once = refl
fill_flags_complete n seen (x ∷ ranks) len all once =
    let inside = not_out n x all.0 in
    let at_x = once (pos_part x) all.0.1 in
    let self = ==_refl (pos_part x) in
    elim (Bool-cases (get_or seen (pos_part x) false)) [
      | inl taken ↦ absurd (ground (arith, at_x, self, taken))
      | inr free ↦
          let rest =
            fill_flags_complete n (set seen (pos_part x) true) ranks
              (omega (arith, length-set seen (pos_part x) true, len)) all.1
              (λ r lt.
                let bound = once r lt in
                let marked = flagged-set seen (pos_part x) r (omega (arith, all.0.1, len)) in
                elim (Bool-cases (pos_part x == r)) [
                  | inl same ↦
                      let e : pos_part x ≡ r = (==_iff _ _).0 same in
                      ground (arith, bound, same, marked)
                  | inr other ↦ ground (arith, bound, other, marked)
                ]) in
          rw (inside, free) rest
    ]
