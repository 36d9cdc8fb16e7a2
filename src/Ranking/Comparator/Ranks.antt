-- ===== src/Ranking/Comparator/Ranks.antt =====
-- `isRankPermutation` (internal/ranking/comparator.go) accepts exactly the permutations.
use tturl.Common.{
  ℕ, zero, suc, ◌+◌, ◌≤◌, ◌<◌, ◌≡◌, ◌↔◌, refl, sym, ◌∙◌, inl, inr, true, false, List, [], ◌∷◌,
  length, count, upto, SameItems, All, All-of_get, All-get, All-map, arith, ◌==◌, ==_iff,
  Bool-cases, replicate, length-replicate, length-map, leb, count-get, count-upto, count-upto_above,
  get_elem?-map,
}
use tturl.Common.Int.{ℤ, pos, pos_part, ◌≤ℤ◌, neg_part-nonneg}
use tturl.Ranking.Comparator.{is_rank_permutation, fill_flags}
use tturl.Ranking.Comparator.Words.{fill_mask-flags}
use tturl.Ranking.Comparator.Flags.{
  InRange, flagged, numbers, fill_flags_sound, fill_flags_complete,
}

-- How many items of a list lie in `[a, a + n)`.
total_counts : List ℕ → ℕ → ℕ → ℕ
total_counts xs a zero = 0
total_counts xs a (suc n) = count a xs + total_counts xs (suc a) n

total-nil : (a n : ℕ) → total_counts [] a n ≡ 0
unfolding total_counts
total-nil a zero = refl
total-nil a (suc n) = omega (arith, total-nil (suc a) n)

total-cons :
    (x : ℕ) (xs : List ℕ) (a n : ℕ)
    → total_counts (x ∷ xs) a n ≡ count x (upto a n) + total_counts xs a n
unfolding total_counts
total-cons x xs a zero = omega arith
total-cons x xs a (suc n) = ground (arith, total-cons x xs (suc a) n)

total-length : (xs : List ℕ) (n : ℕ) → All (λ x. x < n) xs → total_counts xs 0 n ≡ length xs
total-length [] n h = total-nil 0 n
total-length (x ∷ xs) n h = omega (
  arith,
  total-cons x xs 0 n,
  total-length xs n h.1,
  count-upto x 0 n (omega arith) (omega (arith, h.0)),
)

total_le :
    (xs : List ℕ) (a n : ℕ)
    → ((i : ℕ) → a ≤ i → i < a + n → count i xs ≤ 1)
    → total_counts xs a n ≤ n
unfolding total_counts
total_le xs a zero h = omega arith
total_le xs a (suc n) h = omega (
  arith,
  h a (omega arith) (omega arith),
  total_le xs (suc a) n (λ i le lt. h i (omega arith) (omega arith)),
)

-- Where `n` items fill `n` places, none of them twice, each place is taken.
each_once :
    (xs : List ℕ) (a n : ℕ)
    → ((i : ℕ) → a ≤ i → i < a + n → count i xs ≤ 1)
    → total_counts xs a n ≡ n
    → (i : ℕ) → a ≤ i
    → i < a + n
    → count i xs ≡ 1
unfolding total_counts
each_once xs a zero h e i le lt = absurd (omega arith)
each_once xs a (suc n) h e i le lt =
    let here = h a (omega arith) (omega arith) in
    let later : (j : ℕ) → suc a ≤ j → j < suc a + n → count j xs ≤ 1 =
      λ j le lt. h j (omega arith) (omega arith) in
    let rest = total_le xs (suc a) n later in
    elim (Bool-cases (i == a)) [
      | inl same ↦ let at_a : i ≡ a = (==_iff i a).0 same in rw at_a (omega (arith, here, rest, e))
      | inr other ↦
          each_once xs (suc a) n later (omega (arith, here, rest, e)) i (ground (arith, other))
            (omega arith)
    ]

count_beyond : (xs : List ℕ) (n a : ℕ) → All (λ x. x < n) xs → n ≤ a → count a xs ≡ 0
count_beyond [] n a h le = refl
count_beyond (x ∷ xs) n a h le = ground (arith, h.0, count_beyond xs n a h.1 le)

-- Ranks that name each place below `n` exactly once.
abbrev pub IsPermutation : ℕ → List ℤ → Type 0
IsPermutation n ranks =
    All (λ r. pos 0 ≤ℤ r) ranks × (length ranks ≡ n) × SameItems (numbers ranks) (upto 0 n)

numbers-below : (n : ℕ) (ranks : List ℤ) → All (InRange n) ranks → All (λ x. x < n) (numbers ranks)
numbers-below n [] h = tt
numbers-below n (r ∷ ranks) h = (h.0.1, numbers-below n ranks h.1)

filled-IsPermutation :
    (n : ℕ) (ranks : List ℤ)
    → length ranks ≡ n
    → All (InRange n) ranks
    → ((r : ℕ) → r < n → count r (numbers ranks) ≤ 1)
    → IsPermutation n ranks
filled-IsPermutation n ranks len all once =
    let below = numbers-below n ranks all in
    let total = total-length (numbers ranks) n below ∙ length-map pos_part ranks ∙ len in
    let one = each_once (numbers ranks) 0 n (λ i le lt. once i (omega arith)) total in
    (
      All-map (InRange n) (λ r. pos 0 ≤ℤ r) ranks (λ r h. omega (arith, h.0)) all,
      len,
      λ a. elim (Bool-cases (leb n a)) [
        | inl beyond ↦
            let le : n ≤ a = ground (arith, beyond) in
            count_beyond (numbers ranks) n a below le ∙ sym (count-upto_above a 0 n (omega arith))
        | inr within ↦
            let lt : a < n = ground (arith, within) in
            one a (omega arith) (omega arith) ∙ sym (count-upto a 0 n (omega arith) (omega arith))
      ],
    )

no_flags : (m r : ℕ) → flagged (replicate m false) r ≡ 0
no_flags zero r = refl
no_flags (suc m) zero = refl
no_flags (suc m) (suc r) = no_flags m r

-- Either loop is the loop over enough flags.
permutation-flags :
    (ranks : List ℤ) (n : ℕ)
    → length ranks ≡ n
    → (m : ℕ) × (n ≤ m) × (is_rank_permutation ranks n ≡ fill_flags n (replicate m false) ranks)
unfolding is_rank_permutation
permutation-flags ranks n len =
    let same : (length ranks == n) ≡ true = (==_iff _ _).1 len in
    elim (Bool-cases (leb n 64)) [
      | inl small ↦ (
        64,
        ground (arith, small),
        rw (same, small) (fill_mask-flags n (replicate 64 false) ranks (length-replicate 64 false)),
      )
      | inr large ↦ (n, omega arith, rw (same, large) refl)
    ]

sound : (ranks : List ℤ) (n : ℕ) → is_rank_permutation ranks n ≡ true → IsPermutation n ranks
unfolding is_rank_permutation
sound ranks n h = elim (Bool-cases (length ranks == n)) [
  | inr differ ↦ cc (rw differ at h)
  | inl same ↦
      let len : length ranks ≡ n = (==_iff _ _).0 same in
      let (m, le, e) = permutation-flags ranks n len in
      let (all, once) =
        fill_flags_sound n (replicate m false) ranks (omega (arith, length-replicate m false, le))
          (sym e ∙ h) in
      filled-IsPermutation n ranks len all (λ r lt. omega (arith, once r lt))
]

complete : (ranks : List ℤ) (n : ℕ) → IsPermutation n ranks → is_rank_permutation ranks n ≡ true
complete ranks n h =
    let (m, le, e) = permutation-flags ranks n h.1 in
    let all : All (InRange n) ranks = All-of_get (InRange n) ranks (λ i r at_i.
      let known = count-get (pos_part r) (numbers ranks) i (get_elem?-map pos_part ranks i at_i) in
      let sign = neg_part-nonneg r (All-get (λ r. pos 0 ≤ℤ r) ranks i h.0 at_i) in
      elim (Bool-cases (leb n (pos_part r))) [
        | inl beyond ↦
            let above : 0 + n ≤ pos_part r = ground (arith, beyond) in
            absurd (omega (arith, known, h.2 (pos_part r), count-upto_above (pos_part r) 0 n above))
        | inr within ↦ (sign, ground (arith, within))
      ]) in
    let once : (r : ℕ) → r < n → flagged (replicate m false) r + count r (numbers ranks) ≤ 1 =
      λ r lt. omega (arith, no_flags m r, h.2 r, count-upto r 0 n (omega arith) (omega arith)) in
    e
    ∙ fill_flags_complete n (replicate m false) ranks (omega (arith, length-replicate m false, le))
        all once

-- Ranks pass, by the mask for up to 64 of them and by the flags for more, exactly if they name each
-- place below their number once: a tie-free permutation.
pub is_rank_permutation_iff :
    (ranks : List ℤ) (n : ℕ) → (is_rank_permutation ranks n ≡ true) ↔ IsPermutation n ranks
is_rank_permutation_iff ranks n = (sound ranks n, complete ranks n)
