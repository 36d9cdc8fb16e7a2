-- ===== src/Ranking/Comparator/Words.antt =====
-- The bits of a word: the mask of `isRankPermutation` holds the same as a list of flags.
use tturl.Common.{
  ℕ, zero, suc, ◌+◌, ◌<◌, ◌≡◌, refl, ◌∙◌, true, false, List, [], ◌∷◌, map, upto, length, get_or,
  set, arith, ◌==◌, length-set,
}
use tturl.Common.Int.{ℤ, pos_part}
use tturl.Ranking.Comparator.{Word, one_shl, word_and, word_or, is_nonzero, fill_mask, fill_flags}

-- One bit of the places from `a` on.
abbrev bit_from : ℕ → ℕ → ℕ → Word
bit_from r a n = map (λ i. i == r) (upto a n)

bit_above :
    (xs : Word) (r a : ℕ) → r < a → is_nonzero (word_and xs (bit_from r a (length xs))) ≡ false
unfolding is_nonzero word_and
bit_above [] r a h = refl
bit_above (x ∷ xs) r a h = ground (arith, bit_above xs r (suc a))

test_from :
    (xs : Word) (r a : ℕ)
    → is_nonzero (word_and xs (bit_from (a + r) a (length xs))) ≡ get_or xs r false
unfolding is_nonzero word_and
test_from [] r a = refl
test_from (x ∷ xs) zero a =
    let above = bit_above xs (a + 0) (suc a) (omega arith) in
    let here : (a == a + 0) ≡ true = ground arith in ground (arith, here, above)
test_from (x ∷ xs) (suc r) a =
    let shift : suc a + r ≡ a + suc r = omega arith in
    let rest = rw shift at (test_from xs r (suc a)) in
    let there : (a == a + suc r) ≡ false = ground arith in ground (arith, there, rest)

or_above : (xs : Word) (r a : ℕ) → r < a → word_or xs (bit_from r a (length xs)) ≡ xs
unfolding word_or
or_above [] r a h = refl
or_above (x ∷ xs) r a h = ground (arith, or_above xs r (suc a))

or_from : (xs : Word) (r a : ℕ) → word_or xs (bit_from (a + r) a (length xs)) ≡ set xs r true
unfolding word_or
or_from [] r a = refl
or_from (x ∷ xs) zero a =
    let above = or_above xs (a + 0) (suc a) (omega arith) in
    let here : (a == a + 0) ≡ true = ground arith in ground (arith, here, above)
or_from (x ∷ xs) (suc r) a =
    let shift : suc a + r ≡ a + suc r = omega arith in
    let rest = rw shift at (or_from xs r (suc a)) in
    let there : (a == a + suc r) ≡ false = ground arith in ground (arith, there, rest)

-- `seen&(1<<r) != 0` reads flag `r`, and `seen |= 1<<r` sets it.
test_lem :
    (seen : Word) (r : ℕ)
    → length seen ≡ 64
    → is_nonzero (word_and seen (one_shl r)) ≡ get_or seen r false
unfolding one_shl
test_lem seen r h =
    let zero_plus : 0 + r ≡ r = omega arith in rw zero_plus at (rw h at (test_from seen r 0))

mark_lem : (seen : Word) (r : ℕ) → length seen ≡ 64 → word_or seen (one_shl r) ≡ set seen r true
unfolding one_shl
mark_lem seen r h =
    let zero_plus : 0 + r ≡ r = omega arith in rw zero_plus at (rw h at (or_from seen r 0))

-- The loop over a mask does what the loop over 64 flags does.
pub fill_mask-flags :
    (n : ℕ) (seen : Word) (ranks : List ℤ)
    → length seen ≡ 64
    → fill_mask n seen ranks ≡ fill_flags n seen ranks
unfolding fill_mask fill_flags
fill_mask-flags n seen [] h = refl
fill_mask-flags n seen (r ∷ ranks) h =
    let size : length (set seen (pos_part r) true) ≡ 64 = length-set seen (pos_part r) true ∙ h in
    rw
      (
        test_lem seen (pos_part r) h,
        mark_lem seen (pos_part r) h,
        fill_mask-flags n (set seen (pos_part r) true) ranks size,
      )
      refl
