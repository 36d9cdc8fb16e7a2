-- ===== src/Tth2/Result/Sorting.antt =====
-- `sort.Slice` in `newBatchResult`: the same indices, in the order of their arrival.
use tturl.Common.{
  ℕ, suc, ◌+◌, ◌<◌, ◌≡◌, refl, ap, ◌∙◌, inl, inr, true, false, List, [], ◌∷◌, length, arith, All,
  SameItems, Bool-cases,
}
use tturl.Common.Int.{ℤ, pos_part, neg_part, ltb_ℤ, eqb_ℤ}
use tturl.Tth2.Result.{Result, seq_of, insert_by_seq, sort_by_seq, no_duplicate_seq}

-- Arrival before, as a strict order on the sequence numbers.
infix 50 ◌<ℤ◌
abbrev pub ◌<ℤ◌ : ℤ → ℤ → Type 0
a <ℤ b = pos_part a + neg_part b < pos_part b + neg_part a

module _ {R : Type 0} (results : List (Result R)) where
  insert_by_seq-SameItems : (i : ℕ) (js : List ℕ) → SameItems (insert_by_seq results i js) (i ∷ js)
  unfolding insert_by_seq
  insert_by_seq-SameItems i [] a = refl
  insert_by_seq-SameItems i (j ∷ js) a = ground (arith, insert_by_seq-SameItems i js a)

  pub sort_by_seq-SameItems : (is : List ℕ) → SameItems (sort_by_seq results is) is
  unfolding sort_by_seq
  sort_by_seq-SameItems [] a = refl
  sort_by_seq-SameItems (i ∷ is) a =
      omega
        (arith, insert_by_seq-SameItems i (sort_by_seq results is) a, sort_by_seq-SameItems is a)

  length-insert_by_seq :
      (i : ℕ) (js : List ℕ) → length (insert_by_seq results i js) ≡ suc (length js)
  unfolding insert_by_seq
  length-insert_by_seq i [] = refl
  length-insert_by_seq i (j ∷ js) = ground (arith, length-insert_by_seq i js)

  pub length-sort_by_seq : (is : List ℕ) → length (sort_by_seq results is) ≡ length is
  unfolding sort_by_seq
  length-sort_by_seq [] = refl
  length-sort_by_seq (i ∷ is) =
      length-insert_by_seq i (sort_by_seq results is) ∙ ap suc (length-sort_by_seq is)

  -- No index of the list arrived before `x`.
  abbrev NotBefore : ℤ → List ℕ → Type 0
  NotBefore x js = All (λ j. ltb_ℤ (seq_of results j) x ≡ false) js

  abbrev Ordered : List ℕ → Type 0
  Ordered [] = Unit
  Ordered (i ∷ is) = NotBefore (seq_of results i) is × Ordered is

  NotBefore-insert :
      (x : ℤ) (i : ℕ) (js : List ℕ)
      → ltb_ℤ (seq_of results i) x ≡ false
      → NotBefore x js
      → NotBefore x (insert_by_seq results i js)
  unfolding insert_by_seq
  NotBefore-insert x i [] h k = (h, tt)
  NotBefore-insert x i (j ∷ js) h k = ground (arith, NotBefore-insert x i js h k.1)

  NotBefore-trans : (x y : ℤ) (js : List ℕ) → ltb_ℤ y x ≡ false → NotBefore y js → NotBefore x js
  NotBefore-trans x y [] h k = tt
  NotBefore-trans x y (j ∷ js) h k = (ground (arith, k.0), NotBefore-trans x y js h k.1)

  insert_by_seq-Ordered : (i : ℕ) (js : List ℕ) → Ordered js → Ordered (insert_by_seq results i js)
  unfolding insert_by_seq
  insert_by_seq-Ordered i [] h = (tt, tt)
  insert_by_seq-Ordered i (j ∷ js) h =
      elim (Bool-cases (ltb_ℤ (seq_of results j) (seq_of results i))) [
        | inl before ↦ rw before (
          NotBefore-insert (seq_of results j) i js (ground arith) h.0,
          insert_by_seq-Ordered i js h.1,
        )
        | inr after ↦
            rw after
              ((after, NotBefore-trans (seq_of results i) (seq_of results j) js after h.0), h)
      ]

  sort_by_seq-Ordered : (is : List ℕ) → Ordered (sort_by_seq results is)
  unfolding sort_by_seq
  sort_by_seq-Ordered [] = tt
  sort_by_seq-Ordered (i ∷ is) =
      insert_by_seq-Ordered i (sort_by_seq results is) (sort_by_seq-Ordered is)

  -- Each index arrived before the next.
  abbrev pub Ascending : List ℕ → Type 0
  Ascending [] = Unit
  Ascending (i ∷ []) = Unit
  Ascending (i ∷ j ∷ js) = (seq_of results i <ℤ seq_of results j) × Ascending (j ∷ js)

  Ordered-Ascending : (is : List ℕ) → Ordered is → no_duplicate_seq results is ≡ true → Ascending is
  unfolding no_duplicate_seq
  Ordered-Ascending [] h d = tt
  Ordered-Ascending (i ∷ []) h d = tt
  Ordered-Ascending (i ∷ j ∷ js) h d =
      elim (Bool-cases (eqb_ℤ (seq_of results i) (seq_of results j))) [
        | inl same ↦ cc (rw same at d)
        | inr differ ↦ (ground (arith, h.0.0), Ordered-Ascending (j ∷ js) h.1 (rw differ at d))
      ]

  pub sort_by_seq-Ascending :
      (is : List ℕ)
      → no_duplicate_seq results (sort_by_seq results is) ≡ true
      → Ascending (sort_by_seq results is)
  sort_by_seq-Ascending is d = Ordered-Ascending (sort_by_seq results is) (sort_by_seq-Ordered is) d
