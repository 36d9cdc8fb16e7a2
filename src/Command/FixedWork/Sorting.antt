-- ===== src/Command/FixedWork/Sorting.antt =====
-- The sort of the samples sorts them (cmd/tturl/demo_server_quota.go).
use tturl.Common.{
  ℕ, zero, suc, ◌+◌, ◌≤◌, ◌<◌, ◌≡◌, ◌≢◌, refl, ap, ◌∙◌, inl, inr, true, false, List, length, get_or,
  set, arith, ◌==◌, if◌then◌else◌, Bool-cases, sum_by, sum_by-set, get_or-set, length-set,
}
use tturl.Common.Int.{ℤ, pos, ◌≤ℤ◌, ltb_ℤ}
use native.Mathlib.Decide.{ℕ_discrete}
use tturl.Command.FixedWork.{sink, sort_samples, swap_back}

abbrev at : List ℤ → ℕ → ℤ
at xs i = get_or xs i (pos 0)

-- The samples up to `n` are in order, but for what comes before `j`.
abbrev pub IsSortedBut : ℕ → ℕ → List ℤ → Type 0
IsSortedBut n j xs = (a b : ℕ) → a ≤ b → b < n → b ≢ j → at xs a ≤ℤ at xs b

abbrev pub IsSortedTo : ℕ → List ℤ → Type 0
IsSortedTo n xs = (a b : ℕ) → a ≤ b → b < n → get_or xs a (pos 0) ≤ℤ get_or xs b (pos 0)

length-swap_back : (xs : List ℤ) (j : ℕ) → length (swap_back xs j) ≡ length xs
length-swap_back xs j =
    length-set (set xs (suc j) (at xs j)) j (at xs (suc j)) ∙ length-set xs (suc j) (at xs j)

swap_back-get :
    (xs : List ℤ) (j k : ℕ)
    → suc j < length xs
    → at (swap_back xs j) k
      ≡ (if j == k then at xs (suc j) else if suc j == k then at xs j else at xs k)
swap_back-get xs j k lt =
    let first = get_or-set xs (suc j) k (at xs j) (pos 0) lt in
    let second =
      get_or-set (set xs (suc j) (at xs j)) j k (at xs (suc j)) (pos 0)
        (omega (arith, length-set xs (suc j) (at xs j))) in
    ground (arith, first, second)

swap_back-sums :
    (f : ℤ → ℕ) (xs : List ℤ) (j : ℕ) → suc j < length xs → sum_by f (swap_back xs j) ≡ sum_by f xs
swap_back-sums f xs j lt =
    let ys = set xs (suc j) (at xs j) in
    let first = sum_by-set f xs (suc j) (at xs j) (pos 0) lt in
    let second =
      sum_by-set f ys j (at xs (suc j)) (pos 0) (omega (arith, length-set xs (suc j) (at xs j))) in
    let still = get_or-set xs (suc j) j (at xs j) (pos 0) lt in
    let same : (suc j == j) ≡ false = ground arith in
    let still' : at ys j ≡ at xs j = rw same at still in
    let got = ap f still' in omega (arith, first, second, got)

-- A position is the one swapped, the next, or another.
data Place (j k : ℕ) : Type 0 where
  here : k ≡ j → Place j k
  next : k ≡ suc j → Place j k
  away : k ≢ j → k ≢ suc j → Place j k

place : (j k : ℕ) → Place j k
place j k = elim (ℕ_discrete k j) [
  | yes e ↦ here e
  | no n ↦ elim (ℕ_discrete k (suc j)) [ yes e ↦ next e | no n' ↦ away n n' ]
]

at_here : (xs : List ℤ) (j : ℕ) → suc j < length xs → at (swap_back xs j) j ≡ at xs (suc j)
at_here xs j lt = let same : (j == j) ≡ true = ground arith in rw same at (swap_back-get xs j j lt)

at_next : (xs : List ℤ) (j : ℕ) → suc j < length xs → at (swap_back xs j) (suc j) ≡ at xs j
at_next xs j lt =
    let other : (j == suc j) ≡ false = ground arith in
    let same : (suc j == suc j) ≡ true = ground arith in
    rw (other, same) at (swap_back-get xs j (suc j) lt)

at_away :
    (xs : List ℤ) (j k : ℕ)
    → suc j < length xs
    → k ≢ j
    → k ≢ suc j
    → at (swap_back xs j) k ≡ at xs k
at_away xs j k lt ne ne' =
    let other : (j == k) ≡ false = ground (arith, ne) in
    let other' : (suc j == k) ≡ false = ground (arith, ne') in
    rw (other, other') at (swap_back-get xs j k lt)

module _ (n j : ℕ) (xs : List ℤ) (len : n ≤ length xs) (lt : suc j < n) where
  swapped_order :
      (a b : ℕ)
      → at xs (suc j) ≤ℤ at xs j
      → IsSortedBut n (suc j) xs
      → a ≤ b
      → b < n
      → Place j a
      → Place j b
      → b ≢ j
      → at (swap_back xs j) a ≤ℤ at (swap_back xs j) b
  swapped_order a b less sorted le lt' pa (here e) ne = absurd (ne e)
  swapped_order a b less sorted le lt' (here e) (next e') ne =
      rw (e, e', at_here xs j (omega arith), at_next xs j (omega arith)) less
  swapped_order a b less sorted le lt' (next e) (next e') ne = rw (e, e') (omega arith)
  swapped_order a b less sorted le lt' (away n1 n2) (next e') ne =
      rw (e', at_next xs j (omega arith), at_away xs j a (omega arith) n1 n2)
        (sorted a j (omega (arith, n2)) (omega arith) (λ h. omega (arith, h)))
  swapped_order a b less sorted le lt' (here e) (away n1 n2) ne =
      rw (e, at_here xs j (omega arith), at_away xs j b (omega arith) n1 n2)
        (sorted (suc j) b (omega (arith, n1)) lt' n2)
  swapped_order a b less sorted le lt' (next e) (away n1 n2) ne =
      rw (e, at_next xs j (omega arith), at_away xs j b (omega arith) n1 n2)
        (sorted j b (omega arith) lt' n2)
  swapped_order a b less sorted le lt' (away n1 n2) (away n3 n4) ne =
      rw (at_away xs j a (omega arith) n1 n2, at_away xs j b (omega arith) n3 n4)
        (sorted a b le lt' n4)

-- Where the loop stops, everything is in order.
stopped_order :
    (n j : ℕ) (xs : List ℤ)
    → suc j < n
    → at xs j ≤ℤ at xs (suc j)
    → IsSortedBut n (suc j) xs
    → IsSortedTo n xs
stopped_order n j xs lt less sorted a b le lt' = elim (ℕ_discrete b (suc j)) [
  | no ne ↦ sorted a b le lt' ne
  | yes e ↦ elim (ℕ_discrete a (suc j)) [
    | yes e' ↦ rw (e, e') (omega arith)
    | no ne ↦
        let before = sorted a j (omega (arith, ne)) (omega arith) (λ h. omega (arith, h)) in
        rw e (omega (arith, before, less))
  ]
]

sink-IsSortedTo :
    (n j : ℕ) (xs : List ℤ) → n ≤ length xs → j < n → IsSortedBut n j xs → IsSortedTo n (sink j xs)
unfolding sink
sink-IsSortedTo n zero xs len lt sorted = λ a b le lt'. elim (ℕ_discrete b 0) [
  | no ne ↦ sorted a b le lt' ne
  | yes e ↦ let same : a ≡ 0 = omega (arith, e) in rw (e, same) (omega arith)
]
sink-IsSortedTo n (suc j) xs len lt sorted = elim (Bool-cases (ltb_ℤ (at xs (suc j)) (at xs j))) [
  | inl e ↦
      let swapped : IsSortedBut n j (swap_back xs j) = λ a b le lt' ne.
        swapped_order n j xs len lt a b (ground (arith, e)) sorted le lt' (place j a) (place j b)
          ne in
      rw e (
        sink-IsSortedTo n j (swap_back xs j) (omega (arith, length-swap_back xs j)) (omega arith)
          swapped)
  | inr e ↦ rw e (stopped_order n j xs lt (ground (arith, e)) sorted)
]

sink-sums : (f : ℤ → ℕ) (j : ℕ) (xs : List ℤ) → j < length xs → sum_by f (sink j xs) ≡ sum_by f xs
unfolding sink
sink-sums f zero xs lt = refl
sink-sums f (suc j) xs lt = elim (Bool-cases (ltb_ℤ (at xs (suc j)) (at xs j))) [
  | inl e ↦ rw e (
      sink-sums f j (swap_back xs j) (omega (arith, length-swap_back xs j))
      ∙ swap_back-sums f xs j lt)
  | inr e ↦ rw e refl
]

length-sink : (j : ℕ) (xs : List ℤ) → length (sink j xs) ≡ length xs
unfolding sink
length-sink zero xs = refl
length-sink (suc j) xs = elim (Bool-cases (ltb_ℤ (at xs (suc j)) (at xs j))) [
  | inl e ↦ rw e (length-sink j (swap_back xs j) ∙ length-swap_back xs j)
  | inr e ↦ rw e refl
]

pub record Sorts (xs : List ℤ) (r : List ℤ) : Type 0 where
  pub sorted : IsSortedTo (length xs) r
  pub size : length r ≡ length xs
  pub same : (f : ℤ → ℕ) → sum_by f r ≡ sum_by f xs

-- The rounds from the `i`-th on sort the list, if what comes before is in order.
pub sort_samples-Sorts :
    (more i : ℕ) (xs : List ℤ)
    → i + more ≡ length xs
    → IsSortedTo i xs
    → Sorts xs (sort_samples more i xs)
unfolding sort_samples
sort_samples-Sorts zero i xs e sorted = record {
  sorted = λ a b le lt. sorted a b le (omega (arith, e));
  size = refl;
  same = λ f. refl;
}
sort_samples-Sorts (suc more) i xs e sorted =
    let len = length-sink i xs in
    let but : IsSortedBut (suc i) i xs = λ a b le lt ne. sorted a b le (omega (arith, ne)) in
    let rest =
      sort_samples-Sorts more (suc i) (sink i xs) (omega (arith, e, len))
        (sink-IsSortedTo (suc i) i xs (omega (arith, e)) (omega arith) but) in
    record {
      sorted = λ a b le lt. rest.sorted a b le (omega (arith, len));
      size = rest.size ∙ len;
      same = λ f. rest.same f ∙ sink-sums f i xs (omega (arith, e));
    }
