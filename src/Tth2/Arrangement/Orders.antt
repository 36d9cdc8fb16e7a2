-- ===== src/Tth2/Arrangement/Orders.antt =====
-- Shuffling an order, and drawing a base permutation, keep every index exactly once.
use tturl.Common.{
  ℕ, zero, suc, ◌+◌, ◌%◌, ◌<◌, ◌≤◌, ◌≡◌, ◌≢◌, refl, ap, ◌∙◌, List, [], ◌∷◌, length, get_or, set,
  arith, SameItems, count-set, length-set, length-upto,
}
use native.Mathlib.Decide.{ℕ_discrete}
use tturl.Tth2.Arrangement.{
  Arranger, IsArrangement, arrange_rotate, arrange_none, arrange_random, ArrangementPolicy, swap,
  shuffle, identity, new_arranger, start_cycle,
}

get_or-set_self : (xs : List ℕ) (i v : ℕ) → i < length xs → get_or (set xs i v) i 0 ≡ v
get_or-set_self [] i v h = absurd (omega arith)
get_or-set_self (x ∷ xs) zero v h = refl
get_or-set_self (x ∷ xs) (suc i) v h = get_or-set_self xs i v (omega arith)

get_or-set_ne : (xs : List ℕ) (i j v : ℕ) → i ≢ j → get_or (set xs i v) j 0 ≡ get_or xs j 0
get_or-set_ne [] i j v h = refl
get_or-set_ne (x ∷ xs) zero zero v h = absurd (h refl)
get_or-set_ne (x ∷ xs) zero (suc j) v h = refl
get_or-set_ne (x ∷ xs) (suc i) zero v h = refl
get_or-set_ne (x ∷ xs) (suc i) (suc j) v h = get_or-set_ne xs i j v (λ e. h (ap suc e))

-- After `xs[i]` is overwritten with `xs[j]`, position `j` still holds `xs[j]`.
get_or-set_other :
    (xs : List ℕ) (i j : ℕ) → i < length xs → get_or (set xs i (get_or xs j 0)) j 0 ≡ get_or xs j 0
get_or-set_other xs i j h = elim (ℕ_discrete i j) [
  | yes e ↦ rw (← e) (get_or-set_self xs i (get_or xs i 0) h)
  | no e ↦ get_or-set_ne xs i j (get_or xs j 0) e
]

length-swap : (xs : List ℕ) (i j : ℕ) → length (swap xs i j) ≡ length xs
unfolding swap
length-swap xs i j =
    length-set (set xs i (get_or xs j 0)) j (get_or xs i 0) ∙ length-set xs i (get_or xs j 0)

swap-SameItems :
    (xs : List ℕ) (i j : ℕ) → i < length xs → j < length xs → SameItems (swap xs i j) xs
unfolding swap
swap-SameItems xs i j hi hj a =
    let y = get_or xs j 0 in
    let x = get_or xs i 0 in
    let ys = set xs i y in
    let e : get_or ys j 0 ≡ y = get_or-set_other xs i j hi in
    let hj' : j < length ys = omega (arith, length-set xs i y) in
    let second = count-set a ys j x hj' in
    let first = count-set a xs i y hi in ground (arith, first, second, e)

pub length-shuffle : (n : ℕ) (draws xs : List ℕ) → length (shuffle n draws xs) ≡ length xs
unfolding shuffle
length-shuffle zero draws xs = refl
length-shuffle (suc zero) draws xs = refl
length-shuffle (suc (suc i)) draws xs =
    length-shuffle (suc i) _ _ ∙ length-swap xs (suc i) (get_or draws 0 0 % (suc i + 1))

-- Whatever the draws, `Shuffle` of the first `n` positions permutes the list.
pub shuffle-SameItems :
    (n : ℕ) (draws xs : List ℕ) → n ≤ length xs → SameItems (shuffle n draws xs) xs
unfolding shuffle
shuffle-SameItems zero draws xs h a = refl
shuffle-SameItems (suc zero) draws xs h a = refl
shuffle-SameItems (suc (suc i)) draws xs h a =
    let j = get_or draws 0 0 % (suc i + 1) in
    shuffle-SameItems (suc i) _ (swap xs (suc i) j) (omega (arith, length-swap xs (suc i) j)) a
    ∙ swap-SameItems xs (suc i) j (omega arith) (omega arith) a

pub identity-IsArrangement : (n : ℕ) → IsArrangement n (identity n)
unfolding identity
identity-IsArrangement n = (λ a. refl, length-upto 0 n)

pub shuffle-IsArrangement :
    (n : ℕ) (draws xs : List ℕ) → IsArrangement n xs → IsArrangement n (shuffle n draws xs)
shuffle-IsArrangement n draws xs h =
    (λ a. shuffle-SameItems n draws xs (omega arith) a ∙ h.0 a, length-shuffle n draws xs ∙ h.1)

-- What holds of an arranger between cycles.
pub record IsReady (a : Arranger) : Type 0 where
  pub permuted : a.policy ≡ arrange_rotate → IsArrangement a.n a.base

pub new_arranger-IsReady : (p : ArrangementPolicy) (n : ℕ) → IsReady (new_arranger p n)
unfolding new_arranger
new_arranger-IsReady arrange_rotate n = record { permuted = λ _. identity-IsArrangement n }
new_arranger-IsReady arrange_none n = record { permuted = λ e. cc }
new_arranger-IsReady arrange_random n = record { permuted = λ e. cc }

start_cycle-by :
    (p : ArrangementPolicy) (a : Arranger) (draws : List ℕ)
    → a.policy ≡ p
    → IsReady a
    → IsReady (start_cycle a draws)
unfolding start_cycle
start_cycle-by arrange_rotate a draws e r =
    rw (e, start_cycle)
      (record { permuted = λ _. shuffle-IsArrangement a.n draws a.base (r.permuted e) })
start_cycle-by arrange_none a draws e r = rw (e, start_cycle) r
start_cycle-by arrange_random a draws e r = rw (e, start_cycle) r

pub start_cycle-IsReady :
    (a : Arranger) (draws : List ℕ) → IsReady a → IsReady (start_cycle a draws)
start_cycle-IsReady a draws r = start_cycle-by a.policy a draws refl r
