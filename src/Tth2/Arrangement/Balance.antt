-- ===== src/Tth2/Arrangement/Balance.antt =====
-- Cyclic rotation: every shift is an arrangement, and over a whole cycle each request takes each
-- position exactly once.
use tturl.Common.{
  ℕ, zero, suc, ◌+◌, ◌-◌, ◌%◌, ◌<◌, ◌≤◌, ◌≡◌, refl, ap, ◌∙◌, List, [], ◌++◌, map, length, get_or,
  upto, take, drop, arith, count, SameItems, count-append, count-upto, length-drop, length-map,
  take_all, take-append-drop, drop-get_or, upto-append, length-upto, map-upto_congr,
}
use mathlib.Core.List.{map-append}
use native.Mathlib.Nat.{mod-eq_of_lt, add-mod_right}
use tturl.Tth2.Arrangement.{
  Arranger, IsArrangement, ArrangementPolicy, arrange_rotate, arrange_none, arrange_random,
  rotation, next,
}
use tturl.Tth2.Arrangement.Orders.{IsReady, identity-IsArrangement, shuffle-IsArrangement}

-- Reading `m` consecutive elements from index `k` on gives that segment.
map-upto_segment :
    (f : ℕ → ℕ) (xs : List ℕ) (a k m : ℕ)
    → ((i : ℕ) → i < m → f (a + i) ≡ get_or xs (k + i) 0)
    → k + m ≤ length xs
    → map f (upto a m) ≡ take m (drop k xs)
map-upto_segment f xs a k zero h fits = refl
map-upto_segment f xs a k (suc m) h fits =
    let rest =
      map-upto_segment f xs (suc a) (suc k) m
        (λ i lt.
          let e : suc a + i ≡ a + suc i = omega arith in
          let e' : suc k + i ≡ k + suc i = omega arith in rw (e, e') (h (suc i) (omega arith)))
        (omega arith) in
    rw (drop-get_or k xs 0 (omega arith)) (ground (arith, h 0 (omega arith), rest))

wrap : (n k i : ℕ) → k ≤ n → i < k → (n - k + i + k) % n ≡ i
wrap n k i h lt =
    let e : n - k + i + k ≡ i + n = omega arith in
    rw e (add-mod_right i n ∙ mod-eq_of_lt (omega arith))

-- A shift by `k` is the cyclic rotation of the base by `k`.
pub rotation-eq-append :
    (base : List ℕ) (k : ℕ)
    → k ≤ length base
    → rotation base (length base) k ≡ drop k base ++ take k base
unfolding rotation
rotation-eq-append base k h =
    let n = length base in
    let f : ℕ → ℕ = λ p. get_or base ((p + k) % n) 0 in
    let split : n ≡ (n - k) + k = omega arith in
    let low : map f (upto 0 (n - k)) ≡ take (n - k) (drop k base) =
      map-upto_segment f base 0 k (n - k)
        (λ i lt.
          let e : (0 + i + k) % n ≡ k + i = mod-eq_of_lt (omega arith) ∙ omega arith in
          ap (λ x. get_or base x 0) e)
        (omega arith) in
    let high : map f (upto (n - k) k) ≡ take k (drop 0 base) =
      map-upto_segment f base (n - k) 0 k
        (λ i lt.
          let e : (n - k + i + k) % n ≡ 0 + i = wrap n k i h lt ∙ omega arith in
          ap (λ x. get_or base x 0) e)
        (omega arith) in
    let range : upto 0 n ≡ upto 0 (n - k) ++ upto (n - k) k =
      ap (upto 0) split
      ∙ upto-append 0 (n - k) k
      ∙ ap (λ a. upto 0 (n - k) ++ upto a k) (omega arith) in
    let whole : take (n - k) (drop k base) ≡ drop k base =
      take_all (n - k) (drop k base) (omega (arith, length-drop k base)) in
    ap (map f) range ∙ map-append f (upto 0 (n - k)) (upto (n - k) k) ∙ cc (low, high, whole)

pub rotation-SameItems :
    (base : List ℕ) (k : ℕ) → k ≤ length base → SameItems (rotation base (length base) k) base
rotation-SameItems base k h a =
    let e = ap (count a) (rotation-eq-append base k h) in
    omega (
      arith,
      e,
      count-append a (drop k base) (take k base),
      count-append a (take k base) (drop k base),
      ap (count a) (take-append-drop k base),
    )

rotation-IsArrangement :
    (n : ℕ) (base : List ℕ) (k : ℕ)
    → IsArrangement n base
    → k ≤ n
    → IsArrangement n (rotation base n k)
unfolding rotation
rotation-IsArrangement n base k h le =
    let same : SameItems (rotation base n k) base =
      rw (← h.1) (rotation-SameItems base k (omega arith)) in
    (λ a. same a ∙ h.0 a, length-map _ (upto 0 n) ∙ length-upto 0 n)

-- The arrangement of the trial at a shift, for each policy and any draws.
next-by :
    (p : ArrangementPolicy) (a : Arranger) (shift : ℕ) (draws : List ℕ)
    → a.policy ≡ p
    → IsReady a
    → shift ≤ a.n
    → IsArrangement a.n (next a shift draws)
unfolding next
next-by arrange_rotate a shift draws e r h =
    rw (e, next) (rotation-IsArrangement a.n a.base shift (r.permuted e) h)
next-by arrange_none a shift draws e r h = rw (e, next) (identity-IsArrangement a.n)
next-by arrange_random a shift draws e r h =
    rw (e, next) (shuffle-IsArrangement a.n draws _ (identity-IsArrangement a.n))

-- At every shift up to the number of requests, and whatever the draws, `next` of an arranger that is
-- ready gives a permutation of the requests.
pub next-IsArrangement :
    (a : Arranger) (shift : ℕ) (draws : List ℕ)
    → IsReady a
    → shift ≤ a.n
    → IsArrangement a.n (next a shift draws)
next-IsArrangement a shift draws r h = next-by a.policy a shift draws refl r h

get_or-map : (f : ℕ → ℕ) (a n i : ℕ) → i < n → get_or (map f (upto a n)) i 0 ≡ f (a + i)
get_or-map f a zero i h = absurd (omega arith)
get_or-map f a (suc n) zero h = ap f (omega arith)
get_or-map f a (suc n) (suc i) h = get_or-map f (suc a) n i (omega arith) ∙ ap f (omega arith)

-- The requests that take position `p` in the trials of a cycle, in the order of the trials.
abbrev pub visits : Arranger → List (List ℕ) → ℕ → List ℕ
visits a draws p = map (λ shift. get_or (next a shift (get_or draws shift [])) p 0) (upto 0 a.n)

visits-eq-rotation :
    (a : Arranger) (draws : List (List ℕ)) (p : ℕ)
    → a.policy ≡ arrange_rotate
    → p < a.n
    → visits a draws p ≡ rotation a.base a.n p
unfolding next rotation
visits-eq-rotation a draws p e h =
    rw (e, next)
      (map-upto_congr _ _ 0 a.n λ s lt.
        get_or-map (λ q. get_or a.base ((q + (0 + s)) % a.n) 0) 0 a.n p h
        ∙ ap (λ (x : ℕ). get_or a.base (x % a.n) 0) (omega arith))

-- An arranger that is ready and rotates gives each request each position exactly once over the trials
-- of one whole cycle, whatever the draws.
pub rotation_balances :
    (a : Arranger) (draws : List (List ℕ)) (p r : ℕ)
    → a.policy ≡ arrange_rotate
    → IsReady a
    → p < a.n
    → r < a.n
    → count r (visits a draws p) ≡ 1
rotation_balances a draws p r e ready hp hr =
    ap (count r) (visits-eq-rotation a draws p e hp)
    ∙ (rotation-IsArrangement a.n a.base p (ready.permuted e) (omega arith)).0 r
    ∙ count-upto r 0 a.n (omega arith) (omega arith)
