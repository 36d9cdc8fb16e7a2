-- ===== src/Tth2/TrialWork/Cycles.antt =====
-- A whole number of rotation cycles gives each request each position as often as there are cycles,
-- whichever workers send the trials.
use tturl.Common.{
  ℕ, zero, suc, ◌+◌, ◌*◌, ◌/◌, ◌%◌, ◌≤◌, ◌<◌, ◌≡◌, refl, ap, ◌∙◌, sym, false, List, [], ◌∷◌, length,
  map, count, sum_by, sum_by-append, arith, ◌==◌, if◌then◌else◌, upto, upto-append, get_or,
  SameItems, All, Bool-cases, inl, inr, count-upto_above, count-get, All-of_get, sum_by-add,
  sum_by_congr, ◌≢◌,
}
use native.Mathlib.Decide.{dec_lt}
use native.Mathlib.Nat.{
  mul-pos, mul-add-mod_self_right, mul-add-div_right, div-eq_of_lt, mod-eq_of_lt,
}
use tturl.Tth2.Arrangement.{Arranger, arrange_rotate, next}
use tturl.Tth2.Arrangement.Orders.{IsReady}
use tturl.Tth2.Arrangement.Balance.{rotation_balances}
use tturl.Tth2.TrialWork.{Move, finished, run_moves, start_run}
use tturl.Tth2.TrialWork.Once.{run_moves_complete}

sum_by-upto_shift :
    (f g : ℕ → ℕ) (a b n : ℕ)
    → ((s : ℕ) → s < n → f (a + s) ≡ g (b + s))
    → sum_by f (upto a n) ≡ sum_by g (upto b n)
sum_by-upto_shift f g a b zero h = refl
sum_by-upto_shift f g a b (suc n) h =
    let first = h 0 (omega arith) in
    let rest = sum_by-upto_shift f g (suc a) (suc b) n (λ s lt.
      let e : suc a + s ≡ a + suc s = omega arith in
      let e' : suc b + s ≡ b + suc s = omega arith in rw (e, e') (h (suc s) (omega arith))) in
    let ea : a + 0 ≡ a = omega arith in
    let eb : b + 0 ≡ b = omega arith in
    let first' = rw (ea, eb) at first in omega (arith, first', rest)

count-map_sum :
    (g : ℕ → ℕ) (r : ℕ) (is : List ℕ)
    → count r (map g is) ≡ sum_by (λ i. if g i == r then 1 else 0) is
count-map_sum g r [] = refl
count-map_sum g r (i ∷ is) = omega (arith, count-map_sum g r is)

hit_weight_below :
    (f : ℕ → ℕ) (x b n : ℕ) → x < b → sum_by (λ i. (if x == i then 1 else 0) * f i) (upto b n) ≡ 0
hit_weight_below f x b zero h = refl
hit_weight_below f x b (suc n) h =
    let rest = hit_weight_below f x (suc b) n (omega arith) in
    let apart : (x == b) ≡ false = ground arith in rw apart (omega (arith, rest))

hit_weight :
    (f : ℕ → ℕ) (x b n : ℕ)
    → b ≤ x
    → x < b + n
    → sum_by (λ i. (if x == i then 1 else 0) * f i) (upto b n) ≡ f x
hit_weight f x b zero lo hi = absurd (omega arith)
hit_weight f x b (suc n) lo hi = elim (Bool-cases (x == b)) [
  | inl same ↦
      let e : x ≡ b = ground (arith, same) in
      let rest = hit_weight_below f x (suc b) n (omega (arith, e)) in
      let value : f x ≡ f b = ap f e in rw same (omega (arith, rest, value))
  | inr apart ↦
      let ne : x ≢ b = λ e. ground (arith, apart, e) in
      let rest = hit_weight f x (suc b) n (ground (arith, lo, ne)) (omega (arith, hi)) in
      rw apart (omega (arith, rest))
]

-- A sum over a list of numbers below `n` is the sum over the range, each weighed by its count.
weighed :
    (f : ℕ → ℕ) (n : ℕ) (xs : List ℕ)
    → All (λ x. x < n) xs
    → sum_by f xs ≡ sum_by (λ i. count i xs * f i) (upto 0 n)
weighed f n [] h = sym (sum_zero (upto 0 n))
  where
    sum_zero : (is : List ℕ) → sum_by (λ i. 0 * f i) is ≡ 0
    sum_zero [] = refl
    sum_zero (i ∷ is) = omega (arith, sum_zero is)
weighed f n (x ∷ xs) h =
    let here = hit_weight f x 0 n (omega arith) (omega (arith, h.0)) in
    let rest = weighed f n xs h.1 in
    let both =
      sum_by-add (λ i. (if x == i then 1 else 0) * f i) (λ i. count i xs * f i) (upto 0 n) in
    let same =
      sum_by_congr (λ i. count i (x ∷ xs) * f i)
        (λ i. (if x == i then 1 else 0) * f i + count i xs * f i) (upto 0 n) (λ i. omega arith) in
    omega (arith, here, rest, both, same)

below_of_count : (n : ℕ) (xs : List ℕ) → SameItems xs (upto 0 n) → All (λ x. x < n) xs
below_of_count n xs h =
    All-of_get (λ x. x < n) xs
      (λ q x at_q. elim (dec_lt x n) [
        | yes lt ↦ lt
        | no ge ↦
            absurd (omega (arith, count-get x xs q at_q, h x, count-upto_above x 0 n (omega arith)))
      ])

-- Sums do not depend on the order of a list.
sum_by-SameItems :
    (f : ℕ → ℕ) (n : ℕ) (xs : List ℕ) → SameItems xs (upto 0 n) → sum_by f xs ≡ sum_by f (upto 0 n)
sum_by-SameItems f n xs h =
    let left = weighed f n xs (below_of_count n xs h) in
    let right = weighed f n (upto 0 n) (below_of_count n (upto 0 n) (λ a. refl)) in
    let same =
      sum_by_congr (λ i. count i xs * f i) (λ i. count i (upto 0 n) * f i) (upto 0 n)
        (λ i. ap (λ k. k * f i) (h i)) in
    left ∙ same ∙ sym right

-- The request at position `p` of trial `i`: the arranger of the trial's cycle, at the trial's shift.
abbrev pub request_at : (ℕ → Arranger) → ℕ → ℕ → ℕ → ℕ
request_at arrangers n p i = get_or (next (arrangers (i / n)) (i % n) []) p 0

-- In how many of the trials request `r` is sent at position `p`.
abbrev pub placings : (ℕ → Arranger) → ℕ → List ℕ → ℕ → ℕ → ℕ
placings arrangers n sent p r = sum_by (λ i. if request_at arrangers n p i == r then 1 else 0) sent

-- What a worker's arranger is after `startCycle`.
pub record Rotates (n : ℕ) (a : Arranger) : Type 0 where
  pub policy : a.policy ≡ arrange_rotate
  pub size : a.n ≡ n
  pub ready : IsReady a

module _ (arrangers : ℕ → Arranger) (n : ℕ) (rotates : (c : ℕ) → Rotates n (arrangers c)) where
  one_cycle : (c p r : ℕ) → p < n → r < n → placings arrangers n (upto (c * n) n) p r ≡ 1
  one_cycle c p r hp hr =
      let a = arrangers c in
      let ok = rotates c in
      let some_n : 0 < n = omega (arith, hp) in
      let cycle =
        rotation_balances a [] p r ok.policy ok.ready (omega (arith, hp, ok.size))
          (omega (arith, hr, ok.size)) in
      let at_shift = λ (shift : ℕ). get_or (next a shift []) p 0 in
      let same_size = ap (λ k. count r (map at_shift (upto 0 k))) ok.size in
      let counted = count-map_sum at_shift r (upto 0 n) in
      let shifted =
        sum_by-upto_shift (λ i. if request_at arrangers n p i == r then 1 else 0)
          (λ shift. if get_or (next a shift []) p 0 == r then 1 else 0) (c * n) 0 n
          (λ s lt.
            let quotient : (c * n + s) / n ≡ c =
              mul-add-div_right some_n c s ∙ ap (λ k. c + k) (div-eq_of_lt lt) ∙ omega arith in
            let remainder : (c * n + s) % n ≡ 0 + s =
              mul-add-mod_self_right c n s ∙ mod-eq_of_lt lt ∙ omega arith in
            rw (quotient, remainder) refl) in
      omega (arith, shifted, counted, same_size, cycle)

  whole_cycles : (c p r : ℕ) → p < n → r < n → placings arrangers n (upto 0 (c * n)) p r ≡ c
  whole_cycles zero p r hp hr = let e : 0 * n ≡ 0 = omega arith in rw e refl
  whole_cycles (suc c) p r hp hr =
      let f : ℕ → ℕ = λ i. if request_at arrangers n p i == r then 1 else 0 in
      let e : suc c * n ≡ c * n + n = omega arith in
      let start : 0 + c * n ≡ c * n = omega arith in
      let split = rw start at (upto-append 0 (c * n) n) in
      let parts = sum_by-append f (upto 0 (c * n)) (upto (c * n) n) in
      let before = whole_cycles c p r hp hr in
      let last = one_cycle c p r hp hr in rw (e, split) (omega (arith, parts, before, last))

  -- If the arranger of every cycle is ready, rotates, and has `n` requests, and all workers of a run
  -- over `c` whole cycles finish, then each request was sent at each position in exactly `c` trials.
  pub run_moves-balances :
      (c conns : ℕ) (ms : List Move)
      → 0 < c
      → 0 < n
      → let run = run_moves (c * n) n (start_run conns) ms in
        0 < length run.workers
        → All (λ w. w ≡ finished) run.workers
        → (p r : ℕ) → p < n
        → r < n
        → placings arrangers n run.sent p r ≡ c
  run_moves-balances c conns ms some_cycle some_n some_worker done p r hp hr =
      let run = run_moves (c * n) n (start_run conns) ms in
      let limited : 0 < c * n = mul-pos some_cycle some_n in
      let complete = run_moves_complete (c * n) n conns ms limited some_n some_worker done in
      let f : ℕ → ℕ = λ i. if request_at arrangers n p i == r then 1 else 0 in
      sum_by-SameItems f (c * n) run.sent complete ∙ whole_cycles c p r hp hr
