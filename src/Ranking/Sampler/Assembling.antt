-- ===== src/Ranking/Sampler/Assembling.antt =====
-- A comparison is assembled from active candidates, controls and eliminated candidates, and the
-- comparator accepts it (internal/ranking/baselinereservedoutliersolver.go).
use tturl.Common.{
  ℕ, zero, suc, ◌+◌, ◌-◌, ◌*◌, ◌/◌, ◌%◌, ◌≤◌, ◌<◌, ◌≡◌, refl, ◌∙◌, false, Option, some, List, [],
  ◌∷◌, ◌++◌, map, length, get_elem?, get_or, take, drop, upto, arith, All, ltb, leb, ◌==◌,
  if◌then◌else◌, sum_by, sum_by-append, sum_by-le, sum_by-hit, sum_by_congr, get_elem?-some,
}
use native.Mathlib.Nat.{mod-lt}
use tturl.Common.Int.{ℤ, pos, negsuc, eqb_ℤ}
use tturl.Ranking.Comparator.{max_int, control_kinds, control}
use tturl.Ranking.Sampler.{controls_from, pick_eliminated, Picked, later_draws}
use tturl.Ranking.Sampler.Exchanges.{SameSums, SameSums-length, exchange-Exchanged}
use tturl.Ranking.Sampler.Sums.{sum_by-map, sum_by-take, drop-get, item_count, sum_by-zero}

-- A control of kind `Baseline`.
abbrev pub baseline_control : ℕ → ℤ
baseline_control i = negsuc (i * 16 + 0)

pub controls_from_lem :
    (nc j : ℕ)
    → j + nc ≤ suc (max_int / control_kinds)
    → controls_from nc j ≡ some (map baseline_control (upto j nc))
unfolding controls_from control
controls_from_lem zero j h = refl
controls_from_lem (suc nc) j h =
    let rest = controls_from_lem nc (suc j) (omega arith) in
    let within : ltb (max_int / control_kinds) j ≡ false = ground arith in rw (within, rest) refl

pub record Picks (more k : ℕ) (eliminated : List ℕ) (r : Option Picked) : Type 0 where
  pub result : Picked
  pub returns : r ≡ some result
  pub same : SameSums result.order eliminated
  pub kept : (i : ℕ) → i < k → get_elem? result.order i ≡ get_elem? eliminated i
  pub items : result.items ≡ map pos (take more (drop k result.order))

-- As many eliminated candidates as there are can be picked, each of them once.
pub pick_eliminated-Picks :
    (more k : ℕ) (eliminated draws : List ℕ)
    → k + more ≤ length eliminated
    → Picks more k eliminated (pick_eliminated more k eliminated draws)
unfolding pick_eliminated
pick_eliminated-Picks zero k eliminated draws room = record {
  result = record { items = []; order = eliminated; draws = draws };
  returns = refl;
  same = λ f. refl;
  kept = λ i lt. refl;
  items = refl;
}
pick_eliminated-Picks (suc more) k eliminated draws room =
    let left = length eliminated - k in
    let j = k + get_or draws 0 0 % left in
    let below : get_or draws 0 0 % left < left = mod-lt (get_or draws 0 0) (omega arith) in
    let e = exchange-Exchanged eliminated k j (omega arith) (omega (arith, below)) in
    let len = SameSums-length e.result eliminated e.same in
    let (c, at_k) = get_elem?-some e.result k (omega (arith, len)) in
    let rest =
      pick_eliminated-Picks more (suc k) e.result (later_draws draws) (omega (arith, len)) in
    let all = length eliminated in
    let some_left : leb all k ≡ false = ground arith in
    let tail = drop-get rest.result.order k (rest.kept k (omega arith) ∙ at_k) in
    record {
      result = record {
        items = pos c ∷ rest.result.items;
        order = rest.result.order;
        draws = rest.result.draws;
      };
      returns = rw (some_left, e.returns, at_k, rest.returns) refl;
      same = λ f. rest.same f ∙ e.same f;
      kept = λ i lt. rest.kept i (omega arith) ∙ e.below i lt (omega arith);
      items = rw (tail, rest.items) refl;
    }

-- Where the items of a comparison come from.
abbrev pub assembled : ℕ → ℕ → ℕ → List ℕ → List ℕ → List ℤ
assembled positions nc picks active eliminated =
    map pos (take positions active)
    ++ (map baseline_control (upto 0 nc) ++ map pos (take picks eliminated))

pub sum_by-assembled :
    (f : ℤ → ℕ) (positions nc picks : ℕ) (active eliminated : List ℕ)
    → sum_by f (assembled positions nc picks active eliminated)
      ≡ sum_by (λ c. f (pos c)) (take positions active)
        + (sum_by (λ i. f (baseline_control i)) (upto 0 nc)
            + sum_by (λ c. f (pos c)) (take picks eliminated))
sum_by-assembled f positions nc picks active eliminated =
    let front = map pos (take positions active) in
    let controls = map baseline_control (upto 0 nc) in
    let back = map pos (take picks eliminated) in
    omega (
      arith,
      sum_by-append f front (controls ++ back),
      sum_by-append f controls back,
      sum_by-map f pos (take positions active),
      sum_by-map f baseline_control (upto 0 nc),
      sum_by-map f pos (take picks eliminated),
    )

hit : (m a : ℕ) → sum_by (λ c. if c == a then 1 else 0) (upto 0 m) ≤ 1
hit m a =
    let same =
      sum_by_congr (λ c. if c == a then 1 else 0) (λ c. if a == c then 1 else 0) (upto 0 m)
        (λ c. ground arith) in
    omega (arith, same, sum_by-hit 0 m a)

control_hit : (nc k : ℕ) → sum_by (λ i. if i * 16 + 0 == k then 1 else 0) (upto 0 nc) ≤ 1
control_hit nc k =
    let le =
      sum_by-le (λ i. if i * 16 + 0 == k then 1 else 0) (λ i. if k / 16 == i then 1 else 0)
        (upto 0 nc) (λ i. ground arith) in
    omega (arith, le, sum_by-hit 0 nc (k / 16))

all_zero : (xs : List ℕ) → All (λ x. ◌≡◌ {A = ℕ} 0 0) xs
all_zero [] = tt
all_zero (x ∷ xs) = (refl, all_zero xs)

-- A candidate is active or eliminated.
abbrev pub IsSplit : ℕ → List ℕ → List ℕ → Type 0
IsSplit m active eliminated =
    (f : ℕ → ℕ) → sum_by f active + sum_by f eliminated ≡ sum_by f (upto 0 m)

count_candidate :
    (a : ℕ) (xs : List ℕ)
    → sum_by (λ c. if eqb_ℤ (pos c) (pos a) then 1 else 0) xs
      ≡ sum_by (λ c. if c == a then 1 else 0) xs
count_candidate a xs =
    sum_by_congr (λ c. if eqb_ℤ (pos c) (pos a) then 1 else 0) (λ c. if c == a then 1 else 0) xs
      (λ c. ground arith)

count_no_candidate :
    (k : ℕ) (xs : List ℕ) → sum_by (λ c. if eqb_ℤ (pos c) (negsuc k) then 1 else 0) xs ≡ 0
count_no_candidate k xs =
    sum_by_congr (λ c. if eqb_ℤ (pos c) (negsuc k) then 1 else 0) (λ c. 0) xs (λ c. ground arith)
    ∙ sum_by-zero (λ c. 0) xs (all_zero xs)

count_control :
    (k : ℕ) (xs : List ℕ)
    → sum_by (λ i. if eqb_ℤ (baseline_control i) (negsuc k) then 1 else 0) xs
      ≡ sum_by (λ i. if i * 16 + 0 == k then 1 else 0) xs
count_control k xs =
    sum_by_congr (λ i. if eqb_ℤ (baseline_control i) (negsuc k) then 1 else 0)
      (λ i. if i * 16 + 0 == k then 1 else 0) xs (λ i. ground arith)

count_no_control :
    (a : ℕ) (xs : List ℕ) → sum_by (λ i. if eqb_ℤ (baseline_control i) (pos a) then 1 else 0) xs ≡ 0
count_no_control a xs =
    sum_by_congr (λ i. if eqb_ℤ (baseline_control i) (pos a) then 1 else 0) (λ c. 0) xs
      (λ c. ground arith)
    ∙ sum_by-zero (λ c. 0) xs (all_zero xs)

-- No candidate stands twice.
abbrev pub IsOnce : List ℕ → List ℕ → Type 0
IsOnce active eliminated =
    (a : ℕ)
    → sum_by (λ c. if c == a then 1 else 0) active
        + sum_by (λ c. if c == a then 1 else 0) eliminated
      ≤ 1

pub IsSplit-IsOnce :
    (m : ℕ) (active eliminated : List ℕ) → IsSplit m active eliminated → IsOnce active eliminated
IsSplit-IsOnce m active eliminated split a =
    omega (arith, split (λ c. if c == a then 1 else 0), hit m a)

-- No item is placed twice.
pub item_count-assembled :
    (positions nc picks : ℕ) (active eliminated : List ℕ)
    → IsOnce active eliminated
    → (x : ℤ) → item_count x (assembled positions nc picks active eliminated) ≤ 1
item_count-assembled positions nc picks active eliminated once (pos a) =
    let f : ℕ → ℕ = λ c. if c == a then 1 else 0 in
    let front : List ℕ = take positions active in
    let back : List ℕ = take picks eliminated in
    omega (
      arith,
      sum_by-assembled (λ y. if eqb_ℤ y (pos a) then 1 else 0) positions nc picks active eliminated,
      count_candidate a front,
      count_no_control a (upto 0 nc),
      count_candidate a back,
      sum_by-take f positions active,
      sum_by-take f picks eliminated,
      once a,
    )
item_count-assembled positions nc picks active eliminated once (negsuc k) = omega (
  arith,
  sum_by-assembled (λ y. if eqb_ℤ y (negsuc k) then 1 else 0) positions nc picks active eliminated,
  count_no_candidate k (take positions active),
  count_control k (upto 0 nc),
  count_no_candidate k (take picks eliminated),
  control_hit nc k,
)
