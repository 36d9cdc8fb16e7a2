-- ===== src/Ranking/Sampler/Dropping.antt =====
-- Dropping a candidate that is active once leaves the others as they were
-- (internal/ranking/baselinereservedoutliersolver.go).
use tturl.Common.{
  ℕ, ◌+◌, ◌≤◌, ◌<◌, ◌≡◌, refl, ap, subst, inl, inr, Bool, true, false, List, [], ◌∷◌, ◌++◌, length,
  get_or, set, upto, arith, All, All-map, ==_iff, count, count-upto, leb, ◌==◌, if◌then◌else◌,
  Bool-cases, sum_by, sum_by-append, sum_by-le, sum_by-add, sum_by_congr, get_or-set,
}
use tturl.Ranking.Sampler.{Sampler}
use tturl.Ranking.Sampler.Ruling.{Settling}
use tturl.Ranking.Sampler.Sums.{sum_by-none, sum_by-once, sum_by-above}
use tturl.Ranking.Sampler.Comparing.{IsSampler, is_live, is_gone}

-- What counts of an active candidate: nothing once it is dropped.
abbrev pub kept_only : List Bool → (ℕ → ℕ) → ℕ → ℕ
kept_only flags f c = if get_or flags c false then 0 else f c

-- Within the loop, a dropped candidate is still listed as active.
pub record IsSettling (m : ℕ) (t : Settling) : Type 0 where
  pub whole :
      (f : ℕ → ℕ)
      → sum_by (kept_only t.sampler.dropped f) t.sampler.active + sum_by f t.sampler.eliminated
        ≡ sum_by f (upto 0 m)
  pub sized : length t.sampler.dropped ≡ m
  pub gone : sum_by (is_live t.sampler.dropped) t.sampler.eliminated ≡ 0
  pub idle : t.eliminated_any ≡ false → sum_by (is_gone t.sampler.dropped) t.sampler.active ≡ 0
  pub covered : All (λ c. c < m) t.sampler.coverage
  pub within : All (λ c. c < m) t.sampler.active

-- Where no active candidate is dropped, all of them count.
pub all_kept :
    (flags : List Bool) (f : ℕ → ℕ) (xs : List ℕ)
    → sum_by (is_gone flags) xs ≡ 0
    → sum_by (kept_only flags f) xs ≡ sum_by f xs
all_kept flags f [] h = refl
all_kept flags f (x ∷ xs) h =
    let rest = all_kept flags f xs (omega arith) in
    elim (Bool-cases (get_or flags x false)) [
      | inl e ↦ absurd (ground (arith, e, h))
      | inr e ↦ ground (arith, e, rest)
    ]

none_above :
    (m : ℕ) (xs : List ℕ) → sum_by (λ c. if leb m c then 1 else 0) xs ≡ 0 → All (λ c. c < m) xs
none_above m xs h =
    All-map (λ c. (if leb m c then 1 else 0) ≡ 0) (λ c. c < m) xs (λ c e. ground (arith, e))
      (sum_by-none (λ c. if leb m c then 1 else 0) xs h)

active_within : (m : ℕ) (s : Sampler) → IsSampler m s → All (λ c. c < m) s.active
active_within m s ok =
    let outside : ℕ → ℕ = λ c. if leb m c then 1 else 0 in
    let none_outside : sum_by outside (upto 0 m) ≡ 0 =
      subst (λ k. sum_by (λ c. if leb k c then 1 else 0) (upto 0 m) ≡ 0) (omega arith)
        (sum_by-above 0 m) in
    none_above m s.active (omega (arith, ok.whole outside, none_outside))

pub begin-IsSettling :
    (m : ℕ) (s : Sampler)
    → IsSampler m s
    → IsSettling m (record { sampler = s; eliminated_any = false })
begin-IsSettling m s ok = record {
  whole = λ f. omega (arith, all_kept s.dropped f s.active ok.live, ok.whole f);
  sized = ok.sized;
  gone = ok.gone;
  idle = λ _. ok.live;
  covered = ok.covered;
  within = active_within m s ok;
}

count-sum_by : (c : ℕ) (xs : List ℕ) → count c xs ≡ sum_by (λ x. if x == c then 1 else 0) xs
count-sum_by c [] = refl
count-sum_by c (x ∷ xs) = omega (arith, count-sum_by c xs)

-- Whether an item is `c` and not dropped.
abbrev pub is_it : List Bool → ℕ → ℕ → Bool
is_it flags c x = if get_or flags x false then false else x == c

kept-is_it :
    (flags : List Bool) (c x : ℕ)
    → kept_only flags (λ y. if y == c then 1 else 0) x ≡ (if is_it flags c x then 1 else 0)
kept-is_it flags c x = ground arith

it_gone :
    (flags : List Bool) (c : ℕ)
    → get_or flags c false ≡ false
    → (x : ℕ) → (if x == c then 1 else 0) ≤ is_live flags x
it_gone flags c flag x = elim (Bool-cases (x == c)) [
  | inl e ↦
      let same : x ≡ c = (==_iff x c).0 e in
      let flag' : get_or flags x false ≡ false = rw same flag in ground (arith, flag')
  | inr e ↦ ground (arith, e)
]

-- Dropping `c` takes its weight.
drop_weight :
    (flags : List Bool) (f : ℕ → ℕ) (c : ℕ)
    → c < length flags
    → (x : ℕ)
    → kept_only (set flags c true) f x + (if is_it flags c x then f c else 0) ≡ kept_only flags f x
drop_weight flags f c lt x =
    let now = get_or-set flags c x true false lt in
    elim (Bool-cases (x == c)) [
      | inl e ↦
          let same : x ≡ c = (==_iff x c).0 e in
          let weight = ap f same in ground (arith, now, e, weight)
      | inr e ↦ ground (arith, now, e)
    ]

module _ (m c : ℕ) (flags : List Bool) (active eliminated : List ℕ) where
  -- The candidate is active once, and not eliminated.
  pub active_once :
      c < m
      → get_or flags c false ≡ false
      → ((f : ℕ → ℕ)
          → sum_by (kept_only flags f) active + sum_by f eliminated ≡ sum_by f (upto 0 m))
      → sum_by (is_live flags) eliminated ≡ 0
      → sum_by (λ x. if is_it flags c x then 1 else 0) active ≡ 1
  active_once lt flag whole gone =
      let f : ℕ → ℕ = λ x. if x == c then 1 else 0 in
      let congr =
        sum_by_congr (kept_only flags f) (λ x. if is_it flags c x then 1 else 0) active
          (kept-is_it flags c) in
      let out = sum_by-le f (is_live flags) eliminated (it_gone flags c flag) in
      let one = count-upto c 0 m (omega arith) (omega arith) in
      omega (arith, congr, out, one, count-sum_by c (upto 0 m), whole f, gone)

  -- After it is dropped, the others count as before.
  pub after_drop :
      c < length flags
      → sum_by (λ x. if is_it flags c x then 1 else 0) active ≡ 1
      → (f : ℕ → ℕ)
      → sum_by (kept_only (set flags c true) f) active + f c ≡ sum_by (kept_only flags f) active
  after_drop lt once f =
      let weight : ℕ → ℕ = λ x. if is_it flags c x then f c else 0 in
      let kept' = kept_only (set flags c true) f in
      let sum = sum_by-add kept' weight active in
      let congr =
        sum_by_congr (λ x. kept' x + weight x) (kept_only flags f) active
          (drop_weight flags f c lt) in
      omega (arith, sum, congr, sum_by-once (is_it flags c) (f c) active once)

  pub still_gone :
      c < length flags
      → sum_by (is_live flags) eliminated ≡ 0
      → sum_by (is_live (set flags c true)) (eliminated ++ (c ∷ [])) ≡ 0
  still_gone lt gone =
      let fewer =
        sum_by-le (is_live (set flags c true)) (is_live flags) eliminated
          (λ x. let now = get_or-set flags c x true false lt in ground (arith, now)) in
      let itself = get_or-set flags c c true false lt in
      let dropped : get_or (set flags c true) c false ≡ true = ground (arith, itself) in
      let joined = sum_by-append (is_live (set flags c true)) eliminated (c ∷ []) in
      ground (arith, fewer, gone, dropped, joined)
