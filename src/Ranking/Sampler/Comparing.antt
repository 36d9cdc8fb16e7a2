-- ===== src/Ranking/Sampler/Comparing.antt =====
-- Sampling keeps the state of the sampler and returns comparisons that the comparator accepts
-- (internal/ranking/baselinereservedoutliersolver.go).
use tturl.Common.{
  ℕ, zero, suc, ◌+◌, ◌-◌, ◌≤◌, ◌<◌, ◌≡◌, refl, sym, ◌∙◌, subst, inl, inr, min, Bool, false, Option,
  none, some, List, [], ◌∷◌, map, length, replicate, get_or, upto, arith, All, ◌==◌, if◌then◌else◌,
  Bool-cases, sum_by, sum_by-one, length-map, length-upto, length-replicate,
}
use tturl.Common.Int.{ℤ}
use tturl.Ranking.Comparator.{Profile}
use tturl.Ranking.Comparator.Arrangements.{IsComparable}
use tturl.Ranking.Sampler.{
  Sampler, Sampled, Sampling, Covered, Leader, start_sampler, sample_comparison, cover,
  fill_positions, leader_from, pin, assemble,
}
use tturl.Ranking.Sampler.Exchanges.{SameSums, SameSums-length}
use tturl.Ranking.Sampler.Choosing.{Covers, Keeps, cover-Covers, fill_positions-Keeps, pin-Keeps}
use tturl.Ranking.Sampler.Assembling.{IsSplit}
use tturl.Ranking.Sampler.Placing.{IsPlan}
use tturl.Ranking.Sampler.Accepting.{Accepted, assemble-Accepted}

abbrev pub is_live : List Bool → ℕ → ℕ
is_live flags c = if get_or flags c false then 0 else 1

abbrev pub is_gone : List Bool → ℕ → ℕ
is_gone flags c = if get_or flags c false then 1 else 0

-- Between comparisons: each of the `m` candidates is active or eliminated, once, and the flags say
-- which.
pub record IsSampler (m : ℕ) (s : Sampler) : Type 0 where
  pub whole : IsSplit m s.active s.eliminated
  pub sized : length s.dropped ≡ m
  pub live : sum_by (is_gone s.dropped) s.active ≡ 0
  pub gone : sum_by (is_live s.dropped) s.eliminated ≡ 0
  pub covered : All (λ c. c < m) s.coverage

get_or-replicate : (m c : ℕ) → get_or (replicate m false) c false ≡ false
get_or-replicate zero c = refl
get_or-replicate (suc m) zero = refl
get_or-replicate (suc m) (suc c) = get_or-replicate m c

none_gone : (m : ℕ) (xs : List ℕ) → sum_by (is_gone (replicate m false)) xs ≡ 0
none_gone m [] = refl
none_gone m (x ∷ xs) =
    let flag = get_or-replicate m x in let rest = none_gone m xs in ground (arith, flag, rest)

pub start_sampler-IsSampler :
    (m : ℕ) (coverage : List ℕ) → All (λ c. c < m) coverage → IsSampler m (start_sampler m coverage)
unfolding start_sampler
start_sampler-IsSampler m coverage within = record {
  whole = λ f. omega arith;
  sized = length-replicate m false;
  live = none_gone m (upto 0 m);
  gone = refl;
  covered = within;
}

pub split-sizes :
    (m : ℕ) (active eliminated : List ℕ)
    → IsSplit m active eliminated
    → length active + length eliminated ≡ m
split-sizes m active eliminated split = omega (
  arith,
  split (λ _. 1),
  sum_by-one active,
  sum_by-one eliminated,
  sum_by-one (upto 0 m),
  length-upto 0 m,
)

-- A full comparison that the comparator accepts, or none if no candidate is active.
pub record IsSent (p : Profile) (active : List ℕ) (items : List ℤ) : Type 0 where
  pub idle : length active ≡ 0 → items ≡ []
  pub full : 1 ≤ length active → length items ≡ p.max_width
  pub comparable : 1 ≤ length active → IsComparable p items

pub record Samples (p : Profile) (m : ℕ) (active : List ℕ) (r : Option Sampled) : Type 0 where
  pub result : Sampled
  pub returns : r ≡ some result
  pub ok : IsSampler m result.sampler
  pub sent : IsSent p active result.items

abbrev sampled_as : Sampler → List ℕ → List ℕ → List ℕ → List ℤ → Sampled
sampled_as s active order coverage items = record {
  items = items;
  sampler = record s { active = active; eliminated = order; coverage = coverage };
}

-- What is accepted keeps the state.
accept-Samples :
    (p : Profile) (m : ℕ) (s : Sampler) (active coverage : List ℕ) (r : Option Sampled)
    → IsSampler m s
    → 1 ≤ length s.active
    → SameSums active s.active
    → All (λ c. c < m) coverage
    → Accepted p active s.eliminated coverage s r
    → Samples p m s.active r
accept-Samples p m s active coverage r ok lt same within a = record {
  result = sampled_as s active a.order coverage a.items;
  returns = a.returns;
  ok = record {
    whole = λ f. omega (arith, a.same f, same f, ok.whole f);
    sized = ok.sized;
    live = same (is_gone s.dropped) ∙ ok.live;
    gone = a.same (is_live s.dropped) ∙ ok.gone;
    covered = within;
  };
  sent = record {
    idle = λ h. absurd (omega (arith, h));
    full = λ _. a.full;
    comparable = λ _. a.comparable;
  };
}

module _ (p : Profile) (m reserve : ℕ) (s : Sampler) (plan : IsPlan p m reserve)
    (ok : IsSampler m s) where
  assemble-Samples :
      (active coverage draws : List ℕ)
      → 1 ≤ length s.active
      → SameSums active s.active
      → All (λ c. c < m) coverage
      → Samples p m s.active (
          assemble p
            (min (length s.active) (p.max_width - reserve))
            active
            s.eliminated
            coverage
            draws
            s)
  assemble-Samples active coverage draws lt same within =
      let len = SameSums-length active s.active same in
      let split : IsSplit m active s.eliminated = λ f. omega (arith, same f, ok.whole f) in
      let a =
        assemble-Accepted p m reserve active s.eliminated coverage draws s plan split
          (split-sizes m active s.eliminated split) (omega (arith, len, lt)) in
      accept-Samples p m s active coverage
        (assemble p (min (length s.active) (p.max_width - reserve)) active s.eliminated coverage
          draws s)
        ok lt same within
        (subst
          (λ k.
            Accepted p active s.eliminated coverage s
              (assemble p (min k (p.max_width - reserve)) active s.eliminated coverage draws s))
          len a)

  module _ {F : Type 0} (above : F → F → Bool) (minus_inf zero_evidence : F) (g : Sampling F) where
    abbrev leader : Leader F
    leader =
        leader_from above g.evidence s.active (record { index = none; log_evidence = minus_inf })

    abbrev positions : ℕ
    positions = min (length s.active) (p.max_width - reserve)

    -- The steps of a comparison, one after the other.
    sample_by :
        (c : Covered) (filled pinned : List ℕ)
        → (length s.active == 0) ≡ false
        → cover positions s.dropped s.coverage s.active 0 ≡ some c
        → fill_positions above (positions - c.at) c.at c.order (map g.scores c.order) ≡ some filled
        → pin (above leader.log_evidence zero_evidence) positions c.at filled leader.index
          ≡ some pinned
        → sample_comparison above minus_inf zero_evidence p reserve g s
          ≡ assemble p positions pinned s.eliminated c.rest g.draws s
    unfolding sample_comparison
    sample_by c filled pinned e h k q = rw (e, h, k, q) refl

    pinned-Samples :
        (c : Covers positions s.dropped s.active (cover positions s.dropped s.coverage s.active 0))
        (filled : Keeps c.result.order (
          fill_positions above
            (positions - c.result.at)
            c.result.at
            c.result.order
            (map g.scores c.result.order)))
        (pinned : Keeps filled.result (
          pin
            (above leader.log_evidence zero_evidence)
            positions
            c.result.at
            filled.result
            leader.index))
        → (length s.active == 0) ≡ false
        → Samples p m s.active (sample_comparison above minus_inf zero_evidence p reserve g s)
    pinned-Samples c filled pinned e =
        subst (λ r. Samples p m s.active r)
          (sym (
            sample_by c.result filled.result pinned.result e c.returns filled.returns
              pinned.returns))
          (assemble-Samples pinned.result c.result.rest g.draws (ground (arith, e))
            (λ f. pinned.same f ∙ (filled.same f ∙ c.same f))
            (subst (λ k. All (λ c. c < k) c.result.rest) ok.sized c.rest))

    covered-Samples :
        (c : Covers positions s.dropped s.active (cover positions s.dropped s.coverage s.active 0))
        → (length s.active == 0) ≡ false
        → Samples p m s.active (sample_comparison above minus_inf zero_evidence p reserve g s)
    covered-Samples c e =
        let len = SameSums-length c.result.order s.active c.same in
        let at_most = c.at_most in
        let filled =
          fill_positions-Keeps above (positions - c.result.at) c.result.at c.result.order
            (map g.scores c.result.order) (omega (arith, len, at_most))
            (length-map g.scores c.result.order) in
        pinned-Samples c filled
          (pin-Keeps (above leader.log_evidence zero_evidence) positions c.result.at filled.result
            leader.index)
          e

    pub sample_comparison-Samples :
        Samples p m s.active (sample_comparison above minus_inf zero_evidence p reserve g s)
    unfolding sample_comparison
    sample_comparison-Samples = elim (Bool-cases (length s.active == 0)) [
      | inl e ↦ record {
        result = record { items = []; sampler = s };
        returns = rw e refl;
        ok = ok;
        sent = record {
          idle = λ _. refl;
          full = λ h. absurd (ground (arith, e, h));
          comparable = λ h. absurd (ground (arith, e, h));
        };
      }
      | inr e ↦
          covered-Samples
            (cover-Covers positions s.dropped s.coverage s.active 0 (omega arith) (omega arith)
              (subst (λ k. All (λ c. c < k) s.coverage) (sym ok.sized) ok.covered))
            e
    ]
