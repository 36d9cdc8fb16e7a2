-- ===== src/Ranking/Sampler/Runs.antt =====
-- internal/ranking/baselinereservedoutliersolver.go: comparisons and what is ruled out between them,
-- in any order. The comparisons and the settling of evidence happen one at a time in the source, in
-- the goroutine of `serve`, so that a run is a list of them.
use tturl.Common.{
  ℕ, ◌≤◌, ◌<◌, ◌≡◌, ◌⊎◌, refl, inl, inr, Bool, Option, none, some, List, [], ◌∷◌, length, arith,
  All, ◌==◌, Bool-cases, ◌>>=◌,
}
use tturl.Common.Int.{ℤ}
use tturl.Ranking.Comparator.{Profile, validate_arrangement}
use tturl.Ranking.Comparator.Arrangements.{validate_arrangement_iff}
use tturl.Ranking.Sampler.{Sampler, Sampling, start_sampler, sample_comparison}
use tturl.Ranking.Sampler.Ruling.{settle_evidence}
use tturl.Ranking.Sampler.Placing.{IsPlan}
use tturl.Ranking.Sampler.Comparing.{
  IsSampler, IsSent, Samples, start_sampler-IsSampler, sample_comparison-Samples,
}
use tturl.Ranking.Sampler.Eliminating.{settle_evidence-Settles}

pub data SamplerMove (F : Type 0) : Type 0 where
  compares : Sampling F → SamplerMove F
  settles : (out : ℕ → Bool) (updated : List ℕ) → SamplerMove F

pub record SamplerRun : Type 0 where
  pub sampler : Sampler
  pub sent : List (List ℤ)  -- the last comparison first

-- The candidates whose evidence a comparison updates are the `m` of the run.
abbrev pub IsMove : {F : Type 0} → ℕ → SamplerMove F → Type 0
IsMove m (compares g) = Unit
IsMove m (settles out updated) = All (λ c. c < m) updated

-- The comparator accepts the items and they fill the width, or no candidate was active.
abbrev pub IsAccepted : Profile → List ℤ → Type 0
IsAccepted p items =
    (items ≡ []) ⊎ ((validate_arrangement p items ≡ none) × (length items ≡ p.max_width))

module _ {F : Type 0} (above : F → F → Bool) (minus_inf zero_evidence : F) where
  unfoldable pub sampler_move : Profile → ℕ → SamplerRun → SamplerMove F → Option SamplerRun
  unfolding sample_comparison settle_evidence
  sampler_move p reserve r (compares g) =
      sample_comparison above minus_inf zero_evidence p reserve g r.sampler >>= λ c.
      some (record { sampler = c.sampler; sent = c.items ∷ r.sent })
  sampler_move p reserve r (settles out updated) =
      settle_evidence out updated r.sampler >>= λ s. some (record r { sampler = s })

  unfoldable pub run_sampler : Profile → ℕ → List (SamplerMove F) → SamplerRun → Option SamplerRun
  unfolding sampler_move
  run_sampler p reserve [] r = some r
  run_sampler p reserve (v ∷ vs) r =
      sampler_move p reserve r v >>= λ r'. run_sampler p reserve vs r'

  -- A run that goes on, with what it has sent accepted.
  pub record IsRunning (p : Profile) (m : ℕ) (r : Option SamplerRun) : Type 0 where
    pub result : SamplerRun
    pub returns : r ≡ some result
    pub ok : IsSampler m result.sampler
    pub accepted : All (IsAccepted p) result.sent

  sent-IsAccepted :
      (p : Profile) (active : List ℕ) (items : List ℤ) → IsSent p active items → IsAccepted p items
  sent-IsAccepted p active items sent = elim (Bool-cases (length active == 0)) [
    | inl e ↦ inl (sent.idle (ground (arith, e)))
    | inr e ↦
        let some_active : 1 ≤ length active = ground (arith, e) in
        inr (
          (validate_arrangement_iff p items).1 (sent.comparable some_active),
          sent.full some_active,
        )
  ]

  compared-IsRunning :
      (p : Profile) (m reserve : ℕ) (g : Sampling F) (r : SamplerRun)
      → All (IsAccepted p) r.sent
      → Samples p m r.sampler.active
          (sample_comparison above minus_inf zero_evidence p reserve g r.sampler)
      → IsRunning p m (sampler_move p reserve r (compares g))
  unfolding sampler_move
  compared-IsRunning p m reserve g r accepted c = record {
    result = record { sampler = c.result.sampler; sent = c.result.items ∷ r.sent };
    returns = rw c.returns refl;
    ok = c.ok;
    accepted = (sent-IsAccepted p r.sampler.active c.result.items c.sent, accepted);
  }

  sampler_move-IsRunning :
      (p : Profile) (m reserve : ℕ) (r : SamplerRun) (v : SamplerMove F)
      → IsPlan p m reserve
      → IsMove m v
      → IsSampler m r.sampler
      → All (IsAccepted p) r.sent
      → IsRunning p m (sampler_move p reserve r v)
  unfolding sampler_move
  sampler_move-IsRunning p m reserve r (compares g) plan v ok accepted =
      compared-IsRunning p m reserve g r accepted
        (sample_comparison-Samples p m reserve r.sampler plan ok above minus_inf zero_evidence g)
  sampler_move-IsRunning p m reserve r (settles out updated) plan v ok accepted =
      let c = settle_evidence-Settles m out updated r.sampler v ok in
      record {
        result = record r { sampler = c.result };
        returns = rw c.returns refl;
        ok = c.ok;
        accepted = accepted;
      }

  run_from :
      (p : Profile) (m reserve : ℕ) (vs : List (SamplerMove F)) (r : SamplerRun)
      → IsPlan p m reserve
      → All (IsMove m) vs
      → IsSampler m r.sampler
      → All (IsAccepted p) r.sent
      → IsRunning p m (run_sampler p reserve vs r)
  unfolding run_sampler
  run_from p m reserve [] r plan moves ok accepted = record {
    result = r;
    returns = refl;
    ok = ok;
    accepted = accepted;
  }
  run_from p m reserve (v ∷ vs) r plan moves ok accepted =
      let first = sampler_move-IsRunning p m reserve r v plan moves.0 ok accepted in
      let rest = run_from p m reserve vs first.result plan moves.1 first.ok first.accepted in
      record {
        result = rest.result;
        returns = rw first.returns rest.returns;
        ok = rest.ok;
        accepted = rest.accepted;
      }

  -- A run from its start, whatever the evidence, the draws and what is ruled out in between: no index is
  -- out of range and no draw is from an empty range, each candidate stays active or eliminated, once,
  -- and every comparison is empty, with no candidate active, or fills the width and is accepted by
  -- `validateArrangement`. The width is two or more, candidates and controls fill it, the reserve
  -- can be supplied, and the order of coverage and the updated candidates are of the run.
  pub run_sampler-IsRunning :
      (p : Profile) (m reserve : ℕ) (coverage : List ℕ) (vs : List (SamplerMove F))
      → IsPlan p m reserve
      → All (λ c. c < m) coverage
      → All (IsMove m) vs
      → IsRunning p m
          (run_sampler p reserve vs (record { sampler = start_sampler m coverage; sent = [] }))
  run_sampler-IsRunning p m reserve coverage vs plan within moves =
      run_from p m reserve vs (record { sampler = start_sampler m coverage; sent = [] }) plan moves
        (start_sampler-IsSampler m coverage within) tt
