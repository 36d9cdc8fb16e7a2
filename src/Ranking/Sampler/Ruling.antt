-- ===== src/Ranking/Sampler/Ruling.antt =====
-- internal/ranking/baselinereservedoutliersolver.go: how a solver drops candidates. The evidence
-- against a candidate is floating point; the test of it is a parameter.
use tturl.Common.{
  ℕ, Bool, true, false, Option, some, List, [], ◌∷◌, ◌++◌, get_elem?, set, if◌then◌else◌, ◌>>=◌,
}
use tturl.Ranking.Sampler.{Sampler}

pub record Settling : Type 0 where
  pub sampler : Sampler
  pub eliminated_any : Bool

-- The loop of `settleEvidence` over the updated candidates; `out` tests the evidence against every
-- searched direction.
unfoldable pub rule_out : (ℕ → Bool) → List ℕ → Settling → Option Settling
rule_out out [] t = some t
rule_out out (c ∷ cs) t =
    let skip = rule_out out cs t in
    let drops = rule_out out cs (record {
      sampler = record (t.sampler) {
        dropped = set t.sampler.dropped c true;
        eliminated = t.sampler.eliminated ++ (c ∷ []);
      };
      eliminated_any = true;
    }) in
    get_elem? t.sampler.dropped c >>= λ gone. if gone then skip else if out c then drops else skip

-- The candidates that are not dropped; an index out of range panics.
unfoldable pub keep_active : List Bool → List ℕ → Option (List ℕ)
keep_active dropped [] = some []
keep_active dropped (c ∷ cs) = get_elem? dropped c >>= λ gone.
    keep_active dropped cs >>= λ rest. some (if gone then rest else c ∷ rest)

-- The part of `settleEvidence` after no candidate was found.
unfoldable pub settle_evidence : (ℕ → Bool) → List ℕ → Sampler → Option Sampler
unfolding rule_out keep_active
settle_evidence out updated s =
    rule_out out updated (record { sampler = s; eliminated_any = false }) >>= λ t.
    if t.eliminated_any
    then (keep_active t.sampler.dropped t.sampler.active >>= λ kept.
        some (record (t.sampler) { active = kept }))
    else some t.sampler
