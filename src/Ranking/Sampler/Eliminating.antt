-- ===== src/Ranking/Sampler/Eliminating.antt =====
-- Ruling candidates out moves them from the active to the eliminated ones
-- (internal/ranking/baselinereservedoutliersolver.go).
use tturl.Common.{
  ℕ, ◌<◌, ◌≡◌, refl, sym, ◌∙◌, subst, inl, inr, Bool, true, false, Option, some, List, [], ◌∷◌,
  ◌++◌, length, get_or, set, arith, All, if◌then◌else◌, Bool-cases, sum_by, sum_by-append,
  sum_by_congr, length-set, get_elem?-some, get_or-of_get,
}
use tturl.Ranking.Sampler.{Sampler}
use tturl.Ranking.Sampler.Ruling.{Settling, rule_out, keep_active, settle_evidence}
use tturl.Ranking.Sampler.Comparing.{IsSampler, is_gone}
use tturl.Ranking.Sampler.Dropping.{
  kept_only, IsSettling, all_kept, begin-IsSettling, active_once, after_drop, still_gone,
}

pub record RulesOut (m : ℕ) (r : Option Settling) : Type 0 where
  pub result : Settling
  pub returns : r ≡ some result
  pub ok : IsSettling m result

-- The loop comes to its end, whatever it rules out.
rule_out-RulesOut :
    (m : ℕ) (out : ℕ → Bool) (updated : List ℕ) (t : Settling)
    → All (λ c. c < m) updated
    → IsSettling m t
    → RulesOut m (rule_out out updated t)
unfolding rule_out
rule_out-RulesOut m out [] t within ok = record { result = t; returns = refl; ok = ok }
rule_out-RulesOut m out (c ∷ cs) t within ok =
    let flags = t.sampler.dropped in
    let lt : c < length flags = omega (arith, within.0, ok.sized) in
    let (gone, at_c) = get_elem?-some flags c lt in
    elim (Bool-cases gone) [
      | inl e ↦
          let r = rule_out-RulesOut m out cs t within.1 ok in
          record { result = r.result; returns = rw (at_c, e) r.returns; ok = r.ok }
      | inr e ↦ elim (Bool-cases (out c)) [
        | inr e' ↦
            let r = rule_out-RulesOut m out cs t within.1 ok in
            record { result = r.result; returns = rw (at_c, e, e') r.returns; ok = r.ok }
        | inl e' ↦
            let flag : get_or flags c false ≡ false = get_or-of_get flags c false at_c ∙ e in
            let once =
              active_once m c flags t.sampler.active t.sampler.eliminated within.0 flag ok.whole
                ok.gone in
            let next : Settling = record {
              sampler = record (t.sampler) {
                dropped = set flags c true;
                eliminated = t.sampler.eliminated ++ (c ∷ []);
              };
              eliminated_any = true;
            } in
            let settling : IsSettling m next = record {
              whole = λ f. omega (
                arith,
                after_drop m c flags t.sampler.active t.sampler.eliminated lt once f,
                sum_by-append f t.sampler.eliminated (c ∷ []),
                ok.whole f,
              );
              sized = length-set flags c true ∙ ok.sized;
              gone = still_gone m c flags t.sampler.active t.sampler.eliminated lt ok.gone;
              idle = λ h. cc h;
              covered = ok.covered;
              within = ok.within;
            } in
            let r = rule_out-RulesOut m out cs next within.1 settling in
            record { result = r.result; returns = rw (at_c, e, e') r.returns; ok = r.ok }
      ]
    ]

record Kept (flags : List Bool) (active : List ℕ) (r : Option (List ℕ)) : Type 0 where
  result : List ℕ
  returns : r ≡ some result
  same : (f : ℕ → ℕ) → sum_by f result ≡ sum_by (kept_only flags f) active

-- The candidates that are kept are those that are not dropped.
keep_active-Kept :
    (flags : List Bool) (active : List ℕ)
    → All (λ c. c < length flags) active
    → Kept flags active (keep_active flags active)
unfolding keep_active
keep_active-Kept flags [] within = record { result = []; returns = refl; same = λ f. refl }
keep_active-Kept flags (c ∷ cs) within =
    let (gone, at_c) = get_elem?-some flags c within.0 in
    let rest = keep_active-Kept flags cs within.1 in
    let flag = get_or-of_get flags c false at_c in
    record {
      result = if gone then rest.result else c ∷ rest.result;
      returns = rw (at_c, rest.returns) refl;
      same = λ f. elim (Bool-cases gone) [
        | inl e ↦ let flag' = flag ∙ e in ground (arith, e, flag', rest.same f)
        | inr e ↦ let flag' = flag ∙ e in ground (arith, e, flag', rest.same f)
      ];
    }

pub record Settles (m : ℕ) (r : Option Sampler) : Type 0 where
  pub result : Sampler
  pub returns : r ≡ some result
  pub ok : IsSampler m result

sum_by_zeros : (xs : List ℕ) → sum_by (λ c. 0) xs ≡ 0
sum_by_zeros [] = refl
sum_by_zeros (x ∷ xs) = omega (arith, sum_by_zeros xs)

-- `keep_active` removes exactly what is dropped.
kept-IsSampler :
    (m : ℕ) (t : Settling) (kept : List ℕ)
    → IsSettling m t
    → ((f : ℕ → ℕ) → sum_by f kept ≡ sum_by (kept_only t.sampler.dropped f) t.sampler.active)
    → IsSampler m (record (t.sampler) { active = kept })
kept-IsSampler m t kept ok same = record {
  whole = λ f. omega (arith, same f, ok.whole f);
  sized = ok.sized;
  live =
      same (is_gone t.sampler.dropped)
      ∙ (sum_by_congr (kept_only t.sampler.dropped (is_gone t.sampler.dropped)) (λ c. 0)
            t.sampler.active (λ c. ground arith)
          ∙ sum_by_zeros t.sampler.active);
  gone = ok.gone;
  covered = ok.covered;
}

idle-IsSampler :
    (m : ℕ) (t : Settling) → IsSettling m t → t.eliminated_any ≡ false → IsSampler m t.sampler
idle-IsSampler m t ok idle =
    let live = ok.idle idle in
    record {
      whole = λ f. omega (arith, all_kept t.sampler.dropped f t.sampler.active live, ok.whole f);
      sized = ok.sized;
      live = live;
      gone = ok.gone;
      covered = ok.covered;
    }

-- Whatever is ruled out, the state is kept.
pub settle_evidence-Settles :
    (m : ℕ) (out : ℕ → Bool) (updated : List ℕ) (s : Sampler)
    → All (λ c. c < m) updated
    → IsSampler m s
    → Settles m (settle_evidence out updated s)
unfolding settle_evidence
settle_evidence-Settles m out updated s within ok =
    let r =
      rule_out-RulesOut m out updated (record { sampler = s; eliminated_any = false }) within
        (begin-IsSettling m s ok) in
    let t = r.result in
    elim (Bool-cases t.eliminated_any) [
      | inr e ↦ record {
        result = t.sampler;
        returns = rw (r.returns, e) refl;
        ok = idle-IsSampler m t r.ok e;
      }
      | inl e ↦
          let k =
            keep_active-Kept t.sampler.dropped t.sampler.active
              (subst (λ n. All (λ c. c < n) t.sampler.active) (sym r.ok.sized) r.ok.within) in
          record {
            result = record (t.sampler) { active = k.result };
            returns = rw (r.returns, e, k.returns) refl;
            ok = kept-IsSampler m t k.result r.ok k.same;
          }
    ]
