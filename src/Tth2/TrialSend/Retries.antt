-- ===== src/Tth2/TrialSend/Retries.antt =====
-- `sendTrial` replaces at most one connection, so it ends unless pooled connections keep dying.
use tturl.Common.{
  ℕ, ◌+◌, ◌≤◌, ◌≡◌, refl, ap, some, List, [], ◌∷◌, ◌++◌, length, sum_by, arith, leb, Bool-cases,
  inl, inr, ◌⊎◌,
}
use tturl.Tth2.TrialSend.{
  Turn, TrialEnd, Next, returns, continues, replaces, take_turn, send_trial, replacement_failed,
}

abbrev pub is_continue : Next → ℕ
is_continue continues = 1
is_continue _ = 0

abbrev pub is_replace : Next → ℕ
is_replace replaces = 1
is_replace _ = 0

-- Turns that found a pooled connection dead, and turns that lost one before the trial went out.
abbrev pub stale_turns : List Turn → ℕ
stale_turns ts = sum_by (λ t. is_continue (take_turn t.acquired t)) ts

abbrev pub lost_turns : List Turn → ℕ
lost_turns ts = sum_by (λ t. is_replace (take_turn t.acquired t)) ts

-- How the turn decides that ends the loop.
abbrev pub Decides : Next → ℕ → TrialEnd → Type 0
Decides (returns e) lost end = e ≡ end
Decides continues lost end = ⊥
Decides replaces lost end = (lost ≡ 1) × (end ≡ replacement_failed)

-- The loop ran through `front` and ended at the turn `last`.
pub record Ended (replacements : ℕ) (ts : List Turn) (end : TrialEnd) : Type 0 where
  pub front : List Turn
  pub last : Turn
  pub back : List Turn
  pub split : ts ≡ front ++ (last ∷ back)
  pub retried : length front ≡ stale_turns front + lost_turns front
  pub replaced : replacements + lost_turns front ≤ 1
  pub decided : Decides (take_turn last.acquired last) (replacements + lost_turns front) end

Next-cases : (n : Next) → (n ≡ continues) ⊎ ((n ≡ replaces) ⊎ ((e : TrialEnd) × (n ≡ returns e)))
Next-cases continues = inl refl
Next-cases replaces = inr (inl refl)
Next-cases (returns e) = inr (inr (e, refl))

module _ (replacements : ℕ) (t : Turn) (ts : List Turn) where
  later :
      (more : ℕ) (end : TrialEnd)
      → is_continue (take_turn t.acquired t) + is_replace (take_turn t.acquired t) ≡ 1
      → more ≡ replacements + is_replace (take_turn t.acquired t)
      → Ended more ts end
      → Ended replacements (t ∷ ts) end
  later more end once count e =
      let front = t ∷ e.front in
      let lost : replacements + lost_turns front ≡ more + lost_turns e.front =
        omega (arith, count) in
      record {
        front = front;
        last = e.last;
        back = e.back;
        split = ap (◌∷◌ t) e.split;
        retried = omega (arith, once, e.retried);
        replaced = omega (arith, lost, e.replaced);
        decided = rw lost e.decided;
      }

send_trial-Ended_from :
    (replacements : ℕ) (ts : List Turn)
    → replacements ≤ 1
    → stale_turns ts + 2 ≤ length ts + replacements
    → (end : TrialEnd) × (send_trial replacements ts ≡ some end) × Ended replacements ts end
unfolding send_trial
send_trial-Ended_from replacements [] low enough = absurd (omega arith)
send_trial-Ended_from replacements (t ∷ ts) low enough =
    let turn = take_turn t.acquired t in
    elim (Next-cases turn) [
      | inl again ↦
          let c : is_continue turn ≡ 1 = ap is_continue again in
          let z : is_replace turn ≡ 0 = ap is_replace again in
          let (end, runs, e) =
            send_trial-Ended_from replacements ts low (omega (arith, enough, c)) in
          (
            end,
            rw again runs,
            later replacements t ts replacements end (omega (arith, c, z)) (omega (arith, z)) e,
          )
      | inr (inl lost) ↦
          let c : is_continue turn ≡ 0 = ap is_continue lost in
          let z : is_replace turn ≡ 1 = ap is_replace lost in
          elim (Bool-cases (leb (replacements + 1) 1)) [
            | inl first ↦
                let le : replacements + 1 ≤ 1 = ground (arith, first) in
                let (end, runs, e) =
                  send_trial-Ended_from (replacements + 1) ts le (omega (arith, enough, c)) in
                (
                  end,
                  rw (lost, first) runs,
                  later replacements t ts (replacements + 1) end (omega (arith, c, z))
                      (omega (arith, z)) e,
                )
            | inr second ↦
                let one : replacements + 0 ≡ 1 = ground (arith, second, low) in
                (
                  replacement_failed,
                  rw (lost, second) refl,
                  record {
                    front = [];
                    last = t;
                    back = ts;
                    split = refl;
                    retried = omega arith;
                    replaced = omega (arith, one);
                    decided = rw lost (one, refl);
                  },
                )
          ]
      | inr (inr (end, over)) ↦ (
        end,
        rw over refl,
        record {
          front = [];
          last = t;
          back = ts;
          split = refl;
          retried = omega arith;
          replaced = omega (arith, low);
          decided = rw over refl;
        },
      )
    ]

-- If a trial has more turns than those that find a pooled connection dead, and one more, then
-- `sendTrial` returns. Every turn before its last found a dead pooled connection or lost a connection
-- before the trial went out; at most one was lost so, and a second one ends the run.
pub send_trial-Ended :
    (ts : List Turn)
    → stale_turns ts + 2 ≤ length ts
    → (end : TrialEnd) × (send_trial 0 ts ≡ some end) × Ended 0 ts end
send_trial-Ended ts enough = send_trial-Ended_from 0 ts (omega arith) (omega (arith, enough))
