-- ===== src/Command/QuotaStore/Evicting.antt =====
-- Evicting the element that was used longest ago, and adding a new one
-- (cmd/tturl/demo_server_quota.go).
use tturl.Common.{
  ℕ, ◌<◌, ◌≡◌, refl, sym, ap, ◌∙◌, subst, inl, inr, Bool, true, false, Option, none, some, List, [],
  ◌∷◌, length, arith, All, ◌==◌, ==_refl, if◌then◌else◌, Bool-cases,
}
use tturl.Command.QuotaStore.{
  Element, DemoQuotaStore, lookup, delete_key, remove_element, back, evict,
}
use tturl.Command.QuotaStore.Elements.{
  find_token, IsApart, AreApart, entry, view, without, found-All, view-remove_element,
  find_token-remove_element, remove_element-All, remove_element-AreApart,
}
use tturl.Command.QuotaStore.Calls.{IsStore, lookup-delete_key, length-removed}

abbrev pub drop_last : List (ℕ × ℕ) → List (ℕ × ℕ)
drop_last [] = []
drop_last (e ∷ []) = []
drop_last (e ∷ e' ∷ es) = e ∷ drop_last (e' ∷ es)

-- A list that is not empty has a back, which its token finds.
pub record HasBack (es : List Element) : Type 0 where
  pub oldest : Element
  pub returns : back es ≡ some oldest
  pub finds : find_token oldest.token es ≡ some oldest
  pub rest : without oldest.token (view es) ≡ drop_last (view es)

back-HasBack : (x : Element) (es : List Element) → AreApart (x ∷ es) → HasBack (x ∷ es)
unfolding back
back-HasBack x [] apart =
    let same = ==_refl x.token in
    record { oldest = x; returns = refl; finds = rw same refl; rest = rw same refl }
back-HasBack x (y ∷ es) apart =
    let b = back-HasBack y es apart.1 in
    let differ = found-All (IsApart x) b.oldest.token (y ∷ es) b.finds apart.0 in
    let other : (x.token == b.oldest.token) ≡ false = ground (arith, differ.1) in
    record {
      oldest = b.oldest;
      returns = b.returns;
      finds = rw other b.finds;
      rest = rw other (ap (λ k. entry x ∷ k) b.rest);
    }

-- What the eviction leaves: room for one, with the view without its last entry if it was full.
pub record Evicts (s : DemoQuotaStore) (r : Option DemoQuotaStore) : Type 0 where
  pub result : DemoQuotaStore
  pub returns : r ≡ some result
  pub apart : AreApart result.recent
  pub agree : (t : ℕ) → lookup result.by_id t ≡ find_token t result.recent
  pub old : All (λ e. e.id < s.fresh) result.recent
  pub room : length result.recent < result.maximum
  pub maximum : result.maximum ≡ s.maximum
  pub fresh : result.fresh ≡ s.fresh
  pub unused : (t : ℕ) → find_token t s.recent ≡ none → find_token t result.recent ≡ none
  pub seen :
      view result.recent
      ≡ (if length s.recent == s.maximum then drop_last (view s.recent) else view s.recent)

full-HasBack :
    (s : DemoQuotaStore) (es : List Element)
    → s.recent ≡ es
    → IsStore s
    → (length s.recent == s.maximum) ≡ true
    → HasBack s.recent
full-HasBack s [] e ok full =
    let some_room = ok.some_room in
    let empty : length s.recent ≡ 0 = ap length e in absurd (ground (arith, empty, full, some_room))
full-HasBack s (x ∷ es) e ok full =
    subst (λ k. HasBack k) (sym e) (back-HasBack x es (subst (λ k. AreApart k) e ok.apart))

evict-by :
    (s : DemoQuotaStore)
    → IsStore s
    → (length s.recent == s.maximum) ≡ true
    → HasBack s.recent
    → Evicts s (evict s)
unfolding evict
evict-by s ok full b =
    let o = b.oldest in
    let found_again = λ (t : ℕ). find_token-remove_element o.token s.recent o t ok.apart b.finds in
    record {
      result = record s {
        by_id = delete_key o.token s.by_id;
        recent = remove_element o.id s.recent;
      };
      returns = rw (full, b.returns) refl;
      apart = remove_element-AreApart o.id s.recent ok.apart;
      agree = λ t.
          let gone = lookup-delete_key o.token s.by_id t in
          let same = ok.agree t in rw (gone, same) (sym (found_again t));
      old = remove_element-All (λ e. e.id < s.fresh) o.id s.recent ok.old;
      room = omega (arith, length-removed o.token s.recent o b.finds, ok.room);
      maximum = refl;
      fresh = refl;
      unused = λ t none_found. found_again t ∙ still_none (o.token == t) none_found;
      seen = rw full (view-remove_element o.token s.recent o ok.apart b.finds ∙ b.rest);
    }
  where
    still_none : {o : Option Element} (hit : Bool) → o ≡ none → (if hit then none else o) ≡ none
    still_none true h = refl
    still_none false h = h

pub evict-Evicts : (s : DemoQuotaStore) → IsStore s → Evicts s (evict s)
unfolding evict
evict-Evicts s ok = elim (Bool-cases (length s.recent == s.maximum)) [
  | inl full ↦ evict-by s ok full (full-HasBack s s.recent refl ok full)
  | inr room ↦
      let within = ok.room in
      record {
        result = s;
        returns = rw room refl;
        apart = ok.apart;
        agree = ok.agree;
        old = ok.old;
        room = ground (arith, room, within);
        maximum = refl;
        fresh = refl;
        unused = λ t h. h;
        seen = rw room refl;
      }
]
