-- ===== src/Command/QuotaStore/Calls.antt =====
-- What the calls of the store keep (cmd/tturl/demo_server_quota.go).
use tturl.Common.{
  ℕ, ◌≤◌, ◌<◌, ◌≡◌, refl, sym, ◌∙◌, subst, inl, inr, true, false, none, some, List, [], ◌∷◌, length,
  arith, All, ◌==◌, ==_iff, if◌then◌else◌, Bool-cases,
}
use tturl.Command.QuotaStore.{
  Element, DemoQuotaStore, lookup, delete_key, remove_element, new_demo_quota_store,
}
use tturl.Command.QuotaStore.Elements.{
  find_token, AreApart, found-token, found-All, find_token-remove_element, remove_element-All,
  remove_element-AreApart, removed-IsApart,
}

-- Between calls: the map and the list agree, addresses and tokens are unique, addresses are old, and
-- there is no more than the maximum.
pub record IsStore (s : DemoQuotaStore) : Type 0 where
  pub apart : AreApart s.recent
  pub agree : (t : ℕ) → lookup s.by_id t ≡ find_token t s.recent
  pub old : All (λ e. e.id < s.fresh) s.recent
  pub room : length s.recent ≤ s.maximum
  pub some_room : 1 ≤ s.maximum

pub new_demo_quota_store-IsStore :
    (maximum : ℕ) → 1 ≤ maximum → IsStore (new_demo_quota_store maximum)
unfolding new_demo_quota_store lookup
new_demo_quota_store-IsStore maximum some_room = record {
  apart = tt;
  agree = λ t. refl;
  old = tt;
  room = omega arith;
  some_room = some_room;
}

pub lookup-delete_key :
    (key : ℕ) (m : List (ℕ × Element)) (t : ℕ)
    → lookup (delete_key key m) t ≡ (if key == t then none else lookup m t)
unfolding lookup delete_key
lookup-delete_key key [] t = elim (Bool-cases (key == t)) [ inl e ↦ rw e refl | inr e ↦ rw e refl ]
lookup-delete_key key ((k, e) ∷ m) t =
    let rest = lookup-delete_key key m t in
    elim (Bool-cases (k == key)) [
      | inl same ↦
          rw (same, rest)
            (elim (Bool-cases (key == t)) [
              | inl hit ↦ rw hit refl
              | inr miss ↦
                  let is_key : k ≡ key = (==_iff k key).0 same in
                  let miss' : (k == t) ≡ false = rw is_key miss in rw (miss, miss') refl
            ])
      | inr other ↦ rw other (elim (Bool-cases (k == t)) [
        | inl hit ↦
            let miss : (key == t) ≡ false = ground (arith, hit, other) in rw (hit, miss) refl
        | inr away ↦ rw (away, rest) refl
      ])
    ]

length-remove_element : (id : ℕ) (es : List Element) → length (remove_element id es) ≤ length es
unfolding remove_element
length-remove_element id [] = omega arith
length-remove_element id (x ∷ es) =
    let rest = length-remove_element id es in
    elim (Bool-cases (x.id == id)) [
      | inl e ↦ rw e (omega (arith, rest))
      | inr e ↦ rw e (omega (arith, rest))
    ]

pub length-removed :
    (token : ℕ) (es : List Element) (e : Element)
    → find_token token es ≡ some e
    → length (remove_element e.id es) < length es
unfolding remove_element
length-removed token [] e h = cc
length-removed token (x ∷ es) e h = elim (Bool-cases (x.token == token)) [
  | inl same ↦
      let at_x = rw same at h in
      let id : x.id ≡ e.id = cc at_x in
      let same_id = (==_iff x.id e.id).1 id in
      rw same_id (omega (arith, length-remove_element e.id es))
  | inr other ↦
      let rest = length-removed token es e (rw other at h) in
      elim (Bool-cases (x.id == e.id)) [
        | inl k ↦ rw k (omega (arith, rest))
        | inr k ↦ rw k (omega (arith, rest))
      ]
]

-- A use moves the element to the front.
pub got-IsStore :
    (s : DemoQuotaStore) (token : ℕ) (e : Element)
    → IsStore s
    → find_token token s.recent ≡ some e
    → IsStore (record s { recent = e ∷ remove_element e.id s.recent })
got-IsStore s token e ok h = record {
  apart =
      (removed-IsApart token s.recent e ok.apart h, remove_element-AreApart e.id s.recent ok.apart);
  agree = λ t. ok.agree t ∙ moved t;
  old = (
    found-All (λ x. x.id < s.fresh) token s.recent h ok.old,
    remove_element-All (λ x. x.id < s.fresh) e.id s.recent ok.old,
  );
  room = omega (arith, length-removed token s.recent e h, ok.room);
  some_room = ok.some_room;
}
  where
    moved : (t : ℕ) → find_token t s.recent ≡ find_token t (e ∷ remove_element e.id s.recent)
    moved t =
        let is_token = found-token token s.recent h in
        let rest = find_token-remove_element token s.recent e t ok.apart h in
        elim (Bool-cases (token == t)) [
          | inl hit ↦
              let hit' : (e.token == t) ≡ true = rw is_token hit in
              let t_is : token ≡ t = (==_iff token t).0 hit in
              rw hit' (subst (λ k. find_token k s.recent ≡ some e) t_is h)
          | inr miss ↦
              let miss' : (e.token == t) ≡ false = rw is_token miss in
              let rest' = rw miss at rest in rw miss' (sym rest')
        ]
