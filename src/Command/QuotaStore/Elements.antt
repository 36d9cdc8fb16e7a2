-- ===== src/Command/QuotaStore/Elements.antt =====
-- The elements of the store's list (cmd/tturl/demo_server_quota.go): what finding and removing one of
-- them does to the others.
use tturl.Common.{
  ℕ, ◌≡◌, ◌≢◌, refl, sym, ap, ◌∙◌, subst, inl, inr, false, Option, none, some, List, [], ◌∷◌, map,
  arith, All, All-map, ◌==◌, ==_iff, if◌then◌else◌, Bool-cases,
}
use tturl.Command.QuotaStore.{Element, remove_element}

abbrev pub find_token : ℕ → List Element → Option Element
find_token token [] = none
find_token token (e ∷ es) =
    let rest = find_token token es in if e.token == token then some e else rest

-- Different addresses and different tokens.
abbrev pub IsApart : Element → Element → Type 0
IsApart x y = (x.id ≢ y.id) × (x.token ≢ y.token)

abbrev pub AreApart : List Element → Type 0
AreApart [] = Unit
AreApart (x ∷ xs) = All (IsApart x) xs × AreApart xs

-- What a client sees of the list: tokens and quotas, the last one used first.
abbrev pub entry : Element → ℕ × ℕ
entry e = (e.token, e.quota)

abbrev pub view : List Element → List (ℕ × ℕ)
view es = map entry es

abbrev pub without : ℕ → List (ℕ × ℕ) → List (ℕ × ℕ)
without token [] = []
without token ((t, q) ∷ es) =
    let rest = without token es in if t == token then rest else (t, q) ∷ rest

pub found-token :
    (token : ℕ) (es : List Element) {e : Element} → find_token token es ≡ some e → e.token ≡ token
found-token token [] h = cc
found-token token (x ∷ es) h = elim (Bool-cases (x.token == token)) [
  | inl same ↦ let at_x = rw same at h in let t = (==_iff x.token token).0 same in cc (at_x, t)
  | inr other ↦ found-token token es (rw other at h)
]

pub found-All :
    (P : Element → Type 0) (token : ℕ) (es : List Element) {e : Element}
    → find_token token es ≡ some e
    → All P es
    → P e
found-All P token [] h all = cc
found-All P token (x ∷ es) {e = e} h all = elim (Bool-cases (x.token == token)) [
  | inl same ↦ let at_x = rw same at h in let is_x : x ≡ e = cc at_x in subst (λ k. P k) is_x all.0
  | inr other ↦ found-All P token es (rw other at h) all.1
]

other_token : (x y : ℕ) → x ≢ y → (x == y) ≡ false
other_token x y ne = ground (arith, ne)

-- A token that no element has is not found.
pub unfound :
    (token : ℕ) (es : List Element) → find_token token es ≡ none → All (λ e. e.token ≢ token) es
unfound token [] h = tt
unfound token (x ∷ es) h = elim (Bool-cases (x.token == token)) [
  | inl same ↦ cc (rw same at h)
  | inr other ↦ (
    (λ e. let again = (==_iff x.token token).1 e in cc (again, other)),
    unfound token es (rw other at h),
  )
]

remove_none : (id : ℕ) (es : List Element) → All (λ e. e.id ≢ id) es → remove_element id es ≡ es
unfolding remove_element
remove_none id [] all = refl
remove_none id (x ∷ es) all =
    let other = other_token x.id id all.0 in rw (other, remove_none id es all.1) refl

without_none :
    (token : ℕ) (es : List Element)
    → All (λ e. e.token ≢ token) es
    → without token (view es) ≡ view es
without_none token [] all = refl
without_none token (x ∷ es) all =
    let other = other_token x.token token all.0 in rw (other, without_none token es all.1) refl

find_none :
    (token : ℕ) (es : List Element) → All (λ e. e.token ≢ token) es → find_token token es ≡ none
find_none token [] all = refl
find_none token (x ∷ es) all =
    let other = other_token x.token token all.0 in rw other (find_none token es all.1)

-- Removing the element that was found removes its token from the view.
pub view-remove_element :
    (token : ℕ) (es : List Element) (e : Element)
    → AreApart es
    → find_token token es ≡ some e
    → view (remove_element e.id es) ≡ without token (view es)
unfolding remove_element
view-remove_element token [] e apart h = cc
view-remove_element token (x ∷ es) e apart h = elim (Bool-cases (x.token == token)) [
  | inl same ↦
      let at_x = rw same at h in
      let id : x.id ≡ e.id = cc at_x in
      let same_id = (==_iff x.id e.id).1 id in
      let t : x.token ≡ token = (==_iff x.token token).0 same in
      let gone =
        remove_none e.id es
          (All-map (IsApart x) (λ y. y.id ≢ e.id) es (λ y a k. a.0 (id ∙ sym k)) apart.0) in
      let kept =
        without_none token es
          (All-map (IsApart x) (λ y. y.token ≢ token) es (λ y a k. a.1 (t ∙ sym k)) apart.0) in
      rw (same_id, same, gone, kept) refl
  | inr other ↦
      let h' = rw other at h in
      let differ = found-All (IsApart x) token es h' apart.0 in
      let other_id = other_token x.id e.id differ.0 in
      rw (other_id, other, view-remove_element token es e apart.1 h') refl
]

-- It is not found again, and the others are found as before.
pub find_token-remove_element :
    (token : ℕ) (es : List Element) (e : Element) (t : ℕ)
    → AreApart es
    → find_token token es ≡ some e
    → find_token t (remove_element e.id es) ≡ (if token == t then none else find_token t es)
unfolding remove_element
find_token-remove_element token [] e t apart h = cc
find_token-remove_element token (x ∷ es) e t apart h = elim (Bool-cases (x.token == token)) [
  | inl same ↦
      let at_x = rw same at h in
      let id : x.id ≡ e.id = cc at_x in
      let same_id = (==_iff x.id e.id).1 id in
      let is_token : x.token ≡ token = (==_iff x.token token).0 same in
      let gone =
        remove_none e.id es
          (All-map (IsApart x) (λ y. y.id ≢ e.id) es (λ y a k. a.0 (id ∙ sym k)) apart.0) in
      rw (same_id, gone)
        (elim (Bool-cases (token == t)) [
          | inl hit ↦
              let is_t : x.token ≡ t = is_token ∙ (==_iff token t).0 hit in
              rw hit (
                find_none t es
                  (All-map (IsApart x) (λ y. y.token ≢ t) es (λ y a k. a.1 (is_t ∙ sym k)) apart.0))
          | inr miss ↦
              let miss' : (x.token == t) ≡ false = rw is_token miss in rw (miss, miss') refl
        ])
  | inr other ↦
      let h' = rw other at h in
      let differ = found-All (IsApart x) token es h' apart.0 in
      let other_id = other_token x.id e.id differ.0 in
      let rest = find_token-remove_element token es e t apart.1 h' in
      rw other_id (elim (Bool-cases (x.token == t)) [
        | inl hit ↦
            let miss : (token == t) ≡ false = ground (arith, hit, other) in rw (hit, miss) refl
        | inr away ↦ rw (away, rest) refl
      ])
]

pub remove_element-All :
    (P : Element → Type 0) (id : ℕ) (es : List Element) → All P es → All P (remove_element id es)
unfolding remove_element
remove_element-All P id [] all = tt
remove_element-All P id (x ∷ es) all = elim (Bool-cases (x.id == id)) [
  | inl e ↦ rw e (remove_element-All P id es all.1)
  | inr e ↦ rw e (all.0, remove_element-All P id es all.1)
]

pub remove_element-AreApart :
    (id : ℕ) (es : List Element) → AreApart es → AreApart (remove_element id es)
unfolding remove_element
remove_element-AreApart id [] apart = tt
remove_element-AreApart id (x ∷ es) apart = elim (Bool-cases (x.id == id)) [
  | inl e ↦ rw e (remove_element-AreApart id es apart.1)
  | inr e ↦
      rw e (remove_element-All (IsApart x) id es apart.0, remove_element-AreApart id es apart.1)
]

-- The element that was found is apart from those that stay.
pub removed-IsApart :
    (token : ℕ) (es : List Element) (e : Element)
    → AreApart es
    → find_token token es ≡ some e
    → All (IsApart e) (remove_element e.id es)
unfolding remove_element
removed-IsApart token [] e apart h = cc
removed-IsApart token (x ∷ es) e apart h = elim (Bool-cases (x.token == token)) [
  | inl same ↦
      let at_x = rw same at h in
      let is_x : x ≡ e = cc at_x in
      let same_id = (==_iff x.id e.id).1 (ap (λ k. k.id) is_x) in
      rw same_id
        (remove_element-All (IsApart e) e.id es (subst (λ k. All (IsApart k) es) is_x apart.0))
  | inr other ↦
      let h' = rw other at h in
      let differ = found-All (IsApart x) token es h' apart.0 in
      let other_id = other_token x.id e.id differ.0 in
      rw other_id
        (((λ k. differ.0 (sym k)), (λ k. differ.1 (sym k))), removed-IsApart token es e apart.1 h')
]
