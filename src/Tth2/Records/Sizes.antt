-- ===== src/Tth2/Records/Sizes.antt =====
-- The payload and the size of a planned record, and the plan that `measure` writes.
use tturl.Common.{
  ℕ, zero, suc, ◌+◌, ◌≤◌, ◌<◌, ◌≡◌, ◌≢◌, refl, List, [], ◌∷◌, length, get_or, set, replicate, ◌∙◌,
  Bool-cases, inl, inr, arith, ◌==◌, ==_iff, if◌then◌else◌, length-set, ap,
}
use tturl.Tth2.Body.{http2_frame_header_size}
use tturl.Tth2.Records.{Bodies, amount, measure, write_plan}

abbrev pub total : (ℕ → ℕ) → List ℕ → ℕ
total f [] = 0
total f (x ∷ xs) = f x + total f xs

-- The bytes of one DATA frame: no frame for no payload.
abbrev pub frame_size : ℕ → ℕ
frame_size planned = if planned == 0 then 0 else http2_frame_header_size + planned

abbrev pub payload_of : List ℕ → ℕ
payload_of plan = total (λ planned. planned) plan

abbrev pub size_of : List ℕ → ℕ
size_of plan = total frame_size plan

-- Each planned number is within the cap of its stream.
abbrev pub IsCapped : (ℕ → ℕ) → List ℕ → Type 0
IsCapped cap plan = (j : ℕ) → get_or plan j 0 ≤ cap j

abbrev pub cap_of : Bodies → ℕ → ℕ
cap_of b j = get_or b.caps j 0

-- The streams of `carrying` in the order of their indices, each below `n`.
abbrev pub AreIndices : ℕ → ℕ → List ℕ → Type 0
AreIndices n low [] = Unit
AreIndices n low (i ∷ is) = (low ≤ i) × (i < n) × AreIndices n (suc i) is

pub total-set :
    (f : ℕ → ℕ) (xs : List ℕ) (i v : ℕ)
    → i < length xs
    → total f (set xs i v) + f (get_or xs i 0) ≡ total f xs + f v
total-set f [] i v h = absurd (omega arith)
total-set f (x ∷ xs) zero v h = omega arith
total-set f (x ∷ xs) (suc i) v h = omega (arith, total-set f xs i v (omega arith))

pub get_or-set_self : (xs : List ℕ) (i v : ℕ) → i < length xs → get_or (set xs i v) i 0 ≡ v
get_or-set_self [] i v h = absurd (omega arith)
get_or-set_self (x ∷ xs) zero v h = refl
get_or-set_self (x ∷ xs) (suc i) v h = get_or-set_self xs i v (omega arith)

pub get_or-set_ne : (xs : List ℕ) (i j v : ℕ) → i ≢ j → get_or (set xs i v) j 0 ≡ get_or xs j 0
get_or-set_ne [] i j v h = refl
get_or-set_ne (x ∷ xs) zero zero v h = absurd (h refl)
get_or-set_ne (x ∷ xs) zero (suc j) v h = refl
get_or-set_ne (x ∷ xs) (suc i) zero v h = refl
get_or-set_ne (x ∷ xs) (suc i) (suc j) v h = get_or-set_ne xs i j v (λ e. h (ap suc e))

pub IsCapped-set :
    (cap : ℕ → ℕ) (plan : List ℕ) (i v : ℕ)
    → i < length plan
    → v ≤ cap i
    → IsCapped cap plan
    → IsCapped cap (set plan i v)
IsCapped-set cap plan i v h fits capped j = elim (Bool-cases (i == j)) [
  | inl same ↦
      let e : i ≡ j = (==_iff i j).0 same in rw (← e) (rw (get_or-set_self plan i v h) fits)
  | inr differ ↦
      let ne : i ≢ j = λ e. ground (arith, differ, e) in rw (get_or-set_ne plan i j v ne) (capped j)
]

pub get_or-below : (xs : List ℕ) (i : ℕ) → 0 < get_or xs i 0 → i < length xs
get_or-below [] i h = absurd (omega arith)
get_or-below (x ∷ xs) zero h = omega arith
get_or-below (x ∷ xs) (suc i) h = omega (arith, get_or-below xs i h)

pub get_or-replicate : (n j : ℕ) → get_or {A = ℕ} (replicate n 0) j 0 ≡ 0
get_or-replicate zero j = refl
get_or-replicate (suc n) zero = refl
get_or-replicate (suc n) (suc j) = get_or-replicate n j

pub total-replicate : (f : ℕ → ℕ) (n : ℕ) → f 0 ≡ 0 → total f (replicate n 0) ≡ 0
total-replicate f zero h = refl
total-replicate f (suc n) h = omega (arith, h, total-replicate f n h)

pub amount-capped :
    (b : Bodies) (scale : ℕ) (first : List ℕ) (progress i : ℕ)
    → amount b scale first progress i ≤ get_or b.caps i 0
unfolding amount
amount-capped b scale first progress i = ground arith

-- What `measure` computes is what the written plan amounts to.
pub record IsWritten (cap : ℕ → ℕ) (plan : List ℕ) (m : ℕ × ℕ) (out : List ℕ) : Type 0 where
  pub same_length : length out ≡ length plan
  pub payload : payload_of out ≡ payload_of plan + m.0
  pub size : size_of out ≡ size_of plan + m.1
  pub capped : IsCapped cap out

pub write_plan-IsWritten :
    (share : ℕ → ℕ) (cap : ℕ → ℕ)
    → ((i : ℕ) → share i ≤ cap i)
    → (is plan : List ℕ) (low : ℕ) → AreIndices (length plan) low is
    → ((j : ℕ) → low ≤ j → get_or plan j 0 ≡ 0)
    → IsCapped cap plan
    → IsWritten cap plan (measure share is) (write_plan share is plan)
unfolding measure write_plan
write_plan-IsWritten share cap bound [] plan low range fresh capped = record {
  same_length = refl;
  payload = omega arith;
  size = omega arith;
  capped = capped;
}
write_plan-IsWritten share cap bound (i ∷ is) plan low range fresh capped =
    elim (Bool-cases (share i == 0)) [
      | inl nothing ↦ rw (nothing) (
          write_plan-IsWritten share cap bound is plan (suc i) range.2
            (λ j above. fresh j (omega (arith, range.0))) capped)
      | inr something ↦
          let next = set plan i (share i) in
          let same = length-set plan i (share i) in
          let later = (λ (j : ℕ) (above : suc i ≤ j).
            let ne : i ≢ j = λ e. omega (arith, e) in
            get_or-set_ne plan i j (share i) ne ∙ fresh j (omega (arith, range.0))) in
          let rest =
            write_plan-IsWritten share cap bound is next (suc i) (rw same range.2) later
              (IsCapped-set cap plan i (share i) range.1 (bound i) capped) in
          let here = fresh i range.0 in
          let grown = rw here at (total-set (λ x. x) plan i (share i) range.1) in
          let sized = rw (here, something) at (total-set frame_size plan i (share i) range.1) in
          rw something (record {
            same_length = rest.same_length ∙ same;
            payload = omega (arith, rest.payload, grown);
            size = omega (arith, rest.size, sized);
            capped = rest.capped;
          })
    ]
