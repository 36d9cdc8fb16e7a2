-- ===== src/Tth2/Arrangement/Scatter.antt =====
-- `scatter` inverts `arrange`: each result goes back to the request that was sent at its position.
use tturl.Common.{
  ℕ, zero, suc, ◌+◌, ◌<◌, ◌≤◌, ◌≡◌, refl, sym, ap, ◌∙◌, Option, some, List, [], ◌∷◌, map, length,
  get_elem?, set, All, arith, count, get_elem?-some, get_elem?-set_self, get_elem?-set_ne,
  get_elem?-none, length-set, length-map, count-get, count-upto, count-upto_above,
  get_elem?-of_count, All-of_get, list_ext,
}
use native.Mathlib.Decide.{dec_lt}
use tturl.Tth2.Arrangement.{IsArrangement, arrange, scatter_from, scatter}

-- An arrangement names every request below `n` once, and nothing else.
pub IsArrangement-lt :
    (n : ℕ) (arr : List ℕ) (q i : ℕ) → IsArrangement n arr → get_elem? arr q ≡ some i → i < n
IsArrangement-lt n arr q i h e = elim (dec_lt i n) [
  | yes lt ↦ lt
  | no ge ↦ absurd (omega (arith, count-get i arr q e, h.0 i, count-upto_above i 0 n (omega arith)))
]

pub IsArrangement-once :
    (n : ℕ) (arr : List ℕ) (i : ℕ) → IsArrangement n arr → i < n → count i arr ≡ 1
IsArrangement-once n arr i h lt = h.0 i ∙ count-upto i 0 n (omega arith) (omega arith)

pub IsArrangement-position :
    (n : ℕ) (arr : List ℕ) (i : ℕ)
    → IsArrangement n arr
    → i < n
    → (q : ℕ) × (get_elem? arr q ≡ some i)
IsArrangement-position n arr i h lt =
    get_elem?-of_count i arr (omega (arith, IsArrangement-once n arr i h lt))

pub IsArrangement-All : (n : ℕ) (arr : List ℕ) → IsArrangement n arr → All (λ i. i < n) arr
IsArrangement-All n arr h = All-of_get _ arr (λ q i e. IsArrangement-lt n arr q i h e)

module _ {ℓ} {A : Type ℓ} where
  -- What `arrange` returns: the requests, read through the arrangement.
  pub arrange_lem :
      (reqs : List A) (arr : List ℕ)
      → All (λ i. i < length reqs) arr
      → (laid : List A) × (arrange reqs arr ≡ some laid)
        × (length laid ≡ length arr)
        × ((p i : ℕ) → get_elem? arr p ≡ some i → get_elem? laid p ≡ get_elem? reqs i)
  unfolding arrange
  arrange_lem reqs [] h = ([], refl, refl, λ p i e. cc)
  arrange_lem reqs (j ∷ js) h =
      let (r, at_j) = get_elem?-some reqs j h.0 in
      let (rest, e, len, reads) = arrange_lem reqs js h.1 in
      (
        r ∷ rest,
        ground arith,
        omega arith,
        elim [
          | zero ↦ λ i q. let same : j ≡ i = cc in rw (← same) (sym at_j)
          | suc p ↦ λ i q. reads p i q
        ],
      )

  -- The loop of `scatter` from position `p` on: it ends without a fault, leaves the slots that no
  -- later position names, and fills the others from the results.
  record Scattered (p : ℕ) (results : List A) (is : List ℕ) (out out' : List A) : Type ℓ where
    runs : scatter_from p results is out ≡ some out'
    same_length : length out' ≡ length out
    kept : (i : ℕ) → count i is ≡ 0 → get_elem? out' i ≡ get_elem? out i
    filled :
        (q i : ℕ)
        → get_elem? is q ≡ some i
        → count i is ≡ 1
        → get_elem? out' i ≡ get_elem? results (p + q)

  kept_step :
      (j : ℕ) (js : List ℕ) (out : List A) (r : A) (o : Option A) (i : ℕ)
      → (count i js ≡ 0 → o ≡ get_elem? (set out j r) i)
      → count i (j ∷ js) ≡ 0
      → o ≡ get_elem? out i
  kept_step j js out r o i h c =
      h (ground arith) ∙ get_elem?-set_ne out j i r (λ e. absurd (ground (arith, e)))

  module _ (p j : ℕ) (js : List ℕ) (results out : List A) {r : A} {out' : List A}
      (s : Scattered (suc p) results js (set out j r) out') (at_p : get_elem? results p ≡ some r)
      (bound : j < length out) where
    filled_step :
        (q i : ℕ)
        → get_elem? (j ∷ js) q ≡ some i
        → count i (j ∷ js) ≡ 1
        → get_elem? out' i ≡ get_elem? results (p + q)
    filled_step zero i e c =
        let same : j ≡ i = cc in
        let last : count i js ≡ 0 = ground (arith, same) in
        let here : p + 0 ≡ p = omega arith in
        rw (here, at_p) (s.kept i last ∙ rw (← same) (get_elem?-set_self out j r bound))
    filled_step (suc q) i e c =
        let once : count i js ≡ 1 = ground (arith, count-get i js q e) in
        let there : p + suc q ≡ suc p + q = omega arith in rw there (s.filled q i e once)

  scatter_from_lem :
      (p : ℕ) (results : List A) (is : List ℕ) (out : List A)
      → p + length is ≤ length results
      → All (λ i. i < length out) is
      → (out' : List A) × Scattered p results is out out'
  unfolding scatter_from
  scatter_from_lem p results [] out h bound =
      (out, record { runs = refl; same_length = refl; kept = λ i c. refl; filled = λ q i e c. cc })
  scatter_from_lem p results (j ∷ js) out h bound =
      let (r, at_p) = get_elem?-some results p (omega arith) in
      let (old, at_j) = get_elem?-some out j bound.0 in
      let len = length-set out j r in
      let (out', s) =
        scatter_from_lem (suc p) results js (set out j r) (omega arith) (rw len bound.1) in
      (
        out',
        record {
          runs = rw (at_p, at_j) s.runs;
          same_length = s.same_length ∙ len;
          kept = λ i c. kept_step j js out r (get_elem? out' i) i (s.kept i) c;
          filled = filled_step p j js results out s at_p bound.0;
        },
      )

  -- Under an arrangement of the results, `scatter` returns, and puts the result of each position in
  -- the slot of the request that the arrangement names there.
  pub scatter_lem :
      (n : ℕ) (zero_value : A) (results : List A) (arr : List ℕ)
      → IsArrangement n arr
      → length results ≡ n
      → (out : List A) × (scatter zero_value results arr ≡ some out)
        × (length out ≡ n)
        × ((p i : ℕ) → get_elem? arr p ≡ some i → get_elem? out i ≡ get_elem? results p)
  unfolding scatter
  scatter_lem n zero_value results arr h len =
      let blank = map (λ (_ : ℕ). zero_value) arr in
      let size : length blank ≡ n = length-map (λ (_ : ℕ). zero_value) arr ∙ h.1 in
      let (out, s) =
        scatter_from_lem 0 results arr blank (omega arith) (rw size (IsArrangement-All n arr h)) in
      (
        out,
        s.runs,
        s.same_length ∙ size,
        λ p i e.
            s.filled p i e (IsArrangement-once n arr i h (IsArrangement-lt n arr p i h e))
            ∙ ap (get_elem? results) (omega arith),
      )

  -- Scattering what was arranged gives the requests back in the order they were given in.
  pub scatter-arrange :
      (n : ℕ) (zero_value : A) (reqs : List A) (arr : List ℕ)
      → IsArrangement n arr
      → length reqs ≡ n
      → (laid : List A) × (arrange reqs arr ≡ some laid) × (scatter zero_value laid arr ≡ some reqs)
  scatter-arrange n zero_value reqs arr h len =
      let (laid, e, size, reads) = arrange_lem reqs arr (rw len (IsArrangement-All n arr h)) in
      let (out, run, out_size, placed) = scatter_lem n zero_value laid arr h (size ∙ h.1) in
      (laid, e, run ∙ ap some (list_ext out reqs (agree out laid out_size reads placed)))
    where
      agree :
          (out laid : List A)
          → length out ≡ n
          → ((p i : ℕ) → get_elem? arr p ≡ some i → get_elem? laid p ≡ get_elem? reqs i)
          → ((p i : ℕ) → get_elem? arr p ≡ some i → get_elem? out i ≡ get_elem? laid p)
          → (i : ℕ) → get_elem? out i ≡ get_elem? reqs i
      agree out laid out_size reads placed i = elim (dec_lt i n) [
        | yes lt ↦
            let (p, at_p) = IsArrangement-position n arr i h lt in placed p i at_p ∙ reads p i at_p
        | no ge ↦ get_elem?-none out i (omega arith) ∙ sym (get_elem?-none reqs i (omega arith))
      ]
