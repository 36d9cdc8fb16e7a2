-- ===== src/Tth2/Flow/Reserve.antt =====
-- `reserve` debits every stream of a record at once, or nothing.
use tturl.Common.{
  ℕ, suc, ◌+◌, ◌≤◌, ◌≡◌, refl, ap, ◌∙◌, inl, inr, Bool, true, false, none, some, List, [], ◌∷◌,
  length, All, arith, Bool-cases, if◌then◌else◌, ◌||◌, ◌&&◌,
}
use tturl.Common.Int.{
  ℤ, pos, pos_part, ◌+ℤ◌, ◌-ℤ◌, ◌≤ℤ◌, ltb_ℤ, leb_ℤ, eq_of_parts, int_laws, neg_part-nonneg,
}
use tturl.Tth2.Flow.{FlowControl, needed, debit, reserve, wrap_int32, max_initial_window_size}
use tturl.Tth2.Flow.Windows.{IsSound, Moves, Moves-refl, InInt32, conn_debit}

-- The bytes of a record.
abbrev pub demand : List ℤ → ℕ
demand [] = 0
demand (n ∷ needs) = pos_part n + demand needs

abbrev pub IsNeed : ℤ → Type 0
IsNeed n = pos 0 ≤ℤ n

-- Each stream has the credit that it needs.
abbrev pub covers : List ℤ → List ℤ → Bool
covers stream [] = true
covers [] (n ∷ needs) = true
covers (w ∷ stream) (n ∷ needs) =
    if leb_ℤ n (pos 0) || leb_ℤ n w then covers stream needs else false

-- The windows less the needs.
abbrev pub debited : List ℤ → List ℤ → List ℤ
debited stream [] = stream
debited [] (n ∷ needs) = []
debited (w ∷ stream) (n ∷ needs) = (w -ℤ n) ∷ debited stream needs

wrap_small : (t : ℕ) → t ≤ max_initial_window_size → wrap_int32 (pos t) ≡ pos t
unfolding wrap_int32
wrap_small t h = ground arith

add_need : (t : ℕ) (n : ℤ) → IsNeed n → (pos t +ℤ n) ≡ pos (t + pos_part n)
add_need t n h = eq_of_parts _ _ (omega (int_laws, neg_part-nonneg n h))

needed_lem :
    (stream needs : List ℤ) (t : ℕ)
    → All IsNeed needs
    → length needs ≤ length stream
    → t + demand needs ≤ max_initial_window_size
    → needed stream needs (pos t)
      ≡ some (if covers stream needs then some (pos (t + demand needs)) else none)
unfolding needed
needed_lem stream [] t h len budget = ap (λ k. some (some (pos k))) (omega arith)
needed_lem [] (n ∷ needs) t h len budget = absurd (omega arith)
needed_lem (w ∷ stream) (n ∷ needs) t h len budget =
    let total : wrap_int32 (pos t +ℤ n) ≡ pos (t + pos_part n) =
      ap wrap_int32 (add_need t n h.0) ∙ wrap_small (t + pos_part n) (omega arith) in
    let rest = needed_lem stream needs (t + pos_part n) h.1 (omega arith) (omega arith) in
    let skip = needed_lem stream needs t h.1 (omega arith) (omega arith) in
    let assoc : t + pos_part n + demand needs ≡ t + (pos_part n + demand needs) = omega arith in
    elim (Bool-cases (ltb_ℤ (pos 0) n)) [
      | inl some_need ↦
          let above : leb_ℤ n (pos 0) ≡ false = ground (arith, some_need) in
          elim (Bool-cases (ltb_ℤ w n)) [
            | inl short ↦
                let less : leb_ℤ n w ≡ false = ground (arith, short) in
                rw (some_need, short, above, less) refl
            | inr enough ↦
                let le : leb_ℤ n w ≡ true = ground (arith, enough) in
                rw (some_need, enough, above, le, total, ← assoc) rest
          ]
      | inr no_need ↦
          let low : leb_ℤ n (pos 0) ≡ true = ground (arith, no_need) in
          let nothing : pos_part n ≡ 0 = ground (arith, no_need, neg_part-nonneg n h.0) in
          let plus : 0 + demand needs ≡ demand needs = omega arith in
          rw (no_need, low, nothing, plus) skip
    ]

debit_lem :
    (stream needs : List ℤ)
    → length needs ≤ length stream
    → debit stream needs ≡ some (debited stream needs)
unfolding debit
debit_lem stream [] h = refl
debit_lem [] (n ∷ needs) h = absurd (omega arith)
debit_lem (w ∷ stream) (n ∷ needs) h = rw (debit_lem stream needs (omega arith)) refl

-- Under the budget of one record, `reserve` debits each window by its need and the connection by
-- their sum, if every window covers that. Otherwise it changes nothing and says so.
pub reserve_lem :
    (f : FlowControl) (needs : List ℤ)
    → All IsNeed needs
    → length needs ≤ length f.stream
    → demand needs ≤ max_initial_window_size
    → reserve f needs
      ≡ some (
          if covers f.stream needs && leb_ℤ (pos (demand needs)) f.conn_window
          then (
            record f {
              conn_window = f.conn_window -ℤ pos (demand needs);
              stream = debited f.stream needs;
            },
            true,
          )
          else (f, false))
unfolding reserve
reserve_lem f needs h len budget =
    let plus : 0 + demand needs ≡ demand needs = omega arith in
    let found = rw plus at (needed_lem f.stream needs 0 h len (omega arith)) in
    elim (Bool-cases (covers f.stream needs)) [
      | inl covered ↦ elim (Bool-cases (ltb_ℤ f.conn_window (pos (demand needs)))) [
        | inl short ↦
            let less : leb_ℤ (pos (demand needs)) f.conn_window ≡ false = ground (arith, short) in
            rw (found, covered, less, short) refl
        | inr enough ↦
            let le : leb_ℤ (pos (demand needs)) f.conn_window ≡ true = ground (arith, enough) in
            rw (found, covered, le, enough, debit_lem f.stream needs len) refl
      ]
      | inr lacking ↦ rw (found, lacking) refl
    ]

debited-bounds :
    (stream needs : List ℤ)
    → All InInt32 stream
    → All IsNeed needs
    → length needs ≤ length stream
    → covers stream needs ≡ true
    → All InInt32 (debited stream needs) × (length (debited stream needs) ≡ length stream)
debited-bounds stream [] b h len c = (b, refl)
debited-bounds [] (n ∷ needs) b h len c = absurd (omega arith)
debited-bounds (w ∷ stream) (n ∷ needs) b h len c =
    elim (Bool-cases (leb_ℤ n (pos 0) || leb_ℤ n w)) [
      | inl covered ↦
          let here : InInt32 (w -ℤ n) =
            grind (int_laws, covered, b.0, h.0, neg_part-nonneg n h.0) in
          let later = debited-bounds stream needs b.1 h.1 (omega arith) (rw covered at c) in
          ((here, later.0), ap suc later.1)
      | inr lacking ↦ cc (rw lacking at c)
    ]

-- The bytes that a call of `reserve` sends.
abbrev pub reserved : Bool → List ℤ → ℕ
reserved ok needs = if ok then demand needs else 0

pub reserve-Moves :
    (f : FlowControl) (needs : List ℤ)
    → IsSound f
    → All IsNeed needs
    → length needs ≤ length f.stream
    → demand needs ≤ max_initial_window_size
    → (f' : FlowControl) × (ok : Bool) × (reserve f needs ≡ some (f', ok))
      × Moves f f' (reserved ok needs) 0
reserve-Moves f needs s h len budget =
    elim (Bool-cases (covers f.stream needs && leb_ℤ (pos (demand needs)) f.conn_window)) [
      | inl granted ↦
          let covered : covers f.stream needs ≡ true = ground (arith, granted) in
          let fits : pos (demand needs) ≤ℤ f.conn_window = ground (arith, granted) in
          let (low, high, balance) =
            conn_debit f.conn_window (pos (demand needs)) s.conn_bounds (omega arith) fits in
          let (bounds, size) = debited-bounds f.stream needs s.stream_bounds h len covered in
          let f' : FlowControl = record f {
            conn_window = f.conn_window -ℤ pos (demand needs);
            stream = debited f.stream needs;
          } in
          (
            f',
            true,
            reserve_lem f needs h len budget ∙ rw granted refl,
            record {
              sound = record {
                conn_bounds = (low, high);
                stream_bounds = bounds;
                same_length = size ∙ s.same_length;
              };
              same_ids = refl;
              balance = balance;
            },
          )
      | inr refused ↦ (f, false, reserve_lem f needs h len budget ∙ rw refused refl, Moves-refl f s)
    ]
