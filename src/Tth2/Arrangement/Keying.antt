-- ===== src/Tth2/Arrangement/Keying.antt =====
-- `scatterBatch` (tth2/arrangement.go): a batch keyed by stream position becomes one keyed by request,
-- and the arrival order still names who arrived at each rank.
use tturl.Common.{
  ℕ, zero, suc, ◌+◌, ◌<◌, ◌≡◌, refl, sym, ap, ◌∙◌, inl, inr, true, Option, none, some, List, [],
  ◌∷◌, length, get_elem?, All, arith, Bool-cases, ◌>>=◌, get_elem?-some, get_elem?-lt, All-of_get,
  Option-cases,
}
use tturl.Common.Int.{pos, eqb_ℤ}
use tturl.Tth2.Result.{Result, BatchResult, arrived, all_arrived, ranks_match, full_arrival_order}
use tturl.Tth2.Result.FullOrder.{all_arrived-get, all_arrived-of_get, ranks_match-of_get}
use tturl.Tth2.Arrangement.{IsArrangement, scatter}
use tturl.Tth2.Arrangement.Scatter.{IsArrangement-position, scatter_lem}

-- `out.ArrivalOrder[rank] = arrangement[position]`
unfoldable pub translate : List ℕ → List ℕ → Option (List ℕ)
translate arrangement [] = some []
translate arrangement (position ∷ rest) = do
  i ← get_elem? arrangement position
  is ← translate arrangement rest
  some (i ∷ is)

translate_lem :
    (arr order : List ℕ)
    → All (λ p. p < length arr) order
    → (order' : List ℕ) × (translate arr order ≡ some order')
      × (length order' ≡ length order)
      × ((q p : ℕ) → get_elem? order q ≡ some p → get_elem? order' q ≡ get_elem? arr p)
unfolding translate
translate_lem arr [] h = ([], refl, refl, λ q p e. cc)
translate_lem arr (x ∷ xs) h =
    let (i, at_x) = get_elem?-some arr x h.0 in
    let (rest, e, len, reads) = translate_lem arr xs h.1 in
    (
      i ∷ rest,
      ground arith,
      omega arith,
      elim [
        | zero ↦ λ p q. let same : x ≡ p = cc in rw (← same) (sym at_x)
        | suc q ↦ λ p e. reads q p e
      ],
    )

module _ {R : Type 0} where
  abbrev pub blank : Result R
  blank = record {
    response = none;
    arrival_rank = pos 0;
    reset = none;
    arrival_seq = pos 0;
    stream_id = 0;
  }

  unfoldable pub scatter_batch : BatchResult R → List ℕ → Option (BatchResult R)
  unfolding translate
  scatter_batch b arrangement = do
    results ← scatter blank b.results arrangement
    order ← translate arrangement b.arrival_order
    some (record { connection = b.connection; results = results; arrival_order = order })

  ranks_match-get :
      (results : List (Result R)) (k : ℕ) (is : List ℕ)
      → ranks_match results k is ≡ true
      → (q j : ℕ) → get_elem? is q ≡ some j
      → (r : Result R) × (get_elem? results j ≡ some r) × (r.arrival_rank ≡ pos (k + q))
  unfolding ranks_match
  ranks_match-get results k [] h q j e = cc
  ranks_match-get results k (i ∷ is) h q j e = elim (Option-cases (get_elem? results i)) [
    | inl missing ↦ ground (arith, missing)
    | inr (r, at_i) ↦ elim (Bool-cases (eqb_ℤ r.arrival_rank (pos k))) [
      | inl hit ↦
          step q e r at_i (ground arith)
            (ranks_match-get results (suc k) is (ground (arith, at_i, hit)))
      | inr miss ↦ ground (arith, at_i, miss)
    ]
  ]
    where
      step :
          (q : ℕ)
          → get_elem? (i ∷ is) q ≡ some j
          → (r : Result R) → get_elem? results i ≡ some r
          → r.arrival_rank ≡ pos k
          → ((q j : ℕ)
              → get_elem? is q ≡ some j
              → (r : Result R) × (get_elem? results j ≡ some r)
                × (r.arrival_rank ≡ pos (suc k + q)))
          → (r : Result R) × (get_elem? results j ≡ some r) × (r.arrival_rank ≡ pos (k + q))
      step zero e r at_i rank rest =
          let same : i ≡ j = cc in (r, rw (← same) at_i, rank ∙ ap pos (omega arith))
      step (suc q) e r at_i rank rest =
          let (x, at_j, rank_j) = rest q j e in (x, at_j, rank_j ∙ ap pos (omega arith))

  -- What a full arrival order says about its batch.
  pub record IsFull (b : BatchResult R) (order : List ℕ) : Type 0 where
    pub is_order : b.arrival_order ≡ order
    pub everyone : all_arrived b.results ≡ true
    pub as_long : length order ≡ length b.results
    pub inverse :
        (q j : ℕ)
        → get_elem? order q ≡ some j
        → (r : Result R) × (get_elem? b.results j ≡ some r) × (r.arrival_rank ≡ pos (0 + q))

  pub full_arrival_order-IsFull :
      (b : BatchResult R) (order : List ℕ) → full_arrival_order b ≡ some order → IsFull b order
  unfolding full_arrival_order
  full_arrival_order-IsFull b order e =
      let is_order : b.arrival_order ≡ order = ground arith in
      let match : ranks_match b.results 0 b.arrival_order ≡ true = ground arith in
      record {
        is_order = is_order;
        everyone = ground arith;
        as_long = ground arith;
        inverse = rw (← is_order) (ranks_match-get b.results 0 b.arrival_order match);
      }

  pub IsFull-full_arrival_order :
      (b : BatchResult R) (order : List ℕ) → IsFull b order → full_arrival_order b ≡ some order
  unfolding full_arrival_order
  IsFull-full_arrival_order b order f =
      let match = ranks_match-of_get b.results 0 order f.inverse in
      ground (arith, match, f.everyone, f.as_long, f.is_order)

  module _ (n : ℕ) (b : BatchResult R) (order arr : List ℕ) (f : IsFull b order)
      (h : IsArrangement n arr) (results : List (Result R)) (order' : List ℕ)
      (size : length results ≡ n)
      (placed : (p i : ℕ) → get_elem? arr p ≡ some i → get_elem? results i ≡ get_elem? b.results p)
      (len : length order' ≡ length order) (whole : length b.results ≡ n)
      (reads : (q p : ℕ) → get_elem? order q ≡ some p → get_elem? order' q ≡ get_elem? arr p) where
    keyed : BatchResult R
    keyed = record { connection = b.connection; results = results; arrival_order = order' }

    keyed_arrived : (i : ℕ) (r : Result R) → get_elem? results i ≡ some r → arrived r ≡ true
    keyed_arrived i r e =
        let (p, at_p) =
          IsArrangement-position n arr i h (omega (arith, get_elem?-lt results i e)) in
        all_arrived-get b.results p r f.everyone (sym (placed p i at_p) ∙ e)

    keyed_inverse :
        (q j : ℕ)
        → get_elem? order' q ≡ some j
        → (r : Result R) × (get_elem? results j ≡ some r) × (r.arrival_rank ≡ pos (0 + q))
    keyed_inverse q j e =
        let (p, at_q) = get_elem?-some order q (omega (arith, get_elem?-lt order' q e)) in
        let (r, at_p, rank) = f.inverse q p at_q in
        (r, placed p j (sym (reads q p at_q) ∙ e) ∙ at_p, rank)

    keyed-IsFull : IsFull keyed order'
    unfolding keyed
    keyed-IsFull = record {
      is_order = refl;
      everyone = all_arrived-of_get results keyed_arrived;
      as_long = omega (arith, f.as_long);
      inverse = keyed_inverse;
    }

    keyed_full : full_arrival_order keyed ≡ some order'
    keyed_full = IsFull-full_arrival_order keyed order' keyed-IsFull

  scatter_batch_runs :
      (b : BatchResult R) (order arr : List ℕ) (results : List (Result R)) (order' : List ℕ)
      → b.arrival_order ≡ order
      → scatter blank b.results arr ≡ some results
      → translate arr order ≡ some order'
      → scatter_batch b arr
        ≡ some (record { connection = b.connection; results = results; arrival_order = order' })
  unfolding scatter_batch
  scatter_batch_runs b order arr results order' e run moved = rw (run, e, moved) refl

  -- Under an arrangement `arr` of the batch, a full arrival order by position becomes the full
  -- arrival order by request, and each request has the result of the position it was sent at.
  pub scatter_batch-keeps_order :
      (n : ℕ) (b : BatchResult R) (order arr : List ℕ)
      → full_arrival_order b ≡ some order
      → length b.results ≡ n
      → IsArrangement n arr
      → (b' : BatchResult R) × (order' : List ℕ) × (scatter_batch b arr ≡ some b')
        × (full_arrival_order b' ≡ some order')
        × ((q p : ℕ) → get_elem? order q ≡ some p → get_elem? order' q ≡ get_elem? arr p)
        × ((p i : ℕ) → get_elem? arr p ≡ some i → get_elem? b'.results i ≡ get_elem? b.results p)
  unfolding scatter_batch
  scatter_batch-keeps_order n b order arr e len h =
      let f = full_arrival_order-IsFull b order e in
      let (results, run, size, placed) = scatter_lem n blank b.results arr h len in
      let (order', moved, len', reads) = translate_lem arr order (
        All-of_get _ order (λ q p at_q.
          let (r, at_p, _) = f.inverse q p at_q in
          omega (arith, get_elem?-lt b.results p at_p, h.1))) in
      (
        keyed n b order arr f h results order' size placed len' len reads,
        order',
        unfold keyed in scatter_batch_runs b order arr results order' f.is_order run moved,
        keyed_full n b order arr f h results order' size placed len' len reads,
        reads,
        unfold keyed in placed,
      )
