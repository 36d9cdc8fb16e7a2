-- ===== src/Tth2/TrialWork/Sharing.antt =====
-- Every trial below the limit is sent, still to be sent by one worker, or in a block not drawn yet.
use tturl.Common.{
  ℕ, zero, suc, ◌+◌, ◌-◌, ◌*◌, ◌/◌, ◌≤◌, ◌<◌, ◌≡◌, refl, true, false, ◌||◌, ◌&&◌, some, List, [],
  ◌∷◌, get_elem?, get_or, set, count, sum_by, sum_by-set, All, arith, ltb, leb, ◌==◌, if◌then◌else◌,
  Bool-cases, inl, inr, get_elem?-lt, get_or-of_get, All-get, Option-cases,
}
use native.Mathlib.Nat.{le-div_iff_mul-le, mul-le-mul_right}
use tturl.Tth2.TrialWork.{
  Worker, between, finished, quit, in_block, stopped, TrialRun, Move, works, stops, block_available,
  trial_available, draw_block, send_next, work_from, stop_from, run_move, run_moves,
}

-- 1 if trial `i` is left to a worker that is at a shift of a block.
abbrev pub left_of : ℕ → ℕ → ℕ → ℕ → ℕ → ℕ
left_of max_trials unit start shift i =
    if leb (start + shift) i && (ltb i (start + unit) && ltb i max_trials) then 1 else 0

abbrev pub pending : ℕ → ℕ → ℕ → Worker → ℕ
pending max_trials unit i (in_block block shift) = left_of max_trials unit (block * unit) shift i
pending max_trials unit i (stopped block shift) = left_of max_trials unit (block * unit) shift i
pending max_trials unit i _ = 0

-- 1 if trial `i` is of a block that was drawn.
abbrev pub drawn : ℕ → ℕ → ℕ → ℕ
drawn max_trials bound i = if ltb i max_trials && ltb i bound then 1 else 0

-- Where a worker may stand when the blocks below `bound` are drawn.
abbrev pub IsPlaced : ℕ → ℕ → ℕ → Worker → Type 0
IsPlaced max_trials unit bound finished = max_trials ≤ bound
IsPlaced max_trials unit bound (in_block block shift) =
    (shift ≤ unit) × (block * unit + unit ≤ bound)
IsPlaced max_trials unit bound _ = Unit

pub record IsShared (max_trials unit : ℕ) (r : TrialRun) : Type 0 where
  pub shared :
      (i : ℕ)
      → count i r.sent + sum_by (pending max_trials unit i) r.workers
        ≡ drawn max_trials (r.next_block * unit) i
  pub placed : All (IsPlaced max_trials unit (r.next_block * unit)) r.workers

module _ (max_trials unit : ℕ) (limited : 0 < max_trials) (some_unit : 0 < unit) where
  available_iff :
      (idx : ℕ)
      → (block_available max_trials unit idx ≡ true → idx * unit < max_trials)
        × (block_available max_trials unit idx ≡ false → max_trials ≤ idx * unit)
  unfolding block_available
  available_iff idx =
      let law = le-div_iff_mul-le {x = idx} {y = max_trials - 1} some_unit in
      (
        (λ h.
            let low : idx ≤ (max_trials - 1) / unit = ground (arith, h, limited) in
            omega (arith, law.0 low, limited)),
        (λ h. elim (Bool-cases (leb (idx * unit) (max_trials - 1))) [
          | inl below ↦
              let le : idx * unit ≤ max_trials - 1 = ground (arith, below) in
              let low = law.1 le in absurd (ground (arith, h, low))
          | inr above ↦ ground (arith, above)
        ]),
      )

  IsPlaced-grow :
      (bound bound' : ℕ) (w : Worker)
      → bound ≤ bound'
      → IsPlaced max_trials unit bound w
      → IsPlaced max_trials unit bound' w
  IsPlaced-grow bound bound' between le h = tt
  IsPlaced-grow bound bound' quit le h = tt
  IsPlaced-grow bound bound' finished le h = omega (arith, le, h)
  IsPlaced-grow bound bound' (in_block block shift) le h = (h.0, omega (arith, le, h.1))
  IsPlaced-grow bound bound' (stopped block shift) le h = tt

  All-put :
      (bound bound' : ℕ) (ws : List Worker) (k : ℕ) (w : Worker)
      → bound ≤ bound'
      → IsPlaced max_trials unit bound' w
      → All (IsPlaced max_trials unit bound) ws
      → All (IsPlaced max_trials unit bound') (set ws k w)
  All-put bound bound' [] k w le p h = tt
  All-put bound bound' (x ∷ ws) zero w le p h = (p, grown ws h.1)
    where
      grown :
          (ws : List Worker)
          → All (IsPlaced max_trials unit bound) ws
          → All (IsPlaced max_trials unit bound') ws
      grown [] h = tt
      grown (x ∷ ws) h = (IsPlaced-grow bound bound' x le h.0, grown ws h.1)
  All-put bound bound' (x ∷ ws) (suc k) w le p h =
      (IsPlaced-grow bound bound' x le h.0, All-put bound bound' ws k w le p h.1)

  module _ (r : TrialRun) (k : ℕ) (old : Worker) (at_k : get_elem? r.workers k ≡ some old)
      (ok : IsShared max_trials unit r) where
    IsPlaced-old : IsPlaced max_trials unit (r.next_block * unit) old
    IsPlaced-old =
        All-get (IsPlaced max_trials unit (r.next_block * unit)) r.workers k ok.placed at_k

    -- A move of worker `k` that accounts for what it had left keeps the trials shared.
    moved :
        (w : Worker) (next : ℕ) (sent : List ℕ)
        → r.next_block ≤ next
        → IsPlaced max_trials unit (next * unit) w
        → ((i : ℕ)
            → count i sent + pending max_trials unit i w + drawn max_trials (r.next_block * unit) i
              ≡ count i r.sent + pending max_trials unit i old + drawn max_trials (next * unit) i)
        → IsShared max_trials unit
            (record { next_block = next; workers = set r.workers k w; sent = sent })
    moved w next sent le p accounts = record {
      shared = λ i.
          let traded =
            sum_by-set (pending max_trials unit i) r.workers k w old
              (get_elem?-lt r.workers k at_k) in
          let here : get_or r.workers k old ≡ old = get_or-of_get r.workers k old at_k in
          let traded' = rw here at traded in omega (arith, traded', accounts i, ok.shared i);
      placed =
          All-put (r.next_block * unit) (next * unit) r.workers k w (mul-le-mul_right unit le) p
            ok.placed;
    }

    draw_block-IsShared :
        ((i : ℕ) → pending max_trials unit i old ≡ 0)
        → IsShared max_trials unit (draw_block max_trials unit r k)
    unfolding draw_block
    draw_block-IsShared idle =
        let idx = r.next_block in
        let grow : suc idx * unit ≡ idx * unit + unit = omega arith in
        elim (Bool-cases (block_available max_trials unit idx)) [
          | inl more ↦
              let lt = (available_iff idx).0 more in
              rw more (
                moved (in_block idx 0) (suc idx) r.sent (omega arith)
                  (omega arith, omega (arith, grow))
                  (λ i. let z = idle i in ground (arith, z, grow, lt)))
          | inr over ↦
              let ge = (available_iff idx).1 over in
              rw over (
                moved finished (suc idx) r.sent (omega arith) (omega (arith, grow, ge))
                  (λ i. let z = idle i in ground (arith, z, grow, ge)))
        ]

  module _ (r : TrialRun) (k block shift : ℕ)
      (at_k : get_elem? r.workers k ≡ some (in_block block shift))
      (ok : IsShared max_trials unit r) where
    send_next-IsShared : IsShared max_trials unit (send_next max_trials unit r k block shift)
    unfolding send_next trial_available
    send_next-IsShared =
        let start = block * unit in
        let index = start + shift in
        let p = IsPlaced-old r k (in_block block shift) at_k ok in
        elim (Bool-cases (leb unit shift)) [
          | inl done ↦
              let z = (λ (i : ℕ).
                let none_left : left_of max_trials unit start shift i ≡ 0 = ground (arith, done) in
                none_left) in
              rw done (
                moved r k (in_block block shift) at_k ok between r.next_block r.sent (omega arith)
                  tt (λ i. omega (arith, z i)))
          | inr more ↦ elim (Bool-cases ((max_trials == 0) || ltb index max_trials)) [
            | inl available ↦
                let lt : index < max_trials = ground (arith, available, limited) in
                let before : shift < unit = ground (arith, more) in
                rw (more, available)
                  (moved r k (in_block block shift) at_k ok (in_block block (suc shift))
                    r.next_block (index ∷ r.sent) (omega arith) (omega arith, p.1)
                    (λ i. ground (arith, lt, before)))
            | inr over ↦
                let ge : max_trials ≤ index = ground (arith, over, limited) in
                let before : shift < unit = ground (arith, more) in
                rw (more, over)
                  (moved r k (in_block block shift) at_k ok finished r.next_block r.sent
                    (omega arith) (omega (arith, ge, before, p.1)) (λ i. ground (arith, ge)))
          ]
        ]

  work_from-IsShared :
      (r : TrialRun) (k : ℕ) (w : Worker)
      → get_elem? r.workers k ≡ some w
      → IsShared max_trials unit r
      → IsShared max_trials unit (work_from max_trials unit r k w)
  unfolding work_from
  work_from-IsShared r k between at_k ok = draw_block-IsShared r k between at_k ok (λ i. refl)
  work_from-IsShared r k (in_block block shift) at_k ok = send_next-IsShared r k block shift at_k ok
  work_from-IsShared r k finished at_k ok = ok
  work_from-IsShared r k quit at_k ok = ok
  work_from-IsShared r k (stopped block shift) at_k ok = ok

  stop_from-IsShared :
      (r : TrialRun) (k : ℕ) (w : Worker)
      → get_elem? r.workers k ≡ some w
      → IsShared max_trials unit r
      → IsShared max_trials unit (stop_from r k w)
  unfolding stop_from
  stop_from-IsShared r k between at_k ok =
      moved r k between at_k ok quit r.next_block r.sent (omega arith) tt (λ i. refl)
  stop_from-IsShared r k (in_block block shift) at_k ok =
      moved r k (in_block block shift) at_k ok (stopped block shift) r.next_block r.sent
        (omega arith) tt (λ i. refl)
  stop_from-IsShared r k finished at_k ok = ok
  stop_from-IsShared r k quit at_k ok = ok
  stop_from-IsShared r k (stopped block shift) at_k ok = ok

  run_move-IsShared :
      (r : TrialRun) (m : Move)
      → IsShared max_trials unit r
      → IsShared max_trials unit (run_move max_trials unit r m)
  unfolding run_move
  run_move-IsShared r (works k) ok = elim (Option-cases (get_elem? r.workers k)) [
    | inl absent ↦ rw absent ok
    | inr (w, at_k) ↦ rw at_k (work_from-IsShared r k w at_k ok)
  ]
  run_move-IsShared r (stops k) ok = elim (Option-cases (get_elem? r.workers k)) [
    | inl absent ↦ rw absent ok
    | inr (w, at_k) ↦ rw at_k (stop_from-IsShared r k w at_k ok)
  ]

  pub run_moves-IsShared :
      (r : TrialRun) (ms : List Move)
      → IsShared max_trials unit r
      → IsShared max_trials unit (run_moves max_trials unit r ms)
  unfolding run_moves
  run_moves-IsShared r [] ok = ok
  run_moves-IsShared r (m ∷ ms) ok =
      run_moves-IsShared (run_move max_trials unit r m) ms (run_move-IsShared r m ok)
