-- ===== src/Tth2/Flow/Windows.antt =====
-- The windows of a batch stay in their ranges, the window of the connection never goes below 0, and
-- what an operation sends leaves that window.
use tturl.Common.{
  ℕ, zero, suc, ◌+◌, ◌<◌, ◌≡◌, refl, ap, ◌∙◌, inl, inr, true, some, List, [], ◌∷◌, map, length, set,
  All, arith, Bool-cases, if◌then◌else◌, ◌==◌, length-map, length-set, All-get, get_elem?-some,
}
use tturl.Common.Int.{
  ℤ, pos, pos_part, ◌+ℤ◌, ◌-ℤ◌, ◌≤ℤ◌, ltb_ℤ, leb_ℤ, eqb_ℤ, int_laws, neg_part-nonneg,
}
use tturl.Tth2.Flow.{
  FlowControl, take, take_amount, add_stream, apply_init_delta, add_connection_send_credit, notify,
  min_int32, max_initial_window_size, CreditOutcome, stale, overflow, credited, credit_stream,
  after_credit, adjustable, after_window, min_ℤ,
}

abbrev pub InInt32 : ℤ → Type 0
InInt32 a = (min_int32 ≤ℤ a) × (a ≤ℤ pos max_initial_window_size)

pub record IsSound (f : FlowControl) : Type 0 where
  pub conn_bounds : (pos 0 ≤ℤ f.conn_window) × (f.conn_window ≤ℤ pos max_initial_window_size)
  pub stream_bounds : All InInt32 f.stream
  pub same_length : length f.stream ≡ length f.stream_ids

-- From one state to another, `sent` bytes left the connection's window and `added` came to it.
pub record Moves (f f' : FlowControl) (sent added : ℕ) : Type 0 where
  pub sound : IsSound f'
  pub same_ids : f'.stream_ids ≡ f.stream_ids
  pub balance : pos_part f'.conn_window + sent ≡ pos_part f.conn_window + added

pub Moves-refl : (f : FlowControl) → IsSound f → Moves f f 0 0
Moves-refl f s = record { sound = s; same_ids = refl; balance = refl }

min_ℤ_le : (a b : ℤ) → (min_ℤ a b ≤ℤ a) × (min_ℤ a b ≤ℤ b)
min_ℤ_le a b = ground arith

-- A debit is covered by what was asked for, by the frame size and by both windows.
pub take_amount-le :
    (f : FlowControl) (window want : ℤ)
    → (take_amount f window want ≤ℤ want)
      × (take_amount f window want ≤ℤ pos f.max_frame)
      × (take_amount f window want ≤ℤ f.conn_window)
      × (take_amount f window want ≤ℤ window)
unfolding take_amount
take_amount-le f window want =
    let a = min_ℤ want (pos f.max_frame) in
    let b = min_ℤ a f.conn_window in
    let ha = min_ℤ_le want (pos f.max_frame) in
    let hb = min_ℤ_le a f.conn_window in
    let hc = min_ℤ_le b window in
    (omega (arith, ha, hb, hc), omega (arith, ha, hb, hc), omega (arith, hb, hc), hc.1)

pub All-set : (P : ℤ → Type 0) (xs : List ℤ) (i : ℕ) (v : ℤ) → All P xs → P v → All P (set xs i v)
All-set P [] i v h k = tt
All-set P (x ∷ xs) zero v h k = (k, h.1)
All-set P (x ∷ xs) (suc i) v h k = (h.0, All-set P xs i v h.1 k)

-- Debits of at least 0 that the window covers keep it in its range.
pub conn_debit :
    (w a : ℤ)
    → (pos 0 ≤ℤ w) × (w ≤ℤ pos max_initial_window_size)
    → pos 0 ≤ℤ a
    → a ≤ℤ w
    → (pos 0 ≤ℤ (w -ℤ a))
      × ((w -ℤ a) ≤ℤ pos max_initial_window_size)
      × (pos_part (w -ℤ a) + pos_part a ≡ pos_part w + 0)
conn_debit w a h k l =
    let after : pos 0 ≤ℤ (w -ℤ a) = omega (int_laws, h, k, l) in
    (
      after,
      omega (int_laws, h, k, l),
      omega (int_laws, neg_part-nonneg w h.0, neg_part-nonneg a k, neg_part-nonneg (w -ℤ a) after),
    )

-- `take` at a stream of the batch returns, and sends what it debits.
pub take-Moves :
    (f : FlowControl) (idx : ℕ) (want : ℤ)
    → IsSound f
    → idx < length f.stream
    → (f' : FlowControl) × (sent : ℤ) × (take f idx want ≡ some (f', sent))
      × Moves f f' (pos_part sent) 0
unfolding take
take-Moves f idx want s h =
    let (window, here) = get_elem?-some f.stream idx h in
    let avail = take_amount f window want in
    let le = take_amount-le f window want in
    let in_range = All-get InInt32 f.stream idx s.stream_bounds here in
    elim (Bool-cases (leb_ℤ avail (pos 0))) [
      | inl nothing ↦ (f, pos 0, rw (here, nothing) refl, Moves-refl f s)
      | inr credit ↦
          let positive : pos 0 ≤ℤ avail = ground (arith, credit) in
          let (low, high, balance) = conn_debit f.conn_window avail s.conn_bounds positive le.2 in
          let bounds : InInt32 (window -ℤ avail) =
            (omega (int_laws, in_range, positive, le.3), omega (int_laws, in_range, positive)) in
          let f' : FlowControl = record f {
            conn_window = f.conn_window -ℤ avail;
            stream = set f.stream idx (window -ℤ avail);
          } in
          (
            f',
            avail,
            rw (here, credit) refl,
            record {
              sound = record {
                conn_bounds = (low, high);
                stream_bounds = All-set InInt32 f.stream idx _ s.stream_bounds bounds;
                same_length = length-set f.stream idx _ ∙ s.same_length;
              };
              same_ids = refl;
              balance = balance;
            },
          )
    ]

notify-Moves :
    (f f' : FlowControl) (sent added : ℕ) → Moves f f' sent added → Moves f (notify f') sent added
unfolding notify
notify-Moves f f' sent added m = record {
  sound = record {
    conn_bounds = m.sound.conn_bounds;
    stream_bounds = m.sound.stream_bounds;
    same_length = m.sound.same_length;
  };
  same_ids = m.same_ids;
  balance = m.balance;
}

-- The windows of the streams change and that of the connection does not.
restream :
    (f : FlowControl) (stream : List ℤ)
    → IsSound f
    → All InInt32 stream
    → length stream ≡ length f.stream
    → Moves f (notify (record f { stream = stream })) 0 0
restream f stream s h e =
    notify-Moves f (record f { stream = stream }) 0 0
      (record {
        sound = record {
          conn_bounds = s.conn_bounds;
          stream_bounds = h;
          same_length = e ∙ s.same_length;
        };
        same_ids = refl;
        balance = refl;
      })

abbrev Credits : List ℤ → CreditOutcome → Type 0
Credits stream stale = Unit
Credits stream overflow = Unit
Credits stream (credited stream') = All InInt32 stream' × (length stream' ≡ length stream)

after_window-Credits :
    (w : ℤ) (stream : List ℤ) (o : CreditOutcome)
    → InInt32 w
    → Credits stream o
    → Credits (w ∷ stream) (after_window w o)
after_window-Credits w stream stale h k = tt
after_window-Credits w stream overflow h k = tt
after_window-Credits w stream (credited stream') h k = ((h, k.0), ap suc k.1)

credit_stream-Credits :
    (ids : List ℕ) (stream : List ℤ) (sid n : ℕ)
    → All InInt32 stream
    → Credits stream (credit_stream ids stream sid (pos n))
unfolding credit_stream
credit_stream-Credits [] stream sid n h = tt
credit_stream-Credits (s ∷ ids) [] sid n h = tt
credit_stream-Credits (s ∷ ids) (w ∷ stream) sid n h = elim (Bool-cases (s == sid)) [
  | inl found ↦ elim (Bool-cases (ltb_ℤ (pos max_initial_window_size) (w +ℤ pos n))) [
    | inl over ↦ rw (found, over) tt
    | inr fits ↦
        let high : (w +ℤ pos n) ≤ℤ pos max_initial_window_size = ground (arith, fits) in
        rw (found, fits) (((omega (int_laws, h.0), high), h.1), refl)
  ]
  | inr other ↦
      rw other (after_window-Credits w stream _ h.0 (credit_stream-Credits ids stream sid n h.1))
]

after_credit-Moves :
    (f : FlowControl) (o : CreditOutcome)
    → IsSound f
    → Credits f.stream o
    → Moves f (after_credit f o).0 0 0
unfolding after_credit
after_credit-Moves f stale s h = Moves-refl f s
after_credit-Moves f overflow s h = Moves-refl f s
after_credit-Moves f (credited stream) s h = restream f stream s h.0 h.1

pub add_stream-Moves :
    (f : FlowControl) (sid n : ℕ) → IsSound f → Moves f (add_stream f sid (pos n)).0 0 0
unfolding add_stream
add_stream-Moves f sid n s =
    after_credit-Moves f _ s (credit_stream-Credits f.stream_ids f.stream sid n s.stream_bounds)

adjustable-bounds :
    (stream : List ℤ) (delta : ℤ)
    → adjustable stream delta ≡ true
    → All InInt32 (map (λ w. w +ℤ delta) stream)
unfolding adjustable
adjustable-bounds [] delta h = tt
adjustable-bounds (w ∷ stream) delta h =
    elim (Bool-cases (ltb_ℤ (pos max_initial_window_size) (w +ℤ delta))) [
      | inl over ↦ cc (rw over at h)
      | inr fits ↦ elim (Bool-cases (ltb_ℤ (w +ℤ delta) min_int32)) [
        | inl under ↦ cc (rw (fits, under) at h)
        | inr above ↦ (
          (ground (arith, above), ground (arith, fits)),
          adjustable-bounds stream delta (rw (fits, above) at h),
        )
      ]
    ]

pub apply_init_delta-Moves :
    (f : FlowControl) (delta : ℤ) → IsSound f → Moves f (apply_init_delta f delta).0 0 0
unfolding apply_init_delta
apply_init_delta-Moves f delta s = elim (Bool-cases (eqb_ℤ delta (pos 0))) [
  | inl same ↦ rw same (Moves-refl f s)
  | inr differ ↦ elim (Bool-cases (adjustable f.stream delta)) [
    | inl fits ↦
        rw (differ, fits)
          (restream f _ s (adjustable-bounds f.stream delta fits) (length-map _ f.stream))
    | inr out ↦ rw (differ, out) (Moves-refl f s)
  ]
]

-- Credit for the connection is added in full, or refused with an error.
pub add_connection_send_credit-Moves :
    (f : FlowControl) (n : ℕ)
    → IsSound f
    → Moves f
        (add_connection_send_credit f (pos n)).0
        0
        (if (add_connection_send_credit f (pos n)).1 then n else 0)
unfolding add_connection_send_credit
add_connection_send_credit-Moves f n s =
    elim (Bool-cases (ltb_ℤ (pos max_initial_window_size) (f.conn_window +ℤ pos n))) [
      | inl over ↦ rw over (Moves-refl f s)
      | inr fits ↦
          let low : pos 0 ≤ℤ (f.conn_window +ℤ pos n) = omega (int_laws, s.conn_bounds) in
          let high : (f.conn_window +ℤ pos n) ≤ℤ pos max_initial_window_size =
            ground (arith, fits) in
          rw fits (record {
            sound = record {
              conn_bounds = (low, high);
              stream_bounds = s.stream_bounds;
              same_length = s.same_length;
            };
            same_ids = refl;
            balance = omega (
              int_laws,
              neg_part-nonneg f.conn_window s.conn_bounds.0,
              neg_part-nonneg (f.conn_window +ℤ pos n) low,
            );
          })
    ]
