-- ===== src/Tth2/Streams/Settings.antt =====
-- What a SETTINGS frame of the peer changes.
use tturl.Common.{
  ℕ, ◌≤◌, ◌≡◌, inl, inr, Option, none, some, List, [], ◌∷◌, arith, Bool-cases, Option-cases, ltb,
  ◌||◌,
}
use tturl.Common.Int.{ℤ, pos, negsuc, ◌+ℤ◌, ◌-ℤ◌, eq_of_parts, int_laws, ◌≤ℤ◌}
use tturl.Tth2.Flow.{
  max_data_frame_payload, max_initial_window_size, max_max_frame_size, wrap_int32, min_int32,
}
use tturl.Tth2.Streams.{
  Setting, initial_window_size, max_frame_size, max_concurrent_streams, other_setting, PeerSettings,
  read_setting, read_settings, apply_settings_values,
}

-- The ranges of RFC 9113, section 6.5.2.
abbrev pub IsValid : PeerSettings → Type 0
IsValid p =
    (p.init_stream_window ≤ max_initial_window_size)
    × (max_data_frame_payload ≤ p.max_frame)
    × (p.max_frame ≤ max_max_frame_size)

abbrev OnSome : (PeerSettings → Type 0) → Option PeerSettings → Type 0
OnSome P none = Unit
OnSome P (some p) = P p

read_setting-IsValid :
    (p : PeerSettings) (s : Setting) → IsValid p → OnSome IsValid (read_setting p s)
unfolding read_setting
read_setting-IsValid p (initial_window_size val) h =
    elim (Bool-cases (ltb max_initial_window_size val)) [
      | inl over ↦ rw over tt
      | inr fits ↦ rw fits (ground (arith, fits), h.1, h.2)
    ]
read_setting-IsValid p (max_frame_size val) h =
    elim (Bool-cases (ltb val max_data_frame_payload || ltb max_max_frame_size val)) [
      | inl out ↦ rw out tt
      | inr fits ↦ rw fits (h.0, ground (arith, fits), ground (arith, fits))
    ]
read_setting-IsValid p (max_concurrent_streams val) h = h
read_setting-IsValid p other_setting h = h

read_settings-IsValid :
    (p : PeerSettings) (settings : List Setting)
    → IsValid p
    → OnSome IsValid (read_settings p settings)
unfolding read_settings
read_settings-IsValid p [] h = h
read_settings-IsValid p (s ∷ settings) h =
    let here = read_setting-IsValid p s h in
    elim (Option-cases (read_setting p s)) [
      | inl failed ↦ rw failed tt
      | inr (q, e) ↦ rw e (read_settings-IsValid q settings (rw e at here))
    ]

wrap_small : (t : ℕ) → t ≤ max_initial_window_size → wrap_int32 (pos t) ≡ pos t
unfolding wrap_int32
wrap_small t h = ground arith

wrap_in_range : (d : ℤ) → (min_int32 ≤ℤ d) × (d ≤ℤ pos max_initial_window_size) → wrap_int32 d ≡ d
unfolding wrap_int32
wrap_in_range (pos n) h = ground (arith, h)
wrap_in_range (negsuc n) h = ground (arith, h)

-- A frame that is accepted leaves settings in the ranges of the protocol, and its delta is exactly
-- the change of the initial window.
pub apply_settings_values-delta :
    (p q : PeerSettings) (settings : List Setting) (delta : ℤ)
    → IsValid p
    → apply_settings_values p settings ≡ some (q, delta)
    → IsValid q × (pos p.init_stream_window +ℤ delta ≡ pos q.init_stream_window)
unfolding apply_settings_values
apply_settings_values-delta p q settings delta h e =
    let valid = read_settings-IsValid p settings h in
    elim (Option-cases (read_settings p settings)) [
      | inl failed ↦ cc (rw failed at e)
      | inr (r, read) ↦
          let ok : IsValid r = rw read at valid in
          let same : r ≡ q = cc (rw read at e) in
          let exact : delta ≡ pos r.init_stream_window -ℤ pos p.init_stream_window = cc (
            rw
              (
                read,
                wrap_small r.init_stream_window ok.0,
                wrap_small p.init_stream_window h.0,
                wrap_in_range (pos r.init_stream_window -ℤ pos p.init_stream_window)
                    (omega (int_laws, ok.0, h.0), omega (int_laws, ok.0, h.0)),
              )
              at e) in
          rw (← same, exact) (ok, eq_of_parts _ _ (omega int_laws))
    ]
