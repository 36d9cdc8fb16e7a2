-- ===== src/Tth2/Body/Examples.antt =====
-- The theorems on response bodies and body tails (tth2/conn.go) at a few payloads.
use tturl.Common.{ℕ, ◌≡◌, refl, some, List, [], ◌∷◌, ◌++◌, length, append_assoc, arith}
use tturl.Common.Int.{pos, ◌-ℤ◌}
use tturl.Common.{concat}
use tturl.Tth2.Body.{accept_all, verdict, overflows}
use tturl.Tth2.Body.Limits.{limited, kept, exceeds}
use tturl.Tth2.Body.Accepting.{accept_all-body}

-- A digest that remembers what it was given.
abbrev note : List ℕ → List ℕ → List ℕ
note d more = d ++ more

abbrev payloads : List (List ℕ)
payloads = (1 ∷ 2 ∷ []) ∷ (3 ∷ 4 ∷ 5 ∷ []) ∷ []

three_kept :
    accept_all
      (List ℕ)
      note
      (record { digest = []; captured = []; bytes_accepted = 0 })
      payloads
      (pos 4)
      (pos 3)
    ≡ some (
      record { digest = 1 ∷ 2 ∷ 3 ∷ 4 ∷ []; captured = 1 ∷ 2 ∷ 3 ∷ []; bytes_accepted = 4 },
      overflows,
    )
unfolding accept_all ◌-ℤ◌
three_kept = refl

accept_all-body_example :
    accept_all
      (List ℕ)
      note
      (record { digest = []; captured = []; bytes_accepted = 0 })
      payloads
      (pos 4)
      (pos 3)
    ≡ some (
      record {
        digest = [] ++ limited (pos 4) (concat payloads);
        captured = kept (pos 3) (limited (pos 4) (concat payloads));
        bytes_accepted = length (limited (pos 4) (concat payloads));
      },
      verdict (List ℕ) note (exceeds (pos 4) (concat payloads)),
    )
accept_all-body_example =
    accept_all-body [] (pos 4) (pos 3) payloads (append_assoc []) refl (omega arith)
