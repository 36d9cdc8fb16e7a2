-- ===== src/Tth2/Body/Tails.antt =====
-- `tailReleaseNeeds` asks for no more than one record, which is what `reserve` relies on.
use tturl.Common.{ℕ, ◌+◌, ◌-◌, ◌≤◌, ◌≡◌, List, [], ◌∷◌}
use tturl.Common.Int.{ℤ, pos, pos_part}
use tturl.Tth2.Flow.Reserve.{demand}

-- The bytes of each body from its pivot on.
abbrev pub AreTails : List ℕ → List ℤ → List ℤ → Type 0
AreTails (len ∷ bodies) (pivot ∷ pivots) (need ∷ needs) =
    (need ≡ pos (len - pos_part pivot)) × AreTails bodies pivots needs
AreTails [] [] [] = Unit
AreTails _ _ _ = ⊥

record Tails (bodies : List ℕ) (pivots needs : List ℤ) (before after : ℕ) : Type 0 where
  tails : AreTails bodies pivots needs
  budget : before + demand needs ≤ after
