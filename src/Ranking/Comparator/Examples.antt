-- ===== src/Ranking/Comparator/Examples.antt =====
-- The theorems on comparisons (internal/ranking/comparator.go) at a few items.
use tturl.Common.{◌≡◌, ◌↔◌, refl, some, none, true, false, [], ◌∷◌}
use tturl.Common.Int.{pos, negsuc}
use tturl.Ranking.Comparator.{
  Profile, control, validate_arrangement, is_rank_permutation, duplicate_item, not_supplied,
  no_candidate,
}
use tturl.Ranking.Comparator.Ranks.{IsPermutation, is_rank_permutation_iff}
use tturl.Ranking.Comparator.Arrangements.{IsComparable, validate_arrangement_iff}

third_positive : control 1 (pos 3) ≡ some (negsuc 49)
unfolding control
third_positive = refl

accepted : is_rank_permutation (pos 2 ∷ pos 0 ∷ pos 1 ∷ []) 3 ≡ true
unfolding is_rank_permutation
accepted = refl

tied : is_rank_permutation (pos 1 ∷ pos 0 ∷ pos 1 ∷ []) 3 ≡ false
unfolding is_rank_permutation
tied = refl

is_rank_permutation_iff_example :
    (is_rank_permutation (pos 2 ∷ pos 0 ∷ pos 1 ∷ []) 3 ≡ true)
    ↔ IsPermutation 3 (pos 2 ∷ pos 0 ∷ pos 1 ∷ [])
is_rank_permutation_iff_example = is_rank_permutation_iff (pos 2 ∷ pos 0 ∷ pos 1 ∷ []) 3

-- Two baselines and any number of positives.
abbrev profile : Profile
profile = record {
  max_width = 4;
  controls =
      (0, record { bound = 2; unbounded = false })
      ∷ (1, record { bound = 0; unbounded = true })
      ∷ [];
}

third_baseline : validate_arrangement profile (pos 7 ∷ negsuc 32 ∷ []) ≡ some not_supplied
unfolding validate_arrangement
third_baseline = refl

controls_only : validate_arrangement profile (negsuc 0 ∷ negsuc 49 ∷ []) ≡ some no_candidate
unfolding validate_arrangement
controls_only = refl

repeated : validate_arrangement profile (pos 7 ∷ pos 8 ∷ pos 7 ∷ []) ≡ some duplicate_item
unfolding validate_arrangement
repeated = refl

validate_arrangement_iff_example :
    (validate_arrangement profile (pos 7 ∷ negsuc 16 ∷ []) ≡ none)
    ↔ IsComparable profile (pos 7 ∷ negsuc 16 ∷ [])
validate_arrangement_iff_example = validate_arrangement_iff profile (pos 7 ∷ negsuc 16 ∷ [])
