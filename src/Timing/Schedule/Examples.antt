-- ===== src/Timing/Schedule/Examples.antt =====
-- A campaign of three units, and a rotation of four requests.
use tturl.Common.{ℕ, ◌≡◌, refl, arith, none, some, List, [], ◌∷◌, Option}
use tturl.Timing.Schedule.{CampaignQueue, take_units}
use tturl.Timing.Schedule.Units.{take_units_lem}

abbrev three_units : CampaignQueue
three_units = record { next_unit = 0; limit = 3 }

abbrev served_units : List (Option ℕ)
served_units = some 0 ∷ some 1 ∷ some 2 ∷ none ∷ none ∷ []

three_units_taken : take_units 5 three_units ≡ served_units
unfolding take_units
three_units_taken = refl

take_units_lem_example : take_units 5 three_units ≡ served_units
take_units_lem_example = take_units_lem 5 three_units (omega arith)
