-- ===== src/Curlblocks/Ranges/Examples.antt =====
-- Ranges of a --vary source at concrete text.
use tturl.Common.{true, ◌≡◌, refl, arith, false, none, some, [], ◌∷◌, ◌>>=◌}
use tturl.Curlblocks.Ranges.{
  RangeSpec, format, numeric_range, parse_numeric_range, parse_alpha_range, values,
}
use tturl.Common.Int.{pos}
use tturl.Curlblocks.Ranges.Counting.{Ranges, numeric_range-Ranges}

-- 08-12:2, whose values are padded.
eight_to_twelve :
    (parse_numeric_range (48 ∷ 56 ∷ []) (49 ∷ 50 ∷ []) 2 >>= values)
    ≡ some ((48 ∷ 56 ∷ []) ∷ (49 ∷ 48 ∷ []) ∷ (49 ∷ 50 ∷ []) ∷ [])
unfolding parse_numeric_range values
eight_to_twelve = refl

-- 0xe-0x10
hex_range :
    (parse_numeric_range (48 ∷ 120 ∷ 101 ∷ []) (48 ∷ 120 ∷ 49 ∷ 48 ∷ []) 1 >>= values)
    ≡ some ((101 ∷ []) ∷ (102 ∷ []) ∷ (49 ∷ 48 ∷ []) ∷ [])
unfolding parse_numeric_range values
hex_range = refl

-- a-e:2
letters : (parse_alpha_range 97 101 2 >>= values) ≡ some ((97 ∷ []) ∷ (99 ∷ []) ∷ (101 ∷ []) ∷ [])
unfolding parse_alpha_range values
letters = refl

-- 0-9223372036854775807
all_of_them :
    (parse_numeric_range
        (48 ∷ [])
        (57 ∷ 50 ∷ 50 ∷ 51 ∷ 51 ∷ 55 ∷ 50 ∷ 48 ∷ 51 ∷ 54 ∷ 56 ∷ 53 ∷ 52 ∷ 55 ∷ 55 ∷ 53 ∷ 56 ∷ 48
          ∷ 55 ∷ [])
        1
      >>= values)
    ≡ none
unfolding parse_numeric_range values
all_of_them = refl

numeric_range-Ranges_example : Ranges 3 10 2 (numeric_range 3 10 2 false false 0)
numeric_range-Ranges_example =
    numeric_range-Ranges 3 10 2 (omega arith) (omega arith) (omega arith) false false 0

-- Hexadecimal, upper case, four digits.
abbrev upper_hex : RangeSpec
upper_hex = record {
  alpha = false;
  step = 1;
  count = pos 256;
  lo = 0;
  hex = true;
  upper = true;
  width = 4;
  lo_ch = 0;
  hi_ch = 0;
}

upper_hex-format : format upper_hex 171 ≡ 48 ∷ 48 ∷ 65 ∷ 66 ∷ []
unfolding format
upper_hex-format = refl
