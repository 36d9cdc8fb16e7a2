-- ===== src/Curlblocks/Segments/Examples.antt =====
-- The theorems on segments (internal/curlblocks/segment.go) at two blocks, one of them empty.
use tturl.Common.{◌≡◌, refl, List, [], ◌∷◌}
use tturl.Curlblocks.Segments.{Token, block_separator, split_segments, is_separator}
use tturl.Curlblocks.Segments.Joining.{IsPlain, join_segments, split_segments-join}

-- "-s" and "u"
abbrev silent : Token
silent = 45 ∷ 115 ∷ []

abbrev url : Token
url = 117 ∷ []

abbrev arguments : List Token
arguments = silent ∷ block_separator ∷ block_separator ∷ url ∷ []

split_arguments : split_segments arguments ≡ (silent ∷ [], [] ∷ (url ∷ []) ∷ [])
unfolding split_segments
split_arguments = refl

silent-IsPlain : IsPlain silent
unfolding is_separator
silent-IsPlain = refl

url-IsPlain : IsPlain url
unfolding is_separator
url-IsPlain = refl

split_segments-join_example :
    split_segments (join_segments (silent ∷ [], [] ∷ (url ∷ []) ∷ []))
    ≡ (silent ∷ [], [] ∷ (url ∷ []) ∷ [])
split_segments-join_example =
    split_segments-join (silent ∷ []) ([] ∷ (url ∷ []) ∷ []) (silent-IsPlain, tt)
      (tt, ((url-IsPlain, tt), tt))
