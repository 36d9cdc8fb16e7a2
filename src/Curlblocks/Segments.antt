-- ===== src/Curlblocks/Segments.antt =====
-- internal/curlblocks/segment.go: `splitSegments`, which cuts the arguments into the preamble and the
-- blocks. A token is its bytes.
pub mod Joining
mod Examples
use tturl.Common.{
  ℕ, zero, suc, ◌≡◌, Bool, true, false, ◌&&◌, List, [], ◌∷◌, ◌++◌, length, ◌==◌, if◌then◌else◌,
}

abbrev pub Token : Type 0
Token = List ℕ

-- "--block"
abbrev pub block_separator : Token
block_separator = 45 ∷ 45 ∷ 98 ∷ 108 ∷ 111 ∷ 99 ∷ 107 ∷ []

abbrev pub same_token : Token → Token → Bool
same_token [] [] = true
same_token (x ∷ xs) (y ∷ ys) = if x == y then same_token xs ys else false
same_token _ _ = false

unfoldable pub is_separator : Token → Bool
is_separator t = same_token t block_separator

-- The loop over one segment: its tokens, and what is left from the separator on.
unfoldable pub take_segment : List Token → List Token × List Token
unfolding is_separator
take_segment [] = ([], [])
take_segment (t ∷ args) =
    let (segment, rest) = take_segment args in
    if is_separator t then ([], t ∷ args) else (t ∷ segment, rest)

-- The loop over the blocks. Each round consumes a separator, so the number of arguments is fuel enough.
unfoldable pub take_blocks : ℕ → List Token → List (List Token)
unfolding take_segment
take_blocks zero args = []
take_blocks (suc fuel) [] = []
take_blocks (suc fuel) (separator ∷ args) =
    let (block, rest) = take_segment args in block ∷ take_blocks fuel rest

unfoldable pub split_segments : List Token → List Token × List (List Token)
unfolding take_segment take_blocks
split_segments args =
    let (preamble, rest) = take_segment args in (preamble, take_blocks (length rest) rest)
