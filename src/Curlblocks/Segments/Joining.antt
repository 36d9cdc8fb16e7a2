-- ===== src/Curlblocks/Segments/Joining.antt =====
-- Splitting into segments loses nothing: it is the inverse of joining them by separators.
use tturl.Common.{
  ℕ, zero, suc, ◌≤◌, ◌≡◌, refl, sym, ap, ◌∙◌, inl, inr, true, false, List, [], ◌∷◌, ◌++◌, length,
  All, arith, ◌==◌, ==_iff, Bool-cases, length-append,
}
use tturl.Curlblocks.Segments.{
  Token, block_separator, same_token, is_separator, take_segment, take_blocks, split_segments,
}

abbrev pub IsPlain : Token → Type 0
IsPlain t = is_separator t ≡ false

-- The arguments of blocks, each with its separator.
abbrev pub join_blocks : List (List Token) → List Token
join_blocks [] = []
join_blocks (block ∷ blocks) = block_separator ∷ block ++ join_blocks blocks

abbrev pub join_segments : List Token × List (List Token) → List Token
join_segments r = r.0 ++ join_blocks r.1

same_token-eq : (xs ys : Token) → same_token xs ys ≡ true → xs ≡ ys
same_token-eq [] [] h = refl
same_token-eq [] (y ∷ ys) h = cc h
same_token-eq (x ∷ xs) [] h = cc h
same_token-eq (x ∷ xs) (y ∷ ys) h = elim (Bool-cases (x == y)) [
  | inl same ↦
      let e : x ≡ y = (==_iff x y).0 same in
      let rest = same_token-eq xs ys (rw same at h) in cc (e, rest)
  | inr differ ↦ cc (rw differ at h)
]

separator_refl : is_separator block_separator ≡ true
unfolding is_separator
separator_refl = refl

-- What is left of the arguments: nothing, or a separator first.
abbrev StartsBlock : List Token → Type 0
StartsBlock [] = Unit
StartsBlock (t ∷ rest) = is_separator t ≡ true

record TakesSegment (args segment rest : List Token) : Type 0 where
  joins : segment ++ rest ≡ args
  plain : All IsPlain segment
  starts : StartsBlock rest
  shorter : length rest ≤ length args

take_segment_lem :
    (args : List Token) → TakesSegment args (take_segment args).0 (take_segment args).1
unfolding take_segment
take_segment_lem [] = record { joins = refl; plain = tt; starts = tt; shorter = omega arith }
take_segment_lem (t ∷ args) =
    let rest = take_segment_lem args in
    elim (Bool-cases (is_separator t)) [
      | inl separates ↦
          rw separates
            (record { joins = refl; plain = tt; starts = separates; shorter = omega arith })
      | inr plain ↦ rw plain (record {
        joins = ap (◌∷◌ t) rest.joins;
        plain = (plain, rest.plain);
        starts = rest.starts;
        shorter = omega (arith, rest.shorter);
      })
    ]

take_blocks-joins :
    (fuel : ℕ) (args : List Token)
    → length args ≤ fuel
    → StartsBlock args
    → (join_blocks (take_blocks fuel args) ≡ args) × All (All IsPlain) (take_blocks fuel args)
unfolding take_blocks is_separator
take_blocks-joins zero [] le h = (refl, tt)
take_blocks-joins zero (t ∷ args) le h = absurd (omega arith)
take_blocks-joins (suc fuel) [] le h = (refl, tt)
take_blocks-joins (suc fuel) (t ∷ args) le h =
    let s = take_segment_lem args in
    let (joined, plain) =
      take_blocks-joins fuel (take_segment args).1 (omega (arith, s.shorter)) s.starts in
    let same : t ≡ block_separator = same_token-eq t block_separator h in
    (rw (joined, s.joins) (ap (λ x. x ∷ args) (sym same)), (s.plain, plain))

-- Joining the segments of some arguments gives the arguments back, and no segment holds a
-- separator.
pub split_segments-joins :
    (args : List Token)
    → (join_segments (split_segments args) ≡ args)
      × All IsPlain (split_segments args).0
      × All (All IsPlain) (split_segments args).1
unfolding split_segments
split_segments-joins args =
    let s = take_segment_lem args in
    let (joined, plain) =
      take_blocks-joins (length (take_segment args).1) (take_segment args).1 (omega arith)
        s.starts in
    (ap (λ l. (take_segment args).0 ++ l) joined ∙ s.joins, s.plain, plain)

take_segment-plain :
    (segment rest : List Token)
    → All IsPlain segment
    → StartsBlock rest
    → take_segment (segment ++ rest) ≡ (segment, rest)
unfolding take_segment
take_segment-plain [] [] h k = refl
take_segment-plain [] (t ∷ rest) h k = rw k refl
take_segment-plain (t ∷ segment) rest h k = rw (h.0, take_segment-plain segment rest h.1 k) refl

join_blocks-starts : (blocks : List (List Token)) → StartsBlock (join_blocks blocks)
join_blocks-starts [] = tt
join_blocks-starts (block ∷ blocks) = separator_refl

take_blocks-plain :
    (fuel : ℕ) (blocks : List (List Token))
    → length (join_blocks blocks) ≤ fuel
    → All (All IsPlain) blocks
    → take_blocks fuel (join_blocks blocks) ≡ blocks
unfolding take_blocks
take_blocks-plain zero [] le h = refl
take_blocks-plain zero (block ∷ blocks) le h = absurd (omega arith)
take_blocks-plain (suc fuel) [] le h = refl
take_blocks-plain (suc fuel) (block ∷ blocks) le h =
    let split = take_segment-plain block (join_blocks blocks) h.0 (join_blocks-starts blocks) in
    let room : length (join_blocks blocks) ≤ fuel =
      omega (arith, length-append block (join_blocks blocks)) in
    rw (split, take_blocks-plain fuel blocks room h.1) refl

-- Splitting the arguments that a preamble and some blocks join to gives them back, empty blocks
-- included, if no token of theirs is a separator.
pub split_segments-join :
    (preamble : List Token) (blocks : List (List Token))
    → All IsPlain preamble
    → All (All IsPlain) blocks
    → split_segments (join_segments (preamble, blocks)) ≡ (preamble, blocks)
unfolding split_segments
split_segments-join preamble blocks h k =
    let split = take_segment-plain preamble (join_blocks blocks) h (join_blocks-starts blocks) in
    rw (split, take_blocks-plain (length (join_blocks blocks)) blocks (omega arith) k) refl
