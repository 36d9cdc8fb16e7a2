-- ===== src/Ranking/Comparator.antt =====
-- internal/ranking/comparator.go: control IDs, the supply of controls, which arrangements reach the
-- channel and which ranks a solver is handed. An `int` is a signed integer, a map is an association
-- list, a `uint64` is its 64 bits from the lowest on. A panic is `none`.
pub mod Controls
pub mod Words
pub mod Flags
pub mod Ranks
pub mod Arrangements
mod Examples
use tturl.Common.{
  ℕ, zero, suc, ◌+◌, ◌-◌, ◌*◌, ◌/◌, ◌%◌, ◌^◌, ◌≤◌, ◌<◌, ◌≡◌, Bool, true, false, not, ◌&&◌, ◌||◌,
  Option, none, some, List, [], ◌∷◌, map, upto, replicate, length, get_or, set, min, ltb, leb, ◌==◌,
  if◌then◌else◌,
}
use tturl.Common.Int.{ℤ, pos, negsuc, pos_part, ◌≤ℤ◌, leb_ℤ, ltb_ℤ, eqb_ℤ}

abbrev pub max_int : ℕ
max_int = 2 ^ 63 - 1

abbrev pub control_kinds : ℕ  -- `1 << controlKindBits`
control_kinds = 16

pub record ControlSupply : Type 0 where
  pub bound : ℕ
  pub unbounded : Bool

unfoldable pub bounded_controls : ℤ → ControlSupply
bounded_controls n = record { bound = pos_part n; unbounded = false }

unfoldable pub unbounded_controls : ControlSupply
unbounded_controls = record { bound = 0; unbounded = true }

unfoldable pub up_to : ControlSupply → ℤ → ℕ
up_to s want =
    if leb_ℤ want (pos 0)
    then 0
    else if s.unbounded
    then pos_part want
    else min s.bound (pos_part want)

-- The kind's bits are below the index's, so their `|` is a sum.
unfoldable pub control : ℕ → ℤ → Option ℤ
control kind (negsuc n) = none
control kind (pos index) =
    if leb control_kinds kind
    then none
    else if ltb (max_int / control_kinds) index
    then none
    else some (negsuc (index * control_kinds + kind))

unfoldable pub is_control : ℤ → Bool
is_control (pos n) = false
is_control (negsuc n) = true

unfoldable pub is_candidate : ℤ → Bool
is_candidate (pos n) = true
is_candidate (negsuc n) = false

-- `uint(-c - 1)`
unfoldable pub control_word : ℤ → ℕ
control_word (pos n) = 2 ^ 64 - 1 - n
control_word (negsuc n) = n

unfoldable pub control_kind : ℤ → ℕ
unfolding control_word
control_kind c = control_word c % control_kinds

unfoldable pub control_index : ℤ → ℕ
unfolding control_word
control_index c = control_word c / control_kinds

pub record Profile : Type 0 where
  pub max_width : ℕ
  pub controls : List (ℕ × ControlSupply)

unfoldable pub supply_of : List (ℕ × ControlSupply) → ℕ → Option ControlSupply
supply_of [] kind = none
supply_of ((k, s) ∷ controls) kind = if k == kind then some s else supply_of controls kind

pub data Refusal : Type 0 where
  bad_width duplicate_item not_supplied no_candidate : Refusal

abbrev pub seen_item : ℤ → List ℤ → Bool
seen_item item [] = false
seen_item item (s ∷ seen) = if eqb_ℤ s item then true else seen_item item seen

unfoldable pub is_supplied : List (ℕ × ControlSupply) → ℤ → Bool
unfolding supply_of up_to control_kind control_index
is_supplied controls item = elim (supply_of controls (control_kind item)) [
  | none ↦ false
  | some s ↦ not (leb (up_to s (pos (control_index item + 1))) (control_index item))
]

-- The loop of `validateArrangement`; `none` is no refusal.
unfoldable pub check_items : List (ℕ × ControlSupply) → List ℤ → List ℤ → Bool → Option Refusal
unfolding is_candidate is_supplied
check_items controls seen [] has_candidate = if has_candidate then none else some no_candidate
check_items controls seen (item ∷ items) has_candidate =
    let with_candidate = check_items controls (item ∷ seen) items true in
    let with_control = check_items controls (item ∷ seen) items has_candidate in
    if seen_item item seen
    then some duplicate_item
    else if is_candidate item
    then with_candidate
    else if is_supplied controls item
    then with_control
    else some not_supplied

unfoldable pub validate_arrangement : Profile → List ℤ → Option Refusal
unfolding check_items
validate_arrangement p items =
    if ltb (length items) 2 || ltb p.max_width (length items)
    then some bad_width
    else check_items p.controls [] items false

abbrev pub Word : Type 0
Word = List Bool

-- `uint64(1) << r`, for `r` below 64.
unfoldable pub one_shl : ℕ → Word
one_shl r = map (λ i. i == r) (upto 0 64)

unfoldable pub word_and : Word → Word → Word
word_and [] ys = []
word_and (x ∷ xs) [] = []
word_and (x ∷ xs) (y ∷ ys) = (x && y) ∷ word_and xs ys

unfoldable pub word_or : Word → Word → Word
word_or [] ys = []
word_or (x ∷ xs) [] = x ∷ xs
word_or (x ∷ xs) (y ∷ ys) = (x || y) ∷ word_or xs ys

unfoldable pub is_nonzero : Word → Bool
is_nonzero [] = false
is_nonzero (x ∷ xs) = if x then true else is_nonzero xs

-- `r < 0 || r >= n`
abbrev pub out_of_range : ℕ → ℤ → Bool
out_of_range n r = ltb_ℤ r (pos 0) || leb_ℤ (pos n) r

-- The loop for up to 64 ranks.
unfoldable pub fill_mask : ℕ → Word → List ℤ → Bool
unfolding one_shl word_and word_or is_nonzero
fill_mask n seen [] = true
fill_mask n seen (r ∷ ranks) =
    let rest = fill_mask n (word_or seen (one_shl (pos_part r))) ranks in
    if out_of_range n r
    then false
    else if is_nonzero (word_and seen (one_shl (pos_part r)))
    then false
    else rest

-- The loop for more.
unfoldable pub fill_flags : ℕ → List Bool → List ℤ → Bool
fill_flags n seen [] = true
fill_flags n seen (r ∷ ranks) =
    let rest = fill_flags n (set seen (pos_part r) true) ranks in
    if out_of_range n r then false else if get_or seen (pos_part r) false then false else rest

unfoldable pub is_rank_permutation : List ℤ → ℕ → Bool
unfolding fill_mask fill_flags
is_rank_permutation ranks n =
    if not (length ranks == n)
    then false
    else if leb n 64
    then fill_mask n (replicate 64 false) ranks
    else fill_flags n (replicate n false) ranks
