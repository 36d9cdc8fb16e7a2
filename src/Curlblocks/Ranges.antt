-- ===== src/Curlblocks/Ranges.antt =====
-- internal/curlblocks/varysource.go: numeric and alphabetic ranges of a --vary source. A string is the
-- list of its bytes; an error is `none`. `ParseInt` and `FormatInt` of the standard library are
-- written out for unsigned text; an `int64` is a number that wraps around.
pub mod Counting
pub mod Reading
mod Examples
use tturl.Common.Int.{ℤ, pos, negsuc, ltb_ℤ}
use tturl.Common.{
  ℕ, zero, suc, ◌+◌, ◌-◌, ◌*◌, ◌/◌, ◌%◌, ◌^◌, ◌≤◌, max, Bool, true, false, not, ◌&&◌, ◌||◌, Option,
  none, some, List, [], ◌∷◌, ◌++◌, map, upto, length, replicate, ltb, leb, ◌==◌, if◌then◌else◌,
  ◌>>=◌,
}

abbrev pub Bytes : Type 0
Bytes = List ℕ

abbrev pub max_int64 : ℕ
max_int64 = 2 ^ 63 - 1

-- The value of a digit, of which a letter counts from ten.
abbrev pub digit_value : ℕ → Option ℕ
digit_value c =
    if leb 48 c && leb c 57
    then some (c - 48)
    else if leb 97 c && leb c 122
    then some (c - 87)
    else if leb 65 c && leb c 90
    then some (c - 55)
    else none

abbrev pub add_digit : ℕ → Option ℕ → Option ℕ → Option ℕ
add_digit base (some n) (some d) = if ltb d base then some (n * base + d) else none
add_digit base _ _ = none

-- The digits of `ParseInt`, from the number that is read so far.
unfoldable pub parse_digits : ℕ → Option ℕ → Bytes → Option ℕ
parse_digits base n [] = n
parse_digits base n (c ∷ cs) = parse_digits base (add_digit base n (digit_value c)) cs

abbrev pub within_int64 : Option ℕ → Option ℕ
within_int64 none = none
within_int64 (some n) = if leb n max_int64 then some n else none

unfoldable pub parse_int : ℕ → Bytes → Option ℕ
unfolding parse_digits
parse_int base [] = none
parse_int base (c ∷ cs) = within_int64 (parse_digits base (some 0) (c ∷ cs))

unfoldable pub split_hex : Bytes → Bool × Bytes
split_hex (z ∷ x ∷ d ∷ ds) =
    if (z == 48) && ((x == 120) || (x == 88)) then (true, d ∷ ds) else (false, z ∷ x ∷ d ∷ ds)
split_hex s = (false, s)

unfoldable pub has_leading_zero : Bytes → Bool
has_leading_zero (z ∷ d ∷ ds) = z == 48
has_leading_zero _ = false

abbrev pub any_between : ℕ → ℕ → Bytes → Bool
any_between low high [] = false
any_between low high (c ∷ cs) = if leb low c && leb c high then true else any_between low high cs

-- The case of a hexadecimal range; `none` if both cases occur.
unfoldable pub hex_case : Bytes → Bytes → Option Bool
hex_case lo hi =
    let has_upper = any_between 65 70 lo || any_between 65 70 hi in
    let has_lower = any_between 97 102 lo || any_between 97 102 hi in
    if has_upper && has_lower then none else some has_upper

-- The `int64` of a number below 2^64.
unfoldable pub to_int64 : ℕ → ℤ
to_int64 n = if leb n max_int64 then pos n else negsuc (2 ^ 64 - 1 - n)

pub record RangeSpec : Type 0 where
  pub alpha : Bool
  pub step : ℕ
  pub count : ℤ
  pub lo : ℕ
  pub hex : Bool
  pub upper : Bool
  pub width : ℕ
  pub lo_ch : ℕ
  pub hi_ch : ℕ

unfoldable pub has_sign : Bytes → Bool
has_sign [] = false
has_sign (c ∷ cs) = (c == 43) || (c == 45)

-- The range of two endpoints that were read, and the test that its count is an `int`.
unfoldable pub numeric_range : ℕ → ℕ → ℕ → Bool → Bool → ℕ → Option RangeSpec
unfolding to_int64
numeric_range lo hi step hex upper width =
    let count = to_int64 ((hi - lo) / step + 1) in
    if ltb hi lo
    then none
    else if ltb_ℤ (pos max_int64) count
    then none
    else some (record {
      alpha = false;
      step = step;
      count = count;
      lo = lo;
      hex = hex;
      upper = upper;
      width = width;
      lo_ch = 0;
      hi_ch = 0;
    })

unfoldable pub parse_numeric_range : Bytes → Bytes → ℕ → Option RangeSpec
unfolding split_hex has_leading_zero hex_case has_sign parse_int numeric_range
parse_numeric_range lo_str hi_str step =
    let l = split_hex lo_str in
    let h = split_hex hi_str in
    let base = (if l.0 then 16 else 10) in
    let width =
      (if has_leading_zero l.1 || has_leading_zero h.1 then max (length l.1) (length h.1) else 0) in
    let ranged =
      (parse_int base l.1 >>= λ lo. parse_int base h.1 >>= λ hi.
      (if l.0 then hex_case l.1 h.1 else some false) >>= λ upper.
      numeric_range lo hi step l.0 upper width) in
    if not ((l.0 && h.0) || (not l.0 && not h.0))
    then none
    else if has_sign l.1 || has_sign h.1
    then none
    else ranged

unfoldable pub same_alpha_case : ℕ → ℕ → Bool
same_alpha_case a b = (leb 97 a && leb 97 b) || (not (leb 97 a) && not (leb 97 b))

unfoldable pub parse_alpha_range : ℕ → ℕ → ℕ → Option RangeSpec
unfolding same_alpha_case
parse_alpha_range lo hi step =
    if not (same_alpha_case lo hi)
    then none
    else if ltb hi lo
    then none
    else some (record {
      alpha = true;
      step = step;
      count = pos ((hi - lo) / step + 1);
      lo = 0;
      hex = false;
      upper = false;
      width = 0;
      lo_ch = lo;
      hi_ch = hi;
    })

-- The numbers, and the letters, that a range stands for; `make` panics on a count below 0.
abbrev pub numbers_to : RangeSpec → ℤ → Option (List ℕ)
numbers_to r (negsuc n) = none
numbers_to r (pos n) = some (map (λ i. (r.lo + i * r.step) % 2 ^ 64) (upto 0 n))

unfoldable pub numbers : RangeSpec → Option (List ℕ)
numbers r = numbers_to r r.count

abbrev pub alpha_to : RangeSpec → ℤ → Option (List ℕ)
alpha_to r (negsuc n) = none
alpha_to r (pos n) = some (map (λ i. (r.lo_ch + i * r.step) % 2 ^ 64) (upto 0 n))

unfoldable pub alpha_values : RangeSpec → Option (List ℕ)
alpha_values r = alpha_to r r.count

abbrev pub digit_of : Bool → ℕ → ℕ
digit_of upper d = if ltb d 10 then 48 + d else if upper then 55 + d else 87 + d

-- `FormatInt`, with fuel for the digits of the number.
unfoldable pub digits : ℕ → ℕ → Bool → ℕ → Bytes
digits zero base upper n = digit_of upper n ∷ []
digits (suc fuel) base upper n =
    let front = digits fuel base upper (n / base) in
    if ltb n base then digit_of upper n ∷ [] else front ++ (digit_of upper (n % base) ∷ [])

unfoldable pub format : RangeSpec → ℕ → Bytes
unfolding digits
format r i =
    let s = digits 64 (if r.hex then 16 else 10) (r.hex && r.upper) i in
    if ltb (length s) r.width then replicate (r.width - length s) 48 ++ s else s

unfoldable pub values : RangeSpec → Option (List Bytes)
unfolding numbers alpha_values format
values r =
    if r.alpha
    then (alpha_values r >>= λ cs. some (map (λ c. c ∷ []) cs))
    else (numbers r >>= λ is. some (map (λ i. format r i) is))
