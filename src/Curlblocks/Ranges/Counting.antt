-- ===== src/Curlblocks/Ranges/Counting.antt =====
-- Which values a range stands for, and the count that overflows (internal/curlblocks/varysource.go).
use tturl.Common.{
  ℕ, ◌+◌, ◌-◌, ◌*◌, ◌/◌, ◌%◌, ◌^◌, ◌≤◌, ◌<◌, ◌≡◌, ◌⊎◌, refl, ap, ◌∙◌, subst, inl, inr, Bool, false,
  Option, none, some, List, map, upto, length, get_elem?, length-map, length-upto, get_elem?-map,
  get_elem?-upto, arith, ltb, leb, Bool-cases,
}
use native.Mathlib.Nat.{
  mod-eq_of_lt, div-add-mod, mod-lt, mul_comm, add-mul, mul-le-mul_right, div-le_self,
}
use tturl.Common.Int.{ℤ, pos, negsuc, ltb_ℤ}
use tturl.Curlblocks.Ranges.{RangeSpec, to_int64, numeric_range, numbers, max_int64}

-- The numbers from `lo` to `hi` that are steps apart, all of them and no others.
pub record Enumerates (lo hi step : ℕ) (ns : List ℕ) : Type 0 where
  pub at_step : (i : ℕ) → i < length ns → get_elem? ns i ≡ some (lo + i * step)
  pub within : (i : ℕ) → i < length ns → lo + i * step ≤ hi
  pub complete : hi < lo + length ns * step

-- What a numeric range comes to.
pub record Ranges (lo hi step : ℕ) (parsed : Option RangeSpec) : Type 0 where
  pub range : RangeSpec
  pub returns : parsed ≡ some range
  pub enumerates :
      ((ns : List ℕ) × (numbers range ≡ some ns) × Enumerates lo hi step ns)
      ⊎ ((numbers range ≡ none) × (lo ≡ 0) × (hi ≡ max_int64) × (step ≡ 1))

module _ (lo hi step : ℕ) (ascending : lo ≤ hi) (some_step : 1 ≤ step) where
  abbrev span : ℕ
  span = (hi - lo) / step

  parts : span * step + (hi - lo) % step ≡ hi - lo
  parts = rw (mul_comm span step) (div-add-mod (hi - lo) step)

  inside : (i : ℕ) → i < span + 1 → lo + i * step ≤ hi
  inside i lt =
      let le : i * step ≤ span * step = mul-le-mul_right step (omega arith) in
      let p = parts in omega (arith, le, p)

  past : hi < lo + (span + 1) * step
  past =
      let next : (span + 1) * step ≡ span * step + 1 * step = add-mul span 1 step in
      let p = parts in
      let left : (hi - lo) % step < step = mod-lt (hi - lo) some_step in
      omega (arith, next, p, left)

  listed :
      hi ≤ max_int64
      → Enumerates lo hi step (map (λ i. (lo + i * step) % 2 ^ 64) (upto 0 (span + 1)))
  listed small =
      let f : ℕ → ℕ = λ i. (lo + i * step) % 2 ^ 64 in
      let size : length (map f (upto 0 (span + 1))) ≡ span + 1 =
        length-map f (upto 0 (span + 1)) ∙ length-upto 0 (span + 1) in
      record {
        at_step = λ i lt.
            let below : i < span + 1 = omega (arith, lt, size) in
            let fits : lo + i * step < 2 ^ 64 = let le = inside i below in omega (arith, le) in
            let zero_add : 0 + i ≡ i = omega arith in
            let at_i =
              subst (λ k. get_elem? (upto 0 (span + 1)) i ≡ some k) zero_add
                (get_elem?-upto 0 (span + 1) i below) in
            get_elem?-map f (upto 0 (span + 1)) i at_i ∙ ap some (mod-eq_of_lt fits);
        within = λ i lt. inside i (omega (arith, lt, size));
        complete = rw size past;
      }

  -- The count is an `int` but for one range.
  count_overflows : hi ≤ max_int64 → max_int64 < span + 1 → (lo ≡ 0) × (hi ≡ max_int64) × (step ≡ 1)
  count_overflows small large =
      let most : max_int64 * step ≤ span * step = mul-le-mul_right step (omega arith) in
      let p = parts in (omega (arith, most, p), omega (arith, most, p), omega (arith, most, p))

  abbrev range_of : ℤ → Bool → Bool → ℕ → RangeSpec
  range_of count hex upper width = record {
    alpha = false;
    step = step;
    count = count;
    lo = lo;
    hex = hex;
    upper = upper;
    width = width;
    lo_ch = 0;
    hi_ch = 0;
  }

  -- With a step of at least one, an ascending range of non-negative `int64` numbers is accepted and
  -- stands for the numbers from its first to its last that are its step apart, all of them and no
  -- others; only the range of all those numbers may instead have a count that wraps around, which
  -- the test of the count does not see, and whose listing panics.
  pub numeric_range-Ranges :
      hi ≤ max_int64
      → (hex upper : Bool) (width : ℕ)
      → Ranges lo hi step (numeric_range lo hi step hex upper width)
  unfolding numeric_range numbers to_int64
  numeric_range-Ranges small hex upper width =
      let bound : span ≤ hi - lo = div-le_self (hi - lo) step in
      let fine : ltb hi lo ≡ false = ground arith in
      elim (Bool-cases (leb (span + 1) max_int64)) [
        | inl few ↦
            let counted : ltb_ℤ (pos max_int64) (pos (span + 1)) ≡ false = ground (arith, few) in
            record {
              range = range_of (pos (span + 1)) hex upper width;
              returns = rw (fine, few, counted) refl;
              enumerates = inl (_, refl, listed small);
            }
        | inr many ↦
            let unseen : ltb_ℤ (pos max_int64) (negsuc (2 ^ 64 - 1 - (span + 1))) ≡ false =
              ground arith in
            let o = count_overflows small (ground (arith, many)) in
            record {
              range = range_of (negsuc (2 ^ 64 - 1 - (span + 1))) hex upper width;
              returns = rw (fine, many, unseen) refl;
              enumerates = inr (refl, o.0, o.1, o.2);
            }
      ]
