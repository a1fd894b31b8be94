-- ===== src/Library/MemChan/Float.antt =====
-- The printing of floating-point numbers in `lib/memchan.c`. The type `double` and its operations are
-- the compiler's: a record of them is a parameter.
use cs4411_p.Base.{
  ℕ, zero, suc, ◌+◌, ◌-◌, ◌*◌, ◌%◌, ◌^◌, Bool, true, false, not, ◌&&◌, Option, some, [], ◌∷◌, ◌==◌,
  ltb, leb, if◌then◌else◌, ℤ, pos, negsuc, is_minus_one,
}
use cs4411_p.Base.{◌>>=◌}
use cs4411_p.Library.MemChan.{MemChan, mc_putc, mc_puts, mc_unsigned_long_long}

-- What the code uses of `double`, of `isnan`, `isfinite` and `modf`.
pub record DoubleOps (D : Type 0) : Type 0 where
  pub at_least_0 : D → Bool
  pub above_0 : D → Bool
  pub below_0 : D → Bool
  pub equal_0 : D → Bool
  pub is_nan : D → Bool
  pub is_finite : D → Bool
  pub negated : D → D
  pub int_part : D → D
  pub frac_part : D → D
  pub times_10 : D → D
  pub minus : D → ℕ → D
  pub to_unsigned : D → ℕ
  pub to_unsigned_long_long : D → ℕ

-- The variables of the loop that takes the digits behind the point.
record Decimals (D : Type 0) : Type 0 where
  frac : D
  decimal_digits : ℕ
  leading_zeros : ℕ
  all_nines : Bool

abbrev default_float_precision : ℕ
default_float_precision = 6

-- The number of rounds of a loop up to an `int`.
abbrev pub rounds : ℤ → ℕ
rounds (pos n) = n
rounds (negsuc n) = 0

-- A loop that appends the same character so many times.
unfoldable pub put_many : (ℕ → ℕ) → MemChan → ℕ → ℕ → Option MemChan
put_many junk mc zero c = some mc
put_many junk mc (suc n) c = mc_putc junk mc c >>= λ mc'. put_many junk mc' n c

module _ {D : Type 0} (ops : DoubleOps D) where
  -- A round of that loop.
  decimal_step : Decimals D → Decimals D
  decimal_step st =
      let tenfold = ops.times_10 st.frac in
      let digit = ops.to_unsigned tenfold in
      let decimal_digits = (st.decimal_digits * 10 + digit) % 2 ^ 64 in
      record {
        frac = ops.minus tenfold digit;
        decimal_digits = decimal_digits;
        leading_zeros =
            if decimal_digits == 0 && digit == 0 then st.leading_zeros + 1 else st.leading_zeros;
        all_nines = if not (decimal_digits == 0) && not (digit == 9) then false else st.all_nines;
      }

  decimals : ℕ → Decimals D → Decimals D
  decimals zero st = st
  decimals (suc n) st = decimals n (decimal_step st)

  -- The digits, rounded up where the next one asks for it, and printed.
  put_decimals : (ℕ → ℕ) → MemChan → Bool → ℕ → ℕ → Decimals D → Option MemChan
  put_decimals junk mc caps precision int_value st =
      let up = leb 5 (ops.to_unsigned (ops.times_10 st.frac)) in
      let carry = up && st.all_nines && st.leading_zeros == 0 in
      let whole = if carry then (int_value + 1) % 2 ^ 64 else int_value in
      let digits =
        if carry then 0 else if up then (st.decimal_digits + 1) % 2 ^ 64 else st.decimal_digits in
      let zeros = if up && st.all_nines then st.leading_zeros - 1 else st.leading_zeros in
      mc_unsigned_long_long junk mc whole 10 caps >>= λ mc1. mc_putc junk mc1 b'.' >>= λ mc2.
      put_many junk mc2 zeros b'0' >>= λ mc3.
      (if digits == 0 then some mc3 else mc_unsigned_long_long junk mc3 digits 10 caps) >>= λ mc4.
      put_many junk mc4 (if carry then precision else 0) b'0'

  -- The part behind the sign for a number that is not 0 and not negative. Nothing returns after "inf".
  pub put_magnitude : (ℕ → ℕ) → MemChan → D → ℤ → Bool → Option MemChan
  put_magnitude junk mc value precision caps =
      (if not (ops.is_finite value)
        then mc_puts junk mc (if caps then b'I' ∷ b'N' ∷ b'F' ∷ [] else b'i' ∷ b'n' ∷ b'f' ∷ [])
        else some mc)
      >>= λ mc1.
          let digits =
            if is_minus_one precision then default_float_precision else rounds precision in
          let int_value = ops.to_unsigned_long_long (ops.int_part value) in
          let none_behind : Bool = elim precision [ pos zero ↦ true | _ ↦ false ] in
          if none_behind
          then mc_unsigned_long_long junk mc1 int_value 10 caps
          else put_decimals junk mc1 caps digits int_value (
              decimals digits (record {
                frac = ops.frac_part value;
                decimal_digits = 0;
                leading_zeros = 0;
                all_nines = true;
              }))

  -- `mc_signed_double`
  unfoldable pub mc_signed_double : (ℕ → ℕ) → MemChan → D → ℤ → Bool → Bool → Bool → Option MemChan
  mc_signed_double junk mc value precision caps opt_plus opt_space =
      let sign =
        if opt_plus
        then (if ops.at_least_0 value then mc_putc junk mc b'+' else some mc)
        else if opt_space && ops.above_0 value
        then mc_putc junk mc b' '
        else some mc in
      sign >>= λ mc1.
      if ops.equal_0 value
      then (mc_putc junk mc1 b'0' >>= λ mc2.
          if ltb 0 (rounds precision)
          then (mc_putc junk mc2 b'.' >>= λ mc3. put_many junk mc3 (rounds precision) b'0')
          else some mc2)
      else if ops.is_nan value
      then mc_puts junk mc1 (if caps then b'N' ∷ b'A' ∷ b'N' ∷ [] else b'n' ∷ b'a' ∷ b'n' ∷ [])
      else if ops.below_0 value
      then (mc_putc junk mc1 b'-' >>= λ mc2.
          put_magnitude junk mc2 (ops.negated value) precision caps)
      else put_magnitude junk mc1 value precision caps
