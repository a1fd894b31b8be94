-- ===== src/Library/MemChan/Format.antt =====
-- Formatted printing, `mc_vprintf` of `lib/memchan.c`.
use cs4411_p.Base.{
  ℕ, zero, suc, ◌+◌, ◌-◌, ◌*◌, ◌%◌, ◌^◌, Bool, true, false, not, ◌&&◌, ◌||◌, Option, none, some,
  List, [], ◌∷◌, ◌==◌, ltb, leb, if◌then◌else◌, length, take, drop, ℤ, pos, negsuc, minus_one,
  is_neg, to_int,
}
use cs4411_p.Base.{◌>>=◌}
use cs4411_p.Library.MemChan.{
  MemChan, mc_alloc, mc_put, mc_putc, mc_puts, mc_unsigned_long_long, mc_signed_long_long,
}
use cs4411_p.Library.MemChan.Float.{DoubleOps, mc_signed_double, rounds}

-- An argument behind the format: the 32 bits of an `int`, the 64 bits of a `long`, a string, a
-- pointer or a `double`.
pub data Arg (D : Type 0) : Type 0 where
  word : ℕ → Arg D
  long_word : ℕ → Arg D
  string : List ℕ → Arg D
  pointer : ℕ → Arg D
  double : D → Arg D

pub record Options : Type 0 where
  pub zero_padding : Bool
  pub left_adjust : Bool
  pub plus : Bool
  pub space : Bool

abbrev pub no_options : Options
no_options = record { zero_padding = false; left_adjust = false; plus = false; space = false }

-- The conversion of an `unsigned long` to `long`.
unfoldable pub to_long : ℕ → ℤ
to_long w = if ltb w (2 ^ 63) then pos w else negsuc (2 ^ 64 - w - 1)

-- The loop over the options behind `%`.
unfoldable pub parse_options : Options → List ℕ → Options × List ℕ
parse_options o [] = (o, [])
parse_options o (c ∷ fmt) =
    let o' =
      if c == b'0'
      then record o { zero_padding = true }
      else if c == b'-'
      then record o { left_adjust = true }
      else if c == b'+'
      then record o { plus = true }
      else record o { space = true } in
    let rest = parse_options o' fmt in
    if c == b'0' || c == b'-' || c == b'+' || c == b' ' then rest else (o, c ∷ fmt)

-- The loop over digits, in `unsigned int`.
unfoldable pub parse_number : ℕ → List ℕ → ℕ × List ℕ
parse_number n [] = (n, [])
parse_number n (c ∷ fmt) =
    let rest = parse_number ((n * 10 + (c - b'0')) % 2 ^ 32) fmt in
    if leb b'0' c && leb c b'9' then rest else (n, c ∷ fmt)

module _ {D : Type 0} where
  -- `va_arg` of a type. `none`: the argument has another type, or there is none.
  abbrev va_word : List (Arg D) → Option (ℕ × List (Arg D))
  va_word (word w ∷ args) = some (w, args)
  va_word _ = none

  abbrev va_long : List (Arg D) → Option (ℕ × List (Arg D))
  va_long (long_word w ∷ args) = some (w, args)
  va_long _ = none

  abbrev va_string : List (Arg D) → Option (List ℕ × List (Arg D))
  va_string (string s ∷ args) = some (s, args)
  va_string _ = none

  abbrev va_pointer : List (Arg D) → Option (ℕ × List (Arg D))
  va_pointer (pointer p ∷ args) = some (p, args)
  va_pointer _ = none

  abbrev va_double : List (Arg D) → Option (D × List (Arg D))
  va_double (double d ∷ args) = some (d, args)
  va_double _ = none

  abbrev pub with_rest : Option MemChan → List (Arg D) → Option (MemChan × List (Arg D))
  with_rest none args = none
  with_rest (some mc) args = some (mc, args)

  -- An argument is taken and printed.
  abbrev printed :
      {A : Type 0}
      → Option (A × List (Arg D))
      → (A → Option MemChan)
      → Option (MemChan × List (Arg D))
  printed none print = none
  printed (some (a, args)) print = with_rest (print a) args

  -- The precision behind the point.
  unfoldable pub precision_behind : List ℕ → List (Arg D) → Option (ℤ × List ℕ × List (Arg D))
  unfolding parse_number
  precision_behind [] args = some (pos 0, [], args)
  precision_behind (d ∷ fmt) args =
      if d == b'*'
      then (va_word args >>= λ (w, args'). some (to_int w, fmt, args'))
      else let (n, rest) = parse_number 0 (d ∷ fmt) in some (to_int n, rest, args)

  -- The precision: -1 if there is none. As an `int`, it wraps.
  unfoldable pub parse_precision : List ℕ → List (Arg D) → Option (ℤ × List ℕ × List (Arg D))
  unfolding precision_behind
  parse_precision [] args = some (minus_one, [], args)
  parse_precision (c ∷ fmt) args =
      if not (c == b'.') then some (minus_one, c ∷ fmt, args) else precision_behind fmt args

-- The modifiers `hh`, `ll`, `h`, `l`, `j`, `t`, `z` and `L` are skipped.
unfoldable pub skip_modifier : List ℕ → List ℕ
skip_modifier [] = []
skip_modifier (c ∷ fmt) =
    let again : Bool = elim fmt [ [] ↦ false | d ∷ _ ↦ c == d ] in
    let twice = (c == b'h' || c == b'l') && again in
    let one = c == b'h' || c == b'l' || c == b'j' || c == b't' || c == b'z' || c == b'L' in
    if twice then drop 1 fmt else if one then fmt else c ∷ fmt

-- The test `a < b` on `int`.
abbrev pub less : ℤ → ℤ → Bool
less (pos a) (pos b) = ltb a b
less (pos a) (negsuc b) = false
less (negsuc a) (pos b) = true
less (negsuc a) (negsuc b) = ltb b a

-- The bytes of the separate buffer that are printed: all of them, or as many as the precision says.
unfoldable pub limit : ℕ → ℤ → ℤ
limit offset precision =
    if is_neg precision
    then to_int offset
    else if less (to_int offset) precision
    then to_int offset
    else precision

-- `while ((int) min_field_width > precision)`. `none`: the width goes below 0.
unfoldable pub pad : (ℕ → ℕ) → MemChan → ℤ → ℕ → ℕ → Option (MemChan × ℕ)
pad junk mc precision zero c = if less precision (pos 0) then none else some (mc, 0)
pad junk mc precision (suc w) c =
    if less precision (to_int (suc w))
    then (mc_putc junk mc c >>= λ mc'. pad junk mc' precision w c)
    else some (mc, suc w)

-- The bytes, and the padding behind them.
unfoldable pub put_padded : (ℕ → ℕ) → MemChan → List ℕ → ℤ → ℕ → Option MemChan
put_padded junk mc text precision width =
    mc_put junk mc text >>= λ mc'. pad junk mc' precision width b' ' >>= λ (mc'', _). some mc''

-- The copy into the main buffer, with the padding that the options ask for.
unfoldable pub emit : (ℕ → ℕ) → MemChan → MemChan → ℕ → Options → ℕ → ℤ → Option MemChan
emit junk mc mc2 c o width precision =
    let text = take (if c == b'f' || c == b'F' then mc2.offset else rounds precision) mc2.buf in
    if not o.left_adjust
    then (pad junk mc precision width (if o.zero_padding then b'0' else b' ') >>= λ (mc', width').
        put_padded junk mc' text precision width')
    else put_padded junk mc text precision width

module _ {D : Type 0} (ops : DoubleOps D) (junk : ℕ → ℕ) where
  -- The `switch` on the conversion, into the separate buffer.
  unfoldable pub convert :
      ℕ → Options → ℤ → MemChan → List (Arg D) → Option (MemChan × List (Arg D))
  convert c o precision mc2 args =
      let signed : ℤ → Option MemChan =
        λ d. mc_signed_long_long junk mc2 d 10 false o.plus o.space in
      let unsigned : ℕ → Bool → ℕ → Option MemChan =
        λ base caps w. mc_unsigned_long_long junk mc2 w base caps in
      let float : Bool → D → Option MemChan =
        λ caps d. mc_signed_double ops junk mc2 d precision caps o.plus o.space in
      if c == b'c'
      then printed (va_word args) (λ w. mc_putc junk mc2 (w % 256))
      else if c == b'd' || c == b'i'
      then printed (va_word args) (λ w. signed (to_int w))
      else if c == b'D'
      then printed (va_long args) (λ w. signed (to_long w))
      else if c == b's'
      then printed (va_string args) (mc_puts junk mc2)
      else if c == b'u'
      then printed (va_word args) (unsigned 10 false)
      else if c == b'U'
      then printed (va_long args) (unsigned 10 false)
      else if c == b'o'
      then printed (va_word args) (unsigned 8 false)
      else if c == b'O'
      then printed (va_long args) (unsigned 8 false)
      else if c == b'x'
      then printed (va_word args) (unsigned 16 false)
      else if c == b'X'
      then printed (va_long args) (unsigned 16 true)
      else if c == b'p'
      then printed (va_pointer args) (unsigned 16 false)
      else if c == b'f'
      then printed (va_double args) (float false)
      else if c == b'F'
      then printed (va_double args) (float true)
      else with_rest (mc_putc junk mc2 c) args

  -- The conversion, from its character on: the channel, the rest of the format and the arguments that
  -- are left; the rest is empty where the format ends.
  unfoldable pub conversion :
      MemChan → Options → ℕ → ℤ → List ℕ → List (Arg D) → Option (MemChan × List ℕ × List (Arg D))
  conversion mc o width precision [] args = some (mc, [], args)
  conversion mc o width precision (c ∷ rest) args =
      convert c o precision mc_alloc args >>= λ (mc2, args').
      emit junk mc mc2 c o width (limit mc2.offset precision) >>= λ mc'. some (mc', rest, args')

  -- The part of the loop behind `%`.
  unfoldable pub directive :
      MemChan → List ℕ → List (Arg D) → Option (MemChan × List ℕ × List (Arg D))
  directive mc fmt args =
      let (o, fmt1) = parse_options no_options fmt in
      let (width, fmt2) = parse_number 0 fmt1 in
      parse_precision fmt2 args >>= λ (precision, fmt3, args').
      conversion mc o width precision (skip_modifier fmt3) args'

  -- The loop of `mc_vprintf`; each round takes a character of the format at least.
  unfoldable pub vprintf_loop : ℕ → MemChan → List ℕ → List (Arg D) → Option MemChan
  vprintf_loop fuel mc [] args = some mc
  vprintf_loop zero mc (c ∷ fmt) args = none
  vprintf_loop (suc fuel) mc (c ∷ fmt) args =
      if not (c == b'%')
      then (mc_putc junk mc c >>= λ mc'. vprintf_loop fuel mc' fmt args)
      else directive mc fmt args >>= λ (mc', fmt', args'). vprintf_loop fuel mc' fmt' args'

  -- `mc_vprintf`
  unfoldable pub mc_vprintf : MemChan → List ℕ → List (Arg D) → Option MemChan
  mc_vprintf mc fmt args = vprintf_loop (length fmt) mc fmt args
