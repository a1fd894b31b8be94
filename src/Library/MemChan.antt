-- ===== src/Library/MemChan.antt =====
-- Memory channels, `lib/memchan.c`: a string that grows as it is appended to.
pub mod Append
pub mod Numbers
pub mod Signed
pub mod Float
pub mod Format
pub mod Fields
pub mod Directive
pub mod Pieces
pub mod Printing
use cs4411_p.Base.{
  ℕ, zero, suc, ◌+◌, ◌-◌, ◌*◌, ◌/◌, ◌%◌, ◌^◌, Bool, true, false, not, ◌&&◌, ◌||◌, Option, none,
  some, List, [], ◌∷◌, ◌==◌, ltb, leb, if◌then◌else◌, length, ℤ, pos, negsuc, is_neg,
}
use cs4411_p.Base.{◌>>=◌}
use cs4411_p.System.RamFile.{resize, copy_in}

-- `struct mem_chan`; the bytes that `buf` points to are the list.
pub record MemChan : Type 0 where
  pub buf : List ℕ
  pub offset : ℕ
  pub size : ℕ

-- `mc_alloc`: `calloc` gives a structure of 0s.
abbrev pub mc_alloc : MemChan
mc_alloc = record { buf = []; offset = 0; size = 0 }

-- The capacity when `need` bytes are to fit: twice the old one, or just `need`.
unfoldable pub grown_size : ℕ → ℕ → ℕ
grown_size size need =
    let doubled = (size * 2) % 2 ^ 32 in if ltb doubled need then need else doubled

-- The part of `mc_put` before `memcpy`: `realloc` gives `junk` for the bytes that are new.
unfoldable pub make_room : (ℕ → ℕ) → MemChan → ℕ → MemChan
unfolding resize
make_room junk mc need =
    let size = grown_size mc.size need in
    if ltb mc.size need then record mc { buf = resize junk mc.buf size; size = size } else mc

-- `memcpy` behind the bytes there are. `none`: it writes behind the buffer.
unfoldable pub copy_behind : MemChan → List ℕ → Option MemChan
unfolding copy_in
copy_behind mc bs =
    if ltb (length mc.buf) (mc.offset + length bs)
    then none
    else some
        (record mc { buf = copy_in mc.buf mc.offset bs; offset = (mc.offset + length bs) % 2 ^ 32 })

-- `mc_put`. Sums of `unsigned int` wrap.
unfoldable pub mc_put : (ℕ → ℕ) → MemChan → List ℕ → Option MemChan
unfolding make_room copy_behind
mc_put junk mc bs = copy_behind (make_room junk mc ((mc.offset + length bs) % 2 ^ 32)) bs

abbrev pub mc_putc : (ℕ → ℕ) → MemChan → ℕ → Option MemChan
mc_putc junk mc c = mc_put junk mc (c ∷ [])

-- `mc_puts`, on the characters before the null character.
unfoldable pub mc_puts : (ℕ → ℕ) → MemChan → List ℕ → Option MemChan
mc_puts junk mc [] = some mc
mc_puts junk mc (c ∷ s) = mc_putc junk mc c >>= λ mc'. mc_puts junk mc' s

-- `chars[i]`: the digits in lower or in upper case.
unfoldable pub char_of : Bool → ℕ → ℕ
char_of caps i = if ltb i 10 then b'0' + i else if caps then b'A' + (i - 10) else b'a' + (i - 10)

-- The loop `while (d != 0) { *--p = chars[d % base]; d /= base; }` with `room` bytes of `buf` before
-- `p`. `none`: it writes in front of `buf`.
unfoldable pub digit_loop : ℕ → ℕ → ℕ → Bool → List ℕ → Option (List ℕ)
unfolding char_of
digit_loop zero d base caps p = if d == 0 then some p else none
digit_loop (suc room) d base caps p =
    let rest = digit_loop room (d / base) base caps (char_of caps (d % base) ∷ p) in
    if d == 0 then some p else rest

abbrev pub bad_base : List ℕ
bad_base = b'<' ∷ b'b' ∷ b'a' ∷ b'd' ∷ b' ' ∷ b'b' ∷ b'a' ∷ b's' ∷ b'e' ∷ b'>' ∷ []

-- `mc_unsigned_long_long`; `buf` has 64 bytes, the last of which is the null character.
unfoldable pub mc_unsigned_long_long : (ℕ → ℕ) → MemChan → ℕ → ℕ → Bool → Option MemChan
mc_unsigned_long_long junk mc d base caps =
    if ltb base 2 || ltb 16 base
    then mc_puts junk mc bad_base
    else if d == 0
    then mc_putc junk mc b'0'
    else digit_loop 63 d base caps [] >>= λ p. mc_puts junk mc p

-- The test `d > 0`.
abbrev pub is_above_0 : ℤ → Bool
is_above_0 (pos (suc n)) = true
is_above_0 _ = false

-- The test `d == 0`.
abbrev pub is_zero : ℤ → Bool
is_zero (pos zero) = true
is_zero _ = false

-- The sign that `opt_plus` or `opt_space` asks for.
abbrev pub put_sign : (ℕ → ℕ) → MemChan → ℤ → Bool → Bool → Option MemChan
put_sign junk mc d opt_plus opt_space =
    if opt_plus
    then (if not (is_neg d) then mc_putc junk mc b'+' else some mc)
    else if opt_space && is_above_0 d
    then mc_putc junk mc b' '
    else some mc

-- The digits of a number that is not 0, a negative one behind `-`. `d = -d` has no value for the
-- least number of `long long`: `none`.
abbrev pub put_signed : (ℕ → ℕ) → MemChan → ℤ → ℕ → Bool → Option MemChan
put_signed junk mc (pos d) base caps = digit_loop 63 d base caps [] >>= λ p. mc_puts junk mc p
put_signed junk mc (negsuc n) base caps = mc_putc junk mc b'-' >>= λ mc'.
    if leb (2 ^ 63) (suc n)
    then none
    else digit_loop 63 (suc n) base caps [] >>= λ p. mc_puts junk mc' p

-- `mc_signed_long_long`
unfoldable pub mc_signed_long_long : (ℕ → ℕ) → MemChan → ℤ → ℕ → Bool → Bool → Bool → Option MemChan
mc_signed_long_long junk mc d base caps opt_plus opt_space =
    put_sign junk mc d opt_plus opt_space >>= λ mc'.
    if ltb base 2 || ltb 16 base
    then mc_puts junk mc' bad_base
    else if is_zero d
    then mc_putc junk mc' b'0'
    else put_signed junk mc' d base caps
