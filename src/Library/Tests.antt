-- ===== src/Library/Tests.antt =====
-- Runs of the C library.
use cs4411_p.Base.{
  ℤ, ℕ, ◌-◌, ◌*◌, ◌^◌, ◌≤◌, ◌≡◌, refl, ◌≢◌, ◌⊎◌, true, false, none, some, List, [], ◌∷◌, arith,
  if◌then◌else◌, inl, ◌+◌, ◌%◌, ◌==◌, leb, ltb, length, get_elem?, pos, negsuc, to_int,
}
use mathlib.Core.List.{Perm}
use cs4411_p.Library.Fill.{store, set_bytes, clear_ints, align, clear, memset}
use cs4411_p.Library.Fill.Phases.{memset_lem}
use cs4411_p.Library.Sort.{partition, sort, qsort}
use cs4411_p.Library.Sort.Sorted.{IsOrder, IsSorted, qsort-IsSorted}
use cs4411_p.Library.MemChan.{
  MemChan, mc_alloc, grown_size, mc_put, mc_puts, digit_loop, mc_unsigned_long_long,
  mc_signed_long_long,
}
use cs4411_p.Library.MemChan.Append.{Holds, mc_put-append}
use cs4411_p.Library.MemChan.Numbers.{read_digits, mc_unsigned-read_digits}
use cs4411_p.Library.MemChan.Signed.{read_signed, mc_signed-read_signed}
use cs4411_p.Library.MemChan.Float.{DoubleOps}
use cs4411_p.Library.MemChan.Format.{
  Options, word, emit, mc_vprintf, vprintf_loop, directive, conversion, parse_options, parse_number,
  parse_precision, skip_modifier, convert, limit, pad, put_padded,
}
use cs4411_p.Library.MemChan.Fields.{field, emit-field}
use cs4411_p.Library.MemChan.Pieces.{Piece, lit, decimal, hex, str, format, arguments, SaysAll}
use cs4411_p.Library.MemChan.Printing.{mc_vprintf-SaysAll}

abbrev junk : ℕ → ℕ
junk n = 170

-- "ab" in a buffer of four bytes.
abbrev channel : MemChan
channel = record { buf = b'a' ∷ b'b' ∷ 0 ∷ 0 ∷ []; offset = 2; size = 4 }

channel-Holds : Holds channel (b'a' ∷ b'b' ∷ [])
channel-Holds = record {
  length_buf = refl;
  fits = omega arith;
  small = omega arith;
  length_s = refl;
  content = refl;
}

mc_put-append_example :
    (mc' : MemChan) × (mc_put junk channel (1 ∷ 2 ∷ 3 ∷ []) ≡ some mc')
    × Holds mc' (b'a' ∷ b'b' ∷ 1 ∷ 2 ∷ 3 ∷ [])
mc_put-append_example =
    mc_put-append junk channel (b'a' ∷ b'b' ∷ []) (1 ∷ 2 ∷ 3 ∷ []) channel-Holds (omega arith)

abbrev number : ℕ
number = 48879

mc_unsigned-read_digits_example :
    (mc' : MemChan) × (t : List ℕ) × (mc_unsigned_long_long junk channel number 16 false ≡ some mc')
    × Holds mc' (b'a' ∷ b'b' ∷ t)
    × (read_digits 16 0 t ≡ some number)
    × ((number ≡ 0) × (t ≡ b'0' ∷ []) ⊎ (get_elem? t 0 ≢ some b'0'))
    × (length t ≤ 63)
mc_unsigned-read_digits_example =
    mc_unsigned-read_digits junk channel (b'a' ∷ b'b' ∷ []) number 16 false channel-Holds
      (omega arith) (omega arith) (omega arith) (omega arith)

mc_signed-read_signed_example :
    (mc' : MemChan) × (t : List ℕ) × (mc_signed_long_long junk channel
        (negsuc 41)
        10
        false
        true
        false
      ≡ some mc')
    × Holds mc' (b'a' ∷ b'b' ∷ t)
    × (read_signed 10 t ≡ some (negsuc 41))
    × (length t ≤ 65)
mc_signed-read_signed_example =
    mc_signed-read_signed junk channel (b'a' ∷ b'b' ∷ []) (negsuc 41) 10 false true false
      channel-Holds (omega arith) (omega arith) (omega arith) (omega arith) (omega arith)

abbrev left : Options
left = record { zero_padding = true; left_adjust = true; plus = false; space = false }

emit-field_example :
    (mc' : MemChan) × (emit junk channel channel b's' left 5 (pos 1) ≡ some mc')
    × Holds mc' (b'a' ∷ b'b' ∷ field left 5 (b'a' ∷ []))
emit-field_example =
    emit-field junk channel channel (b'a' ∷ b'b' ∷ []) (b'a' ∷ b'b' ∷ []) b's' left 5 1
      channel-Holds channel-Holds refl (omega arith) (omega arith) (omega arith)

-- Operations of a `double` that only has whole numbers.
abbrev whole : DoubleOps ℕ
whole = record {
  at_least_0 = λ d. true;
  above_0 = λ d. ltb 0 d;
  below_0 = λ d. false;
  equal_0 = λ d. d == 0;
  is_nan = λ d. false;
  is_finite = λ d. true;
  negated = λ d. d;
  int_part = λ d. d;
  frac_part = λ d. 0;
  times_10 = λ d. d * 10;
  minus = λ d n. d - n;
  to_unsigned = λ d. d;
  to_unsigned_long_long = λ d. d;
}

-- "%d:%x%s" with -5, 255 and "ok".
abbrev sample : List Piece
sample = decimal (2 ^ 32 - 5) ∷ lit b':' ∷ hex 255 ∷ str (b'o' ∷ b'k' ∷ []) ∷ []

mc_vprintf-SaysAll_example :
    (mc' : MemChan) × (t : List ℕ) × (mc_vprintf whole junk channel
        (format sample)
        (arguments ℕ sample)
      ≡ some mc')
    × Holds mc' (b'a' ∷ b'b' ∷ t)
    × SaysAll sample t
mc_vprintf-SaysAll_example =
    mc_vprintf-SaysAll whole junk channel (b'a' ∷ b'b' ∷ []) sample channel-Holds
      (omega arith, (refl, (omega arith, (omega arith, tt)))) (omega arith)

-- The zeros of "%05d" stand before the sign of -3.
zeros_before_sign :
    mc_vprintf whole junk mc_alloc (b'%' ∷ b'0' ∷ b'5' ∷ b'd' ∷ []) (word (2 ^ 32 - 3) ∷ [])
    ≡ some (record {
      buf = b'0' ∷ b'0' ∷ b'0' ∷ b'-' ∷ b'3' ∷ 170 ∷ 170 ∷ 170 ∷ [];
      offset = 5;
      size = 8;
    })
unfolding mc_vprintf vprintf_loop directive conversion parse_options parse_number parse_precision
    skip_modifier convert mc_signed_long_long digit_loop mc_puts mc_put grown_size limit emit pad
    put_padded to_int
zeros_before_sign = refl

-- In base 2 a number of 64 digits has no room.
no_room_for_64 : digit_loop 63 (2 ^ 63) 2 false [] ≡ none
unfolding digit_loop
no_room_for_64 = refl

-- The three-way comparison of numbers.
three_way : ℕ → ℕ → ℤ
three_way a b = if ltb a b then negsuc 0 else if ltb b a then pos 1 else pos 0

three_way-IsOrder : IsOrder three_way
unfolding three_way
three_way-IsOrder = record {
  flip = λ x y h. ground (arith, h);
  trans = λ x y z h k. ground (arith, h, k);
}

abbrev unsorted : List ℕ
unsorted = 5 ∷ 9 ∷ 2 ∷ 5 ∷ 7 ∷ 0 ∷ []

qsort-unsorted : qsort three_way unsorted ≡ 0 ∷ 2 ∷ 5 ∷ 5 ∷ 7 ∷ 9 ∷ []
unfolding qsort sort partition three_way
qsort-unsorted = refl

qsort-IsSorted_example :
    IsSorted three_way (qsort three_way unsorted) × Perm (qsort three_way unsorted) unsorted
qsort-IsSorted_example = qsort-IsSorted three_way unsorted three_way-IsOrder

-- Ten bytes from an address that is two bytes before an aligned one.
memset_zeros : memset 6 0 10 junk 15 ≡ 0
unfolding memset align clear clear_ints set_bytes store
memset_zeros = refl

memset_lem_example :
    memset 6 0 10 junk 16
    ≡ (if leb 6 16 then if ltb 16 (6 + 10) then 0 % 256 else junk 16 else junk 16)
memset_lem_example = memset_lem 6 0 10 junk 16 (omega arith) (inl (omega arith))

-- No byte is asked for, and the number of bytes that are left wraps.
memset_wraps : (align 1 1 0 junk).n ≡ 2 ^ 64 - 1
unfolding align
memset_wraps = refl
