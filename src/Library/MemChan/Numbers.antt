-- ===== src/Library/MemChan/Numbers.antt =====
-- The numerals that `lib/memchan.c` prints.
use cs4411_p.Base.{
  ℕ, zero, suc, ◌+◌, ◌-◌, ◌*◌, ◌/◌, ◌%◌, ◌^◌, ◌≤◌, ◌<◌, ◌≡◌, refl, sym, ap, ◌∙◌, ◌≢◌, ◌⊎◌, inl, inr,
  Bool, true, false, ◌&&◌, ◌||◌, Option, none, some, List, [], ◌∷◌, ◌++◌, arith, ◌==◌, ltb, leb,
  Bool-cases, lt→ltb, if◌then◌else◌, length, get_elem?,
}
use mathlib.Core.Path.{subst}
use mathlib.Core.Option.{some-injective}
use native.Mathlib.Nat.{pow-zero, pow-suc, div-lt_iff_lt-mul, div-add-mod', mod-lt}
use cs4411_p.Library.MemChan.{MemChan, char_of, digit_loop, mc_unsigned_long_long}
use cs4411_p.Library.MemChan.Append.{Holds, mc_put-append, mc_puts-append}

-- The digit that a character stands for; 16 for none.
unfoldable pub digit_of : ℕ → ℕ
digit_of c =
    if leb b'0' c && leb c b'9'
    then c - b'0'
    else if leb b'A' c && leb c b'F'
    then c - b'A' + 10
    else if leb b'a' c && leb c b'f'
    then c - b'a' + 10
    else 16

-- The number that a numeral stands for, behind digits that stand for `d`.
unfoldable pub read_digits : ℕ → ℕ → List ℕ → Option ℕ
unfolding digit_of
read_digits base d [] = some d
read_digits base d (c ∷ s) =
    let rest = read_digits base (d * base + digit_of c) s in
    if ltb (digit_of c) base then rest else none

digit_of-char_of : (caps : Bool) (i : ℕ) → i < 16 → digit_of (char_of caps i) ≡ i
unfolding digit_of char_of
digit_of-char_of true i h = ground arith
digit_of-char_of false i h = ground arith

char_of-zero : (caps : Bool) (i : ℕ) → char_of caps i ≡ b'0' → i ≡ 0
unfolding char_of
char_of-zero true i h = ground arith
char_of-zero false i h = ground arith

-- Reading the digit that a step of the loop writes takes the step back.
read_step :
    (d base : ℕ) (caps : Bool) (p : List ℕ)
    → 2 ≤ base
    → base ≤ 16
    → read_digits base (d / base) (char_of caps (d % base) ∷ p) ≡ read_digits base d p
unfolding read_digits
read_step d base caps p h k =
    let small : d % base < base = mod-lt d (omega arith) in
    let digit = digit_of-char_of caps (d % base) (omega (arith, small)) in
    rw (digit, lt→ltb (d % base) base small, div-add-mod' d base) refl

-- What the loop leaves in front of `p` has the value that it was to print, fits, and does not begin
-- with 0.
unfoldable pub Printed : ℕ → ℕ → ℕ → List ℕ → List ℕ → Type 0
Printed room d base p t =
    (read_digits base 0 t ≡ read_digits base d p)
    × (length t ≤ room + length p)
    × ((d ≡ 0) × (t ≡ p) ⊎ (get_elem? t 0 ≢ some b'0'))

-- The first digit of a number other than 0 is not 0.
no_zero_first :
    (d base : ℕ) (caps : Bool) (p t : List ℕ)
    → (d == 0) ≡ false
    → (d / base ≡ 0) × (t ≡ char_of caps (d % base) ∷ p) ⊎ (get_elem? t 0 ≢ some b'0')
    → get_elem? t 0 ≢ some b'0'
no_zero_first d base caps p t e (inr n) z = n z
no_zero_first d base caps p t e (inl (q0, tq)) z =
    let first = some-injective _ _ (sym (ap (λ l. get_elem? l 0) tq) ∙ z) in
    let r0 : d % base ≡ 0 = char_of-zero caps (d % base) first in
    let both : 0 * base + 0 ≡ d =
      ap (λ n. n * base + 0) (sym q0)
      ∙ ap (λ n. d / base * base + n) (sym r0)
      ∙ div-add-mod' d base in
    absurd (ground (arith, e, both))

pub digit_loop-Printed :
    (room d base : ℕ) (caps : Bool) (p : List ℕ)
    → 2 ≤ base
    → base ≤ 16
    → d < base ^ room
    → (t : List ℕ) × (digit_loop room d base caps p ≡ some t) × Printed room d base p t
unfolding digit_loop Printed
digit_loop-Printed zero d base caps p h k small =
    let d0 : d ≡ 0 = omega (arith, pow-zero base, small) in
    (p, ground (arith, d0), (ap (λ n. read_digits base n p) (sym d0), omega arith, inl (d0, refl)))
digit_loop-Printed (suc room) d base caps p h k small =
    let c = char_of caps (d % base) in
    let rest =
      digit_loop-Printed room (d / base) base caps (c ∷ p) h k
        ((div-lt_iff_lt-mul (omega arith)).1 (subst (λ n. d < n) (pow-suc base room) small)) in
    elim (Bool-cases (d == 0)) [
      | inl e ↦
          let d0 : d ≡ 0 = ground (arith, e) in
          (
            p,
            ground (arith, e),
            (ap (λ n. read_digits base n p) (sym d0), omega arith, inl (d0, refl)),
          )
      | inr e ↦ (
        rest.0,
        rw (e) rest.1,
        (
          rest.2.0 ∙ read_step d base caps p h k,
          omega (arith, rest.2.1),
          inr (no_zero_first d base caps p rest.0 e rest.2.2),
        ),
      )
    ]

nonzero_case :
    {t p : List ℕ} (d base : ℕ)
    → (d == 0) ≡ false
    → (d ≡ 0) × (t ≡ p) ⊎ (get_elem? t 0 ≢ some b'0')
    → (d ≡ 0) × (t ≡ b'0' ∷ []) ⊎ (get_elem? t 0 ≢ some b'0')
nonzero_case d base e (inl (d0, q)) = absurd (ground (arith, e, d0))
nonzero_case d base e (inr n) = inr n

-- `mc_unsigned_long_long` in a base from 2 to 16 appends a numeral of the number in that base, with
-- no 0 in front and of 63 digits at most, if the number has no more.
pub mc_unsigned-read_digits :
    (junk : ℕ → ℕ) (mc : MemChan) (s : List ℕ) (d base : ℕ) (caps : Bool)
    → Holds mc s
    → length s + 63 < 2 ^ 32
    → 2 ≤ base
    → base ≤ 16
    → d < base ^ 63
    → (mc' : MemChan) × (t : List ℕ) × (mc_unsigned_long_long junk mc d base caps ≡ some mc')
      × Holds mc' (s ++ t)
      × (read_digits base 0 t ≡ some d)
      × ((d ≡ 0) × (t ≡ b'0' ∷ []) ⊎ (get_elem? t 0 ≢ some b'0'))
      × (length t ≤ 63)
unfolding mc_unsigned_long_long Printed read_digits digit_of
mc_unsigned-read_digits junk mc s d base caps H room h k small =
    let base_ok : (ltb base 2 || ltb 16 base) ≡ false = ground (arith, h, k) in
    let printed = digit_loop-Printed 63 d base caps [] h k small in
    let digits = mc_puts-append junk mc s printed.0 H (omega (arith, printed.2.1)) in
    elim (Bool-cases (d == 0)) [
      | inl e ↦
          let zero = mc_put-append junk mc s (b'0' ∷ []) H (omega arith) in
          (
            zero.0,
            b'0' ∷ [],
            rw (base_ok, e) zero.1,
            zero.2,
            ground (arith, e, h),
            inl (ground (arith, e), refl),
            omega arith,
          )
      | inr e ↦ (
        digits.0,
        printed.0,
        rw (base_ok, e, printed.1) digits.1,
        digits.2,
        printed.2.0,
        nonzero_case d base e printed.2.2,
        omega (arith, printed.2.1),
      )
    ]
