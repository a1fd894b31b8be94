-- ===== src/Library/MemChan/Signed.antt =====
-- The signed numerals that `lib/memchan.c` prints.
use cs4411_p.Base.{
  ℕ, zero, suc, ◌+◌, ◌^◌, ◌≤◌, ◌<◌, ◌≡◌, refl, sym, ap, ◌∙◌, ◌≢◌, ◌⊎◌, inl, inr, Bool, true, false,
  ◌||◌, Option, none, some, List, [], ◌∷◌, ◌++◌, arith, ◌==◌, ltb, leb, Bool-cases, if◌then◌else◌,
  length, ℤ, pos, negsuc, is_neg,
}
use cs4411_p.Base.{length-append}
use cs4411_p.Base.{◌>>=◌, if_false}
use mathlib.Core.Path.{subst}
use mathlib.Core.Option.{some-injective}
use mathlib.Core.List.{append-nil, append_assoc}
use cs4411_p.Library.MemChan.{
  MemChan, mc_putc, mc_puts, digit_loop, bad_base, is_zero, put_sign, put_signed,
  mc_signed_long_long,
}
use cs4411_p.Library.MemChan.Append.{Holds, mc_put-append, mc_puts-append}
use cs4411_p.Library.MemChan.Numbers.{digit_of, read_digits, Printed, digit_loop-Printed}

abbrev negate : ℕ → ℤ
negate zero = pos 0
negate (suc n) = negsuc n

abbrev pub magnitude : ℤ → ℕ
magnitude (pos n) = n
magnitude (negsuc n) = suc n

-- The number that a numeral stands for that may begin with a sign or a space.
pub read_signed : ℕ → List ℕ → Option ℤ
unfolding read_digits
read_signed base [] = none
read_signed base (c ∷ t) =
    if c == b'-'
    then (read_digits base 0 t >>= λ n. some (negate n))
    else if c == b'+' || c == b' '
    then (read_digits base 0 t >>= λ n. some (pos n))
    else (read_digits base 0 (c ∷ t) >>= λ n. some (pos n))

-- What `opt_plus` and `opt_space` may put in front of the number.
SignOf : ℤ → List ℕ → Type 0
SignOf d sgn = (sgn ≡ []) ⊎ ((is_neg d ≡ false) × ((sgn ≡ b'+' ∷ []) ⊎ (sgn ≡ b' ' ∷ [])))

put_sign-SignOf :
    (junk : ℕ → ℕ) (mc : MemChan) (s : List ℕ) (d : ℤ) (opt_plus opt_space : Bool)
    → Holds mc s
    → length s + 1 < 2 ^ 32
    → (mc' : MemChan) × (sgn : List ℕ) × (put_sign junk mc d opt_plus opt_space ≡ some mc')
      × Holds mc' (s ++ sgn)
      × (length sgn ≤ 1)
      × SignOf d sgn
unfolding SignOf
put_sign-SignOf junk mc s (pos d) true opt_space H room =
    let p = mc_put-append junk mc s (b'+' ∷ []) H room in
    (p.0, b'+' ∷ [], p.1, p.2, omega arith, inr (refl, inl refl))
put_sign-SignOf junk mc s (negsuc d) true opt_space H room =
    (mc, [], refl, subst (Holds mc) (sym (append-nil s)) H, omega arith, inl refl)
put_sign-SignOf junk mc s (pos (suc d)) false true H room =
    let p = mc_put-append junk mc s (b' ' ∷ []) H room in
    (p.0, b' ' ∷ [], p.1, p.2, omega arith, inr (refl, inr refl))
put_sign-SignOf junk mc s (pos zero) false true H room =
    (mc, [], refl, subst (Holds mc) (sym (append-nil s)) H, omega arith, inl refl)
put_sign-SignOf junk mc s (negsuc d) false true H room =
    (mc, [], refl, subst (Holds mc) (sym (append-nil s)) H, omega arith, inl refl)
put_sign-SignOf junk mc s d false false H room =
    (mc, [], refl, subst (Holds mc) (sym (append-nil s)) H, omega arith, inl refl)

-- A digit is no sign.
digit_of-sign :
    (base c : ℕ)
    → base ≤ 16
    → ltb (digit_of c) base ≡ true
    → ((c == b'-') ≡ false) × ((c == b'+' || c == b' ') ≡ false)
unfolding digit_of
digit_of-sign base c h k = ground arith

read_signed-pos :
    (base n : ℕ) (t : List ℕ)
    → base ≤ 16
    → t ≢ []
    → read_digits base 0 t ≡ some n
    → read_signed base t ≡ some (pos n)
unfolding read_signed read_digits
read_signed-pos base n [] h ne e = absurd (ne refl)
read_signed-pos base n (c ∷ t) h ne e = elim (Bool-cases (ltb (digit_of c) base)) [
  | inl k ↦
      let sign = digit_of-sign base c h k in
      rw (sign.0, sign.1) (ap (λ r. r >>= λ m. some (pos m)) e)
  | inr k ↦ absurd (ground (arith, e, k))
]

read_signed-sign :
    (base n : ℕ) (d : ℤ) (sgn t : List ℕ)
    → base ≤ 16
    → t ≢ []
    → SignOf d sgn
    → read_digits base 0 t ≡ some n
    → read_signed base (sgn ++ t) ≡ some (pos n)
unfolding SignOf read_signed
read_signed-sign base n d sgn t h ne (inl e) r =
    subst (λ l. read_signed base (l ++ t) ≡ some (pos n)) (sym e) (read_signed-pos base n t h ne r)
read_signed-sign base n d sgn t h ne (inr (_, inl e)) r =
    subst (λ l. read_signed base (l ++ t) ≡ some (pos n)) (sym e)
      (ap (λ r. r >>= λ m. some (pos m)) r)
read_signed-sign base n d sgn t h ne (inr (_, inr e)) r =
    subst (λ l. read_signed base (l ++ t) ≡ some (pos n)) (sym e)
      (ap (λ r. r >>= λ m. some (pos m)) r)

read_signed-minus :
    (base n : ℕ) (sgn t : List ℕ)
    → SignOf (negsuc n) sgn
    → read_digits base 0 t ≡ some (suc n)
    → read_signed base (sgn ++ (b'-' ∷ t)) ≡ some (negsuc n)
unfolding SignOf read_signed
read_signed-minus base n sgn t (inl e) r =
    subst (λ l. read_signed base (l ++ (b'-' ∷ t)) ≡ some (negsuc n)) (sym e)
      (ap (λ r. r >>= λ m. some (negate m)) r)
read_signed-minus base n sgn t (inr (neg, e)) r = absurd (ground (arith, neg))

not_nil : {c : ℕ} {t : List ℕ} → (c ∷ t) ≢ []
not_nil e = ground (arith, ap (λ l. length l) e)

zero_lem : (base : ℕ) → 2 ≤ base → read_digits base 0 (b'0' ∷ []) ≡ some 0
unfolding read_digits digit_of
zero_lem base h = ground (arith, h)

-- The digits of a number that is not 0, appended.
digits-append :
    (junk : ℕ → ℕ) (mc : MemChan) (s : List ℕ) (d base : ℕ) (caps : Bool)
    → Holds mc s
    → length s + 63 < 2 ^ 32
    → 2 ≤ base
    → base ≤ 16
    → d < base ^ 63
    → 0 < d
    → (mc' : MemChan) × (t : List ℕ) × ((digit_loop 63 d base caps [] >>= λ p. mc_puts junk mc p)
        ≡ some mc')
      × Holds mc' (s ++ t)
      × (read_digits base 0 t ≡ some d)
      × (t ≢ [])
      × (length t ≤ 63)
unfolding Printed read_digits
digits-append junk mc s d base caps H room h k small nz =
    let printed = digit_loop-Printed 63 d base caps [] h k small in
    let digits = mc_puts-append junk mc s printed.0 H (omega (arith, printed.2.1)) in
    (
      digits.0,
      printed.0,
      ap (λ o. o >>= λ p. mc_puts junk mc p) printed.1 ∙ digits.1,
      digits.2,
      printed.2.0,
      λ e.
          ground
            (arith, nz, some-injective _ _ (ap (λ t. read_digits base 0 t) (sym e) ∙ printed.2.0)),
      omega (arith, printed.2.1),
    )

-- The part of `mc_signed_long_long` behind the sign.
put_rest : (ℕ → ℕ) → MemChan → ℤ → ℕ → Bool → Option MemChan
put_rest junk mc d base caps =
    if is_zero d then mc_putc junk mc b'0' else put_signed junk mc d base caps

put_rest-read_signed :
    (junk : ℕ → ℕ) (mc : MemChan) (s sgn : List ℕ) (d : ℤ) (base : ℕ) (caps : Bool)
    → Holds mc (s ++ sgn)
    → length s + 66 < 2 ^ 32
    → length sgn ≤ 1
    → SignOf d sgn
    → 2 ≤ base
    → base ≤ 16
    → magnitude d < base ^ 63
    → magnitude d < 2 ^ 63
    → (mc' : MemChan) × (t : List ℕ) × (put_rest junk mc d base caps ≡ some mc')
      × Holds mc' ((s ++ sgn) ++ t)
      × (read_signed base (sgn ++ t) ≡ some d)
      × (length t ≤ 64)
unfolding put_rest
put_rest-read_signed junk mc s sgn (pos zero) base caps H room l sg h k small fits =
    let p = mc_put-append junk mc (s ++ sgn) (b'0' ∷ []) H (omega (arith, length-append s sgn)) in
    (
      p.0,
      b'0' ∷ [],
      p.1,
      p.2,
      read_signed-sign base 0 (pos 0) sgn (b'0' ∷ []) k (λ e. not_nil e) sg (zero_lem base h),
      omega arith,
    )
put_rest-read_signed junk mc s sgn (pos (suc d)) base caps H room l sg h k small fits =
    let p =
      digits-append junk mc (s ++ sgn) (suc d) base caps H (omega (arith, length-append s sgn)) h k
        small (omega arith) in
    (
      p.0,
      p.1,
      p.2,
      p.3,
      read_signed-sign base (suc d) (pos (suc d)) sgn p.1 k p.5 sg p.4,
      omega (arith, p.6),
    )
put_rest-read_signed junk mc s sgn (negsuc d) base caps H room l sg h k small fits =
    let m = mc_put-append junk mc (s ++ sgn) (b'-' ∷ []) H (omega (arith, length-append s sgn)) in
    let p =
      digits-append junk m.0 ((s ++ sgn) ++ (b'-' ∷ [])) (suc d) base caps m.2
        (omega (arith, length-append s sgn, length-append (s ++ sgn) (b'-' ∷ []))) h k small
        (omega arith) in
    (
      p.0,
      b'-' ∷ p.1,
      ap
            (λ o. o >>= λ mc'.
              if leb (2 ^ 63) (suc d)
              then none
              else digit_loop 63 (suc d) base caps [] >>= λ p. mc_puts junk mc' p)
            m.1
          ∙ if_false (leb (2 ^ 63) (suc d)) none
              (digit_loop 63 (suc d) base caps [] >>= λ p. mc_puts junk m.0 p)
              (ground (arith, fits))
          ∙ p.2,
      subst (Holds p.0) (append_assoc (s ++ sgn) (b'-' ∷ []) p.1) p.3,
      read_signed-minus base d sgn p.1 sg p.4,
      omega (arith, p.6),
    )

-- `mc_signed_long_long` in a base from 2 to 16 appends a numeral that reads back as the number,
-- with whatever the options put in front of it, if it has 63 digits at most and is not the least
-- number of `long long`.
pub mc_signed-read_signed :
    (junk : ℕ → ℕ) (mc : MemChan) (s : List ℕ) (d : ℤ) (base : ℕ) (caps opt_plus opt_space : Bool)
    → Holds mc s
    → length s + 66 < 2 ^ 32
    → 2 ≤ base
    → base ≤ 16
    → magnitude d < base ^ 63
    → magnitude d < 2 ^ 63
    → (mc' : MemChan) × (t : List ℕ) × (mc_signed_long_long junk mc d base caps opt_plus opt_space
        ≡ some mc')
      × Holds mc' (s ++ t)
      × (read_signed base t ≡ some d)
      × (length t ≤ 65)
unfolding mc_signed_long_long put_rest
mc_signed-read_signed junk mc s d base caps opt_plus opt_space H room h k small fits =
    let sign = put_sign-SignOf junk mc s d opt_plus opt_space H (omega arith) in
    let rest =
      put_rest-read_signed junk sign.0 s sign.1 d base caps sign.3 room sign.4 sign.5 h k small
        fits in
    (
      rest.0,
      sign.1 ++ rest.1,
      ap
            (λ o. o >>= λ mc'.
              if ltb base 2 || ltb 16 base
              then mc_puts junk mc' bad_base
              else put_rest junk mc' d base caps)
            sign.2
          ∙ if_false (ltb base 2 || ltb 16 base) (mc_puts junk sign.0 bad_base)
              (put_rest junk sign.0 d base caps) (ground (arith, h, k))
          ∙ rest.2,
      subst (Holds rest.0) (append_assoc s sign.1 rest.1) rest.3,
      rest.4,
      omega (arith, length-append sign.1 rest.1, rest.5, sign.4),
    )
