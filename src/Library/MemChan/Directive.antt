-- ===== src/Library/MemChan/Directive.antt =====
-- A directive of one character behind `%`, in `mc_vprintf` of `lib/memchan.c`.
use cs4411_p.Base.{
  ℕ, ◌+◌, ◌-◌, ◌^◌, ◌<◌, ◌≡◌, refl, sym, ap, ◌∙◌, Bool, true, false, not, ◌&&◌, ◌||◌, some, List,
  [], ◌∷◌, ◌++◌, arith, ◌==◌, leb, length, take, pos, minus_one,
}
use cs4411_p.Base.{◌>>=◌, if_true, if_false}
use mathlib.Core.Path.{subst}
use cs4411_p.Library.MemChan.{MemChan, mc_alloc}
use cs4411_p.Library.MemChan.Append.{Holds}
use cs4411_p.Library.MemChan.Float.{DoubleOps}
use cs4411_p.Library.MemChan.Format.{
  Arg, no_options, limit, emit, parse_options, parse_number, parse_precision, skip_modifier,
  convert, conversion, directive,
}
use cs4411_p.Library.MemChan.Fields.{field, repeat, limit-shown, emit-field}

-- A character that stands for a conversion, and for nothing else behind `%`.
abbrev pub plain : ℕ → Bool
plain c =
    not (c == b'0' || c == b'-' || c == b'+' || c == b' ')
    && not (leb b'0' c && leb c b'9')
    && not (c == b'.')
    && not (c == b'h' || c == b'l' || c == b'j' || c == b't' || c == b'z' || c == b'L')
    && not (c == b'f' || c == b'F')

take-all : (t : List ℕ) → take (length t) t ≡ t
take-all [] = refl
take-all (x ∷ t) = ap (◌∷◌ x) (take-all t)

options_plain :
    (c : ℕ) (rest : List ℕ)
    → plain c ≡ true
    → parse_options no_options (c ∷ rest) ≡ (no_options, c ∷ rest)
unfolding parse_options
options_plain c rest h =
    if_false (c == b'0' || c == b'-' || c == b'+' || c == b' ') _ _ (ground (arith, h))

number_plain : (c : ℕ) (rest : List ℕ) → plain c ≡ true → parse_number 0 (c ∷ rest) ≡ (0, c ∷ rest)
unfolding parse_number
number_plain c rest h = if_false (leb b'0' c && leb c b'9') _ _ (ground (arith, h))

precision_plain :
    {D : Type 0} (c : ℕ) (rest : List ℕ) (args : List (Arg D))
    → plain c ≡ true
    → parse_precision (c ∷ rest) args ≡ some (minus_one, c ∷ rest, args)
unfolding parse_precision
precision_plain c rest args h = if_true (not (c == b'.')) _ _ (ground (arith, h))

modifier_plain : (c : ℕ) (rest : List ℕ) → plain c ≡ true → skip_modifier (c ∷ rest) ≡ c ∷ rest
unfolding skip_modifier
modifier_plain c rest h =
    let no_hl : (c == b'h' || c == b'l') ≡ false = ground (arith, h) in
    let none_of : (c == b'h' || c == b'l' || c == b'j' || c == b't' || c == b'z' || c == b'L')
        ≡ false =
      ground (arith, h) in
    if_false _ _ _ (ap (λ b. b && elim rest as (λ _. Bool) [ [] ↦ false | d ∷ _ ↦ c == d ]) no_hl)
    ∙ if_false (c == b'h' || c == b'l' || c == b'j' || c == b't' || c == b'z' || c == b'L') rest
        (c ∷ rest) none_of

minus_self : (n : ℕ) → 0 - n ≡ 0
minus_self n = omega arith

-- A field of width 0 is the text.
no_field : (t : List ℕ) → field no_options 0 (take (length t) t) ≡ t
unfolding field
no_field t =
    ap (λ n. repeat n b' ' ++ take (length t) t) (minus_self (length (take (length t) t)))
    ∙ take-all t

module _ {D : Type 0} (ops : DoubleOps D) (junk : ℕ → ℕ) where
  -- What a directive of one character does once the conversion is done.
  pub directive-plain :
      (mc : MemChan) (c : ℕ) (rest : List ℕ) (args : List (Arg D))
      → plain c ≡ true
      → directive ops junk mc (c ∷ rest) args
        ≡ conversion ops junk mc no_options 0 minus_one (c ∷ rest) args
  unfolding directive
  directive-plain mc c rest args h =
      rw
        (
          options_plain c rest h,
          number_plain c rest h,
          precision_plain c rest args h,
          modifier_plain c rest h,
        )
        refl

  -- A conversion that prints `t` appends `t`.
  pub conversion-append :
      (mc mc2 : MemChan) (s t : List ℕ) (c : ℕ) (rest : List ℕ) (args args' : List (Arg D))
      → Holds mc s
      → Holds mc2 t
      → (c == b'f' || c == b'F') ≡ false
      → length t < 2 ^ 31
      → length s + length t < 2 ^ 32
      → convert ops junk c no_options minus_one mc_alloc args ≡ some (mc2, args')
      → (mc' : MemChan) × (conversion ops junk mc no_options 0 minus_one (c ∷ rest) args
          ≡ some (mc', rest, args'))
        × Holds mc' (s ++ t)
  unfolding conversion field
  conversion-append mc mc2 s t c rest args args' H H2 other small room e =
      let lim : limit mc2.offset minus_one ≡ pos (length t) =
        limit-shown mc2.offset minus_one (omega (arith, H2.length_s)) ∙ ap pos (sym H2.length_s) in
      let done =
        emit-field junk mc mc2 s t c no_options 0 (length t) H H2 other (omega arith) (omega arith)
          (omega arith) in
      (
        done.0,
        ap
              (λ o. o >>= λ (mc2, args').
                emit junk mc mc2 c no_options 0 (limit mc2.offset minus_one) >>= λ mc'.
                some (mc', rest, args'))
              e
            ∙ ap (λ n. emit junk mc mc2 c no_options 0 n >>= λ mc'. some (mc', rest, args')) lim
            ∙ ap (λ o. o >>= λ mc'. some (mc', rest, args')) done.1,
        subst (Holds done.0) (ap (λ l. s ++ l) (no_field t)) done.2,
      )
