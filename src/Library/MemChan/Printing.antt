-- ===== src/Library/MemChan/Printing.antt =====
-- Whole formats of `mc_vprintf` of `lib/memchan.c`.
use cs4411_p.Base.{
  ℕ, zero, suc, ◌+◌, ◌^◌, ◌≤◌, ◌<◌, ◌≡◌, refl, sym, ap, ◌∙◌, inl, inr, true, false, some, List, [],
  ◌∷◌, ◌++◌, arith, ◌==◌, ltb, Bool-cases, ltb→lt, length, All, minus_one, to_int,
}
use cs4411_p.Base.{length-append}
use cs4411_p.Base.{◌>>=◌}
use mathlib.Core.Path.{subst}
use mathlib.Core.List.{append-nil, append_assoc}
use cs4411_p.Library.MemChan.{MemChan, mc_alloc}
use cs4411_p.Library.MemChan.Append.{Holds, mc_put-append, mc_puts-append, mc_alloc-Holds}
use cs4411_p.Library.MemChan.Numbers.{mc_unsigned-read_digits}
use cs4411_p.Library.MemChan.Signed.{magnitude, mc_signed-read_signed}
use cs4411_p.Library.MemChan.Float.{DoubleOps}
use cs4411_p.Library.MemChan.Format.{
  Arg, word, string, no_options, convert, with_rest, vprintf_loop, mc_vprintf,
}
use cs4411_p.Library.MemChan.Directive.{plain, directive-plain, conversion-append}
use cs4411_p.Library.MemChan.Pieces.{
  Piece, lit, decimal, unsigned, hex, str, spelled, format, arguments, IsPiece, Says, room_for,
  SaysAll, room_for_all,
}

magnitude-to_int : (w : ℕ) → w < 2 ^ 32 → magnitude (to_int w) ≤ 2 ^ 31
unfolding to_int
magnitude-to_int w h = elim (Bool-cases (ltb w (2 ^ 31))) [
  | inl e ↦ rw (e) (omega (arith, ltb→lt w (2 ^ 31) e))
  | inr e ↦ rw (e) (ground (arith, e))
]

module _ {D : Type 0} (ops : DoubleOps D) (junk : ℕ → ℕ) where
  -- What a directive prints into the separate buffer.
  abbrev Converts : ℕ → List (Arg D) → List (Arg D) → Piece → Type 0
  Converts c args args' p =
      (mc2 : MemChan) × (t : List ℕ) × (convert ops junk c no_options minus_one mc_alloc args
        ≡ some (mc2, args'))
      × Holds mc2 t
      × Says p t
      × (length t ≤ room_for p)

  convert-decimal :
      (w : ℕ) (args : List (Arg D)) → w < 2 ^ 32 → Converts b'd' (word w ∷ args) args (decimal w)
  unfolding convert
  convert-decimal w args h =
      let small = magnitude-to_int w h in
      let p =
        mc_signed-read_signed junk mc_alloc [] (to_int w) 10 false false false mc_alloc-Holds
          (omega arith) (omega arith) (omega arith) (omega (arith, small)) (omega (arith, small)) in
      (p.0, p.1, ap (λ o. with_rest o args) p.2, p.3, p.4, omega (arith, p.5))

  convert-unsigned :
      (w : ℕ) (args : List (Arg D)) → w < 2 ^ 32 → Converts b'u' (word w ∷ args) args (unsigned w)
  unfolding convert
  convert-unsigned w args h =
      let p =
        mc_unsigned-read_digits junk mc_alloc [] w 10 false mc_alloc-Holds (omega arith)
          (omega arith) (omega arith) (omega arith) in
      (p.0, p.1, ap (λ o. with_rest o args) p.2, p.3, p.4, omega (arith, p.6))

  convert-hex :
      (w : ℕ) (args : List (Arg D)) → w < 2 ^ 32 → Converts b'x' (word w ∷ args) args (hex w)
  unfolding convert
  convert-hex w args h =
      let p =
        mc_unsigned-read_digits junk mc_alloc [] w 16 false mc_alloc-Holds (omega arith)
          (omega arith) (omega arith) (omega arith) in
      (p.0, p.1, ap (λ o. with_rest o args) p.2, p.3, p.4, omega (arith, p.6))

  convert-str :
      (s : List ℕ) (args : List (Arg D))
      → length s < 2 ^ 31
      → Converts b's' (string s ∷ args) args (str s)
  unfolding convert
  convert-str s args h =
      let p = mc_puts-append junk mc_alloc [] s mc_alloc-Holds (omega arith) in
      (p.0, s, ap (λ o. with_rest o args) p.1, p.2, refl, omega arith)

  -- What a round of the loop does to a piece.
  abbrev Round : MemChan → List ℕ → Piece → ℕ → List Piece → Type 0
  Round mc s p fuel ps =
      (mc' : MemChan) × (t : List ℕ) × (vprintf_loop ops junk (suc fuel) mc (spelled p ++ format ps)
          (arguments D (p ∷ ps))
        ≡ vprintf_loop ops junk fuel mc' (format ps) (arguments D ps))
      × Holds mc' (s ++ t)
      × Says p t
      × (length t ≤ room_for p)

  directive-round :
      (mc : MemChan) (s : List ℕ) (c fuel : ℕ) (args : List (Arg D)) (p : Piece) (ps : List Piece)
      → Holds mc s
      → plain c ≡ true
      → length s + room_for p < 2 ^ 31
      → Converts c args (arguments D ps) p
      → (mc' : MemChan) × (t : List ℕ) × (vprintf_loop ops junk
            (suc fuel)
            mc
            (b'%' ∷ c ∷ format ps)
            args
          ≡ vprintf_loop ops junk fuel mc' (format ps) (arguments D ps))
        × Holds mc' (s ++ t)
        × Says p t
        × (length t ≤ room_for p)
  unfolding vprintf_loop
  directive-round mc s c fuel args p ps H pl room (mc2, t, e, H2, says, len) =
      let done =
        conversion-append ops junk mc mc2 s t c (format ps) args (arguments D ps) H H2
          (ground (arith, pl)) (omega arith) (omega arith) e in
      (
        done.0,
        t,
        ap (λ o. o >>= λ (mc', fmt', args'). vprintf_loop ops junk fuel mc' fmt' args')
            (directive-plain ops junk mc c (format ps) args pl ∙ done.1),
        done.2,
        says,
        len,
      )

  lit-Round :
      (mc : MemChan) (s : List ℕ) (c fuel : ℕ) (ps : List Piece)
      → Holds mc s
      → (c == b'%') ≡ false
      → length s + 66 < 2 ^ 31
      → Round mc s (lit c) fuel ps
  unfolding vprintf_loop
  lit-Round mc s c fuel ps H other room =
      let put = mc_put-append junk mc s (c ∷ []) H (omega arith) in
      (put.0, c ∷ [], rw (other, put.1) refl, put.2, refl, omega arith)

  piece-Round :
      (mc : MemChan) (s : List ℕ) (p : Piece) (fuel : ℕ) (ps : List Piece)
      → Holds mc s
      → IsPiece p
      → length s + room_for p < 2 ^ 31
      → Round mc s p fuel ps
  piece-Round mc s (lit c) fuel ps H ok room = lit-Round mc s c fuel ps H ok room
  piece-Round mc s (decimal w) fuel ps H ok room =
      directive-round mc s b'd' fuel _ (decimal w) ps H refl room
        (convert-decimal w (arguments D ps) ok)
  piece-Round mc s (unsigned w) fuel ps H ok room =
      directive-round mc s b'u' fuel _ (unsigned w) ps H refl room
        (convert-unsigned w (arguments D ps) ok)
  piece-Round mc s (hex w) fuel ps H ok room =
      directive-round mc s b'x' fuel _ (hex w) ps H refl room (convert-hex w (arguments D ps) ok)
  piece-Round mc s (str t) fuel ps H ok room =
      directive-round mc s b's' fuel _ (str t) ps H refl room (convert-str t (arguments D ps) ok)

spelled-length : (p : Piece) (fmt : List ℕ) → length fmt < length (spelled p ++ fmt)
spelled-length (lit c) fmt = omega arith
spelled-length (decimal w) fmt = omega arith
spelled-length (unsigned w) fmt = omega arith
spelled-length (hex w) fmt = omega arith
spelled-length (str s) fmt = omega arith

module _ {D : Type 0} (ops : DoubleOps D) (junk : ℕ → ℕ) where
  loop-SaysAll :
      (fuel : ℕ) (mc : MemChan) (s : List ℕ) (ps : List Piece)
      → Holds mc s
      → All IsPiece ps
      → length s + room_for_all ps < 2 ^ 31
      → length (format ps) ≤ fuel
      → (mc' : MemChan) × (t : List ℕ) × (vprintf_loop ops junk fuel mc (format ps) (arguments D ps)
          ≡ some mc')
        × Holds mc' (s ++ t)
        × SaysAll ps t
  unfolding vprintf_loop
  loop-SaysAll fuel mc s [] H ok room enough =
      (mc, [], refl, subst (Holds mc) (sym (append-nil s)) H, refl)
  loop-SaysAll zero mc s (p ∷ ps) H ok room enough =
      absurd (omega (arith, spelled-length p (format ps), enough))
  loop-SaysAll (suc fuel) mc s (p ∷ ps) H (ok, oks) room enough =
      let first = piece-Round ops junk mc s p fuel ps H ok (omega arith) in
      let rest =
        loop-SaysAll fuel first.0 (s ++ first.1) ps first.3 oks
          (omega (arith, length-append s first.1, first.5))
          (omega (arith, spelled-length p (format ps), enough)) in
      (
        rest.0,
        first.1 ++ rest.1,
        first.2 ∙ rest.2,
        subst (Holds rest.0) (append_assoc s first.1 rest.1) rest.3,
        (first.1, rest.1, refl, first.4, rest.4),
      )

  -- `mc_vprintf` on a format of characters and of the directives `%d`, `%u`, `%x` and `%s`, with an
  -- argument for each directive, ends and appends what the pieces say, one behind the other: each
  -- character and string itself, and for each number a numeral that reads back as the number.
  pub mc_vprintf-SaysAll :
      (mc : MemChan) (s : List ℕ) (ps : List Piece)
      → Holds mc s
      → All IsPiece ps
      → length s + room_for_all ps < 2 ^ 31
      → (mc' : MemChan) × (t : List ℕ) × (mc_vprintf ops junk mc (format ps) (arguments D ps)
          ≡ some mc')
        × Holds mc' (s ++ t)
        × SaysAll ps t
  unfolding mc_vprintf
  mc_vprintf-SaysAll mc s ps H ok room =
      loop-SaysAll (length (format ps)) mc s ps H ok room (omega arith)
