-- ===== src/Library/MemChan/Fields.antt =====
-- The fields of the formatted printing of `lib/memchan.c`: widths, adjustment and padding.
use cs4411_p.Base.{
  ℕ, zero, suc, ◌+◌, ◌-◌, ◌^◌, ◌≤◌, ◌<◌, ◌≡◌, refl, sym, ap, ◌∙◌, ◌⊎◌, inl, inr, false, ◌||◌, some,
  List, [], ◌∷◌, ◌++◌, arith, ◌==◌, ltb, Bool-cases, ltb→lt, if◌then◌else◌, length, take, ℤ, pos,
  negsuc, to_int-pos,
}
use cs4411_p.Base.{length-append}
use cs4411_p.Base.{◌>>=◌}
use mathlib.Core.Path.{subst}
use mathlib.Core.List.{append-nil, append_assoc}
use cs4411_p.Library.MemChan.{MemChan}
use cs4411_p.Library.MemChan.Append.{Holds, mc_put-append}
use cs4411_p.Library.MemChan.Format.{Options, limit, pad, put_padded, emit}

abbrev pub repeat : ℕ → ℕ → List ℕ
repeat zero c = []
repeat (suc n) c = c ∷ repeat n c

length-repeat : (n c : ℕ) → length (repeat n c) ≡ n
length-repeat zero c = refl
length-repeat (suc n) c = ap suc (length-repeat n c)

-- A text in a field of a width.
unfoldable pub field : Options → ℕ → List ℕ → List ℕ
field o width text =
    if o.left_adjust
    then text ++ repeat (width - length text) b' '
    else repeat (width - length text) (if o.zero_padding then b'0' else b' ') ++ text

minus_suc : (w p : ℕ) → p < suc w → suc (w - p) ≡ suc w - p
minus_suc w p h = omega arith

-- Nothing is left to pad.
no_repeat :
    {mc : MemChan} {s : List ℕ} (w p c : ℕ) → w ≤ p → Holds mc s → Holds mc (s ++ repeat (w - p) c)
no_repeat {mc} {s} w p c h H =
    let none_left : 0 ≡ w - p = omega arith in
    subst (λ n. Holds mc (s ++ repeat n c)) none_left (subst (Holds mc) (sym (append-nil s)) H)

-- The width that is left.
abbrev Left : ℕ → ℕ → ℕ → Type 0
Left w p w' = (w' ≡ w) × (w ≤ p) ⊎ ((w' ≡ p) × (p ≤ w))

Left-suc : (w p w' : ℕ) → p < suc w → Left w p w' → Left (suc w) p w'
Left-suc w p w' h (inl (e, l)) = inr (omega (arith, e), omega arith)
Left-suc w p w' h (inr (e, l)) = inr (e, omega arith)

pad-append :
    (junk : ℕ → ℕ) (p w c : ℕ) (mc : MemChan) (s : List ℕ)
    → Holds mc s
    → w < 2 ^ 31
    → length s + w < 2 ^ 32
    → (mc' : MemChan) × (w' : ℕ) × (pad junk mc (pos p) w c ≡ some (mc', w'))
      × Holds mc' (s ++ repeat (w - p) c)
      × Left w p w'
unfolding pad
pad-append junk p zero c mc s H small room =
    (mc, 0, ground arith, no_repeat 0 p c (omega arith) H, inl (refl, omega arith))
pad-append junk p (suc w) c mc s H small room =
    let first = mc_put-append junk mc s (c ∷ []) H (omega arith) in
    let rest =
      pad-append junk p w c first.0 (s ++ (c ∷ [])) first.2 (omega arith)
        (omega (arith, length-append s (c ∷ []))) in
    let int = to_int-pos (suc w) small in
    elim (Bool-cases (ltb p (suc w))) [
      | inl e ↦ (
        rest.0,
        rest.1,
        rw (int, e, first.1) rest.2,
        subst (Holds rest.0)
            (append_assoc s (c ∷ []) (repeat (w - p) c)
              ∙ ap (λ n. s ++ repeat n c) (minus_suc w p (ltb→lt p (suc w) e)))
            rest.3,
        Left-suc w p rest.1 (ltb→lt p (suc w) e) rest.4,
      )
      | inr e ↦ (
        mc,
        suc w,
        rw (int, e) refl,
        no_repeat (suc w) p c (ground (arith, e)) H,
        inl (refl, ground (arith, e)),
      )
    ]

-- How many of `n` bytes a precision lets through.
abbrev pub shown : ℕ → ℤ → ℕ
shown n (negsuc k) = n
shown n (pos k) = if ltb n k then n else k

pub limit-shown : (n : ℕ) (precision : ℤ) → n < 2 ^ 31 → limit n precision ≡ pos (shown n precision)
unfolding limit
limit-shown n (negsuc k) small = to_int-pos n small
limit-shown n (pos k) small = elim (Bool-cases (ltb n k)) [
  | inl e ↦ rw (to_int-pos n small, e) refl
  | inr e ↦ rw (to_int-pos n small, e) refl
]

pub shown-le : (n : ℕ) (precision : ℤ) → shown n precision ≤ n
shown-le n (negsuc k) = omega arith
shown-le n (pos k) = ground arith

put_padded-append :
    (junk : ℕ → ℕ) (mc : MemChan) (s text : List ℕ) (width p : ℕ)
    → Holds mc s
    → width < 2 ^ 31
    → length s + length text + width < 2 ^ 32
    → (mc' : MemChan) × (put_padded junk mc text (pos p) width ≡ some mc')
      × Holds mc' (s ++ (text ++ repeat (width - p) b' '))
unfolding put_padded
put_padded-append junk mc s text width p H small room =
    let put = mc_put-append junk mc s text H (omega arith) in
    let rest =
      pad-append junk p width b' ' put.0 (s ++ text) put.2 small
        (omega (arith, length-append s text)) in
    (
      rest.0,
      ap (λ o. o >>= λ mc'. pad junk mc' (pos p) width b' ' >>= λ (mc'', _). some mc'') put.1
          ∙ ap (λ o. o >>= λ (mc'', _). some mc'') rest.2,
      subst (Holds rest.0) (append_assoc s text (repeat (width - p) b' ')) rest.3,
    )

take-take : (p n : ℕ) (b : List ℕ) → p ≤ n → take p b ≡ take p (take n b)
take-take zero n b h = refl
take-take (suc p) zero b h = absurd (omega arith)
take-take (suc p) (suc n) [] h = refl
take-take (suc p) (suc n) (x ∷ b) h = ap (◌∷◌ x) (take-take p n b (omega arith))

pub length-take : (p : ℕ) (t : List ℕ) → p ≤ length t → length (take p t) ≡ p
length-take zero t h = refl
length-take (suc p) [] h = absurd (omega arith)
length-take (suc p) (x ∷ t) h = ap suc (length-take p t (omega arith))

-- The text in the separate buffer, cut to what the precision lets through.
take-content :
    {mc : MemChan} {t : List ℕ} (p : ℕ) → Holds mc t → p ≤ length t → take p mc.buf ≡ take p t
take-content {mc} p H h =
    take-take p mc.offset mc.buf (omega (arith, H.length_s, h)) ∙ ap (take p) H.content

Left-le : (w p w' m : ℕ) → Left w p w' → w < m → w' < m
Left-le w p w' m (inl (e, l)) h = omega (arith, e)
Left-le w p w' m (inr (e, l)) h = omega (arith, e, l)

Left-sum : (w p w' a : ℕ) → Left w p w' → a + (w - p) + p + w' ≤ a + p + w
Left-sum w p w' a (inl (e, l)) = omega (arith, e)
Left-sum w p w' a (inr (e, l)) = omega (arith, e, l)

Left-none : (w p w' : ℕ) → Left w p w' → w' ≤ p
Left-none w p w' (inl (e, l)) = omega (arith, e, l)
Left-none w p w' (inr (e, l)) = omega (arith, e)

-- Padded in front, nothing is left to pad behind.
front_only :
    (mc : MemChan) (s r t : List ℕ) (w p w' : ℕ)
    → Left w p w'
    → Holds mc ((s ++ r) ++ (t ++ repeat (w' - p) b' '))
    → Holds mc (s ++ (r ++ t))
front_only mc s r t w p w' left H =
    let none_left : w' - p ≡ 0 = omega (arith, Left-none w p w' left) in
    subst (Holds mc)
      (ap (λ n. (s ++ r) ++ (t ++ repeat n b' ')) none_left
        ∙ ap (λ l. (s ++ r) ++ l) (append-nil t)
        ∙ append_assoc s r t)
      H

-- The padding in front, then the text.
padded_front :
    (junk : ℕ → ℕ) (mc : MemChan) (s text : List ℕ) (width fill : ℕ)
    → Holds mc s
    → width < 2 ^ 31
    → length s + length text + width < 2 ^ 32
    → (mc' : MemChan) × ((pad junk mc (pos (length text)) width fill >>= λ (mc1, width').
          put_padded junk mc1 text (pos (length text)) width')
        ≡ some mc')
      × Holds mc' (s ++ (repeat (width - length text) fill ++ text))
padded_front junk mc s text width fill H small room =
    let p = length text in
    let front = pad-append junk p width fill mc s H small (omega arith) in
    let put =
      put_padded-append junk front.0 (s ++ repeat (width - p) fill) text front.1 p front.3
        (Left-le width p front.1 (2 ^ 31) front.4 small)
        (omega (
          arith,
          Left-sum width p front.1 (length s) front.4,
          length-append s (repeat (width - p) fill),
          length-repeat (width - p) fill,
          room,
        )) in
    (
      put.0,
      ap (λ o. o >>= λ (mc1, width'). put_padded junk mc1 text (pos p) width') front.2 ∙ put.1,
      front_only put.0 s (repeat (width - p) fill) text width p front.1 front.4 put.2,
    )

-- The copy, for a text of its own.
emit-text :
    (junk : ℕ → ℕ) (mc mc2 : MemChan) (s text : List ℕ) (c : ℕ) (o : Options) (width : ℕ)
    → Holds mc s
    → take (length text) mc2.buf ≡ text
    → (c == b'f' || c == b'F') ≡ false
    → width < 2 ^ 31
    → length s + length text + width < 2 ^ 32
    → (mc' : MemChan) × (emit junk mc mc2 c o width (pos (length text)) ≡ some mc')
      × Holds mc' (s ++ field o width text)
unfolding emit field
emit-text junk mc mc2 s text c o width H e2 other small room = elim (Bool-cases o.left_adjust) [
  | inl e ↦
      let put = put_padded-append junk mc s text width (length text) H small (omega arith) in
      (put.0, rw (e, other, e2) put.1, rw (e) put.2)
  | inr e ↦
      let put =
        padded_front junk mc s text width (if o.zero_padding then b'0' else b' ') H small room in
      (put.0, rw (e, other, e2) put.1, rw (e) put.2)
]

-- The copy from the separate buffer, for any conversion but `f` and `F`, a precision of at most the
-- length of its text, a width below 2 ^ 31, and less than 2 ^ 32 bytes of both channels and the
-- width together: appends the first bytes of the text, as many as the precision says, padded to the
-- width: behind it with spaces if `-` is among the options, in front of it with spaces, or with 0s
-- if `0` is, otherwise.
pub emit-field :
    (junk : ℕ → ℕ) (mc mc2 : MemChan) (s t : List ℕ) (c : ℕ) (o : Options) (width p : ℕ)
    → Holds mc s
    → Holds mc2 t
    → (c == b'f' || c == b'F') ≡ false
    → p ≤ length t
    → width < 2 ^ 31
    → length s + length t + width < 2 ^ 32
    → (mc' : MemChan) × (emit junk mc mc2 c o width (pos p) ≡ some mc')
      × Holds mc' (s ++ field o width (take p t))
emit-field junk mc mc2 s t c o width p H H2 other h small room =
    let len = length-take p t h in
    let content = take-content p H2 h in
    let put =
      emit-text junk mc mc2 s (take p t) c o width H (ap (λ n. take n mc2.buf) len ∙ content) other
        small (omega (arith, len)) in
    (put.0, ap (λ n. emit junk mc mc2 c o width (pos n)) (sym len) ∙ put.1, put.2)
