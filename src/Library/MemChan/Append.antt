-- ===== src/Library/MemChan/Append.antt =====
-- What `lib/memchan.c` appends to a memory channel.
use cs4411_p.Base.{
  ℕ, zero, suc, ◌+◌, ◌%◌, ◌^◌, ◌≤◌, ◌<◌, ◌≡◌, refl, sym, ap, ◌∙◌, inl, inr, false, some, List, [],
  ◌∷◌, ◌++◌, arith, ltb, Bool-cases, length, take,
}
use cs4411_p.Base.{length-append}
use mathlib.Core.Path.{subst}
use mathlib.Core.List.{append-nil, append_assoc}
use cs4411_p.System.RamFile.{resize, copy_in}
use cs4411_p.System.RamFile.Content.{length-resize, length-copy_in}
use cs4411_p.Library.MemChan.{
  MemChan, mc_alloc, grown_size, make_room, copy_behind, mc_put, mc_puts,
}

-- A memory channel that holds a string.
pub record Holds (mc : MemChan) (s : List ℕ) : Type 0 where
  pub length_buf : length mc.buf ≡ mc.size
  pub fits : mc.offset ≤ mc.size
  pub small : mc.size < 2 ^ 32
  pub length_s : length s ≡ mc.offset
  pub content : take mc.offset mc.buf ≡ s

take-resize :
    (junk : ℕ → ℕ) (o n : ℕ) (b : List ℕ)
    → o ≤ length b
    → o ≤ n
    → take o (resize junk b n) ≡ take o b
unfolding resize
take-resize junk zero n b h k = refl
take-resize junk (suc o) n [] h k = absurd (omega arith)
take-resize junk (suc o) zero (x ∷ b) h k = absurd (omega arith)
take-resize junk (suc o) (suc n) (x ∷ b) h k =
    ap (◌∷◌ x) (take-resize junk o n b (omega arith) (omega arith))

take-copy_in :
    (b : List ℕ) (o : ℕ) (bs : List ℕ) (n : ℕ)
    → n ≡ o + length bs
    → n ≤ length b
    → take n (copy_in b o bs) ≡ take o b ++ bs
unfolding copy_in
take-copy_in b zero [] zero e h = refl
take-copy_in b zero [] (suc n) e h = absurd (omega arith)
take-copy_in b zero (d ∷ bs) zero e h = absurd (omega arith)
take-copy_in [] zero (d ∷ bs) (suc n) e h = absurd (omega arith)
take-copy_in (x ∷ b) zero (d ∷ bs) (suc n) e h =
    ap (◌∷◌ d) (take-copy_in b zero bs n (omega arith) (omega arith))
take-copy_in b (suc o) bs zero e h = absurd (omega arith)
take-copy_in [] (suc o) bs (suc n) e h = absurd (omega arith)
take-copy_in (x ∷ b) (suc o) bs (suc n) e h =
    ap (◌∷◌ x) (take-copy_in b o bs n (omega arith) (omega arith))

grown_size-fits :
    (size need : ℕ)
    → need < 2 ^ 32
    → (need ≤ grown_size size need) × (grown_size size need < 2 ^ 32)
unfolding grown_size
grown_size-fits size need h = ground arith

make_room-Holds :
    (junk : ℕ → ℕ) (mc : MemChan) (s : List ℕ) (need : ℕ)
    → Holds mc s
    → mc.offset ≤ need
    → need < 2 ^ 32
    → let mc' = make_room junk mc need in Holds mc' s × (need ≤ mc'.size) × (mc'.offset ≡ mc.offset)
unfolding make_room
make_room-Holds junk mc s need H h k =
    let fit = grown_size-fits mc.size need k in
    elim (Bool-cases (ltb mc.size need)) [
      | inl e ↦ rw (e) (
        record {
          length_buf = length-resize junk mc.buf (grown_size mc.size need);
          fits = omega (arith, fit.0, h);
          small = fit.1;
          length_s = H.length_s;
          content =
              take-resize junk mc.offset (grown_size mc.size need) mc.buf
                (omega (arith, H.length_buf, H.fits)) (omega (arith, fit.0, h))
              ∙ H.content;
        },
        fit.0,
        refl,
      )
      | inr e ↦ rw (e) (H, ground (arith, e), refl)
    ]

-- The bytes are copied behind the string if there is room.
copy_behind-Holds :
    (mc : MemChan) (s bs : List ℕ)
    → Holds mc s
    → mc.offset + length bs ≤ mc.size
    → (mc' : MemChan) × (copy_behind mc bs ≡ some mc') × Holds mc' (s ++ bs)
unfolding copy_behind
copy_behind-Holds mc s bs H h =
    let wrap : (mc.offset + length bs) % 2 ^ 32 ≡ mc.offset + length bs = ground (arith, H.small) in
    let inside : ltb (length mc.buf) (mc.offset + length bs) ≡ false =
      ground (arith, H.length_buf) in
    (
      record mc { buf = copy_in mc.buf mc.offset bs; offset = mc.offset + length bs },
      rw (inside, wrap) refl,
      record {
        length_buf = length-copy_in mc.buf mc.offset bs ∙ H.length_buf;
        fits = h;
        small = H.small;
        length_s = length-append s bs ∙ ap (λ n. n + length bs) H.length_s;
        content =
            take-copy_in mc.buf mc.offset bs (mc.offset + length bs) refl
              (omega (arith, H.length_buf, h))
            ∙ ap (λ t. t ++ bs) H.content;
      },
    )

-- `mc_put` on a memory channel that holds a string writes inside its buffer, and leaves a channel
-- that holds the string with the bytes behind it and whose buffer has its size, if both have less
-- than 2 ^ 32 bytes.
pub mc_put-append :
    (junk : ℕ → ℕ) (mc : MemChan) (s bs : List ℕ)
    → Holds mc s
    → length s + length bs < 2 ^ 32
    → (mc' : MemChan) × (mc_put junk mc bs ≡ some mc') × Holds mc' (s ++ bs)
unfolding mc_put
mc_put-append junk mc s bs H h =
    let need = (mc.offset + length bs) % 2 ^ 32 in
    let wrap : need ≡ mc.offset + length bs = ground (arith, H.length_s) in
    let room =
      make_room-Holds junk mc s need H (omega (arith, wrap)) (omega (arith, wrap, H.length_s, h)) in
    copy_behind-Holds (make_room junk mc need) s bs room.0 (omega (arith, wrap, room.1, room.2))

pub mc_puts-append :
    (junk : ℕ → ℕ) (mc : MemChan) (s cs : List ℕ)
    → Holds mc s
    → length s + length cs < 2 ^ 32
    → (mc' : MemChan) × (mc_puts junk mc cs ≡ some mc') × Holds mc' (s ++ cs)
unfolding mc_puts
mc_puts-append junk mc s [] H h = (mc, refl, subst (Holds mc) (sym (append-nil s)) H)
mc_puts-append junk mc s (c ∷ cs) H h =
    let first = mc_put-append junk mc s (c ∷ []) H (omega arith) in
    let rest =
      mc_puts-append junk first.0 (s ++ (c ∷ [])) cs first.2
        (omega (arith, length-append s (c ∷ []))) in
    (rest.0, rw (first.1) rest.1, subst (Holds rest.0) (append_assoc s (c ∷ []) cs) rest.2)

-- A new memory channel holds the empty string.
pub mc_alloc-Holds : Holds mc_alloc []
mc_alloc-Holds = record {
  length_buf = refl;
  fits = omega arith;
  small = omega arith;
  length_s = refl;
  content = refl;
}
