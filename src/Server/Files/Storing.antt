-- ===== src/Server/Files/Storing.antt =====
-- Consecutive blocks written through `apps/bfs.c`.
use cs4411_p.Base.{
  ℕ, zero, suc, ◌+◌, ◌-◌, ◌*◌, ◌/◌, ◌%◌, ◌^◌, ◌≤◌, ◌<◌, ◌≡◌, refl, sym, ap, ◌∙◌, Bool, true, false,
  ◌&&◌, some, List, [], ◌∷◌, ◌++◌, arith, ◌==◌, ltb, leb, if◌then◌else◌, length, take, drop, is_neg,
}
use mathlib.Core.Path.{subst}
use cs4411_p.Block.Store.{Store, IsDisk, View, Same, put}
use cs4411_p.Server.Blocks.{
  Block, block_size, block_write, block_do_write, block_ok, block_error, is_block_ok,
}
use cs4411_p.Server.Files.{
  chunks, flat, memory, image, multiblock_write, Fss, Layout, flush_fcb_cache,
}
use cs4411_p.Server.Files.Bytes.{Held, Full, plus_zero, plus_suc}

-- There is a block at each offset from `first` on, `n` of them.
abbrev pub Exist : View Block → ℕ → ℕ → ℕ → Type 0
Exist v ino first n = (k : ℕ) → k < n → (b : Block) × (v ino (first + k) ≡ some b)

-- The test that a block is one of `n` from `first` on.
abbrev pub among : ℕ → ℕ → ℕ → ℕ → ℕ → Bool
among ino first n j p = j == ino && leb first p && ltb p (first + n)

-- The other blocks are as they were.
abbrev pub Others : View Block → View Block → ℕ → ℕ → ℕ → Type 0
Others v w ino first n = (j p : ℕ) → among ino first n j p ≡ false → w j p ≡ v j p

put_self : (v : View Block) (ino o : ℕ) (b : Block) → put v ino o b ino o ≡ some b
put_self v ino o b = ground arith

put_other :
    (v : View Block) (ino o j p : ℕ) (b : Block)
    → (j == ino && p == o) ≡ false
    → put v ino o b j p ≡ v j p
put_other v ino o j p b e = rw (e) refl

cons_Held :
    (u : View Block) (ino first : ℕ) (b : Block) (bs : List Block)
    → u ino first ≡ some b
    → Held u ino (first + 1) bs
    → Held u ino first (b ∷ bs)
cons_Held u ino first b bs e held zero h = ap (u ino) (sym (plus_zero first)) ∙ e
cons_Held u ino first b bs e held (suc k) h =
    ap (u ino) (sym (plus_suc first k)) ∙ held k (omega arith)

-- Cutting bytes into blocks.
pub length-chunks : (n : ℕ) (bytes : List ℕ) → length (chunks n bytes) ≡ n
unfolding chunks
length-chunks zero bytes = refl
length-chunks (suc n) bytes = ap suc (length-chunks n (drop block_size bytes))

length-take_of : (n : ℕ) (l : List ℕ) → n ≤ length l → length (take n l) ≡ n
length-take_of zero l h = refl
length-take_of (suc n) [] h = absurd (omega arith)
length-take_of (suc n) (x ∷ l) h = ap suc (length-take_of n l (omega arith))

length-drop_of : (n r : ℕ) (l : List ℕ) → length l ≡ n + r → length (drop n l) ≡ r
length-drop_of zero r l h = omega (arith, h)
length-drop_of (suc n) r [] h = absurd (omega (arith, h))
length-drop_of (suc n) r (x ∷ l) h = length-drop_of n r l (omega (arith, h))

take-drop : (n : ℕ) (l : List ℕ) → take n l ++ drop n l ≡ l
take-drop zero l = refl
take-drop (suc n) [] = refl
take-drop (suc n) (x ∷ l) = ap (◌∷◌ x) (take-drop n l)

empty_of : (l : List ℕ) → length l ≡ 0 → [] ≡ l
empty_of [] h = refl
empty_of (x ∷ l) h = absurd (omega (arith, h))

pub chunks-Full : (n : ℕ) (bytes : List ℕ) → length bytes ≡ n * block_size → Full (chunks n bytes)
unfolding chunks
chunks-Full zero bytes h = tt
chunks-Full (suc n) bytes h =
    let rest = length-drop_of block_size (n * block_size) bytes (omega (arith, h)) in
    (length-take_of block_size bytes (omega (arith, h)), chunks-Full n (drop block_size bytes) rest)

pub flat-chunks :
    (n : ℕ) (bytes : List ℕ) → length bytes ≡ n * block_size → flat (chunks n bytes) ≡ bytes
unfolding chunks
flat-chunks zero bytes h = empty_of bytes (omega (arith, h))
flat-chunks (suc n) bytes h =
    let rest = length-drop_of block_size (n * block_size) bytes (omega (arith, h)) in
    ap (λ l. take block_size bytes ++ l) (flat-chunks n (drop block_size bytes) rest)
    ∙ take-drop block_size bytes

module _ (D : Store Block) (I : IsDisk D) where
  block_write-some :
      (s : D.State) (ino o : ℕ) (b v : Block)
      → I.Valid s
      → I.view s ino o ≡ some v
      → (s' : D.State) × (block_write D s ino o b ≡ (true, s'))
        × I.Valid s'
        × Same (I.view s') (put (I.view s) ino o b)
  unfolding block_write block_do_write
  block_write-some s ino o b v V e =
      let law = I.write_some s ino o b v V e in
      let s' = (D.write s ino o b).1 in
      (
        s',
        ap (λ r. (is_block_ok (if is_neg r then block_error else block_ok), s')) law.0,
        law.1,
        law.2,
      )

  pub multiblock_write-Held :
      (bs : List Block) (s : D.State) (ino first : ℕ)
      → I.Valid s
      → Exist (I.view s) ino first (length bs)
      → first + length bs < 2 ^ 32
      → (s' : D.State) × (multiblock_write D s ino first bs ≡ (true, s'))
        × I.Valid s'
        × Held (I.view s') ino first bs
        × Others (I.view s) (I.view s') ino first (length bs)
  unfolding multiblock_write
  multiblock_write-Held [] s ino first V E room =
      (s, refl, V, λ k h. absurd (omega arith), λ j p h. refl)
  multiblock_write-Held (b ∷ bs) s ino first V E room =
      let here : I.view s ino first ≡ some (E 0 (omega arith)).0 =
        ap (I.view s ino) (plus_zero first) ∙ (E 0 (omega arith)).1 in
      let w = block_write-some s ino first b (E 0 (omega arith)).0 V here in
      let wrap : (first + 1) % 2 ^ 32 ≡ first + 1 = omega arith in
      let rest =
        multiblock_write-Held bs w.0 ino (first + 1) w.2
          (λ k h.
            let e = E (suc k) (omega arith) in
            (
              e.0,
              w.3 ino (first + 1 + k)
                  ∙ put_other (I.view s) ino first ino (first + 1 + k) b (ground arith)
                  ∙ ap (I.view s ino) (plus_suc first k)
                  ∙ e.1,
            ))
          (omega arith) in
      (
        rest.0,
        ap (λ r. if r.0 then multiblock_write D r.1 ino ((first + 1) % 2 ^ 32) bs else (false, r.1))
              w.1
            ∙ ap (λ o. multiblock_write D w.0 ino o bs) wrap
            ∙ rest.1,
        rest.2,
        cons_Held (I.view rest.0) ino first b bs
            (rest.4 ino first (ground arith) ∙ w.3 ino first ∙ put_self (I.view s) ino first b)
            rest.3,
        λ j p h.
            rest.4 j p (ground (arith, h))
            ∙ w.3 j p
            ∙ put_other (I.view s) ino first j p b (ground (arith, h)),
      )

  -- What `flush_fcb_cache` writes is in inode 0.
  pub flush-Others :
      (L : Layout) (fss : Fss D L) (n : ℕ)
      → I.Valid fss.block_svr
      → let start = n * L.fcb_size / block_size in
        let count = ((n + 1) * L.fcb_size - 1) / block_size + 1 in
        Exist (I.view fss.block_svr) 0 start count
        → start + count < 2 ^ 32
        → let fss' = flush_fcb_cache D L fss n in
          I.Valid fss'.block_svr
          × ((j p : ℕ) → (j == 0) ≡ false → I.view fss'.block_svr j p ≡ I.view fss.block_svr j p)
          × (fss'.fcb_cache ≡ fss.fcb_cache)
  unfolding flush_fcb_cache
  flush-Others L fss n V E room =
      let start = n * L.fcb_size / block_size in
      let count = ((n + 1) * L.fcb_size - 1) / block_size + 1 in
      let bytes =
        memory (image D L fss.fcb_cache) L.beyond (start * block_size) (count * block_size) in
      let len = length-chunks count bytes in
      let w =
        multiblock_write-Held (chunks count bytes) fss.block_svr 0 start V
          (λ k h. E k (omega (arith, h, len))) (omega (arith, room, len)) in
      let same = ap (λ r. r.1) w.1 in
      (
        subst I.Valid (sym same) w.2,
        λ j p h. ap (λ s. I.view s j p) same ∙ w.4 j p (ground (arith, h)),
        refl,
      )
