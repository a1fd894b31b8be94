-- ===== src/Server/Files/Spans.antt =====
-- Consecutive blocks read through `apps/bfs.c`.
use cs4411_p.Base.{
  ℕ, zero, suc, ◌+◌, ◌%◌, ◌^◌, ◌<◌, ◌≡◌, refl, sym, ap, ◌∙◌, false, not, ◌&&◌, none, some, List, [],
  ◌∷◌, arith, ◌==◌, if◌then◌else◌, length,
}
use cs4411_p.Block.Store.{Store, IsDisk, View, Same}
use cs4411_p.Server.Blocks.{
  Block, block_size, block_read, zeros, block_do_read, block_in, read_reply,
}
use cs4411_p.Server.Files.{read_blocks, after_block, multiblock_read}
use cs4411_p.Server.Files.Bytes.{Held, Full, plus_zero, plus_suc}

-- The blocks of an inode from `first` on, `n` of them, are there and have the size of a block.
abbrev pub Present : View Block → ℕ → ℕ → ℕ → Type 0
Present v ino first n =
    (k : ℕ) → k < n → (b : Block) × (v ino (first + k) ≡ some b) × (length b ≡ block_size)

-- The blocks behind the first one.
rest_Present :
    (v w : View Block) (ino first n : ℕ)
    → Same w v
    → Present v ino first (suc n)
    → Present w ino (first + 1) n
rest_Present v w ino first n same P k h =
    let (b, e, l) = P (suc k) (omega arith) in
    (b, same ino (first + 1 + k) ∙ ap (v ino) (plus_suc first k) ∙ e, l)

first_Held :
    (v w : View Block) (ino first : ℕ) (b : Block) (bs : List Block)
    → v ino first ≡ some b
    → Same w v
    → Held w ino (first + 1) bs
    → Held v ino first (b ∷ bs)
first_Held v w ino first b bs e same held zero h = ap (v ino) (sym (plus_zero first)) ∙ e
first_Held v w ino first b bs e same held (suc k) h =
    ap (v ino) (sym (plus_suc first k)) ∙ sym (same ino (first + 1 + k)) ∙ held k (omega arith)

module _ (D : Store Block) (I : IsDisk D) where
  block_read-some :
      (s : D.State) (ino o : ℕ) (b : Block)
      → I.Valid s
      → I.view s ino o ≡ some b
      → (s' : D.State) × (block_read D s ino o ≡ (some b, s'))
        × I.Valid s'
        × Same (I.view s') (I.view s)
  unfolding block_read block_do_read
  block_read-some s ino o b V e =
      let law = I.read_some s ino o (zeros block_size) b V e in
      let s' = (D.read s ino o (zeros block_size)).2 in
      (
        s',
        ap (λ r. (block_in (read_reply r (D.read s ino o (zeros block_size)).1), s')) law.0
            ∙ ap (λ buffer. (some buffer, s')) law.1,
        law.2,
        law.3,
      )

  -- The loop reads all blocks that are there.
  read_blocks-Held :
      (n : ℕ) (s : D.State) (ino first : ℕ)
      → I.Valid s
      → Present (I.view s) ino first n
      → first + n < 2 ^ 32
      → (bs : List Block) × (s' : D.State) × (read_blocks D s ino first n ≡ (bs, s'))
        × I.Valid s'
        × Same (I.view s') (I.view s)
        × (length bs ≡ n)
        × Held (I.view s) ino first bs
        × Full bs
  unfolding read_blocks
  read_blocks-Held zero s ino first V P room =
      ([], s, refl, V, λ j p. refl, refl, λ k h. absurd (omega arith), tt)
  read_blocks-Held (suc n) s ino first V P room =
      let now = P 0 (omega arith) in
      let here : I.view s ino first ≡ some now.0 =
        ap (λ k. I.view s ino k) (plus_zero first) ∙ now.1 in
      let r = block_read-some s ino first now.0 V here in
      let wrap : (first + 1) % 2 ^ 32 ≡ first + 1 = omega arith in
      let rest =
        read_blocks-Held n r.0 ino (first + 1) r.2
          (rest_Present (I.view s) (I.view r.0) ino first n r.3 P) (omega arith) in
      (
        now.0 ∷ rest.0,
        rest.1,
        ap (λ r. after_block r.0 r.1 (read_blocks D r.1 ino ((first + 1) % 2 ^ 32) n)) r.1
            ∙ ap (λ o. after_block (some now.0) r.0 (read_blocks D r.0 ino o n)) wrap
            ∙ ap (after_block (some now.0) r.0) rest.2,
        rest.3,
        λ j p. rest.4 j p ∙ r.3 j p,
        ap suc rest.5,
        first_Held (I.view s) (I.view r.0) ino first now.0 rest.0 here r.3 rest.6,
        (now.2, rest.7),
      )

  pub multiblock_read-Held :
      (n : ℕ) (s : D.State) (ino first : ℕ)
      → I.Valid s
      → Present (I.view s) ino first n
      → first + n < 2 ^ 32
      → 0 < n
      → (bs : List Block) × (s' : D.State) × (multiblock_read D s ino first n ≡ (some bs, s'))
        × I.Valid s'
        × Same (I.view s') (I.view s)
        × (length bs ≡ n)
        × Held (I.view s) ino first bs
        × Full bs
  unfolding multiblock_read
  multiblock_read-Held n s ino first V P room some_of =
      let r = read_blocks-Held n s ino first V P room in
      let not_none : (length r.0 == 0 && not (n == 0)) ≡ false = ground (arith, r.5, some_of) in
      (
        r.0,
        r.1,
        ap (λ o. (if length o.0 == 0 && not (n == 0) then none else some o.0, o.1)) r.2
            ∙ ap (λ b. (if b then none else some r.0, r.1)) not_none,
        r.3,
        r.4,
        r.5,
        r.6,
        r.7,
      )
