-- ===== src/Block/Tree/Alloc.antt =====
-- `treedisk_alloc_block` of block/treedisk.c, against the blocks on the free list.
use cs4411_p.Base.{
  ℕ, suc, ◌+◌, ◌-◌, ◌≤◌, ◌<◌, ◌≡◌, refl, sym, ap, ◌∙◌, ◌≢◌, inl, inr, false, some, List, [], ◌∷◌,
  ◌++◌, arith, ◌==◌, ==_refl, ==_iff, if◌then◌else◌, length, get_or, set, pos,
}
use cs4411_p.Block.Store.{Store, IsDisk}
use cs4411_p.Block.Tree.{
  Block, TreeState, Snapshot, word, free_list, set_free_list, null_block, last_ref, alloc_block,
  ◌>>=◌, ◌>>◌,
}
use cs4411_p.Block.Tree.Freelist.{
  FreeList, empty, linked, occurrences, nonzero, FreeList-of_agree, occurrences-append, contents,
}
use cs4411_p.Block.Tree.Refs.{
  last_ref-cases, nonzero_none, get_or-set, occurrences-set, FreeList-nonzero, FreeList-at,
}

module _ (D : Store Block) (d : IsDisk D) where
  -- Block `b` was taken from the free list `xs`.
  pub record Taken (xs : List ℕ) (ts ts' : TreeState D.State) (sn' : Snapshot) (b : ℕ)
      : Type 0 where
    pub rest : List ℕ
    pub free : FreeList (contents D d ts') (free_list sn'.superblock) rest
    pub one_less : (m : ℕ) → occurrences m rest + (if b == m then 1 else 0) ≡ occurrences m xs
    pub below_valid : d.Valid ts'.below
    pub superblock : contents D d ts' 0 ≡ some sn'.superblock
    pub kept : (m : ℕ) → 0 < m → occurrences m xs ≡ 0 → contents D d ts' m ≡ contents D d ts m

  abbrev after_read : TreeState D.State → ℕ → TreeState D.State
  after_read ts p = record ts { below = (D.read ts.below ts.below_ino p null_block).2 }

  abbrev after_write : TreeState D.State → ℕ → Block → TreeState D.State
  after_write ts p blk = record ts { below = (D.write ts.below ts.below_ino p blk).1 }

  alloc-head :
      (sn : Snapshot) (ts : TreeState D.State) (blk : Block)
      → let b = free_list sn.superblock in
        let sn' = set_free_list sn (word blk 0) in
        let ts1 = after_read ts b in
        (b == 0) ≡ false
        → (D.read ts.below ts.below_ino b null_block).0 ≡ pos 0
        → (D.read ts.below ts.below_ino b null_block).1 ≡ blk
        → last_ref blk 256 ≡ 0
        → (D.write ts1.below ts.below_ino 0 sn'.superblock).0 ≡ pos 0
        → alloc_block D sn ts ≡ some ((b, sn'), after_write ts1 0 sn'.superblock)
  unfolding alloc_block
  alloc-head sn ts blk nz r got z w = rw (nz, ◌>>=◌, r) (rw (got, z) (rw (◌>>◌, ◌>>=◌, w) refl))

  alloc-ref :
      (sn : Snapshot) (ts : TreeState D.State) (blk : Block) (i : ℕ)
      → let b = free_list sn.superblock in
        let ts1 = after_read ts b in
        (b == 0) ≡ false
        → (D.read ts.below ts.below_ino b null_block).0 ≡ pos 0
        → (D.read ts.below ts.below_ino b null_block).1 ≡ blk
        → last_ref blk 256 ≡ i
        → (i == 0) ≡ false
        → (D.write ts1.below ts.below_ino b (set blk i 0)).0 ≡ pos 0
        → alloc_block D sn ts ≡ some ((word blk i, sn), after_write ts1 b (set blk i 0))
  unfolding alloc_block
  alloc-ref sn ts blk i nz r got z iz w =
      rw (nz, ◌>>=◌, r) (rw (got, z) (rw iz (rw (◌>>◌, ◌>>=◌, w) refl)))

  put-other :
      (ts : TreeState D.State) (o : ℕ) (blk : Block)
      → d.Valid ts.below
      → (x : Block) → contents D d ts o ≡ some x
      → (m : ℕ) → m ≢ o
      → contents D d (after_write ts o blk) m ≡ contents D d ts m
  put-other ts o blk ok x e m h =
      let (_, _, new) = d.write_some ts.below ts.below_ino o blk x ok e in
      ground (arith, new ts.below_ino m, h, ==_iff m o)

  abbrev Result : List ℕ → Snapshot → TreeState D.State → Type 0
  Result xs sn ts =
      (b : ℕ) × (sn' : Snapshot) × (ts' : TreeState D.State) × (alloc_block D sn ts
        ≡ some ((b, sn'), ts'))
      × Taken xs ts ts' sn' b

  alloc-list :
      (sn : Snapshot) (ts : TreeState D.State) (h : ℕ) (xs : List ℕ)
      → d.Valid ts.below
      → contents D d ts 0 ≡ some sn.superblock
      → 1 < length sn.superblock
      → free_list sn.superblock ≡ h
      → FreeList (contents D d ts) h xs
      → ((m : ℕ) → occurrences m xs ≤ 1)
      → ((p : ℕ) (blk : Block) → contents D d ts p ≡ some blk → length blk ≡ 256)
      → 0 < length xs
      → Result xs sn ts
  alloc-list sn ts _ _ ok sb long q empty once words some' = absurd (omega (arith, some'))
  alloc-list sn ts _ _ ok sb long q (linked b [] rest p e l) once words some' =
      absurd (omega (arith, words b [] e))
  alloc-list sn ts _ _ ok sb long q (linked b (w0 ∷ ws) rest p e l) once words some' =
      let blk : Block = w0 ∷ ws in
      let ino = ts.below_ino in
      let hd = free_list sn.superblock in
      let nz : (hd == 0) ≡ false = ground (arith, q, p) in
      let there : contents D d ts hd ≡ some blk = rw q e in
      let (r, got, ok1, same) = d.read_some ts.below ino hd null_block blk ok there in
      let ts1 = after_read ts hd in
      let count : length ws ≡ 255 = omega (arith, words b blk e) in
      elim (last_ref-cases blk 255) [
        | inl (z, f) ↦
            let sn' = set_free_list sn w0 in
            let none' = nonzero_none ws (λ j g. f (suc j) (omega arith) (omega (arith, count))) in
            let (w, ok2, new) =
              d.write_some ts1.below ino 0 sn'.superblock sn.superblock ok1 (same ino 0 ∙ sb) in
            (
              hd,
              sn',
              after_write ts1 0 sn'.superblock,
              alloc-head sn ts blk nz r got z w,
              record {
                rest = rest;
                free = FreeList-at _ _ w0 _ (get_or-set sn.superblock 1 w0 long) (
                    FreeList-of_agree (contents D d ts) _ w0 rest l (λ m g.
                      put-other ts1 0 sn'.superblock ok1 _ (same ino 0 ∙ sb) m
                        (ground (arith, FreeList-nonzero (contents D d ts) w0 rest l, g))
                      ∙ same ino m));
                one_less = λ m.
                    ground
                      (arith, q, occurrences-append m (nonzero ws) rest, ap (occurrences m) none');
                below_valid = ok2;
                superblock = new ino 0 ∙ ground (arith, ==_refl ino);
                kept = λ m g h.
                    put-other ts1 0 sn'.superblock ok1 _ (same ino 0 ∙ sb) m (ground arith)
                    ∙ same ino m;
              },
            )
        | inr (z, y, ne) ↦
            let k = last_ref blk 256 - 1 in
            let at : last_ref blk 256 ≡ suc k = omega (arith, z) in
            let ne' : get_or ws k 0 ≢ 0 = λ h. ne (rw at h) in
            let old : Block = w0 ∷ set ws k 0 in
            let (w, ok2, new) = d.write_some ts1.below ino hd old blk ok1 (same ino hd ∙ there) in
            let total = λ (m : ℕ). occurrences-append m (nonzero ws) rest in
            let total' = λ (m : ℕ). occurrences-append m (nonzero (set ws k 0)) rest in
            let gone : occurrences b rest ≡ 0 = ground (arith, once b, total b, ==_refl b) in
            let other = put-other ts1 hd old ok1 blk (same ino hd ∙ there) in
            (
              get_or ws k 0,
              sn,
              after_write ts1 hd old,
              alloc-ref sn ts blk (suc k) nz r got at (ground arith) w,
              record {
                rest = b ∷ (nonzero (set ws k 0) ++ rest);
                free = FreeList-at _ hd b _ q (
                    linked b old rest p
                      (rw (sym q) (new ino hd ∙ ground (arith, ==_refl ino, ==_refl hd)))
                      (FreeList-of_agree (contents D d ts) _ w0 rest l (λ m g.
                        other m (λ u. ground (arith, gone, g, ap (λ z. occurrences z rest) (u ∙ q)))
                        ∙ same ino m)));
                one_less = λ m. omega (arith, total m, total' m, occurrences-set m ws k ne');
                below_valid = ok2;
                superblock = other 0 (λ u. omega (arith, p, u, q)) ∙ (same ino 0 ∙ sb);
                kept = λ m g h. other m (ground (arith, h, q, ==_iff b m)) ∙ same ino m;
              },
            )
      ]

  -- Over a store that keeps the contract of block_store.h, with blocks of 256 words and a snapshot
  -- whose superblock is that of the store, and a free list that is not empty and on which no block
  -- stands twice: `treedisk_alloc_block` does not panic, the free list then has one occurrence less
  -- of the block that it returns and the same of every other, the snapshot's superblock is again
  -- that of the store, and no block is changed but the superblock and those that were free.
  pub alloc-Taken :
      (sn : Snapshot) (ts : TreeState D.State) (xs : List ℕ)
      → d.Valid ts.below
      → contents D d ts 0 ≡ some sn.superblock
      → ((p : ℕ) (blk : Block) → contents D d ts p ≡ some blk → length blk ≡ 256)
      → FreeList (contents D d ts) (free_list sn.superblock) xs
      → ((m : ℕ) → occurrences m xs ≤ 1)
      → 0 < length xs
      → (b : ℕ) × (sn' : Snapshot) × (ts' : TreeState D.State) × (alloc_block D sn ts
          ≡ some ((b, sn'), ts'))
        × Taken xs ts ts' sn' b
  alloc-Taken sn ts xs ok sb words l once some' =
      alloc-list sn ts (free_list sn.superblock) xs ok sb (omega (arith, words 0 sn.superblock sb))
        refl l once words some'
