-- ===== src/Block/Tree/Reading.antt =====
-- What a file of block/treedisk.c holds, as a function of what the store below holds, and
-- `treedisk_read`.
use cs4411_p.Base.{
  ℕ, zero, suc, ◌+◌, ◌-◌, ◌*◌, ◌/◌, ◌%◌, ◌≡◌, refl, ◌∙◌, inl, inr, false, Option, none, some, arith,
  ◌==◌, leb, Bool-cases, Option-cases, if◌then◌else◌, pos,
}
use cs4411_p.Block.Store.{Store, Same, IsDisk}
use cs4411_p.Block.Tree.{
  Block, TreeState, Snapshot, null_block, word, n_inodeblocks, root, nblocks, inodes_per_block,
  levels, index_at, get_snapshot, ◌>>=◌,
}
use cs4411_p.Block.Tree.Access.{walk, read}

-- The block at an offset of the tree with so many levels below block `b`; 0 is a hole.
abbrev pub tree_block : (ℕ → Option Block) → ℕ → ℕ → ℕ → Option Block
tree_block v zero b offset = if b == 0 then some null_block else v b
tree_block v (suc n) b offset = if b == 0 then some null_block else elim (v b) [
  | none ↦ none
  | some blk ↦ tree_block v n (word blk (index_at offset n)) offset
]

-- The tree of an inode that stands at an index of an inode block.
abbrev pub inode_block : (ℕ → Option Block) → Block → ℕ → ℕ → Option Block
inode_block v blk i offset =
    let n = word blk (2 * i + 1) in
    if leb n offset then none else tree_block v (levels (n - 1)) (word blk (2 * i)) offset

-- The block at an offset of a file; `none` is out of range, or a block that is missing below.
abbrev pub file_block : (ℕ → Option Block) → ℕ → ℕ → Option Block
file_block v ino offset = elim (v 0) [
  | none ↦ none
  | some sb ↦
      if leb (n_inodeblocks sb * inodes_per_block) ino
      then none
      else elim (v (1 + ino / inodes_per_block)) [
        | none ↦ none
        | some blk ↦ inode_block v blk (ino % inodes_per_block) offset
      ]
]

-- The snapshot of an inode.
abbrev pub snapshot : Block → Block → ℕ → Snapshot
snapshot sb blk ino = record {
  superblock = sb;
  inodeblock = blk;
  inode_blockno = 1 + ino / inodes_per_block;
  inode = ino % inodes_per_block;
}

module _ (D : Store Block) (d : IsDisk D) where
  -- The same contents below, on the same inode.
  pub record Keeps (ts ts' : TreeState D.State) : Type 0 where
    pub below_valid : d.Valid ts'.below
    pub below_ino : ts'.below_ino ≡ ts.below_ino
    pub same : Same (d.view ts'.below) (d.view ts.below)

  abbrev pub contents : TreeState D.State → ℕ → Option Block
  contents ts = d.view ts.below ts.below_ino

  Keeps-refl : (ts : TreeState D.State) → d.Valid ts.below → Keeps ts ts
  Keeps-refl ts ok = record { below_valid = ok; below_ino = refl; same = λ j p. refl }

  Keeps-trans : (a b c : TreeState D.State) → Keeps a b → Keeps b c → Keeps a c
  Keeps-trans a b c h k = record {
    below_valid = k.below_valid;
    below_ino = k.below_ino ∙ h.below_ino;
    same = λ j p. k.same j p ∙ h.same j p;
  }

  contents-Keeps :
      (a b : TreeState D.State) (v : ℕ → Option Block)
      → Keeps a b
      → ((p : ℕ) → contents a p ≡ v p)
      → (p : ℕ) → contents b p ≡ v p
  contents-Keeps a b v k h p = rw k.below_ino (k.same a.below_ino p ∙ h p)

  -- The state after a read below.
  abbrev after : TreeState D.State → ℕ → Block → TreeState D.State
  after ts p buffer = record ts { below = (D.read ts.below ts.below_ino p buffer).2 }

  after-read :
      (p : ℕ) (buffer x : Block) (ts : TreeState D.State)
      → d.Valid ts.below
      → contents ts p ≡ some x
      → let (r, blk, below) = D.read ts.below ts.below_ino p buffer in
        (r ≡ pos 0) × (blk ≡ x) × Keeps ts (after ts p buffer)
  after-read p buffer x ts ok e =
      let (r, got, ok', same) = d.read_some ts.below ts.below_ino p buffer x ok e in
      (r, got, record { below_valid = ok'; below_ino = refl; same = same })

  walk-tree_block :
      (n b offset : ℕ) (buffer x : Block) (ts : TreeState D.State) (v : ℕ → Option Block)
      → d.Valid ts.below
      → ((p : ℕ) → contents ts p ≡ v p)
      → tree_block v n b offset ≡ some x
      → (ts' : TreeState D.State) × (walk D n b offset buffer ts ≡ some ((pos 0, x), ts'))
        × Keeps ts ts'
  unfolding walk
  walk-tree_block zero b offset buffer x ts v ok h e = elim (Bool-cases (b == 0)) [
    | inl hole ↦ let f : null_block ≡ x = ground arith in (ts, rw (hole, f) refl, Keeps-refl ts ok)
    | inr block ↦
        let (r, got, k) = after-read b buffer x ts ok (h b ∙ ground arith) in
        (after ts b buffer, rw block (rw (r, got) refl), k)
  ]
  walk-tree_block (suc n) b offset buffer x ts v ok h e = elim (Bool-cases (b == 0)) [
    | inl hole ↦ let f : null_block ≡ x = ground arith in (ts, rw (hole, f) refl, Keeps-refl ts ok)
    | inr block ↦ elim (Option-cases (v b)) [
      | inl missing ↦ absurd (ground arith)
      | inr (blk, g) ↦
          let (r, got, k) = after-read b buffer blk ts ok (h b ∙ g) in
          let ts1 = after ts b buffer in
          let (ts2, q', k') =
            walk-tree_block n (word blk (index_at offset n)) offset blk x ts1 v k.below_valid
              (contents-Keeps ts ts1 v k h) (ground arith) in
          (ts2, rw block (rw (r, got) q'), Keeps-trans ts ts1 ts2 k k')
    ]
  ]

  get_snapshot-contents :
      (junk : Snapshot) (ino : ℕ) (sb blk : Block) (ts : TreeState D.State)
      → d.Valid ts.below
      → contents ts 0 ≡ some sb
      → leb (n_inodeblocks sb * inodes_per_block) ino ≡ false
      → contents ts (1 + ino / inodes_per_block) ≡ some blk
      → (ts' : TreeState D.State) × (get_snapshot D junk ino ts
          ≡ some ((pos 0, snapshot sb blk ino), ts'))
        × Keeps ts ts'
  unfolding get_snapshot
  get_snapshot-contents junk ino sb blk ts ok e small f =
      let (r, got, k) = after-read 0 junk.superblock sb ts ok e in
      let ts1 = after ts 0 junk.superblock in
      let (r', got', k') =
        after-read (1 + ino / inodes_per_block) junk.inodeblock blk ts1 k.below_valid
          (contents-Keeps ts ts1 (contents ts) k (λ p. refl) (1 + ino / inodes_per_block) ∙ f) in
      (
        after ts1 (1 + ino / inodes_per_block) junk.inodeblock,
        rw (r, got) (rw (small, r', got') refl),
        Keeps-trans ts ts1 _ k k',
      )

  read-walk :
      (junk : Snapshot) (ino offset : ℕ) (buffer : Block) (sn : Snapshot)
      (ts ts1 : TreeState D.State)
      → get_snapshot D junk ino ts ≡ some ((pos 0, sn), ts1)
      → leb (nblocks sn) offset ≡ false
      → read D junk ino offset buffer ts
        ≡ walk D (levels (nblocks sn - 1)) (root sn) offset buffer ts1
  unfolding read
  read-walk junk ino offset buffer sn ts ts1 e short = rw (read, ◌>>=◌, e) (rw short refl)

  -- Over a store that keeps the contract of block_store.h, for a block in range of a file whose
  -- blocks are there below: a read does not panic, returns 0 and the block that the superblock, the
  -- inode and the tree of the file lead to, a block of 0s for a hole, and changes no contents.
  pub tree_read :
      (junk : Snapshot) (ino offset : ℕ) (buffer x : Block) (ts : TreeState D.State)
      → d.Valid ts.below
      → file_block (contents ts) ino offset ≡ some x
      → (ts' : TreeState D.State) × (read D junk ino offset buffer ts ≡ some ((pos 0, x), ts'))
        × Keeps ts ts'
  tree_read junk ino offset buffer x ts ok e = elim (Option-cases (contents ts 0)) [
    | inl none' ↦ absurd (ground arith)
    | inr (sb, e1) ↦ elim (Bool-cases (leb (n_inodeblocks sb * inodes_per_block) ino)) [
      | inl big ↦ absurd (ground arith)
      | inr small ↦ elim (Option-cases (contents ts (1 + ino / inodes_per_block))) [
        | inl none' ↦ absurd (ground arith)
        | inr (blk, e2) ↦
            elim (Bool-cases (leb (word blk (2 * (ino % inodes_per_block) + 1)) offset)) [
              | inl long ↦ absurd (ground arith)
              | inr short ↦
                  let (ts1, q, k) = get_snapshot-contents junk ino sb blk ts ok e1 small e2 in
                  let (ts2, q', k') =
                    walk-tree_block (levels (word blk (2 * (ino % inodes_per_block) + 1) - 1))
                      (word blk (2 * (ino % inodes_per_block))) offset buffer x ts1 (contents ts)
                      k.below_valid (contents-Keeps ts ts1 (contents ts) k (λ p. refl))
                      (ground arith) in
                  (
                    ts2,
                    read-walk junk ino offset buffer _ ts ts1 q short ∙ q',
                    Keeps-trans ts ts1 ts2 k k',
                  )
            ]
      ]
    ]
  ]
