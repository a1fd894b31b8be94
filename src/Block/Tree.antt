-- ===== src/Block/Tree.antt =====
-- block/treedisk.c and block/treedisk.h: virtual block stores on one inode of another block store.
-- This file has the layout, the snapshot of an inode, and the free list. A block is its words, as
-- `union treedisk_block` reads them: 256 of 32 bits.
pub mod File
pub mod Access
pub mod Create
pub mod Levels
pub mod Reading
pub mod Freelist
pub mod Refs
pub mod Alloc
use cs4411_p.Base.{
  ℕ, zero, suc, ◌+◌, ◌*◌, ◌/◌, ◌%◌, ◌^◌, not, Option, none, some, List, [], ◌∷◌, ◌==◌, leb,
  if◌then◌else◌, get_or, set, ℤ, pos, minus_one, is_neg,
}
use cs4411_p.Block.Store.{Store}

abbrev pub Block : Type 0
Block = List ℕ

-- `REFS_PER_BLOCK`
abbrev pub refs_per_block : ℕ
refs_per_block = 256

-- `INODES_PER_BLOCK`
abbrev pub inodes_per_block : ℕ
inodes_per_block = 128

-- What the loop in `treedisk_init` leaves: `255 >> 8` is the first such shift that is 0.
abbrev pub log_rpb : ℕ
log_rpb = 8

abbrev pub zeros : ℕ → Block
zeros zero = []
zeros (suc n) = 0 ∷ zeros n

-- A block filled with 0 bytes.
abbrev pub null_block : Block
null_block = zeros refs_per_block

abbrev pub word : Block → ℕ → ℕ
word blk i = get_or blk i 0

-- `struct treedisk_superblock` in the words of a block.
abbrev pub n_inodeblocks : Block → ℕ
n_inodeblocks blk = word blk 0

abbrev pub free_list : Block → ℕ
free_list blk = word blk 1

-- `struct treedisk_snapshot`. The pointer `inode` is an index into the inode block.
pub record Snapshot : Type 0 where
  pub superblock : Block
  pub inodeblock : Block
  pub inode_blockno : ℕ
  pub inode : ℕ

-- `struct treedisk_inode` at the index of the snapshot.
abbrev pub root : Snapshot → ℕ
root sn = word sn.inodeblock (2 * sn.inode)

abbrev pub nblocks : Snapshot → ℕ
nblocks sn = word sn.inodeblock (2 * sn.inode + 1)

abbrev pub set_root : Snapshot → ℕ → Snapshot
set_root sn b = record sn { inodeblock = set sn.inodeblock (2 * sn.inode) b }

abbrev pub set_nblocks : Snapshot → ℕ → Snapshot
set_nblocks sn n = record sn { inodeblock = set sn.inodeblock (2 * sn.inode + 1) n }

abbrev pub set_free_list : Snapshot → ℕ → Snapshot
set_free_list sn b = record sn { superblock = set sn.superblock 1 b }

-- `struct treedisk_state`
pub record TreeState (S : Type 0) : Type 0 where
  pub below : S
  pub below_ino : ℕ
  pub ninodes : ℕ

-- `x >> nbits`, and 0 for a shift by the width of `block_no` or more.
unfoldable pub log_shift_r : ℕ → ℕ → ℕ
log_shift_r x nbits = if leb 32 nbits then 0 else x / 2 ^ nbits

-- The loop that counts the levels of a tree, from `n` on. The first argument is fuel.
unfoldable pub count_levels : ℕ → ℕ → ℕ → Option ℕ
unfolding log_shift_r
count_levels zero x n = none
count_levels (suc k) x n =
    let more = count_levels k x (n + 1) in if log_shift_r x (n * log_rpb) == 0 then some n else more

abbrev pub or_zero : Option ℕ → ℕ
or_zero none = 0
or_zero (some n) = n

-- The levels of a tree whose greatest offset is `x`; the test of the loop is made five times at most.
abbrev pub levels : ℕ → ℕ
levels x = or_zero (count_levels 5 x 0)

-- The index of the block for an offset in an indirect block with `n` levels below it.
abbrev pub index_at : ℕ → ℕ → ℕ
index_at offset n = log_shift_r offset (n * log_rpb) % refs_per_block

-- A function that calls the store below and may end the program: `panic` is `none`.
abbrev pub Act : Type 0 → Type 0 → Type 0
Act S A = S → Option (A × S)

infixl 5 ◌>>=◌ ◌>>◌
abbrev pub ◌>>=◌ : {S A B : Type 0} → Act S A → (A → Act S B) → Act S B
◌>>=◌ m f s = elim (m s) [ none ↦ none | some (a, s') ↦ f a s' ]

abbrev pub ◌>>◌ : {S A B : Type 0} → Act S A → Act S B → Act S B
◌>>◌ m k = m >>= λ _. k

abbrev pub return : {S A : Type 0} → A → Act S A
return a s = some (a, s)

abbrev pub panic : {S A : Type 0} → Act S A
panic s = none

-- The loop `for (i = REFS_PER_BLOCK; --i > 0;)` for a reference in a block of the free list.
unfoldable pub last_ref : Block → ℕ → ℕ
last_ref blk zero = 0
last_ref blk (suc n) =
    let rest = last_ref blk n in if n == 0 then 0 else if not (word blk n == 0) then n else rest

-- The loop for an empty slot. The second argument is the number of slots left.
unfoldable pub first_hole : Block → ℕ → ℕ → ℕ
first_hole blk zero i = i
first_hole blk (suc n) i =
    let rest = first_hole blk n (i + 1) in if word blk i == 0 then i else rest

module _ (D : Store Block) where
  -- The calls of the store below, on its inode `below_ino`.
  abbrev pub read_below : ℕ → Block → Act (TreeState D.State) (ℤ × Block)
  read_below b buffer ts =
      let (r, blk, below) = D.read ts.below ts.below_ino b buffer in
      some ((r, blk), record ts { below = below })

  abbrev pub write_below : ℕ → Block → Act (TreeState D.State) ℤ
  write_below b blk ts =
      let (r, below) = D.write ts.below ts.below_ino b blk in some (r, record ts { below = below })

  -- A read into a buffer that is not initialised, and a write, that panic if they fail. What such a
  -- buffer holds before the read is 0s here.
  abbrev pub load : ℕ → Act (TreeState D.State) Block
  load b = do (r, blk) ← read_below b null_block; if is_neg r then panic else return blk

  abbrev pub save : ℕ → Block → Act (TreeState D.State) Unit
  save b blk = do r ← write_below b blk; if is_neg r then panic else return tt

  -- The snapshot comes with what it holds before the call, since a call that fails leaves part of
  -- it as it was.
  unfoldable pub get_snapshot : Snapshot → ℕ → Act (TreeState D.State) (ℤ × Snapshot)
  get_snapshot sn inode_no = do
    (r, superblock) ← read_below 0 sn.superblock
    let sn1 = record sn { superblock = superblock } in
        let blockno = 1 + inode_no / inodes_per_block in
        if is_neg r
        then return (minus_one, sn1)
        else if leb (n_inodeblocks superblock * inodes_per_block) inode_no
        then return (minus_one, sn1)
        else do
          (r', inodeblock) ← read_below blockno sn.inodeblock
          let sn2 = record sn1 { inodeblock = inodeblock; inode_blockno = blockno } in
              if is_neg r'
              then return (minus_one, sn2)
              else return (pos 0, record sn2 { inode = inode_no % inodes_per_block })

  unfoldable pub alloc_block : Snapshot → Act (TreeState D.State) (ℕ × Snapshot)
  unfolding last_ref
  alloc_block sn =
      let b = free_list sn.superblock in
      if b == 0 then panic else do
        blk ← load b
        let i = last_ref blk refs_per_block in
            let sn' = set_free_list sn (word blk 0) in
            if i == 0
            then save 0 sn'.superblock >> return (b, sn')
            else save b (set blk i 0) >> return (word blk i, sn)

  unfoldable pub free_block : Snapshot → ℕ → Act (TreeState D.State) Snapshot
  unfolding first_hole
  free_block sn target =
      let b = free_list sn.superblock in
      let sn' = set_free_list sn target in
      do
        save target null_block
        if b == 0 then save 0 sn'.superblock >> return sn' else do
          blk ← load b
          let i = first_hole blk 255 1 in
              if not (i == refs_per_block)
              then save b (set blk i target) >> return sn
              else save 0 sn'.superblock >> save target (set null_block 0 b) >> return sn'
