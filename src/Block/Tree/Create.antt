-- ===== src/Block/Tree/Create.antt =====
-- block/treedisk.c: a new file system, with the free list of all the blocks that are left.
use cs4411_p.Base.{
  ℕ, zero, suc, ◌+◌, ◌/◌, ◌%◌, ◌^◌, some, List, [], ◌∷◌, ◌==◌, ltb, leb, if◌then◌else◌, set, ℤ, pos,
  minus_one, is_neg, u32_mod,
}
use cs4411_p.Block.Store.{Store}
use cs4411_p.Block.Combine.{to_uint}
use cs4411_p.Block.Tree.{
  Block, Act, ◌>>=◌, ◌>>◌, return, panic, TreeState, null_block, inodes_per_block, n_inodeblocks,
  read_below, write_below, save,
}

-- The two loops over `i` in `setup_freelist`: so many slots, filled with the block numbers from
-- `next_free` on and then with 0s.
unfoldable pub fill : ℕ → ℕ → ℕ → List ℕ
fill zero next_free nblocks = []
fill (suc n) next_free nblocks =
    if ltb next_free nblocks
    then next_free ∷ fill n (next_free + 1) nblocks
    else 0 ∷ fill n next_free nblocks

-- `next_free` after them.
unfoldable pub skip : ℕ → ℕ → ℕ → ℕ
skip zero next_free nblocks = next_free
skip (suc n) next_free nblocks =
    if ltb next_free nblocks then skip n (next_free + 1) nblocks else next_free

module _ (D : Store Block) where
  -- The loop of `setup_freelist`: `head` is the block that was written last. The first argument is
  -- fuel.
  unfoldable pub setup_freelist : ℕ → ℕ → ℕ → ℕ → Act (TreeState D.State) ℕ
  unfolding fill skip
  setup_freelist zero head next_free nblocks = return head
  setup_freelist (suc k) head next_free nblocks =
      if ltb next_free nblocks
      then (do
        save D next_free (head ∷ fill 255 (next_free + 1) nblocks)
        setup_freelist k next_free (skip 255 (next_free + 1) nblocks) nblocks)
      else return head

  -- The loop that clears the inode blocks from `i` on, so many of them.
  unfoldable pub clear : ℕ → ℕ → Act (TreeState D.State) ℤ
  clear zero i = return (pos 0)
  clear (suc n) i = do
    r ← write_below D i null_block
    if is_neg r then return minus_one else clear n (i + 1)

  -- The size of the store below, as an `unsigned int`.
  abbrev size_below : Act (TreeState D.State) ℕ
  size_below ts =
      let (r, below) = D.getsize ts.below ts.below_ino in
      some (to_uint r, record ts { below = below })

  -- A state with the store below and its inode stands for the arguments. The assertion on a disk
  -- that has a file system already ends the program where it does not hold.
  unfoldable pub create : ℕ → Act (TreeState D.State) ℤ
  unfolding to_uint setup_freelist clear
  create ninodes =
      let count = ((ninodes + 127) % 2 ^ 64) / inodes_per_block in
      do
        n ← size_below
        if ltb n ((count + 2) % u32_mod) then return minus_one else do
          (r, superblock) ← read_below D 0 null_block
          if is_neg r
              then return minus_one
              else if n_inodeblocks superblock == 0
              then (do
                head ← setup_freelist n 0 (count + 1) n
                r' ← write_below D 0 (set (set null_block 0 count) 1 head)
                if is_neg r' then return minus_one else clear count 1)
              else if leb count (n_inodeblocks superblock)
              then return (pos 0)
              else panic
