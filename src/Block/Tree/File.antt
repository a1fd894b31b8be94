-- ===== src/Block/Tree/File.antt =====
-- block/treedisk.c: the size of a file, and the loss of all its blocks to the free list.
use cs4411_p.Base.{
  ℕ, zero, suc, ◌+◌, ◌*◌, ◌%◌, Option, none, some, List, [], ◌∷◌, ◌==◌, ltb, if◌then◌else◌, take, ℤ,
  minus_one, is_neg, to_int, u32_mod,
}
use cs4411_p.Block.Store.{Store}
use cs4411_p.Block.Tree.{
  Block, Act, ◌>>=◌, ◌>>◌, return, panic, TreeState, Snapshot, null_block, inodes_per_block,
  n_inodeblocks, refs_per_block, root, nblocks, set_root, set_nblocks, read_below, load, save,
  get_snapshot, free_block,
}

-- The loop of `treedisk_free_file` that counts the levels of a tree that has room for `nblocks`
-- blocks, in `unsigned int`s. `none` is a loop that has not ended within the fuel.
unfoldable pub level_for : ℕ → ℕ → ℕ → ℕ → Option ℕ
level_for zero nblocks level max_capacity = none
level_for (suc k) nblocks level max_capacity =
    let more = level_for k nblocks (level + 1) ((max_capacity * refs_per_block) % u32_mod) in
    if ltb max_capacity nblocks then more else some level

-- The loop over the references of an indirect block: a step for each that is not 0.
abbrev pub for_refs :
    {S : Type 0} → (Snapshot → ℕ → Act S Snapshot) → Snapshot → List ℕ → Act S Snapshot
for_refs f sn [] = return sn
for_refs f sn (b ∷ refs) =
    if b == 0 then for_refs f sn refs else do sn' ← f sn b; for_refs f sn' refs

module _ (D : Store Block) where
  -- The first argument is `level - curr_level`.
  unfoldable pub recursive_free_file : ℕ → Snapshot → ℕ → Act (TreeState D.State) Snapshot
  unfolding free_block
  recursive_free_file zero sn b = free_block D sn b
  recursive_free_file (suc n) sn b = do
    blk ← load D b
    sn' ← for_refs (λ sn0 b'. recursive_free_file n sn0 b') sn (take refs_per_block blk)
    free_block D sn' b

  -- The first argument is the fuel of the loop that counts the levels.
  unfoldable pub free_file : ℕ → Snapshot → Act (TreeState D.State) Snapshot
  unfolding recursive_free_file free_block level_for
  free_file fuel sn =
      if nblocks sn == 0
      then return sn
      else if nblocks sn == 1
      then free_block D sn (root sn)
      else elim (level_for fuel (nblocks sn) 1 refs_per_block) [
        | none ↦ panic
        | some level ↦ recursive_free_file level sn (root sn)
      ]

  -- The product is a `size_t`, returned as an `int`.
  unfoldable pub getninodes : Act (TreeState D.State) ℤ
  getninodes = do
    (r, blk) ← read_below D 0 null_block
    if is_neg r
        then return minus_one
        else return (to_int ((n_inodeblocks blk * inodes_per_block) % u32_mod))

  -- `junk` is what the variable `snapshot` holds before it is set.
  unfoldable pub getsize : Snapshot → ℕ → Act (TreeState D.State) ℤ
  unfolding get_snapshot
  getsize junk ino = do
    (r, sn) ← get_snapshot D junk ino
    if is_neg r then return minus_one else return (to_int (nblocks sn))

  -- The result of `treedisk_get_snapshot` is not looked at.
  unfoldable pub setsize : ℕ → Snapshot → ℕ → ℕ → Act (TreeState D.State) ℤ
  unfolding get_snapshot free_file
  setsize fuel junk ino n = do
    (r, sn) ← get_snapshot D junk ino
    if n == nblocks sn then return (to_int n) else if ltb 0 n then return minus_one else do
      sn1 ← free_file fuel sn
      let sn2 = set_root (set_nblocks sn1 0) 0 in
          do save D sn2.inode_blockno sn2.inodeblock; return (to_int (nblocks sn))
