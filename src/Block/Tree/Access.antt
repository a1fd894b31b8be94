-- ===== src/Block/Tree/Access.antt =====
-- block/treedisk.c: reading and writing a block of a file by a walk down its tree.
use cs4411_p.Base.{
  ℕ, zero, suc, ◌+◌, ◌-◌, ◌*◌, ◌%◌, Bool, true, false, ◌||◌, some, ◌==◌, ltb, leb, if◌then◌else◌,
  set, ℤ, pos, minus_one, is_neg, u32_mod,
}
use cs4411_p.Block.Store.{Store}
use cs4411_p.Block.Tree.{
  Block, Act, ◌>>=◌, ◌>>◌, return, TreeState, Snapshot, null_block, word, root, nblocks, set_root,
  set_nblocks, levels, count_levels, index_at, log_shift_r, read_below, load, save, get_snapshot,
  alloc_block,
}

module _ (D : Store Block) where
  -- The loop of `treedisk_read`, from the block `b` with so many levels below it.
  unfoldable pub walk : ℕ → ℕ → ℕ → Block → Act (TreeState D.State) (ℤ × Block)
  unfolding log_shift_r
  walk zero b offset block = if b == 0 then return (pos 0, null_block) else do
    (r, blk) ← read_below D b block
    if is_neg r then return (r, blk) else return (pos 0, blk)
  walk (suc n) b offset block = if b == 0 then return (pos 0, null_block) else do
    (r, blk) ← read_below D b block
    if is_neg r then return (r, blk) else walk n (word blk (index_at offset n)) offset blk

  unfoldable pub read : Snapshot → ℕ → ℕ → Block → Act (TreeState D.State) (ℤ × Block)
  unfolding get_snapshot walk count_levels
  read junk ino offset block = do
    (r, sn) ← get_snapshot D junk ino
    if is_neg r
        then return (minus_one, block)
        else if leb (nblocks sn) offset
        then return (minus_one, block)
        else walk (levels (nblocks sn - 1)) (root sn) offset block

  -- The loop that puts indirect blocks on top of the tree, as many as the first argument.
  unfoldable pub grow : ℕ → Snapshot → Act (TreeState D.State) Snapshot
  unfolding alloc_block
  grow zero sn = return sn
  grow (suc n) sn = do
    (indir, sn1) ← alloc_block D sn
    save D indir (set null_block 0 (root sn1))
    grow n (set_root sn1 indir)

  -- The loop of `treedisk_write` that finds the block to write, with so many levels below it. Its
  -- number is word `i` of the block `parent`, which is block `parent_off`. `i` stands for the
  -- pointer `parent_no`.
  unfoldable pub find : ℕ → Block → ℕ → ℕ → ℕ → Snapshot → Act (TreeState D.State) ℕ
  unfolding alloc_block log_shift_r
  find zero parent i parent_off offset sn =
      if word parent i == 0
      then (do (b, sn') ← alloc_block D sn; save D parent_off (set parent i b); return b)
      else return (word parent i)
  find (suc n) parent i parent_off offset sn =
      if word parent i == 0
      then (do
        (b, sn') ← alloc_block D sn
        save D parent_off (set parent i b)
        find n null_block (index_at offset n) b offset sn')
      else do tib ← load D (word parent i); find n tib (index_at offset n) (word parent i) offset sn

  -- The inode once the file has room for the offset: the snapshot, the levels of its tree after the
  -- write, and whether it is changed.
  abbrev pub extend : Snapshot → ℕ → ℕ → Snapshot × ℕ × Bool
  extend sn nlevels offset =
      if leb (nblocks sn) offset
      then (set_nblocks sn ((offset + 1) % u32_mod), levels offset, true)
      else (sn, nlevels, false)

  unfoldable pub write : Snapshot → ℕ → ℕ → Block → Act (TreeState D.State) ℤ
  unfolding get_snapshot grow find count_levels
  write junk ino offset block = do
    (r, sn) ← get_snapshot D junk ino
    let nlevels = if nblocks sn == 0 then 0 else levels (nblocks sn - 1) in
        let (sn1, after, dirty) = extend sn nlevels offset in
        let more = if nblocks sn1 == 0 then 0 else after - nlevels in
        let now = if nblocks sn1 == 0 then after else nlevels + more in
        if is_neg r then return minus_one else do
          sn2 ← grow more sn1
          (if dirty || ltb 0 more then save D sn2.inode_blockno sn2.inodeblock else return tt)
          b ← find now sn2.inodeblock (2 * sn2.inode) sn2.inode_blockno offset sn2
          save D b block
          return (pos 0)

  unfoldable pub sync : ℕ → Act (TreeState D.State) ℤ
  sync ino ts =
      let (r, below) = D.sync ts.below ts.below_ino in some (r, record ts { below = below })

  unfoldable pub init : D.State → ℕ → TreeState D.State
  init below below_ino = record { below = below; below_ino = below_ino; ninodes = 0 }
