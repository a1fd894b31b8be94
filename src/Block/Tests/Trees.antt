-- ===== src/Block/Tests/Trees.antt =====
-- Files of a tree disk on a RAM disk of six blocks, and the theorems at them.
use cs4411_p.Base.{
  length, All-get_elem?, ℕ, get_elem?_of_lt, ◌≡◌, ◌∷◌, [], refl, some, none, arith, pos,
}
use cs4411_p.Block.Ram.{RamState}
use cs4411_p.Block.Ram.Laws.{disk as ram_disk}
use cs4411_p.Block.Ram
use cs4411_p.Block.Tree.{
  alloc_block, Block, TreeState, Snapshot, zeros, levels, count_levels, log_shift_r,
}
use cs4411_p.Block.Tree.File.{level_for}
use cs4411_p.Block.Tree.Access
use cs4411_p.Block.Tree.Levels.{IsHeight, levels-IsHeight, level_for-levels, level_for-none}
use cs4411_p.Block.Tree.Create.{setup_freelist}
use cs4411_p.Block.Tree.Freelist.{Laid, setup_freelist-Laid, FreeList, linked, empty, contents}
use cs4411_p.Block.Tree.Alloc.{Taken, alloc-Taken}
use cs4411_p.Block.Tree.Reading.{Keeps, tree_read}

-- One inode block; inode 1 has 300 blocks, with the root at block 2; the tree's block 3 is the
-- indirect block for offsets 256 to 299, and offset 257 is at block 4.
abbrev disk : RamState Block
disk = record {
  blocks =
      (1 ∷ 5 ∷ zeros 254)
      ∷ (0 ∷ 0 ∷ 2 ∷ 300 ∷ zeros 252)
      ∷ (0 ∷ 3 ∷ zeros 254)
      ∷ (0 ∷ 4 ∷ zeros 254)
      ∷ (77 ∷ zeros 255)
      ∷ zeros 256
      ∷ [];
  nblocks = 6;
}

abbrev tree : TreeState (RamState Block)
tree = record { below = disk; below_ino = 0; ninodes = 0 }

abbrev junk : Snapshot
junk = record { superblock = []; inodeblock = []; inode_blockno = 9; inode = 9 }

tree_read_example :
    (ts : TreeState (RamState Block)) × (Access.read Ram.store junk 1 257 [] tree
      ≡ some ((pos 0, 77 ∷ zeros 255), ts))
    × Keeps Ram.store ram_disk tree ts
unfolding count_levels log_shift_r
tree_read_example =
    tree_read Ram.store ram_disk junk 1 257 [] (77 ∷ zeros 255) tree (omega arith) refl

levels-IsHeight_example :
    (count_levels 5 65536 0 ≡ some (levels 65536)) × IsHeight 65536 (levels 65536)
levels-IsHeight_example = levels-IsHeight 65536 (omega arith)

level_for-levels_example : level_for 3 300 1 256 ≡ some (levels 299)
level_for-levels_example = level_for-levels 300 (omega arith) (omega arith)

level_for-none_example : level_for 1000 20000000 1 256 ≡ none
level_for-none_example = level_for-none 20000000 1000 (omega arith)

-- Blocks 2 to 5 are put on a free list.
setup_freelist-Laid_example :
    (head : ℕ) × (ts : TreeState (RamState Block)) × (setup_freelist Ram.store 6 0 2 6 tree
      ≡ some (head, ts))
    × Laid Ram.store ram_disk 2 6 tree ts head
setup_freelist-Laid_example =
    setup_freelist-Laid Ram.store ram_disk 2 6 tree (omega arith) (omega arith) (omega arith)
      (λ m low high. let (x, e) = get_elem?_of_lt disk.blocks m high in (x, ground (arith, e)))

-- The free list is block 5 alone.
abbrev snapshot : Snapshot
snapshot = record {
  superblock = 1 ∷ 5 ∷ zeros 254;
  inodeblock = 0 ∷ 0 ∷ 2 ∷ 300 ∷ zeros 252;
  inode_blockno = 1;
  inode = 1;
}

free-FreeList : FreeList (contents Ram.store ram_disk tree) 5 (5 ∷ [])
free-FreeList = linked 5 (zeros 256) [] (omega arith) refl empty

words : (p : ℕ) (blk : Block) → contents Ram.store ram_disk tree p ≡ some blk → length blk ≡ 256
words p blk e =
    All-get_elem? (λ (x : Block). length x ≡ 256) disk.blocks p
      (refl, (refl, (refl, (refl, (refl, (refl, tt)))))) (ground (arith, e))

alloc-Taken_example :
    (b : ℕ) × (sn : Snapshot) × (ts : TreeState (RamState Block)) × (alloc_block Ram.store snapshot
        tree
      ≡ some ((b, sn), ts))
    × Taken Ram.store ram_disk (5 ∷ []) tree ts sn b
alloc-Taken_example =
    alloc-Taken Ram.store ram_disk snapshot tree (5 ∷ []) (omega arith) refl words free-FreeList
      (λ m. ground arith) (omega arith)
