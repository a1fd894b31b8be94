-- ===== src/Block/Ram/Laws.antt =====
-- block/ramdisk.c against an array of blocks: inode 0 with `nblocks` blocks.
use cs4411_p.Base.{
  ℕ, ◌≤◌, ◌≡◌, refl, inl, inr, ◌&&◌, none, some, arith, ◌==◌, ltb, Bool-cases, if◌then◌else◌,
  length, get_elem?, pos, minus_one,
}
use cs4411_p.Base.{length-set, get_elem?-eq-get_or, get_elem?-set_self, get_elem?-set_ne}
use cs4411_p.Block.Store.{View, Same, put, IsDisk}
use cs4411_p.Block.Ram.{RamState, read, write, sync, store}

module _ {B : Type 0} where
  -- The array holds at least the blocks that the size promises.
  abbrev pub Valid : RamState B → Type 0
  Valid s = s.nblocks ≤ length s.blocks

  abbrev pub view : RamState B → View B
  view s i o = if i == 0 && ltb o s.nblocks then get_elem? s.blocks o else none

  -- For a RAM disk whose array holds the blocks that its size promises: a read of a block in
  -- range returns 0 and the block, and changes nothing.
  pub ram_read :
      (s : RamState B) (i o : ℕ) (b v : B)
      → Valid s
      → view s i o ≡ some v
      → let (r, b', s') = read s i o b in
        (r ≡ pos 0) × (b' ≡ v) × Valid s' × Same (view s') (view s)
  unfolding read
  ram_read s i o b v ok e =
      let g = get_elem?-eq-get_or s.blocks o b in
      (ground arith, ground (arith, g), ground arith, λ j p. ground arith)

  pub ram_read_error :
      (s : RamState B) (i o : ℕ) (b : B)
      → Valid s
      → view s i o ≡ none
      → let (r, b', s') = read s i o b in (r ≡ minus_one) × Valid s' × Same (view s') (view s)
  unfolding read
  ram_read_error s i o b ok e =
      let g = get_elem?-eq-get_or s.blocks o b in
      (ground (arith, g), ground arith, λ j p. ground arith)

  -- For a RAM disk whose array holds the blocks that its size promises: a write to a block in
  -- range returns 0 and changes that block alone.
  pub ram_write :
      (s : RamState B) (i o : ℕ) (b v : B)
      → Valid s
      → view s i o ≡ some v
      → let (r, s') = write s i o b in (r ≡ pos 0) × Valid s' × Same (view s') (put (view s) i o b)
  unfolding write
  ram_write s i o b v ok e = (
    ground arith,
    ground (arith, length-set s.blocks o b),
    λ j p. elim (Bool-cases (p == o)) [
      | inl e' ↦ ground (arith, get_elem?-set_self s.blocks o b)
      | inr n ↦ ground (arith, get_elem?-set_ne s.blocks o p b)
    ],
  )

  pub ram_sync :
      (s : RamState B) (i : ℕ)
      → Valid s
      → let (r, s') = sync s i in Valid s' × Same (view s') (view s)
  unfolding sync
  ram_sync s i ok = (ok, λ j p. refl)

  -- The contract of block_store.h.
  abbrev pub disk : IsDisk (store {B = B})
  disk = record {
    Valid = Valid;
    view = view;
    read_some = ram_read;
    read_none = ram_read_error;
    write_some = ram_write;
    sync_keeps = ram_sync;
  }
