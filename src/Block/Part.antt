-- ===== src/Block/Part.antt =====
-- block/partdisk.c: the blocks of inode 0 below, cut into partitions.
pub mod Layout
pub mod Laws
use cs4411_p.Base.{
  ℕ, zero, suc, ◌+◌, ◌%◌, List, [], ◌∷◌, leb, if◌then◌else◌, get_or, take, ℤ, minus_one, to_int,
  u32_mod,
}
use cs4411_p.Block.Store.{Store}

-- `struct partdisk_state`
pub record PartState (S : Type 0) : Type 0 where
  pub below : S
  pub ninodes : ℕ
  pub partsizes : List ℕ

-- The loop `for (i = 0; i < ino; i++) noffset += ps->partsizes[i]` over `unsigned int`; the first
-- argument is the part of the array that is left, the second the rounds that are left.
unfoldable pub add_sizes : List ℕ → ℕ → ℕ → ℕ
add_sizes sizes zero noffset = noffset
add_sizes [] (suc i) noffset = noffset
add_sizes (n ∷ sizes) (suc i) noffset = add_sizes sizes i ((noffset + n) % u32_mod)

module _ {B : Type 0} (D : Store B) where
  unfoldable pub getninodes : PartState D.State → ℤ × PartState D.State
  getninodes s = (to_int s.ninodes, s)

  -- The source does not check `ino`; what stands past the array is 0 here.
  unfoldable pub getsize : PartState D.State → ℕ → ℤ × PartState D.State
  getsize s ino = (to_int (get_or s.partsizes ino 0), s)

  unfoldable pub setsize : PartState D.State → ℕ → ℕ → ℤ × PartState D.State
  setsize s ino nblocks = (minus_one, s)

  unfoldable pub read : PartState D.State → ℕ → ℕ → B → ℤ × B × PartState D.State
  unfolding add_sizes
  read s ino offset b =
      if leb s.ninodes ino
      then (minus_one, b, s)
      else if leb (get_or s.partsizes ino 0) offset
      then (minus_one, b, s)
      else let (r, b', below) = D.read s.below 0 (add_sizes s.partsizes ino offset) b in
        (r, b', record s { below = below })

  unfoldable pub write : PartState D.State → ℕ → ℕ → B → ℤ × PartState D.State
  unfolding add_sizes
  write s ino offset b =
      if leb s.ninodes ino
      then (minus_one, s)
      else if leb (get_or s.partsizes ino 0) offset
      then (minus_one, s)
      else let (r, below) = D.write s.below 0 (add_sizes s.partsizes ino offset) b in
        (r, record s { below = below })

  unfoldable pub sync : PartState D.State → ℕ → ℤ × PartState D.State
  sync s ino = let (r, below) = D.sync s.below 0 in (r, record s { below = below })

  unfoldable pub init : D.State → ℕ → List ℕ → PartState D.State
  init below ninodes partsizes = record {
    below = below;
    ninodes = ninodes;
    partsizes = take ninodes partsizes;
  }

  -- The methods as `partdisk_init` installs them.
  abbrev pub store : Store B
  store = record {
    State = PartState D.State;
    getninodes = getninodes;
    getsize = getsize;
    setsize = setsize;
    read = read;
    write = write;
    sync = sync;
  }
