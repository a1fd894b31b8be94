-- ===== src/Block/Ram.antt =====
-- block/ramdisk.c: a block store in memory.
pub mod Laws
use cs4411_p.Base.{ℕ, not, List, ◌==◌, leb, if◌then◌else◌, get_or, set, ℤ, pos, minus_one, to_int}
use cs4411_p.Block.Store.{Store}

-- `struct ramdisk_state`. `blocks` is the caller's array.
pub record RamState (B : Type 0) : Type 0 where
  pub blocks : List B
  pub nblocks : ℕ

module _ {B : Type 0} where
  unfoldable pub getninodes : RamState B → ℤ × RamState B
  getninodes s = (pos 1, s)

  unfoldable pub getsize : RamState B → ℕ → ℤ × RamState B
  getsize s ino = if ino == 0 then (to_int s.nblocks, s) else (minus_one, s)

  -- `ino` is not looked at, and nothing stops a size past the array.
  unfoldable pub setsize : RamState B → ℕ → ℕ → ℤ × RamState B
  setsize s ino nblocks = (to_int s.nblocks, record s { nblocks = nblocks })

  -- A read or write past the array itself has no effect here; `Valid` rules it out.
  unfoldable pub read : RamState B → ℕ → ℕ → B → ℤ × B × RamState B
  read s ino offset b =
      if not (ino == 0)
      then (minus_one, b, s)
      else if leb s.nblocks offset
      then (minus_one, b, s)
      else (pos 0, get_or s.blocks offset b, s)

  unfoldable pub write : RamState B → ℕ → ℕ → B → ℤ × RamState B
  write s ino offset b =
      if not (ino == 0)
      then (minus_one, s)
      else if leb s.nblocks offset
      then (minus_one, s)
      else (pos 0, record s { blocks = set s.blocks offset b })

  unfoldable pub sync : RamState B → ℕ → ℤ × RamState B
  sync s ino = (pos 0, s)

  unfoldable pub init : List B → ℕ → RamState B
  init blocks nblocks = record { blocks = blocks; nblocks = nblocks }

  -- The methods as `ramdisk_init` installs them.
  abbrev pub store : Store B
  store = record {
    State = RamState B;
    getninodes = getninodes;
    getsize = getsize;
    setsize = setsize;
    read = read;
    write = write;
    sync = sync;
  }
