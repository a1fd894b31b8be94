-- ===== src/Block/Map.antt =====
-- block/mapdisk.c: one inode of the store below as a store of its own.
pub mod Laws
use cs4411_p.Base.{ℕ, not, ◌==◌, if◌then◌else◌, ℤ, pos, minus_one}
use cs4411_p.Block.Store.{Store}

-- `struct mapdisk_state`
pub record MapState (S : Type 0) : Type 0 where
  pub below : S
  pub ino : ℕ

module _ {B : Type 0} (D : Store B) where
  unfoldable pub getninodes : MapState D.State → ℤ × MapState D.State
  getninodes s = (pos 1, s)

  unfoldable pub getsize : MapState D.State → ℕ → ℤ × MapState D.State
  getsize s ino =
      if not (ino == 0)
      then (minus_one, s)
      else let (r, below) = D.getsize s.below s.ino in (r, record s { below = below })

  unfoldable pub setsize : MapState D.State → ℕ → ℕ → ℤ × MapState D.State
  setsize s ino nblocks =
      if not (ino == 0)
      then (minus_one, s)
      else let (r, below) = D.setsize s.below s.ino nblocks in (r, record s { below = below })

  unfoldable pub read : MapState D.State → ℕ → ℕ → B → ℤ × B × MapState D.State
  read s ino offset b =
      if not (ino == 0)
      then (minus_one, b, s)
      else let (r, b', below) = D.read s.below s.ino offset b in (r, b', record s { below = below })

  unfoldable pub write : MapState D.State → ℕ → ℕ → B → ℤ × MapState D.State
  write s ino offset b =
      if not (ino == 0)
      then (minus_one, s)
      else let (r, below) = D.write s.below s.ino offset b in (r, record s { below = below })

  unfoldable pub sync : MapState D.State → ℕ → ℤ × MapState D.State
  sync s ino =
      if not (ino == 0)
      then (minus_one, s)
      else let (r, below) = D.sync s.below s.ino in (r, record s { below = below })

  unfoldable pub init : D.State → ℕ → MapState D.State
  init below ino = record { below = below; ino = ino }

  -- The methods as `mapdisk_init` installs them.
  abbrev pub store : Store B
  store = record {
    State = MapState D.State;
    getninodes = getninodes;
    getsize = getsize;
    setsize = setsize;
    read = read;
    write = write;
    sync = sync;
  }
