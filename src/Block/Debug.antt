-- ===== src/Block/Debug.antt =====
-- block/debugdisk.c: a layer that prints the calls. What it prints to stderr is not modelled.
pub mod Laws
use cs4411_p.Base.{ℕ, ℤ}
use Prim.Native.String.{String}
use cs4411_p.Block.Store.{Store}

-- `struct debugdisk_state`
pub record DebugState (S : Type 0) : Type 0 where
  pub below : S
  pub descr : String

module _ {B : Type 0} (D : Store B) where
  unfoldable pub getninodes : DebugState D.State → ℤ × DebugState D.State
  getninodes s = let (r, below) = D.getninodes s.below in (r, record s { below = below })

  unfoldable pub getsize : DebugState D.State → ℕ → ℤ × DebugState D.State
  getsize s ino = let (r, below) = D.getsize s.below ino in (r, record s { below = below })

  unfoldable pub setsize : DebugState D.State → ℕ → ℕ → ℤ × DebugState D.State
  setsize s ino nblocks =
      let (r, below) = D.setsize s.below ino nblocks in (r, record s { below = below })

  unfoldable pub read : DebugState D.State → ℕ → ℕ → B → ℤ × B × DebugState D.State
  read s ino offset b =
      let (r, b', below) = D.read s.below ino offset b in (r, b', record s { below = below })

  unfoldable pub write : DebugState D.State → ℕ → ℕ → B → ℤ × DebugState D.State
  write s ino offset b =
      let (r, below) = D.write s.below ino offset b in (r, record s { below = below })

  unfoldable pub sync : DebugState D.State → ℕ → ℤ × DebugState D.State
  sync s ino = let (r, below) = D.sync s.below ino in (r, record s { below = below })

  unfoldable pub init : D.State → String → DebugState D.State
  init below descr = record { below = below; descr = descr }

  -- The methods as `debugdisk_init` installs them.
  abbrev pub store : Store B
  store = record {
    State = DebugState D.State;
    getninodes = getninodes;
    getsize = getsize;
    setsize = setsize;
    read = read;
    write = write;
    sync = sync;
  }
