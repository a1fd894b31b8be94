-- ===== src/Block/Stat.antt =====
-- block/statdisk.c: a layer that counts the calls.
pub mod Laws
use cs4411_p.Base.{ℕ, ◌+◌, ◌%◌, ℤ, u32_mod}
use cs4411_p.Block.Store.{Store}

-- `struct statdisk_state`
pub record StatState (S : Type 0) : Type 0 where
  pub below : S
  pub ngetsize : ℕ
  pub nsetsize : ℕ
  pub nread : ℕ
  pub nwrite : ℕ
  pub nsync : ℕ

-- `x++` on an `unsigned int`.
unfoldable pub bump : ℕ → ℕ
bump n = (n + 1) % u32_mod

module _ {B : Type 0} (D : Store B) where
  unfoldable pub getninodes : StatState D.State → ℤ × StatState D.State
  getninodes s = let (r, below) = D.getninodes s.below in (r, record s { below = below })

  unfoldable pub getsize : StatState D.State → ℕ → ℤ × StatState D.State
  unfolding bump
  getsize s ino =
      let (r, below) = D.getsize s.below ino in
      (r, record s { below = below; ngetsize = bump s.ngetsize })

  unfoldable pub setsize : StatState D.State → ℕ → ℕ → ℤ × StatState D.State
  unfolding bump
  setsize s ino nblocks =
      let (r, below) = D.setsize s.below ino nblocks in
      (r, record s { below = below; nsetsize = bump s.nsetsize })

  unfoldable pub read : StatState D.State → ℕ → ℕ → B → ℤ × B × StatState D.State
  unfolding bump
  read s ino offset b =
      let (r, b', below) = D.read s.below ino offset b in
      (r, b', record s { below = below; nread = bump s.nread })

  unfoldable pub write : StatState D.State → ℕ → ℕ → B → ℤ × StatState D.State
  unfolding bump
  write s ino offset b =
      let (r, below) = D.write s.below ino offset b in
      (r, record s { below = below; nwrite = bump s.nwrite })

  unfoldable pub sync : StatState D.State → ℕ → ℤ × StatState D.State
  unfolding bump
  sync s ino =
      let (r, below) = D.sync s.below ino in (r, record s { below = below; nsync = bump s.nsync })

  -- `new_alloc` is `calloc`, so the counters start at 0.
  unfoldable pub init : D.State → StatState D.State
  init below = record {
    below = below;
    ngetsize = 0;
    nsetsize = 0;
    nread = 0;
    nwrite = 0;
    nsync = 0;
  }

  -- The methods as `statdisk_init` installs them.
  abbrev pub store : Store B
  store = record {
    State = StatState D.State;
    getninodes = getninodes;
    getsize = getsize;
    setsize = setsize;
    read = read;
    write = write;
    sync = sync;
  }
