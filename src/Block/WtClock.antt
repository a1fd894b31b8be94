-- ===== src/Block/WtClock.antt =====
-- block/wtclockdisk.c: a write-through cache with the clock algorithm.
pub mod Stored
pub mod Laws
use cs4411_p.Base.{
  ℕ, suc, ◌+◌, ◌%◌, true, false, none, some, List, [], ◌∷◌, if◌then◌else◌, length, get_elem?, set,
  ℤ, pos, minus_one, is_minus_one, u32_mod,
}
use cs4411_p.Block.Store.{Store}
use cs4411_p.Block.Cache.{Slot, search, find_slot, truncate}

-- `struct wtclockdisk_state`. `slots` is the arrays `metadatas` and `blocks`, of `nblocks` entries.
pub record WtClockState (S B : Type 0) : Type 0 where
  pub below : S
  pub slots : List (Slot (Unit {0}) B)
  pub clock_hand : ℕ
  pub read_hit : ℕ
  pub read_miss : ℕ
  pub write_hit : ℕ
  pub write_miss : ℕ

-- `x += 1` on an `unsigned int`.
unfoldable pub bump : ℕ → ℕ
bump n = (n + 1) % u32_mod

module _ {B : Type 0} where
  -- The slot that `cache_update` leaves in the hand's place.
  abbrev pub filled : ℕ → ℕ → B → Slot (Unit {0}) B
  filled ino offset b = record {
    use_bit = true;
    recent_bit = true;
    ino = ino;
    offset = offset;
    extra = tt;
    block = b;
  }

module _ {B : Type 0} (D : Store B) where
  unfoldable pub cache_update : WtClockState D.State B → ℕ → ℕ → B → WtClockState D.State B
  unfolding find_slot
  cache_update s ino offset b =
      let (slots, hand) = find_slot (suc (length s.slots)) s.slots s.clock_hand in
      record s { slots = set slots hand (filled ino offset b); clock_hand = hand }

  unfoldable pub getninodes : WtClockState D.State B → ℤ × WtClockState D.State B
  getninodes s = let (r, below) = D.getninodes s.below in (r, record s { below = below })

  unfoldable pub getsize : WtClockState D.State B → ℕ → ℤ × WtClockState D.State B
  getsize s ino = let (r, below) = D.getsize s.below ino in (r, record s { below = below })

  unfoldable pub setsize : WtClockState D.State B → ℕ → ℕ → ℤ × WtClockState D.State B
  unfolding truncate
  setsize s ino nblocks =
      let (r, below) = D.setsize s.below ino nblocks in
      (r, record s { below = below; slots = truncate (λ e. e) ino nblocks s.slots })

  unfoldable pub read : WtClockState D.State B → ℕ → ℕ → B → ℤ × B × WtClockState D.State B
  unfolding bump search cache_update
  read s ino offset b = elim (search s.slots ino offset) [
    | none ↦
        let (r, b', below) = D.read s.below ino offset b in
        let missed = record s { below = below; read_miss = bump s.read_miss } in
        if is_minus_one r
        then (minus_one, b', missed)
        else (pos 0, b', cache_update missed ino offset b')
    | some i ↦ elim (get_elem? s.slots i) [
      | none ↦ (pos 0, b, s)
      | some x ↦ (pos 0, x.block, record s { read_hit = bump s.read_hit })
    ]
  ]

  -- The cache as `wtclockdisk_write` leaves it, before the block goes to the store below.
  unfoldable pub cached : WtClockState D.State B → ℕ → ℕ → B → WtClockState D.State B
  unfolding bump search cache_update
  cached s ino offset b = elim (search s.slots ino offset) [
    | none ↦ cache_update (record s { write_miss = bump s.write_miss }) ino offset b
    | some i ↦ elim (get_elem? s.slots i) [
      | none ↦ s
      | some x ↦ record s {
        write_hit = bump s.write_hit;
        slots = set s.slots i (record x { block = b });
      }
    ]
  ]

  unfoldable pub write : WtClockState D.State B → ℕ → ℕ → B → ℤ × WtClockState D.State B
  unfolding cached
  write s ino offset b =
      let s' = cached s ino offset b in
      let (r, below) = D.write s'.below ino offset b in (r, record s' { below = below })

  unfoldable pub sync : WtClockState D.State B → ℕ → ℤ × WtClockState D.State B
  sync s ino = let (r, below) = D.sync s.below ino in (r, record s { below = below })

  -- The loop of `wtclockdisk_init` over the fresh arrays, whose contents `malloc` does not define.
  unfoldable pub clear : List (Slot (Unit {0}) B) → List (Slot (Unit {0}) B)
  clear [] = []
  clear (x ∷ slots) = record x { use_bit = false; recent_bit = false } ∷ clear slots

  unfoldable pub init : D.State → List (Slot (Unit {0}) B) → WtClockState D.State B
  unfolding clear
  init below slots = record {
    below = below;
    slots = clear slots;
    clock_hand = 0;
    read_hit = 0;
    read_miss = 0;
    write_hit = 0;
    write_miss = 0;
  }

  -- The methods as `wtclockdisk_init` installs them.
  abbrev pub store : Store B
  store = record {
    State = WtClockState D.State B;
    getninodes = getninodes;
    getsize = getsize;
    setsize = setsize;
    read = read;
    write = write;
    sync = sync;
  }
