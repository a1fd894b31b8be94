-- ===== src/Block/Clock.antt =====
-- block/clockdisk.c: a write-back cache with the clock algorithm.
pub mod Coherent
pub mod Laws
pub mod Sync
use cs4411_p.Base.{
  ℕ, suc, ◌+◌, ◌%◌, Bool, true, false, ◌&&◌, none, some, List, [], ◌∷◌, ◌==◌, if◌then◌else◌, length,
  get_elem?, set, ℤ, pos, minus_one, is_minus_one, u32_mod,
}
use cs4411_p.Block.Store.{Store}
use cs4411_p.Block.Cache.{Slot, search, find_slot, truncate}

-- `struct clockdisk_state`. `slots` is the arrays `metadatas` and `blocks`, of `nblocks` entries; the
-- extra bit of a slot is its `dirty_bit`.
pub record ClockState (S B : Type 0) : Type 0 where
  pub below : S
  pub slots : List (Slot Bool B)
  pub clock_hand : ℕ
  pub read_hit : ℕ
  pub read_miss : ℕ
  pub write_hit : ℕ
  pub write_miss : ℕ

-- `x += 1` on an `unsigned int`.
unfoldable pub bump : ℕ → ℕ
bump n = (n + 1) % u32_mod

module _ {B : Type 0} (D : Store B) where
  -- The store below after the slot in the hand's place is written back, if it is dirty. The result
  -- of the write is not looked at.
  unfoldable pub write_back : D.State → Slot Bool B → D.State
  write_back below x =
      if x.extra && x.use_bit then (D.write below x.ino x.offset x.block).1 else below

  -- The slot that `cache_update` leaves in the hand's place.
  abbrev pub filled : ℕ → ℕ → B → Slot Bool B
  filled ino offset b = record {
    use_bit = true;
    recent_bit = true;
    ino = ino;
    offset = offset;
    extra = true;
    block = b;
  }

  -- `cache_update` behind its loop: the slots and the hand are those that the loop leaves.
  unfoldable pub replace : ClockState D.State B → ℕ → ℕ → B → ClockState D.State B
  unfolding write_back
  replace s ino offset b = elim (get_elem? s.slots s.clock_hand) [
    | none ↦ s
    | some x ↦ record s {
      below = write_back s.below x;
      slots = set s.slots s.clock_hand (filled ino offset b);
    }
  ]

  unfoldable pub cache_update : ClockState D.State B → ℕ → ℕ → B → ClockState D.State B
  unfolding find_slot replace
  cache_update s ino offset b =
      let (slots, hand) = find_slot (suc (length s.slots)) s.slots s.clock_hand in
      replace (record s { slots = slots; clock_hand = hand }) ino offset b

  unfoldable pub getninodes : ClockState D.State B → ℤ × ClockState D.State B
  getninodes s = let (r, below) = D.getninodes s.below in (r, record s { below = below })

  unfoldable pub getsize : ClockState D.State B → ℕ → ℤ × ClockState D.State B
  getsize s ino = let (r, below) = D.getsize s.below ino in (r, record s { below = below })

  unfoldable pub setsize : ClockState D.State B → ℕ → ℕ → ℤ × ClockState D.State B
  unfolding truncate
  setsize s ino nblocks =
      let (r, below) = D.setsize s.below ino nblocks in
      (r, record s { below = below; slots = truncate (λ _. false) ino nblocks s.slots })

  unfoldable pub read : ClockState D.State B → ℕ → ℕ → B → ℤ × B × ClockState D.State B
  unfolding bump search cache_update
  read s ino offset b = elim (search s.slots ino offset) [
    | none ↦
        let (r, b', below) = D.read s.below ino offset b in
        let missed = record s { below = below; read_miss = bump s.read_miss } in
        if is_minus_one r
        then (minus_one, b', missed)
        else (pos 0, b', cache_update missed ino offset b')
    | some i ↦ elim (get_elem? s.slots i) [
      | none ↦ (pos 0, b, s)
      | some x ↦ (pos 0, x.block, record s { read_hit = bump s.read_hit })
    ]
  ]

  unfoldable pub write : ClockState D.State B → ℕ → ℕ → B → ℤ × ClockState D.State B
  unfolding bump search cache_update
  write s ino offset b = elim (search s.slots ino offset) [
    | none ↦ (pos 0, cache_update (record s { write_miss = bump s.write_miss }) ino offset b)
    | some i ↦ elim (get_elem? s.slots i) [
      | none ↦ (pos 0, s)
      | some x ↦ (
        pos 0,
        record s {
          write_hit = bump s.write_hit;
          slots = set s.slots i (record x { block = b; extra = true });
        },
      )
    ]
  ]

  -- The loop of `clockdisk_sync` over the slots that are left: the dirty ones of `ino` are written
  -- to the store below, until a write fails; the flag says whether one did.
  unfoldable pub flush : ℕ → D.State → List (Slot Bool B) → Bool × D.State × List (Slot Bool B)
  flush ino below [] = (false, below, [])
  flush ino below (x ∷ slots) =
      let (r, below') = D.write below ino x.offset x.block in
      let skipped = flush ino below slots in
      let written = flush ino below' slots in
      if (x.ino == ino) && (x.use_bit && x.extra)
      then (if is_minus_one r
          then (true, below', x ∷ slots)
          else (written.0, written.1, record x { extra = false } ∷ written.2))
      else (skipped.0, skipped.1, x ∷ skipped.2)

  unfoldable pub sync : ClockState D.State B → ℕ → ℤ × ClockState D.State B
  unfolding flush
  sync s ino =
      let (failed, below, slots) = flush ino s.below s.slots in
      let (r, below') = D.sync below ino in
      if failed
      then (minus_one, record s { below = below; slots = slots })
      else (r, record s { below = below'; slots = slots })

  -- `clockdisk_release` frees the cache; only the store below is left.
  unfoldable pub release : ClockState D.State B → D.State
  release s = s.below

  -- The loop of `clockdisk_init` over the fresh arrays, whose contents `malloc` does not define.
  unfoldable pub clear : List (Slot Bool B) → List (Slot Bool B)
  clear [] = []
  clear (x ∷ slots) = record x { use_bit = false; recent_bit = false; extra = false } ∷ clear slots

  unfoldable pub init : D.State → List (Slot Bool B) → ClockState D.State B
  unfolding clear
  init below slots = record {
    below = below;
    slots = clear slots;
    clock_hand = 0;
    read_hit = 0;
    read_miss = 0;
    write_hit = 0;
    write_miss = 0;
  }

  -- The methods as `clockdisk_init` installs them.
  abbrev pub store : Store B
  store = record {
    State = ClockState D.State B;
    getninodes = getninodes;
    getsize = getsize;
    setsize = setsize;
    read = read;
    write = write;
    sync = sync;
  }
