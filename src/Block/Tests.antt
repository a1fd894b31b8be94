-- ===== src/Block/Tests.antt =====
-- Runs of the block stores on small disks whose blocks are numbers, and the theorems at them.
mod Layers
mod Trees
use cs4411_p.Base.{ℕ, ◌-◌, ◌≡◌, refl, true, false, some, [], ◌∷◌, arith, pos, minus_one, u32_mod}
use cs4411_p.Block.Store.{View, Same, put}
use cs4411_p.Block.Cache.{Slot, find_slot}
use cs4411_p.Block.Ram
use cs4411_p.Block.Ram.{RamState}
use cs4411_p.Block.Map
use cs4411_p.Block.Map.{MapState}
use cs4411_p.Block.Part
use cs4411_p.Block.Part.{PartState}
use cs4411_p.Block.Raid0
use cs4411_p.Block.Raid0.{RaidState}
use cs4411_p.Block.Clock
use cs4411_p.Block.Clock.{ClockState}
use cs4411_p.Block.WtClock
use cs4411_p.Block.WtClock.{WtClockState}
use cs4411_p.Block.Ram.Laws.{disk as ram_disk}
use cs4411_p.Block.Part.Laws.{part_write}
use cs4411_p.Block.Raid0.Laws.{raid0_write}
use cs4411_p.Block.Cache.Hand.{find_slot_stops, Stopped}
use cs4411_p.Block.Cache.Lookup.{lookup, Distinct}
use cs4411_p.Block.Clock.Laws.{clock_read, clock_write}
use cs4411_p.Block.Clock.Sync.{clock_sync, release-sync, sync_all_skips}
use cs4411_p.Block.WtClock.Laws.{wtclock_read, wtclock_write, refused_write_is_read}

abbrev ram : RamState ℕ
ram = record { blocks = 10 ∷ 11 ∷ 12 ∷ 13 ∷ 14 ∷ 15 ∷ []; nblocks = 6 }

-- Three partitions of sizes 3, 1 and 2.
abbrev parts : PartState (RamState ℕ)
parts = record { below = ram; ninodes = 3; partsizes = 3 ∷ 1 ∷ 2 ∷ [] }

parts-Valid : Part.Laws.Valid Ram.store ram_disk parts
parts-Valid = record { below_valid = omega arith; count = refl; fits = omega arith }

part_reads : (Part.read Ram.store parts 2 1 0).1 ≡ 15
unfolding Part.read Ram.read
part_reads = refl

part_write_example :
    let (r, s) = Part.write Ram.store parts 2 1 99 in
    let view = Part.Laws.view Ram.store ram_disk in
    (r ≡ pos 0) × Part.Laws.Valid Ram.store ram_disk s × Same (view s) (put (view parts) 2 1 99)
part_write_example = part_write Ram.store ram_disk parts 2 1 99 15 parts-Valid refl

abbrev mapped : MapState (PartState (RamState ℕ))
mapped = record { below = parts; ino = 2 }

abbrev stripes : RaidState (RamState ℕ)
stripes = record { below = ram ∷ record { blocks = 20 ∷ 21 ∷ []; nblocks = 2 } ∷ [] }

raid0_write_example :
    let (r, s) = Raid0.write Ram.store stripes 0 3 99 in
    let view = Raid0.Laws.view Ram.store ram_disk in
    (r ≡ pos 0) × Raid0.Laws.Valid Ram.store ram_disk s × Same (view s) (put (view stripes) 0 3 99)
raid0_write_example =
    raid0_write Ram.store ram_disk stripes 0 3 99 21 (omega arith, (omega arith, (omega arith, tt)))
      refl

-- A slot in use, recent, for block `o` of inode 0.
abbrev slot : {X : Type 0} → ℕ → X → ℕ → Slot X ℕ
slot o extra block = record {
  use_bit = true;
  recent_bit = true;
  ino = 0;
  offset = o;
  extra = extra;
  block = block;
}

-- All recent bits are set: the hand goes once round.
hand_goes_round : (find_slot 3 (slot 0 true 7 ∷ slot 3 false 13 ∷ []) 1).1 ≡ 1
unfolding find_slot
hand_goes_round = refl

find_slot_stops_example : Stopped (find_slot 3 (slot 0 true 7 ∷ slot 3 false 13 ∷ []) 1)
find_slot_stops_example =
    find_slot_stops (slot 0 true 7 ∷ slot 3 false 13 ∷ []) 1 (omega arith) (omega arith)

-- Block 0 is cached and dirty, block 3 is cached and clean.
abbrev clock : ClockState (RamState ℕ) ℕ
clock = record {
  below = ram;
  slots = slot 0 true 7 ∷ slot 3 false 13 ∷ [];
  clock_hand = 1;
  read_hit = 0;
  read_miss = 0;
  write_hit = 0;
  write_miss = 0;
}

abbrev clock_view : ClockState (RamState ℕ) ℕ → View ℕ
clock_view = Clock.Coherent.view Ram.store ram_disk

clock-Valid : Clock.Coherent.Valid Ram.store ram_disk clock
unfolding Distinct lookup
clock-Valid = record {
  below_valid = omega arith;
  hand_in = omega arith;
  small = omega arith;
  distinct = (λ u. refl, (λ u. refl, tt));
  covered =
      Clock.Coherent.Covered-of_slots Ram.store ram_disk ram clock.slots
        (λ u f. cc, (λ u f. refl, tt));
}

-- A read of a block that is not cached takes the slot at the hand.
clock_read_example :
    let (r, b, s) = Clock.read Ram.store clock 0 4 0 in
    (r ≡ pos 0)
    × (b ≡ 14)
    × Clock.Coherent.Valid Ram.store ram_disk s
    × Same (clock_view s) (clock_view clock)
unfolding lookup
clock_read_example = clock_read Ram.store ram_disk clock 0 4 0 14 clock-Valid refl

clock_write_example :
    let (r, s) = Clock.write Ram.store clock 0 5 99 in
    (r ≡ pos 0)
    × Clock.Coherent.Valid Ram.store ram_disk s
    × Same (clock_view s) (put (clock_view clock) 0 5 99)
unfolding lookup
clock_write_example = clock_write Ram.store ram_disk clock 0 5 99 15 clock-Valid refl

clock_sync_example :
    let (r, s) = Clock.sync Ram.store clock 0 in
    Clock.Coherent.Valid Ram.store ram_disk s × Same (clock_view s) (clock_view clock)
clock_sync_example = clock_sync Ram.store ram_disk 0 clock clock-Valid

-- The dirty block 0 is on the disk after a sync.
release-sync_example :
    Ram.Laws.view (Clock.release Ram.store (Clock.sync Ram.store clock 0).1) 0 0 ≡ some 7
unfolding lookup
release-sync_example = release-sync Ram.store ram_disk 0 clock clock-Valid 0

sync_all_skips_example :
    let (r, below) = Ram.sync ram (u32_mod - 1) in
    Clock.sync Ram.store clock (u32_mod - 1) ≡ (r, record clock { below = below })
sync_all_skips_example = sync_all_skips Ram.store clock (refl, (refl, tt))

abbrev wtclock : WtClockState (RamState ℕ) ℕ
wtclock = record {
  below = ram;
  slots = slot 0 tt 10 ∷ slot 3 tt 13 ∷ [];
  clock_hand = 1;
  read_hit = 0;
  read_miss = 0;
  write_hit = 0;
  write_miss = 0;
}

wtclock-Slots : WtClock.Stored.Slots wtclock.slots wtclock.clock_hand
unfolding Distinct lookup
wtclock-Slots = record {
  hand_in = omega arith;
  small = omega arith;
  distinct = (λ u. refl, (λ u. refl, tt));
}

wtclock-Valid : WtClock.Laws.Valid Ram.store ram_disk wtclock
wtclock-Valid = record {
  below_valid = omega arith;
  well = wtclock-Slots;
  agrees =
      WtClock.Laws.agrees_of_slots Ram.store ram_disk ram wtclock.slots
        (λ u. refl, (λ u. refl, tt));
}

wtclock_read_example :
    let (r, b, s) = WtClock.read Ram.store wtclock 0 3 0 in
    (r ≡ pos 0)
    × (b ≡ 13)
    × WtClock.Laws.Valid Ram.store ram_disk s
    × Same (Ram.Laws.view s.below) (Ram.Laws.view ram)
wtclock_read_example = wtclock_read Ram.store ram_disk wtclock 0 3 0 13 wtclock-Valid refl

wtclock_write_example :
    let (r, s) = WtClock.write Ram.store wtclock 0 3 99 in
    (r ≡ pos 0)
    × WtClock.Laws.Valid Ram.store ram_disk s
    × Same (Ram.Laws.view s.below) (put (Ram.Laws.view ram) 0 3 99)
wtclock_write_example = wtclock_write Ram.store ram_disk wtclock 0 3 99 13 wtclock-Valid refl

-- Block 9 is past the end of the disk.
refused_write_is_read_example :
    let (r, s) = WtClock.write Ram.store wtclock 0 9 99 in
    let (r', b, s') = WtClock.read Ram.store s 0 9 0 in (r ≡ minus_one) × (r' ≡ pos 0) × (b ≡ 99)
unfolding Ram.write
refused_write_is_read_example = refused_write_is_read Ram.store wtclock 0 9 99 0 wtclock-Slots refl
