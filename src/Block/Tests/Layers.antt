-- ===== src/Block/Tests/Layers.antt =====
-- Runs of the other layers on small disks whose blocks are numbers, and the theorems at them.
use cs4411_p.Base.{
  ℕ, ◌≡◌, refl, true, false, if◌then◌else◌, ◌==◌, ==_iff, inl, inr, List, some, [], ◌∷◌, arith, pos,
  minus_one,
}
use cs4411_p.Block.Store.{View, Same, put}
use cs4411_p.Block.Ram
use cs4411_p.Block.Ram.{RamState}
use cs4411_p.Block.Ram.Laws.{disk as ram_disk}
use cs4411_p.Block.Client.{Op, read_block, write_block, sync_inode}
use cs4411_p.Block.Stat.{StatState}
use cs4411_p.Block.Combine
use cs4411_p.Block.Combine.{CombineState}
use cs4411_p.Block.Combine.Locate.{stores_view}
use cs4411_p.Block.Combine.Laws.{combine_read, combine_write}
use cs4411_p.Block.Raid1
use cs4411_p.Block.Raid1.{Mirror, RaidState}
use cs4411_p.Block.Raid1.Laws.{
  raid1_read, raid1_read_survives, raid1_write, fallible_of_disk, Agree,
}
use cs4411_p.Block.Check
use cs4411_p.Block.Check.{CheckState, Entry, recorded}
use cs4411_p.Block.Check.Laws.{check_read}

abbrev disk3 : RamState ℕ
disk3 = record { blocks = 10 ∷ 11 ∷ 12 ∷ []; nblocks = 3 }

abbrev stat : StatState (RamState ℕ)
stat = record { below = disk3; ngetsize = 0; nsetsize = 0; nread = 4; nwrite = 0; nsync = 0 }

abbrev calls : List (Op ℕ)
calls = write_block 0 1 99 ∷ read_block 0 1 0 ∷ read_block 0 7 0 ∷ sync_inode 0 ∷ []

abbrev combined : CombineState (RamState ℕ)
combined = record {
  below = disk3 ∷ record { blocks = 20 ∷ 21 ∷ []; nblocks = 2 } ∷ [];
  belowninodes = 1 ∷ 1 ∷ [];
}

combined-Valid : Combine.Laws.Valid Ram.store ram_disk combined
combined-Valid = record {
  below_valid = (omega arith, (omega arith, tt));
  count = refl;
  fits = omega arith;
}

combine_write_example :
    let (r, s) = Combine.write Ram.store combined 1 1 99 in
    let view = Combine.Laws.view Ram.store ram_disk in
    (r ≡ pos 0)
    × Combine.Laws.Valid Ram.store ram_disk s
    × Same (view s) (put (view combined) 1 1 99)
unfolding stores_view
combine_write_example = combine_write Ram.store ram_disk combined 1 1 99 21 combined-Valid refl

-- The first of three mirrors is broken and holds something else.
abbrev mirrors : RaidState (RamState ℕ)
mirrors =
    record { disk = record { blocks = []; nblocks = 0 }; broken = true }
    ∷ record { disk = disk3; broken = false }
    ∷ record { disk = disk3; broken = false }
    ∷ []

abbrev mirror_view : View ℕ
mirror_view = Ram.Laws.view disk3

mirrors-Agree : Agree Ram.store (fallible_of_disk Ram.store ram_disk) mirror_view mirrors
mirrors-Agree = (
  λ w. absurd (ground arith),
  (λ w. (omega arith, λ j p. refl), (λ w. (omega arith, λ j p. refl), tt)),
)

raid1_read_survives_example :
    let (r, b, s) = Raid1.read Ram.store mirrors 0 1 0 in (r ≡ pos 0) × (b ≡ 11)
unfolding Ram.read
raid1_read_survives_example =
    raid1_read_survives Ram.store (fallible_of_disk Ram.store ram_disk) mirror_view mirrors 0 1 0 11
      mirrors-Agree refl (inr (inl (refl, λ b. refl)))

raid1_write_example :
    let (r, s) = Raid1.write Ram.store mirrors 0 1 99 in
    (r ≡ (
      if Raid1.Laws.any_working Ram.store (fallible_of_disk Ram.store ram_disk) s
      then pos 0
      else minus_one))
    × Agree Ram.store (fallible_of_disk Ram.store ram_disk) (put mirror_view 0 1 99) s
raid1_write_example =
    raid1_write Ram.store (fallible_of_disk Ram.store ram_disk) mirror_view mirrors 0 1 99 11
      mirrors-Agree refl

abbrev checked : CheckState (RamState ℕ) ℕ
checked = record { below = disk3; bl = Check.entry 0 1 11 ∷ [] }

checked-Valid : Check.Laws.Valid ◌==◌ ==_iff Ram.store ram_disk checked
unfolding recorded
checked-Valid = record { below_valid = omega arith; agrees = λ j p b e. ground arith }

check_read_example :
    (s : CheckState (RamState ℕ) ℕ) × (Check.read ◌==◌ Ram.store checked 0 1 0
      ≡ some (pos 0, 11, s))
    × Check.Laws.Valid ◌==◌ ==_iff Ram.store ram_disk s
    × Same (Ram.Laws.view s.below) (Ram.Laws.view disk3)
check_read_example = check_read ◌==◌ ==_iff Ram.store ram_disk checked 0 1 0 11 checked-Valid refl
