-- ===== src/Block/Raid0.antt =====
-- block/raid0disk.c: stripes over several stores.
pub mod Laws
use cs4411_p.Base.{
  ℕ, zero, suc, ◌+◌, ◌-◌, ◌/◌, ◌%◌, not, none, some, List, [], ◌∷◌, ◌==◌, if◌then◌else◌, length,
  get_elem?, set, ℤ, pos, negsuc, minus_one, is_neg, to_int, u32_mod,
}
use cs4411_p.Block.Store.{Store}

-- `struct raid0disk_state`: the array `below` of stores, with `nbelow` for its length. The stores
-- of one array are of one kind here.
pub record RaidState (S : Type 0) : Type 0 where
  pub below : List S

abbrev pub nbelow : {S : Type 0} → RaidState S → ℕ
nbelow s = length s.below

module _ {B : Type 0} (D : Store B) where
  unfoldable pub getninodes : RaidState D.State → ℤ × RaidState D.State
  getninodes s = (pos 1, s)

  -- The loop of `raid0disk_getsize` for the rounds that are left; each round asks `below[0]`. The
  -- sum is an `int`, kept modulo 2^32.
  unfoldable pub sum_sizes : ℕ → D.State → ℕ → ℕ → ℤ × D.State
  sum_sizes zero first ino total = (to_int total, first)
  sum_sizes (suc k) first ino total =
      let (r, first') = D.getsize first ino in
      elim r [
        | pos n ↦ sum_sizes k first' ino ((total + n) % u32_mod)
        | negsuc n ↦ (negsuc n, first')
      ]

  -- The size of the array, when the first store is `first`.
  unfoldable pub size_below : ℕ → List D.State → ℤ × RaidState D.State
  unfolding sum_sizes
  size_below ino [] = (to_int 0, record { below = [] })
  size_below ino (first ∷ rest) =
      let (r, first') = sum_sizes (suc (length rest)) first ino 0 in
      (r, record { below = first' ∷ rest })

  unfoldable pub getsize : RaidState D.State → ℕ → ℤ × RaidState D.State
  unfolding size_below
  getsize s ino = if not (ino == 0) then (minus_one, s) else size_below ino s.below

  unfoldable pub setsize : RaidState D.State → ℕ → ℕ → ℤ × RaidState D.State
  setsize s ino nblocks = (minus_one, s)

  -- With no store below the source divides by 0; -1 here.
  unfoldable pub read : RaidState D.State → ℕ → ℕ → B → ℤ × B × RaidState D.State
  read s ino offset b =
      if not (ino == 0)
      then (minus_one, b, s)
      else let i = offset % nbelow s in
        elim (get_elem? s.below i) [
          | none ↦ (minus_one, b, s)
          | some t ↦
              let (r, b', t') = D.read t ino (offset / nbelow s) b in
              (r, b', record { below = set s.below i t' })
        ]

  unfoldable pub write : RaidState D.State → ℕ → ℕ → B → ℤ × RaidState D.State
  write s ino offset b =
      if not (ino == 0)
      then (minus_one, s)
      else let i = offset % nbelow s in
        elim (get_elem? s.below i) [
          | none ↦ (minus_one, s)
          | some t ↦
              let (r, t') = D.write t ino (offset / nbelow s) b in
              (r, record { below = set s.below i t' })
        ]

  -- The loop of `raid0disk_sync`: every store is told to sync inode -1, until one fails.
  unfoldable pub sync_all : List D.State → ℤ × List D.State
  sync_all [] = (pos 0, [])
  sync_all (t ∷ rest) =
      let (r, t') = D.sync t (u32_mod - 1) in
      let (r', rest') = sync_all rest in
      if is_neg r then (minus_one, t' ∷ rest) else (r', t' ∷ rest')

  unfoldable pub sync : RaidState D.State → ℕ → ℤ × RaidState D.State
  unfolding sync_all
  sync s ino =
      if not (ino == 0)
      then (minus_one, s)
      else let (r, below) = sync_all s.below in (r, record { below = below })

  unfoldable pub init : List D.State → RaidState D.State
  init below = record { below = below }

  -- The methods as `raid0disk_init` installs them.
  abbrev pub store : Store B
  store = record {
    State = RaidState D.State;
    getninodes = getninodes;
    getsize = getsize;
    setsize = setsize;
    read = read;
    write = write;
    sync = sync;
  }
