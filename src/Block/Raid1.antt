-- ===== src/Block/Raid1.antt =====
-- block/raid1disk.c: mirrors on several stores, some of which may be broken.
pub mod Laws
use cs4411_p.Base.{ℕ, Bool, true, false, List, [], ◌∷◌, if◌then◌else◌, ℤ, pos, minus_one, is_neg}
use cs4411_p.Block.Store.{Store}

-- One index of the arrays `below` and `broken`, which the code always uses at the same index. The
-- stores of one array are of one kind here.
pub record Mirror (S : Type 0) : Type 0 where
  pub disk : S
  pub broken : Bool

-- `struct raid1disk_state`, with `nbelow` for the length of its arrays.
abbrev pub RaidState : Type 0 → Type 0
RaidState S = List (Mirror S)

module _ {S : Type 0} where
  -- The loop of `raid1disk_getninodes` and of `raid1disk_getsize`: the first store that is not
  -- broken and does not fail answers.
  unfoldable pub ask_first : (S → ℤ × S) → RaidState S → ℤ × RaidState S
  ask_first method [] = (minus_one, [])
  ask_first method (m ∷ ms) =
      let (r, t) = method m.disk in
      let rest = ask_first method ms in
      if m.broken
      then (rest.0, m ∷ rest.1)
      else if is_neg r
      then (rest.0, record { disk = t; broken = true } ∷ rest.1)
      else (r, record m { disk = t } ∷ ms)

  -- The loop of `raid1disk_write` and of `raid1disk_sync`: every store that is not broken is called,
  -- and one success is enough.
  unfoldable pub call_all : (S → ℤ × S) → RaidState S → ℤ → ℤ × RaidState S
  call_all method [] result = (result, [])
  call_all method (m ∷ ms) result =
      let (r, t) = method m.disk in
      let skipped = call_all method ms result in
      let done = call_all method ms (pos 0) in
      if m.broken
      then (skipped.0, m ∷ skipped.1)
      else if is_neg r
      then (skipped.0, record { disk = t; broken = true } ∷ skipped.1)
      else (done.0, record m { disk = t } ∷ done.1)

  -- The loop of `raid1disk_setsize`, which calls the broken stores too.
  unfoldable pub setsize_all : (S → ℤ × S) → RaidState S → ℤ → ℤ × RaidState S
  setsize_all method [] oldsize = (oldsize, [])
  setsize_all method (m ∷ ms) oldsize =
      let (r, t) = method m.disk in
      let failed = setsize_all method ms oldsize in
      let done = setsize_all method ms r in
      if is_neg r
      then (failed.0, record { disk = t; broken = true } ∷ failed.1)
      else (done.0, record m { disk = t } ∷ done.1)

module _ {B : Type 0} (D : Store B) where
  unfoldable pub getninodes : RaidState D.State → ℤ × RaidState D.State
  unfolding ask_first
  getninodes s = ask_first (λ t. D.getninodes t) s

  unfoldable pub getsize : RaidState D.State → ℕ → ℤ × RaidState D.State
  unfolding ask_first
  getsize s ino = ask_first (λ t. D.getsize t ino) s

  unfoldable pub setsize : RaidState D.State → ℕ → ℕ → ℤ × RaidState D.State
  unfolding setsize_all
  setsize s ino nblocks = setsize_all (λ t. D.setsize t ino nblocks) s minus_one

  -- A store that fails to read is not marked.
  unfoldable pub read : RaidState D.State → ℕ → ℕ → B → ℤ × B × RaidState D.State
  read [] ino offset b = (minus_one, b, [])
  read (m ∷ ms) ino offset b =
      let (r, b', t) = D.read m.disk ino offset b in
      let skipped = read ms ino offset b in
      let failed = read ms ino offset b' in
      if m.broken
      then (skipped.0, skipped.1, m ∷ skipped.2)
      else if is_neg r
      then (failed.0, failed.1, record m { disk = t } ∷ failed.2)
      else (pos 0, b', record m { disk = t } ∷ ms)

  unfoldable pub write : RaidState D.State → ℕ → ℕ → B → ℤ × RaidState D.State
  unfolding call_all
  write s ino offset b = call_all (λ t. D.write t ino offset b) s minus_one

  unfoldable pub sync : RaidState D.State → ℕ → ℤ × RaidState D.State
  unfolding call_all
  sync s ino = call_all (λ t. D.sync t ino) s minus_one

  -- `calloc` clears the array `broken`.
  unfoldable pub init : List D.State → RaidState D.State
  init [] = []
  init (t ∷ below) = record { disk = t; broken = false } ∷ init below

  -- The methods as `raid1disk_init` installs them.
  abbrev pub store : Store B
  store = record {
    State = RaidState D.State;
    getninodes = getninodes;
    getsize = getsize;
    setsize = setsize;
    read = read;
    write = write;
    sync = sync;
  }
