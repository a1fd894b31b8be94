-- ===== src/Block/Map/Laws.antt =====
-- block/mapdisk.c against an array of blocks.
use cs4411_p.Base.{
  ℕ, ◌≡◌, refl, inl, inr, true, none, some, arith, ◌==◌, Bool-cases, if◌then◌else◌, pos, minus_one,
}
use cs4411_p.Block.Store.{Store, View, Same, put, IsDisk}
use cs4411_p.Block.Map.{MapState, read, write, sync, store}

module _ {B : Type 0} (D : Store B) (d : IsDisk D) where
  abbrev pub Valid : MapState D.State → Type 0
  Valid s = d.Valid s.below

  -- Inode 0 is the chosen inode below.
  abbrev pub view : MapState D.State → View B
  view s i o = if i == 0 then d.view s.below s.ino o else none

  view_some :
      (s : MapState D.State) (i o : ℕ) {v : B}
      → view s i o ≡ some v
      → ((i == 0) ≡ true) × (d.view s.below s.ino o ≡ some v)
  view_some s i o e = ground arith

  pub map_read :
      (s : MapState D.State) (i o : ℕ) (b v : B)
      → Valid s
      → view s i o ≡ some v
      → let (r, b', s') = read D s i o b in
        (r ≡ pos 0) × (b' ≡ v) × Valid s' × Same (view s') (view s)
  unfolding read
  map_read s i o b v ok e =
      let z = view_some s i o e in
      let h = d.read_some s.below s.ino o b v ok z.1 in
      rw z.0 (h.0, h.1, h.2, λ j p. ground (arith, h.3 s.ino p))

  pub map_read_error :
      (s : MapState D.State) (i o : ℕ) (b : B)
      → Valid s
      → view s i o ≡ none
      → let (r, b', s') = read D s i o b in (r ≡ minus_one) × Valid s' × Same (view s') (view s)
  unfolding read
  map_read_error s i o b ok e = elim (Bool-cases (i == 0)) [
    | inl z ↦
        let h = d.read_none s.below s.ino o b ok (ground arith) in
        rw z (h.0, h.1, λ j p. ground (arith, h.2 s.ino p))
    | inr n ↦ rw n (refl, ok, λ j p. refl)
  ]

  -- For a mapped disk over a store that keeps the contract of block_store.h: a write to a block
  -- in range returns 0 and changes the contents of the mapped disk, which are those of the chosen
  -- inode below, at that block alone.
  pub map_write :
      (s : MapState D.State) (i o : ℕ) (b v : B)
      → Valid s
      → view s i o ≡ some v
      → let (r, s') = write D s i o b in
        (r ≡ pos 0) × Valid s' × Same (view s') (put (view s) i o b)
  unfolding write
  map_write s i o b v ok e =
      let z = view_some s i o e in
      let h = d.write_some s.below s.ino o b v ok z.1 in
      rw z.0 (h.0, h.1, λ j p. ground (arith, h.2 s.ino p, z.0))

  pub map_sync :
      (s : MapState D.State) (i : ℕ)
      → Valid s
      → let (r, s') = sync D s i in Valid s' × Same (view s') (view s)
  unfolding sync
  map_sync s i ok = elim (Bool-cases (i == 0)) [
    | inl z ↦
        let h = d.sync_keeps s.below s.ino ok in rw z (h.0, λ j p. ground (arith, h.1 s.ino p))
    | inr n ↦ rw n (ok, λ j p. refl)
  ]

  abbrev pub disk : IsDisk (store D)
  disk = record {
    Valid = Valid;
    view = view;
    read_some = map_read;
    read_none = map_read_error;
    write_some = map_write;
    sync_keeps = map_sync;
  }
