-- ===== src/Block/Part/Laws.antt =====
-- block/partdisk.c against an array of blocks: each partition is an inode.
use cs4411_p.Base.{
  ℕ, ◌+◌, ◌≤◌, ◌≡◌, refl, inl, inr, false, ◌&&◌, none, some, arith, ltb, leb, Bool-cases,
  if◌then◌else◌, length, get_or, pos, minus_one, u32_mod,
}
use cs4411_p.Block.Store.{Store, View, Same, put, IsDisk}
use cs4411_p.Block.Part.{PartState, add_sizes, read, write, sync, store}
use cs4411_p.Block.Part.Layout.{start, total, Inside, start-le, add_sizes_lem, start_injective}

module _ {B : Type 0} (D : Store B) (d : IsDisk D) where
  -- There is a size for each partition, and the sizes add up to an `unsigned int`.
  pub record Valid (s : PartState D.State) : Type 0 where
    pub below_valid : d.Valid s.below
    pub count : s.ninodes ≡ length s.partsizes
    pub fits : total s.partsizes ≤ u32_mod

  abbrev pub view : PartState D.State → View B
  view s i o =
      if ltb i s.ninodes && ltb o (get_or s.partsizes i 0)
      then d.view s.below 0 (start s.partsizes i + o)
      else none

  pub record InRange (s : PartState D.State) (i o : ℕ) (v : B) : Type 0 where
    ino_ok : leb s.ninodes i ≡ false
    offset_ok : leb (get_or s.partsizes i 0) o ≡ false
    there : d.view s.below 0 (add_sizes s.partsizes i o) ≡ some v

  add_sizes-Inside :
      (s : PartState D.State) (i o : ℕ)
      → Valid s
      → Inside s.partsizes i o
      → add_sizes s.partsizes i o ≡ start s.partsizes i + o
  add_sizes-Inside s i o ok h =
      add_sizes_lem s.partsizes i o (omega (arith, start-le s.partsizes i o h, ok.fits))

  view_some :
      (s : PartState D.State) (i o : ℕ) {v : B} → Valid s → view s i o ≡ some v → InRange s i o v
  view_some s i o ok e = ground (arith, add_sizes-Inside s i o ok)

  pub part_read :
      (s : PartState D.State) (i o : ℕ) (b v : B)
      → Valid s
      → view s i o ≡ some v
      → let (r, b', s') = read D s i o b in
        (r ≡ pos 0) × (b' ≡ v) × Valid s' × Same (view s') (view s)
  unfolding read
  part_read s i o b v ok e =
      let z = view_some s i o ok e in
      let h = d.read_some s.below 0 (add_sizes s.partsizes i o) b v ok.below_valid z.there in
      rw (z.ino_ok, z.offset_ok)
        (
          h.0,
          h.1,
          record { below_valid = h.2; count = ok.count; fits = ok.fits },
          λ j p. ground (arith, h.3 0 (start s.partsizes j + p)),
        )

  pub part_read_error :
      (s : PartState D.State) (i o : ℕ) (b : B)
      → Valid s
      → view s i o ≡ none
      → let (r, b', s') = read D s i o b in (r ≡ minus_one) × Valid s' × Same (view s') (view s)
  unfolding read
  part_read_error s i o b ok e = elim (Bool-cases (leb s.ninodes i)) [
    | inl big ↦ rw big (refl, ok, λ j p. refl)
    | inr small ↦ elim (Bool-cases (leb (get_or s.partsizes i 0) o)) [
      | inl far ↦ rw (small, far) (refl, ok, λ j p. refl)
      | inr near ↦
          let h =
            d.read_none s.below 0 (add_sizes s.partsizes i o) b ok.below_valid
              (ground (arith, add_sizes-Inside s i o ok)) in
          rw (small, near)
            (
              h.0,
              record { below_valid = h.1; count = ok.count; fits = ok.fits },
              λ j p. ground (arith, h.2 0 (start s.partsizes j + p)),
            )
    ]
  ]

  -- For partitions with a size each, of 2^32 blocks in all at most, over a store that keeps the
  -- contract of block_store.h: a write to a block in range returns 0, keeps that condition, and
  -- changes that block of that partition and no other block of any partition.
  pub part_write :
      (s : PartState D.State) (i o : ℕ) (b v : B)
      → Valid s
      → view s i o ≡ some v
      → let (r, s') = write D s i o b in
        (r ≡ pos 0) × Valid s' × Same (view s') (put (view s) i o b)
  unfolding write
  part_write s i o b v ok e =
      let z = view_some s i o ok e in
      let h = d.write_some s.below 0 (add_sizes s.partsizes i o) b v ok.below_valid z.there in
      rw (z.ino_ok, z.offset_ok)
        (
          h.0,
          record { below_valid = h.1; count = ok.count; fits = ok.fits },
          λ j p. ground (
            arith,
            h.2 0 (start s.partsizes j + p),
            z.ino_ok,
            z.offset_ok,
            add_sizes-Inside s i o ok,
            start_injective s.partsizes i j o p,
          ),
        )

  pub part_sync :
      (s : PartState D.State) (i : ℕ)
      → Valid s
      → let (r, s') = sync D s i in Valid s' × Same (view s') (view s)
  unfolding sync
  part_sync s i ok =
      let h = d.sync_keeps s.below 0 ok.below_valid in
      (
        record { below_valid = h.0; count = ok.count; fits = ok.fits },
        λ j p. ground (arith, h.1 0 (start s.partsizes j + p)),
      )

  abbrev pub disk : IsDisk (store D)
  disk = record {
    Valid = Valid;
    view = view;
    read_some = part_read;
    read_none = part_read_error;
    write_some = part_write;
    sync_keeps = part_sync;
  }
