-- ===== src/Block/WtClock/Laws.antt =====
-- block/wtclockdisk.c in front of an array of blocks.
use cs4411_p.Base.{
  ℕ, ◌≡◌, refl, ◌∙◌, inl, inr, true, none, some, List, [], ◌∷◌, arith, Bool-cases, Option-cases,
  ==_refl, if◌then◌else◌, get_elem?, All, pos, minus_one, is_minus_one,
}
use cs4411_p.Block.Store.{Store, View, Same, put, IsDisk}
use cs4411_p.Block.Cache.{Slot, hit, search}
use cs4411_p.Block.Cache.Lookup.{lookup, search-some, search-none}
use cs4411_p.Block.WtClock.{WtClockState, bump, cache_update, cached, read, write, sync, store}
use cs4411_p.Block.WtClock.Stored.{Slots, Stored, cache_update-Stored, cached_below, cached-Stored}

module _ {B : Type 0} (D : Store B) where
  abbrev missed : WtClockState D.State B → D.State → WtClockState D.State B
  missed s below = record s { below = below; read_miss = bump s.read_miss }

  read-miss :
      (s : WtClockState D.State B) (i o : ℕ) (b : B)
      → search s.slots i o ≡ none
      → let (r, b', below) = D.read s.below i o b in
        read D s i o b ≡ (
          if is_minus_one r
          then (minus_one, b', missed s below)
          else (pos 0, b', cache_update D (missed s below) i o b'))
  unfolding read
  read-miss s i o b miss = rw (miss, read) refl

  read-hit :
      (s : WtClockState D.State B) (i o : ℕ) (b : B) {k : ℕ} {x : Slot (Unit {0}) B}
      → search s.slots i o ≡ some k
      → get_elem? s.slots k ≡ some x
      → read D s i o b ≡ (pos 0, x.block, record s { read_hit = bump s.read_hit })
  unfolding read
  read-hit s i o b found g = rw (found, read) (rw g refl)

  -- On a write-through disk with well-formed slots, when the store below refuses a write with -1,
  -- `wtclockdisk_write` returns -1 and yet the next read of that block returns 0 and the data of
  -- the refused write.
  pub refused_write_is_read :
      (s : WtClockState D.State B) (i o : ℕ) (b buf : B)
      → Slots s.slots s.clock_hand
      → (D.write s.below i o b).0 ≡ minus_one
      → let (r, s') = write D s i o b in
        let (r', buf', s'') = read D s' i o buf in (r ≡ minus_one) × (r' ≡ pos 0) × (buf' ≡ b)
  unfolding write
  refused_write_is_read s i o b buf ok refused =
      let st = cached-Stored D s i o b ok in
      let s1 = cached D s i o b in
      let s2 = record s1 { below = (D.write s1.below i o b).1 } in
      elim (Option-cases (search s1.slots i o)) [
        | inl miss ↦ absurd (ground (arith, search-none s1.slots i o miss, st.present))
        | inr (k, found) ↦
            let (x, g, y, l) = search-some s1.slots i o k found in
            let e = cached_below D s i o b in
            (
              rw e refused,
              ground (arith, read-hit s2 i o buf found g),
              ground (arith, read-hit s2 i o buf found g, l, st.present),
            )
      ]

module _ {B : Type 0} (D : Store B) (d : IsDisk D) where
  -- Every cached block is the block below.
  pub record Coherent (below : D.State) (slots : List (Slot (Unit {0}) B)) (hand : ℕ) : Type 0 where
    pub below_valid : d.Valid below
    pub well : Slots slots hand
    pub agrees :
        (j p : ℕ) (c : Unit {0} × B) → lookup slots j p ≡ some c → d.view below j p ≡ some c.1

  abbrev pub Valid : WtClockState D.State B → Type 0
  Valid s = Coherent s.below s.slots s.clock_hand

  abbrev pub view : WtClockState D.State B → View B
  view s = d.view s.below

  -- It is enough to look at the slots one by one.
  pub agrees_of_slots :
      (below : D.State) (slots : List (Slot (Unit {0}) B))
      → All (λ x. x.use_bit ≡ true → d.view below x.ino x.offset ≡ some x.block) slots
      → (j p : ℕ) (c : Unit {0} × B) → lookup slots j p ≡ some c
      → d.view below j p ≡ some c.1
  unfolding lookup
  agrees_of_slots below [] h j p c e = absurd (ground arith)
  agrees_of_slots below (x ∷ xs) h j p c e = elim (Bool-cases (hit x j p)) [
    | inr n ↦ agrees_of_slots below xs h.1 j p c (ground arith)
    | inl y ↦ ground (arith, h.0 (ground arith))
  ]

  -- Block `b` is stored above and below.
  Stored-Coherent :
      {below : D.State} {slots slots' : List (Slot (Unit {0}) B)} {hand hand' : ℕ} (t : D.State)
      (i o : ℕ) (b : B)
      → Coherent below slots hand
      → Stored slots slots' hand' i o b
      → d.Valid t
      → Same (d.view t) (put (d.view below) i o b)
      → Coherent t slots' hand'
  Stored-Coherent t i o b ok st v new = record {
    below_valid = v;
    well = st.well;
    agrees = λ j p c e. elim (st.others j p c e) [
      | inl (f, g, h) ↦ ground (arith, new j p, ==_refl i, ==_refl o)
      | inr (f, g) ↦ ground (arith, new j p, ok.agrees j p c g)
    ];
  }

  cache_update_below :
      (s : WtClockState D.State B) (i o : ℕ) (b : B) → (cache_update D s i o b).below ≡ s.below
  unfolding cache_update
  cache_update_below s i o b = refl

  -- For a write-through disk whose cached blocks agree with the store below, in front of a store
  -- that keeps the contract of block_store.h: a read of a block in range returns 0 and the block of
  -- the store below, hit or miss, leaves the contents below as they were and the cached blocks
  -- agreeing with them.
  pub wtclock_read :
      (s : WtClockState D.State B) (i o : ℕ) (b v : B)
      → Valid s
      → view s i o ≡ some v
      → let (r, b', s') = read D s i o b in
        (r ≡ pos 0) × (b' ≡ v) × Valid s' × Same (view s') (view s)
  unfolding cache_update
  wtclock_read s i o b v ok e = elim (Option-cases (search s.slots i o)) [
    | inl miss ↦
        let (r0, b0, v0, same) = d.read_some s.below i o b v ok.below_valid e in
        let s1 = missed D s (D.read s.below i o b).2 in
        let b1 = (D.read s.below i o b).1 in
        let st = cache_update-Stored D s1 i o b1 ok.well (search-none s.slots i o miss) in
        let valid =
          Stored-Coherent s1.below i o b1 ok st v0 λ j p. ground (arith, same j p, e, b0) in
        rw (read-miss D s i o b miss) (rw r0 (refl, b0, valid, same))
    | inr (k, found) ↦
        let (x, g, y, l) = search-some s.slots i o k found in
        rw (read-hit D s i o b found g) (refl, ground (arith, ok.agrees i o _ l), ok, λ j p. refl)
  ]

  pub wtclock_read_error :
      (s : WtClockState D.State B) (i o : ℕ) (b : B)
      → Valid s
      → view s i o ≡ none
      → let (r, b', s') = read D s i o b in (r ≡ minus_one) × Valid s' × Same (view s') (view s)
  wtclock_read_error s i o b ok e = elim (Option-cases (search s.slots i o)) [
    | inl miss ↦
        let (r0, v0, same) = d.read_none s.below i o b ok.below_valid e in
        rw (read-miss D s i o b miss) (
          rw r0 (
            refl,
            record {
              below_valid = v0;
              well = ok.well;
              agrees = λ j p c l. same j p ∙ ok.agrees j p c l;
            },
            same,
          ))
    | inr (k, found) ↦
        let (x, g, y, l) = search-some s.slots i o k found in
        absurd (ground (arith, ok.agrees i o _ l))
  ]

  -- For a write-through disk whose cached blocks agree with the store below, in front of a store
  -- that keeps the contract of block_store.h: a write to a block in range returns 0, changes the
  -- store below at that block alone, and leaves the cached blocks agreeing with it.
  pub wtclock_write :
      (s : WtClockState D.State B) (i o : ℕ) (b v : B)
      → Valid s
      → view s i o ≡ some v
      → let (r, s') = write D s i o b in
        (r ≡ pos 0) × Valid s' × Same (view s') (put (view s) i o b)
  unfolding write
  wtclock_write s i o b v ok e =
      let (r0, v0, new) = d.write_some s.below i o b v ok.below_valid e in
      let st = cached-Stored D s i o b ok.well in
      rw (cached_below D s i o b) (r0, Stored-Coherent _ i o b ok st v0 new, new)

  pub wtclock_sync :
      (s : WtClockState D.State B) (i : ℕ)
      → Valid s
      → let (r, s') = sync D s i in Valid s' × Same (view s') (view s)
  unfolding sync
  wtclock_sync s i ok =
      let (v, same) = d.sync_keeps s.below i ok.below_valid in
      (
        record {
          below_valid = v;
          well = ok.well;
          agrees = λ j p c l. same j p ∙ ok.agrees j p c l;
        },
        same,
      )

  abbrev pub disk : IsDisk (store D)
  disk = record {
    Valid = Valid;
    view = view;
    read_some = wtclock_read;
    read_none = wtclock_read_error;
    write_some = wtclock_write;
    sync_keeps = wtclock_sync;
  }
