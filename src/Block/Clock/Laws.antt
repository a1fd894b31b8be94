-- ===== src/Block/Clock/Laws.antt =====
-- block/clockdisk.c in front of an array of blocks: reads and writes.
use cs4411_p.Base.{
  ℕ, ◌≡◌, refl, ◌∙◌, inl, inr, Bool, true, none, some, arith, Bool-cases, Option-cases,
  if◌then◌else◌, get_elem?, set, pos, minus_one, is_minus_one,
}
use cs4411_p.Base.{length-set}
use cs4411_p.Block.Store.{Store, Same, put, IsDisk}
use cs4411_p.Block.Cache.{Slot, hit, search}
use cs4411_p.Block.Cache.Lookup.{
  content, lookup-hit, lookup-rekey, Distinct-rekey, search-some, search-none,
}
use cs4411_p.Block.Clock.{ClockState, bump, cache_update, read, write}
use cs4411_p.Block.Clock.Coherent.{
  Covered-some, Covered-intro, Coherent, Valid, view, Coherent-below, cache_update_lem,
}

module _ {B : Type 0} (D : Store B) (d : IsDisk D) where
  abbrev missed : ClockState D.State B → D.State → ClockState D.State B
  missed s below = record s { below = below; read_miss = bump s.read_miss }

  read-miss :
      (s : ClockState D.State B) (i o : ℕ) (b : B)
      → search s.slots i o ≡ none
      → let (r, b', below) = D.read s.below i o b in
        read D s i o b ≡ (
          if is_minus_one r
          then (minus_one, b', missed s below)
          else (pos 0, b', cache_update D (missed s below) i o b'))
  unfolding read
  read-miss s i o b miss = rw (miss, read) refl

  read-hit :
      (s : ClockState D.State B) (i o : ℕ) (b : B) {k : ℕ} {x : Slot Bool B}
      → search s.slots i o ≡ some k
      → get_elem? s.slots k ≡ some x
      → read D s i o b ≡ (pos 0, x.block, record s { read_hit = bump s.read_hit })
  unfolding read
  read-hit s i o b found g = rw (found, read) (rw g refl)

  -- For a coherent clock disk in front of a store that keeps the contract of block_store.h: a read
  -- of a block in range returns 0 and the block that the cache and the store below hold there
  -- together, hit or miss, and leaves the clock disk coherent with the same contents, whatever slot
  -- it evicts.
  pub clock_read :
      (s : ClockState D.State B) (i o : ℕ) (b v : B)
      → Valid D d s
      → view D d s i o ≡ some v
      → let (r, b', s') = read D s i o b in
        (r ≡ pos 0) × (b' ≡ v) × Valid D d s' × Same (view D d s') (view D d s)
  clock_read s i o b v ok e = elim (Option-cases (search s.slots i o)) [
    | inl miss ↦
        let absent = search-none s.slots i o miss in
        let there : d.view s.below i o ≡ some v = ground (arith, absent) in
        let (r0, b0, v0, same) = d.read_some s.below i o b v ok.below_valid there in
        let s1 = missed s (D.read s.below i o b).2 in
        let b1 = (D.read s.below i o b).1 in
        let (valid, new) =
          cache_update_lem D d s1 i o b1 (Coherent-below D d s1.below ok v0 same) absent
            (same i o ∙ there) in
        rw (read-miss s i o b miss)
          (rw r0 (refl, b0, valid, λ j p. ground (arith, new j p, same j p)))
    | inr (k, found) ↦
        let (x, g, y, l) = search-some s.slots i o k found in
        rw (read-hit s i o b found g) (refl, ground (arith, l), ok, λ j p. refl)
  ]

  -- A read of a block that is neither cached nor in range below returns -1 and changes no contents.
  pub clock_read_error :
      (s : ClockState D.State B) (i o : ℕ) (b : B)
      → Valid D d s
      → view D d s i o ≡ none
      → let (r, b', s') = read D s i o b in
        (r ≡ minus_one) × Valid D d s' × Same (view D d s') (view D d s)
  clock_read_error s i o b ok e = elim (Option-cases (search s.slots i o)) [
    | inl miss ↦
        let absent = search-none s.slots i o miss in
        let (r0, v0, same) = d.read_none s.below i o b ok.below_valid (ground (arith, absent)) in
        rw (read-miss s i o b miss) (
          rw r0 (
            refl,
            Coherent-below D d (D.read s.below i o b).2 ok v0 same,
            λ j p. ground (arith, same j p),
          ))
    | inr (k, found) ↦
        let (x, g, y, l) = search-some s.slots i o k found in absurd (ground (arith, l))
  ]

  write-miss :
      (s : ClockState D.State B) (i o : ℕ) (b : B)
      → search s.slots i o ≡ none
      → write D s i o b
        ≡ (pos 0, cache_update D (record s { write_miss = bump s.write_miss }) i o b)
  unfolding write
  write-miss s i o b miss = rw (miss, write) refl

  -- The slot that a write leaves where it finds the block cached.
  abbrev rewritten : Slot Bool B → B → Slot Bool B
  rewritten x b = record x { block = b; extra = true }

  write-hit :
      (s : ClockState D.State B) (i o : ℕ) (b : B) {k : ℕ} {x : Slot Bool B}
      → search s.slots i o ≡ some k
      → get_elem? s.slots k ≡ some x
      → write D s i o b
        ≡ (pos 0, record s { write_hit = bump s.write_hit; slots = set s.slots k (rewritten x b) })
  unfolding write
  write-hit s i o b found g = rw (found, write) (rw g refl)

  -- Rewriting a cached block keeps the cache and the store below coherent.
  rewritten-Coherent :
      (s : ClockState D.State B) (k : ℕ) (b : B) {x : Slot Bool B}
      → Valid D d s
      → get_elem? s.slots k ≡ some x
      → Coherent D d s.below (set s.slots k (rewritten x b)) s.clock_hand
  rewritten-Coherent s k b {x} ok g = record {
    below_valid = ok.below_valid;
    hand_in = omega (arith, length-set s.slots k (rewritten x b), ok.hand_in);
    small = omega (arith, length-set s.slots k (rewritten x b), ok.small);
    distinct = Distinct-rekey s.slots k (rewritten x b) ok.distinct g (refl, refl, refl);
    covered = λ j p c e.
        let new = lookup-rekey s.slots k (rewritten x b) j p ok.distinct g (refl, refl, refl) in
        elim (Bool-cases (hit x j p)) [
          | inl y ↦
              let old = lookup-hit s.slots k j p ok.distinct g y in
              let (w, t, _) =
                Covered-some D d (d.view s.below j p) (content x) (ok.covered j p _ old) in
              Covered-intro D d (d.view s.below j p) c t (ground arith)
          | inr n ↦ ok.covered j p c (ground arith)
        ];
  }

  -- For a coherent clock disk in front of a store that keeps the contract of block_store.h: a write
  -- to a block in range returns 0, leaves the clock disk coherent, and changes its contents at that
  -- block alone, whether or not the block was cached and whatever slot is evicted and written back.
  pub clock_write :
      (s : ClockState D.State B) (i o : ℕ) (b v : B)
      → Valid D d s
      → view D d s i o ≡ some v
      → let (r, s') = write D s i o b in
        (r ≡ pos 0) × Valid D d s' × Same (view D d s') (put (view D d s) i o b)
  clock_write s i o b v ok e = elim (Option-cases (search s.slots i o)) [
    | inl miss ↦
        let absent = search-none s.slots i o miss in
        let (valid, new) =
          cache_update_lem D d (record s { write_miss = bump s.write_miss }) i o b {w = v} ok absent
            (ground (arith, absent)) in
        rw (write-miss s i o b miss) (refl, valid, new)
    | inr (k, found) ↦
        let (x, g, y, l) = search-some s.slots i o k found in
        rw (write-hit s i o b found g) (
          refl,
          rewritten-Coherent s k b ok g,
          λ j p. ground (
            arith,
            lookup-rekey s.slots k (rewritten x b) j p ok.distinct g (refl, refl, refl),
            y,
          ),
        )
  ]
