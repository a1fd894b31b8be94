-- ===== src/Block/Raid0/Laws.antt =====
-- block/raid0disk.c against an array of blocks: block `o` is block `o / n` of store `o % n`.
use cs4411_p.Base.{
  ℕ, zero, suc, ◌-◌, ◌/◌, ◌%◌, ◌<◌, ◌≡◌, refl, ap, inl, inr, false, Option, none, some, List, [],
  ◌∷◌, arith, ◌==◌, Bool-cases, Option-cases, ==_refl, ==_iff, if◌then◌else◌, length, get_elem?,
  set, All, pos, minus_one, is_neg, u32_mod,
}
use cs4411_p.Base.{
  length-set, get_elem?-set_self, get_elem?-set_ne, get_elem?-lt, All-get_elem?, All-set,
}
use cs4411_p.Block.Store.{Store, View, Same, put, IsDisk}
use cs4411_p.Block.Raid0.{RaidState, nbelow, read, write, sync_all, sync, store}

-- An offset is determined by the store and the offset there.
stripe_injective : (n o p : ℕ) → p % n ≡ o % n → p / n ≡ o / n → p ≡ o
stripe_injective n o p e f = grind arith

module _ {B : Type 0} (D : Store B) (d : IsDisk D) where
  abbrev pub Valid : RaidState D.State → Type 0
  Valid s = (0 < nbelow s) × All d.Valid s.below

  abbrev pub block_of : Option D.State → ℕ → Option B
  block_of none q = none
  block_of (some t) q = d.view t 0 q

  abbrev pub view : RaidState D.State → View B
  view s i o = if i == 0 then block_of (get_elem? s.below (o % nbelow s)) (o / nbelow s) else none

  view_some :
      (s : RaidState D.State) (o : ℕ) {v : B}
      → view s 0 o ≡ some v
      → (t : D.State) × (get_elem? s.below (o % nbelow s) ≡ some t)
        × (d.view t 0 (o / nbelow s) ≡ some v)
  view_some s o e = elim (Option-cases (get_elem? s.below (o % nbelow s))) [
    | inl n ↦ absurd (ground arith)
    | inr (t, g) ↦ (t, g, ground arith)
  ]

  block_of-set :
      (xs : List D.State) (i k q : ℕ) (t : D.State)
      → i < length xs
      → block_of (get_elem? (set xs i t) k) q
        ≡ (if k == i then d.view t 0 q else block_of (get_elem? xs k) q)
  block_of-set xs i k q t h = elim (Bool-cases (k == i)) [
    | inl e ↦ let e' = (==_iff k i).0 e in rw (e', ==_refl, get_elem?-set_self xs i t h) refl
    | inr n ↦ rw (n, get_elem?-set_ne xs i k t (ground arith)) refl
  ]

  -- What the access to block `o` needs to know of the store `t` that it goes to, and of the new
  -- state `t'` of that store.
  module _ (s : RaidState D.State) (o : ℕ) {t : D.State} (t' : D.State) (ok : Valid s)
      (g : get_elem? s.below (o % nbelow s) ≡ some t) (h : d.Valid t') where
    Valid-set : Valid (record s { below = set s.below (o % nbelow s) t' })
    Valid-set = (
      omega (arith, length-set {0} s.below (o % nbelow s) t', ok.0),
      All-set d.Valid s.below (o % nbelow s) t' ok.1 h,
    )

    view-set-Same :
        Same (d.view t') (d.view t)
        → Same (view (record s { below = set s.below (o % nbelow s) t' })) (view s)
    view-set-Same same j p = ground (
      arith,
      g,
      length-set s.below (o % nbelow s) t',
      get_elem?-lt s.below (o % nbelow s) g,
      block_of-set s.below (o % nbelow s) (p % nbelow s) (p / nbelow s) t',
      same 0 (p / nbelow s),
    )

    view-set-put :
        (b : B)
        → Same (d.view t') (put (d.view t) 0 (o / nbelow s) b)
        → Same (view (record s { below = set s.below (o % nbelow s) t' })) (put (view s) 0 o b)
    view-set-put b new j p = ground (
      arith,
      g,
      length-set s.below (o % nbelow s) t',
      get_elem?-lt s.below (o % nbelow s) g,
      block_of-set s.below (o % nbelow s) (p % nbelow s) (p / nbelow s) t',
      new 0 (p / nbelow s),
      stripe_injective (nbelow s) o p,
    )

  -- For stripes over one store or more, each keeping the contract of block_store.h: a read of a
  -- block `o` in range returns 0 and block `o / n` of store `o % n`, and changes no contents.
  pub raid0_read :
      (s : RaidState D.State) (i o : ℕ) (b v : B)
      → Valid s
      → view s i o ≡ some v
      → let (r, b', s') = read D s i o b in
        (r ≡ pos 0) × (b' ≡ v) × Valid s' × Same (view s') (view s)
  unfolding read
  raid0_read s (suc i) o b v ok e = absurd (ground arith)
  raid0_read s zero o b v ok e =
      let (t, g, w) = view_some s o e in
      let valid = All-get_elem? d.Valid s.below (o % nbelow s) ok.1 g in
      let h = d.read_some t 0 (o / nbelow s) b v valid w in
      rw g (h.0, h.1, Valid-set s o _ ok g h.2, view-set-Same s o _ ok g h.2 h.3)

  pub raid0_read_error :
      (s : RaidState D.State) (i o : ℕ) (b : B)
      → Valid s
      → view s i o ≡ none
      → let (r, b', s') = read D s i o b in (r ≡ minus_one) × Valid s' × Same (view s') (view s)
  unfolding read
  raid0_read_error s (suc i) o b ok e =
      let n : (suc i == 0) ≡ false = ground arith in rw n (refl, ok, λ j p. refl)
  raid0_read_error s zero o b ok e = elim (Option-cases (get_elem? s.below (o % nbelow s))) [
    | inl n ↦ rw n (refl, ok, λ j p. refl)
    | inr (t, g) ↦
        let valid = All-get_elem? d.Valid s.below (o % nbelow s) ok.1 g in
        let h = d.read_none t 0 (o / nbelow s) b valid (ground arith) in
        rw g (h.0, Valid-set s o _ ok g h.1, view-set-Same s o _ ok g h.1 h.2)
  ]

  -- For stripes over one store or more, each keeping the contract of block_store.h: a write to a
  -- block in range returns 0, keeps that condition, and changes the contents of the array at that
  -- block alone, where block `o` of the array is block `o / n` of store `o % n`.
  pub raid0_write :
      (s : RaidState D.State) (i o : ℕ) (b v : B)
      → Valid s
      → view s i o ≡ some v
      → let (r, s') = write D s i o b in
        (r ≡ pos 0) × Valid s' × Same (view s') (put (view s) i o b)
  unfolding write
  raid0_write s (suc i) o b v ok e = absurd (ground arith)
  raid0_write s zero o b v ok e =
      let (t, g, w) = view_some s o e in
      let valid = All-get_elem? d.Valid s.below (o % nbelow s) ok.1 g in
      let h = d.write_some t 0 (o / nbelow s) b v valid w in
      rw g (h.0, Valid-set s o _ ok g h.1, view-set-put s o _ ok g h.1 b h.2)

  -- What the loop of `raid0disk_sync` keeps, whether or not a store fails on the way.
  sync_all_keeps :
      (xs : List D.State)
      → All d.Valid xs
      → (length (sync_all D xs).1 ≡ length xs)
        × All d.Valid (sync_all D xs).1
        × ((k q : ℕ) → block_of (get_elem? (sync_all D xs).1 k) q ≡ block_of (get_elem? xs k) q)
  unfolding sync_all
  sync_all_keeps [] ok = (refl, ok, λ k q. refl)
  sync_all_keeps (t ∷ rest) ok =
      let h = d.sync_keeps t (u32_mod - 1) ok.0 in
      let ih = sync_all_keeps rest ok.1 in
      elim (Bool-cases (is_neg (D.sync t (u32_mod - 1)).0)) [
        | inl bad ↦ rw bad (refl, (h.0, ok.1), λ k q. head_same rest rest k q h.1 (λ k q. refl))
        | inr good ↦ rw good (ap suc ih.0, (h.0, ih.1), λ k q. head_same _ rest k q h.1 ih.2)
      ]
    where
      head_same :
          (xs ys : List D.State) (k q : ℕ) {t t' : D.State}
          → Same (d.view t') (d.view t)
          → ((k q : ℕ) → block_of (get_elem? xs k) q ≡ block_of (get_elem? ys k) q)
          → block_of (get_elem? (t' ∷ xs) k) q ≡ block_of (get_elem? (t ∷ ys) k) q
      head_same xs ys zero q same ih = same 0 q
      head_same xs ys (suc k) q same ih = ih k q

  pub raid0_sync :
      (s : RaidState D.State) (i : ℕ)
      → Valid s
      → let (r, s') = sync D s i in Valid s' × Same (view s') (view s)
  unfolding sync
  raid0_sync s i ok =
      let h = sync_all_keeps s.below ok.1 in
      elim (Bool-cases (i == 0)) [
        | inl z ↦ rw z (
          (omega (arith, h.0, ok.0), h.1),
          λ j p. ground (arith, h.0, h.2 (p % nbelow s) (p / nbelow s)),
        )
        | inr n ↦ rw n (ok, λ j p. refl)
      ]

  abbrev pub disk : IsDisk (store D)
  disk = record {
    Valid = Valid;
    view = view;
    read_some = raid0_read;
    read_none = raid0_read_error;
    write_some = raid0_write;
    sync_keeps = raid0_sync;
  }
