-- ===== src/Block/Clock/Sync.antt =====
-- `clockdisk_sync` and what the store below holds after it.
use cs4411_p.Base.{
  ℕ, suc, ◌-◌, ◌≡◌, refl, sym, ap, inl, inr, Bool, true, false, ◌&&◌, Option, none, some, List, [],
  ◌∷◌, arith, ◌==◌, Bool-cases, Option-cases, ==_refl, if◌then◌else◌, length, All, pos, u32_mod,
}
use mathlib.Core.Path.{subst}
use cs4411_p.Block.Store.{Store, Same, IsDisk}
use cs4411_p.Block.Cache.{Slot, hit}
use cs4411_p.Block.Cache.Lookup.{content, lookup, Distinct}
use cs4411_p.Block.Clock.{ClockState, flush, sync, release, store}
use cs4411_p.Block.Clock.Coherent.{Covered, Covered-some, Covered-intro, Valid, view}
use cs4411_p.Block.Clock.Laws.{clock_read, clock_read_error, clock_write}

-- What the store below holds at inode `j` after the loop for `ino`, from what a slot held there and
-- what the store below held.
abbrev below_after : {B : Type 0} → Bool → Option (Bool × B) → Option B → Option B
below_after same none w = w
below_after same (some (dirty, b)) w = if same && dirty then some b else w

-- What the slots hold there after the loop.
abbrev slot_after : {B : Type 0} → Bool → Option (Bool × B) → Option (Bool × B)
slot_after same none = none
slot_after same (some (dirty, b)) = some (if same then false else dirty, b)

module _ {B : Type 0} (D : Store B) (d : IsDisk D) (ino : ℕ) where
  record Flushed (below : D.State) (slots : List (Slot Bool B))
      (out : Bool × D.State × List (Slot Bool B)) : Type 0 where
    succeeded : out.0 ≡ false
    below_valid : d.Valid out.1
    length_same : length out.2 ≡ length slots
    distinct : Distinct out.2
    on_disk :
        (j p : ℕ) → d.view out.1 j p ≡ below_after (j == ino) (lookup slots j p) (d.view below j p)
    in_cache : (j p : ℕ) → lookup out.2 j p ≡ slot_after (j == ino) (lookup slots j p)

  abbrev AllCovered : D.State → List (Slot Bool B) → Type 0
  AllCovered below slots =
      (j p : ℕ) (c : Bool × B) → lookup slots j p ≡ some c → Covered (d.view below j p) c

  -- What the first slot holds, no other slot holds.
  tail_absent :
      (x : Slot Bool B) (xs : List (Slot Bool B)) (j p : ℕ)
      → Distinct (x ∷ xs)
      → hit x j p ≡ true
      → lookup xs j p ≡ none
  unfolding Distinct
  tail_absent x xs j p dis h = ground arith

  tail_covered :
      (below t : D.State) (x : Slot Bool B) (xs : List (Slot Bool B))
      → Distinct (x ∷ xs)
      → AllCovered below (x ∷ xs)
      → ((j p : ℕ) → hit x j p ≡ false → d.view t j p ≡ d.view below j p)
      → AllCovered t xs
  unfolding lookup
  tail_covered below t x xs dis cov same j p c e = elim (Bool-cases (hit x j p)) [
    | inl y ↦ absurd (ground (arith, tail_absent x xs j p dis y))
    | inr n ↦ subst (λ w. Covered w c) (sym (same j p n)) (cov j p c (ground arith))
  ]

  flush-skip :
      (below : D.State) (x : Slot Bool B) (xs : List (Slot Bool B))
      → ((x.ino == ino) && (x.use_bit && x.extra)) ≡ false
      → let (failed, below', slots') = flush D ino below xs in
        flush D ino below (x ∷ xs) ≡ (failed, below', x ∷ slots')
  unfolding flush
  flush-skip below x xs n = rw n refl

  flush-write :
      (below : D.State) (x : Slot Bool B) (xs : List (Slot Bool B))
      → ((x.ino == ino) && (x.use_bit && x.extra)) ≡ true
      → (D.write below ino x.offset x.block).0 ≡ pos 0
      → let (failed, below', slots') = flush D ino (D.write below ino x.offset x.block).1 xs in
        flush D ino below (x ∷ xs) ≡ (failed, below', record x { extra = false } ∷ slots')
  unfolding flush
  flush-write below x xs y r = rw y (rw r refl)

  flush-Flushed :
      (below : D.State) (slots : List (Slot Bool B))
      → d.Valid below
      → Distinct slots
      → AllCovered below slots
      → Flushed below slots (flush D ino below slots)
  unfolding flush lookup Distinct
  flush-Flushed below [] ok dis cov = record {
    succeeded = refl;
    below_valid = ok;
    length_same = refl;
    distinct = tt;
    on_disk = λ j p. refl;
    in_cache = λ j p. refl;
  }
  flush-Flushed below (x ∷ xs) ok dis cov =
      elim (Bool-cases ((x.ino == ino) && (x.use_bit && x.extra))) [
        | inr n ↦
            let ih =
              flush-Flushed below xs ok dis.1
                (tail_covered below below x xs dis cov λ j p h. refl) in
            rw (flush-skip below x xs n) (record {
              succeeded = ih.succeeded;
              below_valid = ih.below_valid;
              length_same = ap suc ih.length_same;
              distinct = (λ u. ground (arith, ih.in_cache x.ino x.offset, dis.0 u), ih.distinct);
              on_disk = λ j p. ground (arith, ih.on_disk j p, tail_absent x xs j p dis);
              in_cache = λ j p. ground (arith, ih.in_cache j p, tail_absent x xs j p dis);
            })
        | inl y ↦
            let e : x.ino ≡ ino = ground arith in
            let (w, t, _) =
              Covered-some D d (d.view below ino x.offset) (content x)
                (cov ino x.offset (content x) (ground (arith, ==_refl x.offset))) in
            let (r, v, new) = d.write_some below ino x.offset x.block w ok t in
            let below1 = (D.write below ino x.offset x.block).1 in
            let ih =
              flush-Flushed below1 xs v dis.1
                (tail_covered below below1 x xs dis cov λ j p h. ground (arith, new j p)) in
            rw (flush-write below x xs y r) (record {
              succeeded = ih.succeeded;
              below_valid = ih.below_valid;
              length_same = ap suc ih.length_same;
              distinct = (λ u. ground (arith, ih.in_cache x.ino x.offset, dis.0 u), ih.distinct);
              on_disk = λ j p. ground (arith, ih.on_disk j p, tail_absent x xs j p dis, new j p);
              in_cache = λ j p. ground (arith, ih.in_cache j p, tail_absent x xs j p dis);
            })
      ]

  -- The state behind the loop of `clockdisk_sync`, and the whole of it.
  module _ (s : ClockState D.State B) (ok : Valid D d s) where
    flushed : Flushed s.below s.slots (flush D ino s.below s.slots)
    flushed = flush-Flushed s.below s.slots ok.below_valid ok.distinct ok.covered

    sync-eq :
        let (failed, below, slots) = flush D ino s.below s.slots in
        let (r, below') = D.sync below ino in
        sync D s ino ≡ (r, record s { below = below'; slots = slots })
    unfolding sync
    sync-eq = rw flushed.succeeded refl

    synced :
        let (r, below') = D.sync (flush D ino s.below s.slots).1 ino in
        d.Valid below' × Same (d.view below') (d.view (flush D ino s.below s.slots).1)
    synced = d.sync_keeps (flush D ino s.below s.slots).1 ino flushed.below_valid

    synced-Covered :
        (j p : ℕ) (c : Bool × B)
        → lookup (flush D ino s.below s.slots).2 j p ≡ some c
        → Covered (d.view (D.sync (flush D ino s.below s.slots).1 ino).1 j p) c
    synced-Covered j p c e = elim (Option-cases (lookup s.slots j p)) [
      | inl n ↦ absurd (ground (arith, flushed.in_cache j p))
      | inr ((x, b), l) ↦
          let (w, t, k) = Covered-some D d (d.view s.below j p) (x, b) (ok.covered j p (x, b) l) in
          Covered-intro D d _ c {w = if (j == ino) && x then b else w}
            (ground (arith, flushed.on_disk j p, synced.1 j p))
            (ground (arith, flushed.in_cache j p, k))
    ]

  -- For a coherent clock disk in front of a store that keeps the contract of block_store.h:
  -- `clockdisk_sync` leaves it coherent with the same contents.
  pub clock_sync :
      (s : ClockState D.State B)
      → Valid D d s
      → let (r, s') = sync D s ino in Valid D d s' × Same (view D d s') (view D d s)
  clock_sync s ok =
      let f = flushed s ok in
      let (v, same) = synced s ok in
      rw (sync-eq s ok) (
        record {
          below_valid = v;
          hand_in = omega (arith, f.length_same, ok.hand_in);
          small = omega (arith, f.length_same, ok.small);
          distinct = f.distinct;
          covered = synced-Covered s ok;
        },
        λ j p. ground (arith, f.in_cache j p, f.on_disk j p, same j p),
      )

  -- For a coherent clock disk in front of a store that keeps the contract of block_store.h: after
  -- `clockdisk_sync` of an inode the store below alone, which is all that `clockdisk_release`
  -- leaves, holds every block of that inode as the clock disk held it before.
  pub release-sync :
      (s : ClockState D.State B)
      → Valid D d s
      → (p : ℕ) → d.view (release D (sync D s ino).1) ino p ≡ view D d s ino p
  unfolding release
  release-sync s ok p =
      let f = flushed s ok in
      rw (sync-eq s ok) (elim (Option-cases (lookup s.slots ino p)) [
        | inl n ↦ ground (arith, (synced s ok).1 ino p, f.on_disk ino p)
        | inr ((x, b), l) ↦
            let (w, t, k) =
              Covered-some D d (d.view s.below ino p) (x, b) (ok.covered ino p (x, b) l) in
            ground (arith, (synced s ok).1 ino p, f.on_disk ino p, ==_refl ino, k)
      ])

module _ {B : Type 0} (D : Store B) where
  -- No slot is for inode `i`.
  abbrev pub NoneFor : ℕ → List (Slot Bool B) → Type 0
  NoneFor i slots = All (λ x. (x.ino == i) ≡ false) slots

  flush-NoneFor :
      (i : ℕ) (below : D.State) (slots : List (Slot Bool B))
      → NoneFor i slots
      → flush D i below slots ≡ (false, below, slots)
  unfolding flush
  flush-NoneFor i below [] h = refl
  flush-NoneFor i below (x ∷ xs) h = rw h.0 (rw (flush-NoneFor i below xs h.1) refl)

  -- `clockdisk_sync` with the inode number -1, which in block_store.h means all inodes, only syncs
  -- the store below: it writes back no slot and clears no dirty bit, if no slot is for inode -1
  -- itself.
  pub sync_all_skips :
      (s : ClockState D.State B)
      → NoneFor (u32_mod - 1) s.slots
      → let (r, below) = D.sync s.below (u32_mod - 1) in
        sync D s (u32_mod - 1) ≡ (r, record s { below = below })
  unfolding sync
  sync_all_skips s h = rw (flush-NoneFor (u32_mod - 1) s.below s.slots h) refl

-- A clock disk over an array of blocks is an array of blocks.
abbrev pub disk : {B : Type 0} (D : Store B) (d : IsDisk D) → IsDisk (store D)
disk D d = record {
  Valid = Valid D d;
  view = view D d;
  read_some = clock_read D d;
  read_none = clock_read_error D d;
  write_some = clock_write D d;
  sync_keeps = λ s i. clock_sync D d i s;
}
