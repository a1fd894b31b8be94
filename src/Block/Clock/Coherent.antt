-- ===== src/Block/Clock/Coherent.antt =====
-- block/clockdisk.c: the array of blocks that the cache and the store below make together, and
-- `cache_update`.
use cs4411_p.Base.{
  ℕ, suc, ◌<◌, ◌≡◌, refl, sym, ◌∙◌, inl, inr, Bool, true, false, ◌&&◌, Option, none, some, List, [],
  ◌∷◌, arith, ◌==◌, Bool-cases, ==_refl, if◌then◌else◌, length, get_elem?, set, All, u32_mod,
}
use cs4411_p.Base.{length-set, get_elem?_of_lt}
use cs4411_p.Block.Store.{Store, View, Same, put, IsDisk}
use cs4411_p.Block.Cache.{Slot, hit, find_slot}
use cs4411_p.Block.Cache.Lookup.{content, lookup, Distinct, lookup-hit, lookup-fill, Distinct-fill}
use cs4411_p.Block.Cache.Hand.{Kept, find_slot-Kept}
use mathlib.Core.Path.{subst}
use cs4411_p.Block.Clock.{ClockState, write_back, filled, replace, cache_update}

-- What the store below may hold where a slot holds `b`: a block, and `b` itself if the slot is
-- clean.
abbrev pub Covered : {B : Type 0} → Option B → Bool × B → Type 0
Covered none c = ⊥
Covered (some w) (dirty, b) = dirty ≡ false → w ≡ b

-- The cache hides the store below.
abbrev pub over : {B : Type 0} → Option (Bool × B) → Option B → Option B
over none w = w
over (some c) w = some c.1

module _ {B : Type 0} (D : Store B) (d : IsDisk D) where
  pub record Coherent (below : D.State) (slots : List (Slot Bool B)) (hand : ℕ) : Type 0 where
    pub below_valid : d.Valid below
    pub hand_in : hand < length slots
    pub small : length slots < u32_mod
    pub distinct : Distinct slots
    pub covered :
        (j p : ℕ) (c : Bool × B) → lookup slots j p ≡ some c → Covered (d.view below j p) c

  abbrev pub Valid : ClockState D.State B → Type 0
  Valid s = Coherent s.below s.slots s.clock_hand

  abbrev pub view : ClockState D.State B → View B
  view s j p = over (lookup s.slots j p) (d.view s.below j p)

  pub Covered-some :
      (o : Option B) (c : Bool × B) → Covered o c → (w : B) × (o ≡ some w) × (c.0 ≡ false → w ≡ c.1)
  Covered-some none c h = absurd h
  Covered-some (some w) (x, b) h = (w, refl, h)

  -- Writing a slot back keeps the store below valid, and changes at most the slot's block there.
  pub write_back_lem :
      (below : D.State) (x : Slot Bool B)
      → d.Valid below
      → (x.use_bit ≡ true → Covered (d.view below x.ino x.offset) (content x))
      → d.Valid (write_back D below x)
        × ((j p : ℕ)
            → d.view (write_back D below x) j p ≡ (
                if (x.extra && x.use_bit) && (j == x.ino && p == x.offset)
                then some x.block
                else d.view below j p))
  unfolding write_back
  write_back_lem below x ok cov = elim (Bool-cases (x.extra && x.use_bit)) [
    | inr n ↦ rw n (ok, λ j p. refl)
    | inl y ↦
        let (w, e, _) =
          Covered-some (d.view below x.ino x.offset) (content x) (cov (ground arith)) in
        let h = d.write_some below x.ino x.offset x.block w ok e in rw y (h.1, λ j p. h.2 j p)
  ]

  pub Covered-intro :
      (o : Option B) (c : Bool × B) {w : B} → o ≡ some w → (c.0 ≡ false → w ≡ c.1) → Covered o c
  Covered-intro none c e h = absurd (ground arith)
  Covered-intro (some v) c e h = λ f. ground (arith, h f)

  -- The slot at the hand is covered, if it is in use.
  hand-Covered :
      (s : ClockState D.State B) (x : Slot Bool B)
      → Valid s
      → get_elem? s.slots s.clock_hand ≡ some x
      → x.use_bit ≡ true
      → Covered (d.view s.below x.ino x.offset) (content x)
  hand-Covered s x ok g u = ok.covered x.ino x.offset (content x) (
      lookup-hit s.slots s.clock_hand x.ino x.offset ok.distinct g
        (ground (arith, ==_refl x.ino, ==_refl x.offset)))

  -- Filling the slot at the hand with a block that is not cached, in range below.
  module _ (s : ClockState D.State B) (i o : ℕ) (b : B) {w : B} {x : Slot Bool B} (ok : Valid s)
      (absent : lookup s.slots i o ≡ none) (there : d.view s.below i o ≡ some w)
      (g : get_elem? s.slots s.clock_hand ≡ some x) where
    abbrev after : ClockState D.State B
    after = record s {
      below = write_back D s.below x;
      slots = set s.slots s.clock_hand (filled D i o b);
    }

    after_below :
        (j p : ℕ)
        → d.view after.below j p ≡ (
            if (x.extra && x.use_bit) && (j == x.ino && p == x.offset)
            then some x.block
            else d.view s.below j p)
    after_below = (write_back_lem s.below x ok.below_valid (hand-Covered s x ok g)).1

    after_slots :
        (j p : ℕ)
        → lookup after.slots j p ≡ (
            if hit (filled D i o b) j p
            then some (true, b)
            else if hit x j p
            then none
            else lookup s.slots j p)
    after_slots j p = lookup-fill s.slots s.clock_hand (filled D i o b) j p ok.distinct g absent

    after_there : (v : B) × (d.view after.below i o ≡ some v)
    after_there = elim (Bool-cases ((x.extra && x.use_bit) && (i == x.ino && o == x.offset))) [
      | inl y ↦ (x.block, ground (arith, after_below i o))
      | inr n ↦ (w, ground (arith, after_below i o))
    ]

    after-Covered :
        (j p : ℕ) (c : Bool × B)
        → lookup after.slots j p ≡ some c
        → Covered (d.view after.below j p) c
    after-Covered j p c e = elim (Bool-cases (hit (filled D i o b) j p)) [
      | inl new ↦
          let (v, t) = after_there in
          Covered-intro (d.view after.below j p) c {w = v} (ground arith)
            (ground (arith, after_slots j p))
      | inr old ↦ elim (Bool-cases (hit x j p)) [
        | inl gone ↦ absurd (ground (arith, after_slots j p))
        | inr kept ↦
            let (v, t, k) =
              Covered-some (d.view s.below j p) c
                (ok.covered j p c (ground (arith, after_slots j p))) in
            Covered-intro (d.view after.below j p) c (ground (arith, after_below j p)) k
      ]
    ]

    after-Valid : Valid after
    after-Valid = record {
      below_valid = (write_back_lem s.below x ok.below_valid (hand-Covered s x ok g)).0;
      hand_in = omega (arith, length-set s.slots s.clock_hand (filled D i o b), ok.hand_in);
      small = omega (arith, length-set s.slots s.clock_hand (filled D i o b), ok.small);
      distinct = Distinct-fill s.slots s.clock_hand (filled D i o b) ok.distinct g absent;
      covered = after-Covered;
    }

    after-view : Same (view after) (put (view s) i o b)
    after-view j p = elim (Bool-cases (hit x j p)) [
      | inr n ↦ ground (arith, after_slots j p, after_below j p)
      | inl y ↦
          let (v, t, k) =
            Covered-some (d.view s.below x.ino x.offset) (content x)
              (hand-Covered s x ok g (ground arith)) in
          ground (
            arith,
            after_slots j p,
            after_below j p,
            lookup-hit s.slots s.clock_hand j p ok.distinct g y,
          )
    ]

  -- The state when the loop of `cache_update` has ended.
  abbrev aged : ClockState D.State B → ClockState D.State B
  aged s = record s {
    slots = (find_slot (suc (length s.slots)) s.slots s.clock_hand).0;
    clock_hand = (find_slot (suc (length s.slots)) s.slots s.clock_hand).1;
  }

  aged-Kept :
      (s : ClockState D.State B)
      → Valid s
      → Kept s.slots (find_slot (suc (length s.slots)) s.slots s.clock_hand)
  aged-Kept s ok =
      find_slot-Kept (suc (length s.slots)) s.slots s.clock_hand ok.hand_in ok.small ok.distinct

  aged-Valid : (s : ClockState D.State B) → Valid s → Valid (aged s)
  aged-Valid s ok =
      let k = aged-Kept s ok in
      record {
        below_valid = ok.below_valid;
        hand_in = k.hand_in;
        small = omega (arith, k.length_same, ok.small);
        distinct = k.distinct;
        covered = λ j p c e. ok.covered j p c (sym (k.same j p) ∙ e);
      }

  cache_update-at :
      (s : ClockState D.State B) (i o : ℕ) (b : B) {x : Slot Bool B}
      → get_elem? (aged s).slots (aged s).clock_hand ≡ some x
      → cache_update D s i o b ≡ record (aged s) {
        below = write_back D s.below x;
        slots = set (aged s).slots (aged s).clock_hand (filled D i o b);
      }
  unfolding cache_update replace
  cache_update-at s i o b g = rw (g, replace) refl

  -- Whatever slot `cache_update` replaces, the contents change by the new block alone.
  pub cache_update_lem :
      (s : ClockState D.State B) (i o : ℕ) (b : B) {w : B}
      → Valid s
      → lookup s.slots i o ≡ none
      → d.view s.below i o ≡ some w
      → Valid (cache_update D s i o b) × Same (view (cache_update D s i o b)) (put (view s) i o b)
  cache_update_lem s i o b ok absent there =
      let k = aged-Kept s ok in
      let (x, g) = get_elem?_of_lt (aged s).slots (aged s).clock_hand k.hand_in in
      let ok' = aged-Valid s ok in
      let absent' = k.same i o ∙ absent in
      rw (cache_update-at s i o b g) (
        after-Valid (aged s) i o b ok' absent' there g,
        λ j p. ground (arith, after-view (aged s) i o b ok' absent' there g j p, k.same j p),
      )

  -- The store below changes and its contents do not.
  pub Coherent-below :
      {below : D.State} {slots : List (Slot Bool B)} {hand : ℕ} (t : D.State)
      → Coherent below slots hand
      → d.Valid t
      → Same (d.view t) (d.view below)
      → Coherent t slots hand
  Coherent-below t ok v same = record {
    below_valid = v;
    hand_in = ok.hand_in;
    small = ok.small;
    distinct = ok.distinct;
    covered = λ j p c e. subst (λ w. Covered w c) (sym (same j p)) (ok.covered j p c e);
  }

  -- It is enough to look at the slots one by one.
  pub Covered-of_slots :
      (below : D.State) (slots : List (Slot Bool B))
      → All (λ x. x.use_bit ≡ true → Covered (d.view below x.ino x.offset) (content x)) slots
      → (j p : ℕ) (c : Bool × B) → lookup slots j p ≡ some c
      → Covered (d.view below j p) c
  unfolding lookup
  Covered-of_slots below [] h j p c e = absurd (ground arith)
  Covered-of_slots below (x ∷ xs) h j p c e = elim (Bool-cases (hit x j p)) [
    | inr n ↦ Covered-of_slots below xs h.1 j p c (ground arith)
    | inl y ↦
        let (w, t, k) =
          Covered-some (d.view below x.ino x.offset) (content x) (h.0 (ground arith)) in
        Covered-intro (d.view below j p) c {w = w} (ground arith) (ground (arith, k))
  ]
