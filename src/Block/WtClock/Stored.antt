-- ===== src/Block/WtClock/Stored.antt =====
-- block/wtclockdisk.c: what `cache_update` and a write leave in the slots.
use cs4411_p.Base.{
  ℕ, suc, ◌<◌, ◌≡◌, refl, ◌∙◌, ◌⊎◌, inl, inr, false, ◌&&◌, none, some, List, arith, ◌==◌,
  Bool-cases, Option-cases, ==_refl, length, get_elem?, set, u32_mod,
}
use cs4411_p.Base.{length-set, get_elem?_of_lt}
use cs4411_p.Block.Store.{Store}
use cs4411_p.Block.Cache.{Slot, hit, search, find_slot}
use cs4411_p.Block.Cache.Lookup.{
  lookup, Distinct, lookup-rekey, Distinct-rekey, lookup-fill, Distinct-fill, search-some,
  search-none,
}
use cs4411_p.Block.Cache.Hand.{find_slot-Kept}
use cs4411_p.Block.WtClock.{WtClockState, bump, filled, cache_update, cached}

-- What is known of the slots, whatever they hold.
pub record Slots {B : Type 0} (slots : List (Slot (Unit {0}) B)) (hand : ℕ) : Type 0 where
  pub hand_in : hand < length slots
  pub small : length slots < u32_mod
  pub distinct : Distinct slots

-- What the slots hold comes from `old`, but for block `b` at `i` and `o`.
pub record Stored {B : Type 0} (old slots : List (Slot (Unit {0}) B)) (hand i o : ℕ) (b : B)
    : Type 0 where
  pub well : Slots slots hand
  pub present : lookup slots i o ≡ some (tt, b)
  pub others :
      (j p : ℕ) (c : Unit {0} × B)
      → lookup slots j p ≡ some c
      → ((j ≡ i) × (p ≡ o) × (c.1 ≡ b)) ⊎ (((j == i && p == o) ≡ false) × (lookup old j p ≡ some c))

module _ {B : Type 0} (D : Store B) where
  -- A block that no slot holds takes the slot at the hand.
  pub cache_update-Stored :
      (s : WtClockState D.State B) (i o : ℕ) (b : B)
      → Slots s.slots s.clock_hand
      → lookup s.slots i o ≡ none
      → let s' = cache_update D s i o b in Stored s.slots s'.slots s'.clock_hand i o b
  unfolding cache_update
  cache_update-Stored s i o b ok absent =
      let out = find_slot (suc (length s.slots)) s.slots s.clock_hand in
      let k =
        find_slot-Kept (suc (length s.slots)) s.slots s.clock_hand ok.hand_in ok.small
          ok.distinct in
      let (x, g) = get_elem?_of_lt out.0 out.1 k.hand_in in
      let y = filled i o b in
      let l = length-set out.0 out.1 y in
      let n : lookup out.0 i o ≡ none = k.same i o ∙ absent in
      record {
        well = record {
          hand_in = omega (arith, k.hand_in);
          small = omega (arith, k.length_same, ok.small);
          distinct = Distinct-fill out.0 out.1 y k.distinct g n;
        };
        present =
            ground (arith, lookup-fill out.0 out.1 y i o k.distinct g n, ==_refl i, ==_refl o);
        others = λ j p c e. elim (Bool-cases (j == i && p == o)) [
          | inl z ↦ inl (
            ground arith,
            ground arith,
            ground (arith, lookup-fill out.0 out.1 y j p k.distinct g n),
          )
          | inr z ↦
              inr (z, ground (arith, lookup-fill out.0 out.1 y j p k.distinct g n, k.same j p))
        ];
      }

  cached-miss :
      (s : WtClockState D.State B) (i o : ℕ) (b : B)
      → search s.slots i o ≡ none
      → cached D s i o b ≡ cache_update D (record s { write_miss = bump s.write_miss }) i o b
  unfolding cached
  cached-miss s i o b miss = rw (miss, cached) refl

  cached-hit :
      (s : WtClockState D.State B) (i o : ℕ) (b : B) {k : ℕ} {x : Slot (Unit {0}) B}
      → search s.slots i o ≡ some k
      → get_elem? s.slots k ≡ some x
      → cached D s i o b
        ≡ record s { write_hit = bump s.write_hit; slots = set s.slots k (record x { block = b }) }
  unfolding cached
  cached-hit s i o b found g = rw (found, cached) (rw g refl)

  pub cached_below :
      (s : WtClockState D.State B) (i o : ℕ) (b : B) → (cached D s i o b).below ≡ s.below
  unfolding cached cache_update
  cached_below s i o b = ground arith

  -- `wtclockdisk_write` puts the block into the cache, whether or not it was there.
  pub cached-Stored :
      (s : WtClockState D.State B) (i o : ℕ) (b : B)
      → Slots s.slots s.clock_hand
      → let s' = cached D s i o b in Stored s.slots s'.slots s'.clock_hand i o b
  cached-Stored s i o b ok = elim (Option-cases (search s.slots i o)) [
    | inl miss ↦ rw (cached-miss s i o b miss) (
        cache_update-Stored (record s { write_miss = bump s.write_miss }) i o b ok
          (search-none s.slots i o miss))
    | inr (k, found) ↦
        let (x, g, y, l) = search-some s.slots i o k found in
        let z = record x { block = b } in
        rw (cached-hit s i o b found g) (record {
          well = record {
            hand_in = omega (arith, length-set s.slots k z, ok.hand_in);
            small = omega (arith, length-set s.slots k z, ok.small);
            distinct = Distinct-rekey s.slots k z ok.distinct g (refl, refl, refl);
          };
          present =
              ground (arith, lookup-rekey s.slots k z i o ok.distinct g (refl, refl, refl), y);
          others = λ j p c e.
              let new = lookup-rekey s.slots k z j p ok.distinct g (refl, refl, refl) in
              elim (Bool-cases (hit x j p)) [
                | inl h ↦ inl (ground arith, ground arith, ground (arith, new))
                | inr h ↦ inr (ground (arith, y), ground (arith, new))
              ];
        })
  ]
