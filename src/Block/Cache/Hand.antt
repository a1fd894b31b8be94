-- ===== src/Block/Cache/Hand.antt =====
-- The hand of the clock: where its loop ends, and what the slots hold then.
use cs4411_p.Base.{
  ℕ, zero, suc, ◌+◌, ◌≤◌, ◌<◌, ◌≡◌, refl, ◌∙◌, inl, inr, true, false, some, List, [], ◌∷◌, arith,
  Bool-cases, if◌then◌else◌, length, get_elem?, set, u32_mod,
}
use cs4411_p.Base.{length-set, get_elem?_of_lt}
use cs4411_p.Block.Cache.{Slot, next_hand, age, find_slot}
use cs4411_p.Block.Cache.Lookup.{lookup, Distinct, lookup-hit, lookup-rekey, Distinct-rekey}

next_hand-lt : (n h : ℕ) → h < n → n < u32_mod → next_hand n h < n
unfolding next_hand
next_hand-lt n h lt small = ground arith

module _ {X B : Type 0} where
  -- The number of recent bits that are set.
  pub count_recent : List (Slot X B) → ℕ
  count_recent [] = 0
  count_recent (x ∷ xs) = (if x.recent_bit then 1 else 0) + count_recent xs

  count_recent-le : (xs : List (Slot X B)) → count_recent xs ≤ length xs
  unfolding count_recent
  count_recent-le [] = omega arith
  count_recent-le (x ∷ xs) = ground (arith, count_recent-le xs)

  count_recent-age :
      (xs : List (Slot X B)) (k : ℕ) {x : Slot X B}
      → get_elem? xs k ≡ some x
      → x.recent_bit ≡ true
      → suc (count_recent (set xs k (age x))) ≡ count_recent xs
  unfolding count_recent
  count_recent-age [] k g r = absurd (ground arith)
  count_recent-age (x ∷ xs) zero g r = ground arith
  count_recent-age (z ∷ xs) (suc k) g r = ground (arith, count_recent-age xs k g r)

  abbrev pub Stopped : List (Slot X B) × ℕ → Type 0
  Stopped (slots, hand) = (x : Slot X B) × (get_elem? slots hand ≡ some x) × (x.recent_bit ≡ false)

  -- The two ways of a round.
  find_slot-clear :
      (fuel : ℕ) (slots : List (Slot X B)) (hand : ℕ) {x : Slot X B}
      → get_elem? slots hand ≡ some x
      → x.recent_bit ≡ false
      → find_slot (suc fuel) slots hand ≡ (slots, hand)
  unfolding find_slot
  find_slot-clear fuel slots hand g r = rw (g, find_slot) (rw r refl)

  find_slot-recent :
      (fuel : ℕ) (slots : List (Slot X B)) (hand : ℕ) {x : Slot X B}
      → get_elem? slots hand ≡ some x
      → x.recent_bit ≡ true
      → find_slot (suc fuel) slots hand
        ≡ find_slot fuel (set slots hand (age x)) (next_hand (length slots) hand)
  unfolding find_slot
  find_slot-recent fuel slots hand g r = rw (g, find_slot) (rw r refl)

  stops :
      (fuel : ℕ) (slots : List (Slot X B)) (hand : ℕ)
      → hand < length slots
      → length slots < u32_mod
      → count_recent slots < fuel
      → Stopped (find_slot fuel slots hand)
  stops zero slots hand lt small f = absurd (omega arith)
  stops (suc fuel) slots hand lt small f =
      let (x, g) = get_elem?_of_lt slots hand lt in
      elim (Bool-cases x.recent_bit) [
        | inr clear ↦ rw (find_slot-clear fuel slots hand g clear) (x, g, clear)
        | inl recent ↦
            let l = length-set slots hand (age x) in
            rw (find_slot-recent fuel slots hand g recent) (
              stops fuel (set slots hand (age x)) (next_hand (length slots) hand)
                (omega (arith, next_hand-lt (length slots) hand lt small)) (omega arith)
                (omega (arith, count_recent-age slots hand g recent)))
      ]

  -- With the hand inside the slots, and fewer than 2^32 slots, one round more than there are slots
  -- is enough for the loop of `cache_update`: it ends at a slot whose recent bit is clear, whatever
  -- bits are set.
  pub find_slot_stops :
      (slots : List (Slot X B)) (hand : ℕ)
      → hand < length slots
      → length slots < u32_mod
      → Stopped (find_slot (suc (length slots)) slots hand)
  find_slot_stops slots hand lt small =
      stops (suc (length slots)) slots hand lt small (omega (arith, count_recent-le slots))

  -- What the slots of `out` share with `xs` when only recent bits differ.
  pub record Kept (xs : List (Slot X B)) (out : List (Slot X B) × ℕ) : Type 0 where
    pub length_same : length out.0 ≡ length xs
    pub hand_in : out.1 < length out.0
    pub distinct : Distinct out.0
    pub same : (i o : ℕ) → lookup out.0 i o ≡ lookup xs i o

  lookup-age :
      (xs : List (Slot X B)) (k : ℕ) {x : Slot X B} (i o : ℕ)
      → Distinct xs
      → get_elem? xs k ≡ some x
      → lookup (set xs k (age x)) i o ≡ lookup xs i o
  lookup-age xs k {x} i o d g =
      ground (arith, lookup-rekey xs k (age x) i o d g, lookup-hit xs k i o d g)

  pub find_slot-Kept :
      (fuel : ℕ) (slots : List (Slot X B)) (hand : ℕ)
      → hand < length slots
      → length slots < u32_mod
      → Distinct slots
      → Kept slots (find_slot fuel slots hand)
  unfolding find_slot
  find_slot-Kept zero slots hand lt small d = record {
    length_same = refl;
    hand_in = lt;
    distinct = d;
    same = λ i o. refl;
  }
  find_slot-Kept (suc fuel) slots hand lt small d =
      let (x, g) = get_elem?_of_lt slots hand lt in
      elim (Bool-cases x.recent_bit) [
        | inr clear ↦
            rw (find_slot-clear fuel slots hand g clear)
              (record { length_same = refl; hand_in = lt; distinct = d; same = λ i o. refl })
        | inl recent ↦
            let l = length-set slots hand (age x) in
            let k =
              find_slot-Kept fuel (set slots hand (age x)) (next_hand (length slots) hand)
                (omega (arith, next_hand-lt (length slots) hand lt small)) (omega arith)
                (Distinct-rekey slots hand (age x) d g (refl, refl, refl)) in
            rw (find_slot-recent fuel slots hand g recent) (record {
              length_same = omega (arith, k.length_same);
              hand_in = k.hand_in;
              distinct = k.distinct;
              same = λ i o. k.same i o ∙ lookup-age slots hand i o d g;
            })
      ]
