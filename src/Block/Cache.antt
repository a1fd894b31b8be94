-- ===== src/Block/Cache.antt =====
-- The cache that block/clockdisk.c and block/wtclockdisk.c keep: slots, the search for a block and
-- the hand of the clock. The two files hold the same text for these; the lines named are those of
-- clockdisk.c.
pub mod Lookup
pub mod Hand
use cs4411_p.Base.{
  ℕ, zero, suc, ◌+◌, ◌-◌, ◌%◌, Bool, false, ◌&&◌, Option, none, some, List, [], ◌∷◌, ◌==◌, leb,
  if◌then◌else◌, length, get_elem?, set, u32_mod,
}

-- One index of the arrays `metadatas` and `blocks`, which the code always uses at the same index.
-- The bits are `unsigned int`s that are only ever 0 or 1. `extra` is the `dirty_bit` of clockdisk.c;
-- wtclockdisk.c has none.
pub record Slot (X B : Type 0) : Type 0 where
  pub use_bit : Bool
  pub recent_bit : Bool
  pub ino : ℕ
  pub offset : ℕ
  pub extra : X
  pub block : B

-- The hand moves on: `clock_hand == nblocks - 1` is a comparison of `unsigned int`s.
unfoldable pub next_hand : ℕ → ℕ → ℕ
next_hand nblocks hand = if hand == (nblocks + u32_mod - 1) % u32_mod then 0 else hand + 1

module _ {X B : Type 0} where
  -- The test of the search: `metadatas[i].ino == ino && metadatas[i].offset == offset &&
  -- metadatas[i].use_bit == 1`.
  abbrev pub hit : Slot X B → ℕ → ℕ → Bool
  hit x ino offset = (x.ino == ino) && ((x.offset == offset) && x.use_bit)

  -- The index at which the search loop breaks; `none` if it reaches `nblocks`.
  unfoldable pub search : List (Slot X B) → ℕ → ℕ → Option ℕ
  search [] ino offset = none
  search (x ∷ slots) ino offset =
      if hit x ino offset
      then some 0
      else elim (search slots ino offset) [ none ↦ none | some i ↦ some (suc i) ]

  abbrev pub age : Slot X B → Slot X B
  age x = record x { recent_bit = false }

  -- The loop at the head of `cache_update`, on fuel: it clears recent bits until it meets one that
  -- is clear. The callers give one round more than there are slots.
  unfoldable pub find_slot : ℕ → List (Slot X B) → ℕ → List (Slot X B) × ℕ
  unfolding next_hand
  find_slot zero slots hand = (slots, hand)
  find_slot (suc fuel) slots hand = elim (get_elem? slots hand) [
    | none ↦ (slots, hand)
    | some x ↦
        let rest = find_slot fuel (set slots hand (age x)) (next_hand (length slots) hand) in
        if x.recent_bit then rest else (slots, hand)
  ]

  -- The loop of `setsize`: slots of `ino` from `nblocks` on are dropped, and `reset` is what the
  -- code assigns to the extra bit of such a slot.
  unfoldable pub truncate : (X → X) → ℕ → ℕ → List (Slot X B) → List (Slot X B)
  truncate reset ino nblocks [] = []
  truncate reset ino nblocks (x ∷ slots) =
      (if (x.ino == ino) && (leb nblocks x.offset && x.use_bit)
        then record x { use_bit = false; extra = reset x.extra }
        else x)
      ∷ truncate reset ino nblocks slots
