-- ===== src/Block/Check.antt =====
-- block/checkdisk.c: a layer that checks that reads return what was written.
pub mod Laws
use cs4411_p.Base.{
  ℕ, Bool, ◌&&◌, Option, none, some, List, [], ◌∷◌, ◌==◌, leb, if◌then◌else◌, ℤ, pos, minus_one,
  is_neg,
}
use cs4411_p.Block.Store.{Store}

-- `struct block_list`, without its `next`.
pub record Entry (B : Type 0) : Type 0 where
  pub ino : ℕ
  pub offset : ℕ
  pub block : B

-- `struct checkdisk_state`, without the text for its messages. `bl` is the linked list.
pub record CheckState (S B : Type 0) : Type 0 where
  pub below : S
  pub bl : List (Entry B)

module _ {B : Type 0} where
  -- The test for an entry in the loops: `bl->ino == ino && bl->offset == offset`.
  abbrev pub is_for : Entry B → ℕ → ℕ → Bool
  is_for e ino offset = (e.ino == ino) && (e.offset == offset)

  -- The block of the first entry for the inode and offset.
  unfoldable pub recorded : List (Entry B) → ℕ → ℕ → Option B
  recorded [] ino offset = none
  recorded (e ∷ bl) ino offset =
      if is_for e ino offset then some e.block else recorded bl ino offset

  -- The loop of `checkdisk_write` and what follows it: the first entry for the inode and offset is
  -- updated; `none` if there is none.
  unfoldable pub update : List (Entry B) → ℕ → ℕ → B → Option (List (Entry B))
  update [] ino offset b = none
  update (e ∷ bl) ino offset b =
      if is_for e ino offset
      then some (record e { block = b } ∷ bl)
      else elim (update bl ino offset b) [ none ↦ none | some bl' ↦ some (e ∷ bl') ]

  -- The loop of `checkdisk_setsize`.
  unfoldable pub forget : List (Entry B) → ℕ → ℕ → List (Entry B)
  forget [] ino nblocks = []
  forget (e ∷ bl) ino nblocks =
      let rest = forget bl ino nblocks in
      if (e.ino == ino) && leb nblocks e.offset then rest else e ∷ rest

  abbrev pub entry : ℕ → ℕ → B → Entry B
  entry ino offset b = record { ino = ino; offset = offset; block = b }

-- `same` is `memcmp(a, b, BLOCK_SIZE) == 0`.
module _ {B : Type 0} (same : B → B → Bool) (D : Store B) where
  unfoldable pub getninodes : CheckState D.State B → ℤ × CheckState D.State B
  getninodes s = let (r, below) = D.getninodes s.below in (r, record s { below = below })

  unfoldable pub getsize : CheckState D.State B → ℕ → ℤ × CheckState D.State B
  getsize s ino = let (r, below) = D.getsize s.below ino in (r, record s { below = below })

  unfoldable pub setsize : CheckState D.State B → ℕ → ℕ → ℤ × CheckState D.State B
  unfolding forget
  setsize s ino nblocks =
      let (r, below) = D.setsize s.below ino nblocks in
      (r, record s { below = below; bl = forget s.bl ino nblocks })

  -- `none` is the end of the program by `exit(1)`.
  unfoldable pub read : CheckState D.State B → ℕ → ℕ → B → Option (ℤ × B × CheckState D.State B)
  unfolding recorded
  read s ino offset b =
      let (r, b', below) = D.read s.below ino offset b in
      if is_neg r
      then some (minus_one, b', record s { below = below })
      else elim (recorded s.bl ino offset) [
        | some old ↦ if same old b' then some (pos 0, b', record s { below = below }) else none
        | none ↦ some (pos 0, b', record { below = below; bl = entry ino offset b' ∷ s.bl })
      ]

  unfoldable pub write : CheckState D.State B → ℕ → ℕ → B → ℤ × CheckState D.State B
  unfolding update
  write s ino offset b =
      let (r, below) = D.write s.below ino offset b in
      if is_neg r
      then (minus_one, record s { below = below })
      else elim (update s.bl ino offset b) [
        | some bl ↦ (r, record { below = below; bl = bl })
        | none ↦ (r, record { below = below; bl = entry ino offset b ∷ s.bl })
      ]

  unfoldable pub sync : CheckState D.State B → ℕ → ℤ × CheckState D.State B
  sync s ino = let (r, below) = D.sync s.below ino in (r, record s { below = below })

  unfoldable pub init : D.State → CheckState D.State B
  init below = record { below = below; bl = [] }
