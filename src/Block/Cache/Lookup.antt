-- ===== src/Block/Cache/Lookup.antt =====
-- What a list of cache slots holds at an inode number and offset, and how assignments to a slot
-- change it.
use cs4411_p.Base.{
  ℕ, zero, suc, ◌≡◌, refl, inl, inr, true, Option, none, some, List, [], ◌∷◌, arith, Bool-cases,
  Option-cases, if◌then◌else◌, get_elem?, set,
}
use cs4411_p.Block.Cache.{Slot, hit, search}

module _ {X B : Type 0} where
  abbrev pub content : Slot X B → X × B
  content x = (x.extra, x.block)

  unfoldable pub lookup : List (Slot X B) → ℕ → ℕ → Option (X × B)
  lookup [] i o = none
  lookup (x ∷ xs) i o = if hit x i o then some (content x) else lookup xs i o

  -- No two slots in use are for the same block.
  unfoldable pub Distinct : List (Slot X B) → Type 0
  Distinct [] = Unit
  Distinct (x ∷ xs) = (x.use_bit ≡ true → lookup xs x.ino x.offset ≡ none) × Distinct xs

  -- The search finds what `lookup` gives.
  pub search-some :
      (xs : List (Slot X B)) (i o k : ℕ)
      → search xs i o ≡ some k
      → (x : Slot X B) × (get_elem? xs k ≡ some x)
        × (hit x i o ≡ true)
        × (lookup xs i o ≡ some (content x))
  unfolding search lookup
  search-some [] i o k e = absurd (ground arith)
  search-some (x ∷ xs) i o k e = elim (Bool-cases (hit x i o)) [
    | inl h ↦ (x, ground arith, h, rw h)
    | inr n ↦ elim (Option-cases (search xs i o)) [
      | inl none' ↦ absurd (ground arith)
      | inr (k', e') ↦ let (y, g, h, l) = search-some xs i o k' e' in (y, ground arith, h, rw n l)
    ]
  ]

  pub search-none : (xs : List (Slot X B)) (i o : ℕ) → search xs i o ≡ none → lookup xs i o ≡ none
  unfolding search lookup
  search-none [] i o e = refl
  search-none (x ∷ xs) i o e = ground (arith, search-none xs i o)

  pub lookup-hit :
      (xs : List (Slot X B)) (k i o : ℕ) {x : Slot X B}
      → Distinct xs
      → get_elem? xs k ≡ some x
      → hit x i o ≡ true
      → lookup xs i o ≡ some (content x)
  unfolding lookup Distinct
  lookup-hit [] k i o d g h = absurd (ground arith)
  lookup-hit (x ∷ xs) zero i o d g h = ground arith
  lookup-hit (y ∷ xs) (suc k) i o d g h = ground (arith, lookup-hit xs k i o d.1 g h)

  -- `y` is for the same block as `x`, and in use as `x` is.
  abbrev pub SameKey : Slot X B → Slot X B → Type 0
  SameKey x y = (y.use_bit ≡ x.use_bit) × (y.ino ≡ x.ino) × (y.offset ≡ x.offset)

  -- Assigning to the other fields of a slot changes what is held for its block alone.
  pub lookup-rekey :
      (xs : List (Slot X B)) (k : ℕ) {x : Slot X B} (y : Slot X B) (i o : ℕ)
      → Distinct xs
      → get_elem? xs k ≡ some x
      → SameKey x y
      → lookup (set xs k y) i o ≡ (if hit x i o then some (content y) else lookup xs i o)
  unfolding lookup Distinct
  lookup-rekey [] k y i o d g e = absurd (ground arith)
  lookup-rekey (x ∷ xs) zero y i o d g e = ground arith
  lookup-rekey (z ∷ xs) (suc k) y i o d g e =
      ground (arith, lookup-rekey xs k y i o d.1 g e, lookup-hit xs k i o d.1 g)

  pub Distinct-rekey :
      (xs : List (Slot X B)) (k : ℕ) {x : Slot X B} (y : Slot X B)
      → Distinct xs
      → get_elem? xs k ≡ some x
      → SameKey x y
      → Distinct (set xs k y)
  unfolding lookup Distinct
  Distinct-rekey [] k y d g e = absurd (ground arith)
  Distinct-rekey (x ∷ xs) zero y d g e = (ground arith, d.1)
  Distinct-rekey (z ∷ xs) (suc k) {x} y d g e = (
    λ u. ground (
      arith,
      d.0 u,
      lookup-rekey xs k y z.ino z.offset d.1 g e,
      lookup-hit xs k z.ino z.offset d.1 g,
    ),
    Distinct-rekey xs k y d.1 g e,
  )

  -- Filling a slot with a block that no slot holds drops what the slot held.
  pub lookup-fill :
      (xs : List (Slot X B)) (k : ℕ) {x : Slot X B} (y : Slot X B) (i o : ℕ)
      → Distinct xs
      → get_elem? xs k ≡ some x
      → lookup xs y.ino y.offset ≡ none
      → lookup (set xs k y) i o
        ≡ (if hit y i o then some (content y) else if hit x i o then none else lookup xs i o)
  unfolding lookup Distinct
  lookup-fill [] k y i o d g n = absurd (ground arith)
  lookup-fill (x ∷ xs) zero y i o d g n = ground arith
  lookup-fill (z ∷ xs) (suc k) y i o d g n =
      ground (arith, lookup-fill xs k y i o d.1 g, lookup-hit xs k i o d.1 g)

  pub Distinct-fill :
      (xs : List (Slot X B)) (k : ℕ) {x : Slot X B} (y : Slot X B)
      → Distinct xs
      → get_elem? xs k ≡ some x
      → lookup xs y.ino y.offset ≡ none
      → Distinct (set xs k y)
  unfolding lookup Distinct
  Distinct-fill [] k y d g n = absurd (ground arith)
  Distinct-fill (x ∷ xs) zero y d g n = (ground arith, d.1)
  Distinct-fill (z ∷ xs) (suc k) {x} y d g n = (
    λ u. ground (arith, d.0 u, lookup-fill xs k y z.ino z.offset d.1 g),
    Distinct-fill xs k y d.1 g (ground arith),
  )
