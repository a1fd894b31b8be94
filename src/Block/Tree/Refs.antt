-- ===== src/Block/Tree/Refs.antt =====
-- The references in a block of the free list of block/treedisk.c, and what stands on the list.
use cs4411_p.Base.{
  ℕ, zero, suc, ◌+◌, ◌<◌, ◌≡◌, refl, ◌≢◌, ◌⊎◌, inl, inr, true, false, Option, List, [], ◌∷◌, arith,
  ◌==◌, Bool-cases, ==_iff, if◌then◌else◌, length, get_or, set,
}
use cs4411_p.Block.Tree.{Block, word, last_ref}
use cs4411_p.Block.Tree.Freelist.{FreeList, empty, linked, occurrences, nonzero, occurrences-append}

last_ref-skip :
    (blk : Block) (n : ℕ)
    → (word blk (suc n) == 0) ≡ true
    → last_ref blk (suc (suc n)) ≡ last_ref blk (suc n)
unfolding last_ref
last_ref-skip blk n y = let e : (suc n == 0) ≡ false = ground arith in rw (e, y) refl

last_ref-here :
    (blk : Block) (n : ℕ) → (word blk (suc n) == 0) ≡ false → last_ref blk (suc (suc n)) ≡ suc n
unfolding last_ref
last_ref-here blk n y = let e : (suc n == 0) ≡ false = ground arith in rw (e, y) refl

last_ref-one : (blk : Block) → last_ref blk 1 ≡ 0
unfolding last_ref
last_ref-one blk = refl

-- What the loop over the references finds: the last that is not 0, or 0 if there is none.
pub last_ref-cases :
    (blk : Block) (n : ℕ)
    → ((last_ref blk (suc n) ≡ 0) × ((j : ℕ) → 0 < j → j < suc n → word blk j ≡ 0))
      ⊎ ((0 < last_ref blk (suc n))
          × (last_ref blk (suc n) < suc n)
          × (word blk (last_ref blk (suc n)) ≢ 0))
last_ref-cases blk zero = inl (last_ref-one blk, λ j p q. absurd (omega arith))
last_ref-cases blk (suc n) = elim (Bool-cases (word blk (suc n) == 0)) [
  | inl y ↦ rw (last_ref-skip blk n y) (elim (last_ref-cases blk n) [
    | inl (e, f) ↦ inl (e, λ j p q. ground (arith, f j, ==_iff j (suc n)))
    | inr (a, b, c) ↦ inr (a, omega (arith, b), c)
  ])
  | inr n1 ↦
      rw (last_ref-here blk n n1) (inr (omega arith, omega arith, λ z. ground (arith, n1, z)))
]

pub nonzero_none : (xs : List ℕ) → ((j : ℕ) → j < length xs → get_or xs j 0 ≡ 0) → nonzero xs ≡ []
nonzero_none [] h = refl
nonzero_none (x ∷ xs) h =
    let e : x ≡ 0 = h 0 (omega arith) in
    let ih = nonzero_none xs (λ j p. h (suc j) (omega arith)) in ground (arith, e, ih)

pub get_or-set : (xs : List ℕ) (i v : ℕ) → i < length xs → get_or (set xs i v) i 0 ≡ v
get_or-set [] i v h = absurd (omega arith)
get_or-set (x ∷ xs) zero v h = refl
get_or-set (x ∷ xs) (suc i) v h = get_or-set xs i v (omega arith)

-- One reference less.
pub occurrences-set :
    (m : ℕ) (xs : List ℕ) (i : ℕ)
    → get_or xs i 0 ≢ 0
    → occurrences m (nonzero (set xs i 0)) + (if get_or xs i 0 == m then 1 else 0)
      ≡ occurrences m (nonzero xs)
occurrences-set m [] i h = absurd (h refl)
occurrences-set m (x ∷ xs) zero h = ground (arith, h)
occurrences-set m (x ∷ xs) (suc i) h = elim (Bool-cases (x == 0)) [
  | inl y ↦ rw y (occurrences-set m xs i h)
  | inr n ↦ rw n (omega (arith, occurrences-set m xs i h))
]

-- 0 is not on a free list.
nonzero-occurrences : (xs : List ℕ) → occurrences 0 (nonzero xs) ≡ 0
nonzero-occurrences [] = refl
nonzero-occurrences (x ∷ xs) = ground (arith, nonzero-occurrences xs)

pub FreeList-nonzero :
    (v : ℕ → Option Block) (b : ℕ) (xs : List ℕ) → FreeList v b xs → occurrences 0 xs ≡ 0
FreeList-nonzero v _ _ empty = refl
FreeList-nonzero v _ _ (linked b [] rest p e l) = ground (arith, FreeList-nonzero v 0 rest l)
FreeList-nonzero v _ _ (linked b (x ∷ blk) rest p e l) = ground (
  arith,
  FreeList-nonzero v x rest l,
  occurrences-append 0 (nonzero blk) rest,
  nonzero-occurrences blk,
)

pub FreeList-at :
    (v : ℕ → Option Block) (h b : ℕ) (xs : List ℕ) → h ≡ b → FreeList v b xs → FreeList v h xs
FreeList-at v h b xs q l = rw q l
