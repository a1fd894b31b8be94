-- ===== src/Block/Part/Layout.antt =====
-- Where the partitions of block/partdisk.c lie.
use cs4411_p.Base.{ℕ, zero, suc, ◌+◌, ◌%◌, ◌<◌, ◌≡◌, List, [], ◌∷◌, arith, get_or, u32_mod}
use cs4411_p.Block.Part.{add_sizes}

-- The number of blocks before partition `i`, with no wrap.
abbrev pub start : List ℕ → ℕ → ℕ
start sizes zero = 0
start [] (suc i) = 0
start (n ∷ sizes) (suc i) = n + start sizes i

abbrev pub total : List ℕ → ℕ
total [] = 0
total (n ∷ sizes) = n + total sizes

-- Block `o` of partition `i` exists.
abbrev pub Inside : List ℕ → ℕ → ℕ → Type 0
Inside sizes i o = o < get_or sizes i 0

pub start-le : (sizes : List ℕ) (i o : ℕ) → Inside sizes i o → start sizes i + o < total sizes
start-le [] i o h = absurd (omega arith)
start-le (n ∷ sizes) zero o h = omega arith
start-le (n ∷ sizes) (suc i) o h = omega (arith, start-le sizes i o h)

-- Within the total size the loop computes the start without wrapping.
pub add_sizes_lem :
    (sizes : List ℕ) (i o : ℕ)
    → start sizes i + o < u32_mod
    → add_sizes sizes i o ≡ start sizes i + o
unfolding add_sizes
add_sizes_lem sizes zero o h = omega arith
add_sizes_lem [] (suc i) o h = omega arith
add_sizes_lem (n ∷ sizes) (suc i) o h =
    omega (arith, add_sizes_lem sizes i ((o + n) % u32_mod) (omega arith))

-- Two partitions share no block.
pub start_injective :
    (sizes : List ℕ) (i j o p : ℕ)
    → Inside sizes i o
    → Inside sizes j p
    → start sizes i + o ≡ start sizes j + p
    → (i ≡ j) × (o ≡ p)
start_injective [] i j o p h k e = absurd (omega arith)
start_injective (n ∷ sizes) zero zero o p h k e = omega arith
start_injective (n ∷ sizes) zero (suc j) o p h k e = absurd (omega arith)
start_injective (n ∷ sizes) (suc i) zero o p h k e = absurd (omega arith)
start_injective (n ∷ sizes) (suc i) (suc j) o p h k e =
    let r = start_injective sizes i j o p h k (omega arith) in omega arith
