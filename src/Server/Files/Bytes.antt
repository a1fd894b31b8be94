-- ===== src/Server/Files/Bytes.antt =====
-- The bytes of a file of `apps/bfs.c`, on the blocks of its inode.
use cs4411_p.Base.{
  ℕ, zero, suc, ◌+◌, ◌-◌, ◌*◌, ◌/◌, ◌%◌, ◌^◌, ◌≤◌, ◌<◌, ◌≡◌, refl, sym, ap, ◌∙◌, inl, inr, Option,
  none, some, List, [], ◌∷◌, ◌++◌, arith, ltb, Bool-cases, ltb→lt, length, get_elem?, take, drop,
  All,
}
use cs4411_p.Base.{length-append}
use cs4411_p.Block.Store.{View}
use cs4411_p.System.RamFile.{slice}
use cs4411_p.Server.Blocks.{Block, block_size}
use cs4411_p.Server.Files.{flat}
use cs4411_p.Server.Files.Requests.{last_block}

abbrev pub byte_in : Option Block → ℕ → Option ℕ
byte_in none i = none
byte_in (some b) i = get_elem? b i

-- The byte of a file at an offset; `none` where there is no block.
unfoldable pub byte_at : View Block → ℕ → ℕ → Option ℕ
byte_at v ino q = byte_in (v ino (q / block_size)) (q % block_size)

-- The blocks of an inode from `first` on are these.
abbrev pub Held : View Block → ℕ → ℕ → List Block → Type 0
Held v ino first bs = (k : ℕ) → k < length bs → v ino (first + k) ≡ get_elem? bs k

abbrev pub Full : List Block → Type 0
Full bs = All (λ b. length b ≡ block_size) bs

pub plus_zero : (n : ℕ) → n ≡ n + 0
plus_zero n = omega arith

pub plus_suc : (n k : ℕ) → n + 1 + k ≡ n + suc k
plus_suc n k = omega arith

get_elem?-append_left : (b l : List ℕ) (q : ℕ) → q < length b → get_elem? (b ++ l) q ≡ get_elem? b q
get_elem?-append_left [] l q h = absurd (omega arith)
get_elem?-append_left (x ∷ b) l zero h = refl
get_elem?-append_left (x ∷ b) l (suc q) h = get_elem?-append_left b l q (omega arith)

get_elem?-append_right :
    (b l : List ℕ) (q r : ℕ) → q ≡ length b + r → get_elem? (b ++ l) q ≡ get_elem? l r
get_elem?-append_right [] l q r e = ap (get_elem? l) (omega (arith, e))
get_elem?-append_right (x ∷ b) l zero r e = absurd (omega arith)
get_elem?-append_right (x ∷ b) l (suc q) r e = get_elem?-append_right b l q r (omega arith)

get_elem?-drop : (l : List ℕ) (o i : ℕ) → get_elem? (drop o l) i ≡ get_elem? l (o + i)
get_elem?-drop l zero i = ap (get_elem? l) (omega arith)
get_elem?-drop [] (suc o) i = refl
get_elem?-drop (x ∷ l) (suc o) i =
    let e : suc (o + i) ≡ suc o + i = omega arith in get_elem?-drop l o i ∙ ap (get_elem? (x ∷ l)) e

get_elem?-take : (l : List ℕ) (n i : ℕ) → i < n → get_elem? (take n l) i ≡ get_elem? l i
get_elem?-take l zero i h = absurd (omega arith)
get_elem?-take [] (suc n) i h = refl
get_elem?-take (x ∷ l) (suc n) zero h = refl
get_elem?-take (x ∷ l) (suc n) (suc i) h = get_elem?-take l n i (omega arith)

pub length-slice : (l : List ℕ) (o n : ℕ) → o + n ≤ length l → length (slice l o n) ≡ n
length-slice l zero zero h = refl
length-slice [] zero (suc n) h = absurd (omega arith)
length-slice (x ∷ l) zero (suc n) h = ap suc (length-slice l zero n (omega arith))
length-slice [] (suc o) n h = absurd (omega arith)
length-slice (x ∷ l) (suc o) n h = length-slice l o n (omega arith)

pub length-flat : (bs : List Block) → Full bs → length (flat bs) ≡ length bs * block_size
length-flat [] f = refl
length-flat (b ∷ bs) (e, f) = omega (arith, length-append b (flat bs), e, length-flat bs f)

byte_at-in :
    (v : View Block) (ino first q : ℕ) (b : Block)
    → v ino first ≡ some b
    → q < block_size
    → byte_at v ino (first * block_size + q) ≡ get_elem? b q
unfolding byte_at
byte_at-in v ino first q b e h =
    let place : (first * block_size + q) / block_size ≡ first = omega arith in
    let inside : (first * block_size + q) % block_size ≡ q = omega arith in
    ap (λ k. byte_in (v ino k) ((first * block_size + q) % block_size)) place
    ∙ ap (byte_in (v ino first)) inside
    ∙ ap (λ o. byte_in o q) e

-- The bytes of consecutive blocks are the bytes of the file there.
pub get_elem?-flat :
    (v : View Block) (ino first : ℕ) (bs : List Block) (q : ℕ)
    → Held v ino first bs
    → Full bs
    → q < length bs * block_size
    → get_elem? (flat bs) q ≡ byte_at v ino (first * block_size + q)
get_elem?-flat v ino first [] q held f h = absurd (omega arith)
get_elem?-flat v ino first (b ∷ bs) q held (e, f) h = elim (Bool-cases (ltb q block_size)) [
  | inl l ↦
      get_elem?-append_left b (flat bs) q (ground (arith, l, e))
      ∙ sym (
          byte_at-in v ino first q b (ap (v ino) (plus_zero first) ∙ held 0 (omega arith))
            (ltb→lt q block_size l))
  | inr l ↦
      get_elem?-append_right b (flat bs) q (q - block_size) (ground (arith, l, e))
      ∙ get_elem?-flat v ino (first + 1) bs (q - block_size)
          (λ k lt. ap (v ino) (plus_suc first k) ∙ held (suc k) (omega arith)) f
          (ground (arith, l, h))
      ∙ ap (byte_at v ino) (ground (arith, l))
]

pub get_elem?-slice :
    (l : List ℕ) (o n i : ℕ) → i < n → get_elem? (slice l o n) i ≡ get_elem? l (o + i)
get_elem?-slice l o n i h = get_elem?-take (drop o l) n i h ∙ get_elem?-drop l o i

-- How many blocks a read takes, without the wrapping of `unsigned int`.
abbrev pub span : ℕ → ℕ → ℕ
span offset n = (offset + n - 1) / block_size - offset / block_size + 1

pub span-nblock :
    (offset n : ℕ)
    → 0 < n
    → offset + n < 2 ^ 32
    → (last_block offset n + 2 ^ 32 - (offset / block_size) % 2 ^ 32 + 1) % 2 ^ 32 ≡ span offset n
span-nblock offset n h small =
    let last : last_block offset n ≡ (offset + n - 1) / block_size = omega arith in
    let start : (offset / block_size) % 2 ^ 32 ≡ offset / block_size = omega arith in
    omega (arith, last, start)
