-- ===== src/Server/Files/Writing.antt =====
-- What a write through `apps/bfs.c` leaves.
use cs4411_p.Base.{
  ℕ, zero, suc, ◌+◌, ◌-◌, ◌*◌, ◌/◌, ◌%◌, ◌≤◌, ◌<◌, ◌≡◌, refl, sym, ap, ◌∙◌, ◌⊎◌, inl, inr, false,
  List, [], ◌∷◌, arith, Bool-cases, length, get_elem?,
}
use cs4411_p.Block.Store.{View}
use cs4411_p.System.RamFile.{copy_in}
use cs4411_p.System.RamFile.Content.{length-copy_in, get_elem?-copy_in}
use cs4411_p.Server.Blocks.{Block, block_size, zeros}
use cs4411_p.Server.Files.{flat, chunks}
use cs4411_p.Server.Files.Bytes.{byte_at, byte_in, Held, Full, length-flat, get_elem?-flat}
use cs4411_p.Server.Files.Storing.{among, Others, length-chunks, chunks-Full, flat-chunks}

get_elem?-copy_in_at :
    (bytes : List ℕ) (o : ℕ) (bs : List ℕ) (q i : ℕ)
    → o + length bs ≤ length bytes
    → i < length bs
    → q ≡ o + i
    → get_elem? (copy_in bytes o bs) q ≡ get_elem? bs i
unfolding copy_in
get_elem?-copy_in_at bytes zero [] q i h k e = absurd (omega arith)
get_elem?-copy_in_at [] zero (d ∷ bs) q i h k e = absurd (omega arith)
get_elem?-copy_in_at (b ∷ bytes) zero (d ∷ bs) zero zero h k e = refl
get_elem?-copy_in_at (b ∷ bytes) zero (d ∷ bs) zero (suc i) h k e = absurd (omega arith)
get_elem?-copy_in_at (b ∷ bytes) zero (d ∷ bs) (suc q) zero h k e = absurd (omega arith)
get_elem?-copy_in_at (b ∷ bytes) zero (d ∷ bs) (suc q) (suc i) h k e =
    get_elem?-copy_in_at bytes zero bs q i (omega arith) (omega arith) (omega arith)
get_elem?-copy_in_at [] (suc o) bs q i h k e = absurd (omega arith)
get_elem?-copy_in_at (b ∷ bytes) (suc o) bs zero i h k e = absurd (omega arith)
get_elem?-copy_in_at (b ∷ bytes) (suc o) bs (suc q) i h k e =
    get_elem?-copy_in_at bytes o bs q i (omega arith) (omega arith) (omega arith)

-- A copy over all bytes leaves nothing of them.
pub copy_in-all : (bytes bs : List ℕ) → length bytes ≡ length bs → copy_in bytes 0 bs ≡ bs
unfolding copy_in
copy_in-all [] [] h = refl
copy_in-all (b ∷ bytes) [] h = absurd (omega arith)
copy_in-all [] (d ∷ bs) h = absurd (omega arith)
copy_in-all (b ∷ bytes) (d ∷ bs) h = ap (◌∷◌ d) (copy_in-all bytes bs (omega arith))

pub length-zeros : (n : ℕ) → length (zeros n) ≡ n
unfolding zeros
length-zeros zero = refl
length-zeros (suc n) = ap suc (length-zeros n)

-- The bytes behind and before a write, on its blocks and on the others.
pub record Written (v w : View Block) (ino offset : ℕ) (data' : List ℕ) : Type 0 where
  pub inside : (i : ℕ) → i < length data' → byte_at w ino (offset + i) ≡ get_elem? data' i
  pub outside :
      (q : ℕ) → (q < offset) ⊎ (offset + length data' ≤ q) → byte_at w ino q ≡ byte_at v ino q

-- The blocks of a file before and after a write that reads them, changes them and writes them back.
pub record Rewritten (v w : View Block) (ino offset : ℕ) (data' : List ℕ) (n : ℕ) : Type 0 where
  pub old : List Block
  pub old_held : Held v ino (offset / block_size) old
  pub old_full : Full old
  pub length_old : length old ≡ n
  pub new_held :
      Held w ino (offset / block_size) (chunks n (copy_in (flat old) (offset % block_size) data'))
  pub others : Others v w ino (offset / block_size) n
  pub room : offset % block_size + length data' ≤ n * block_size

module _ (v w : View Block) (ino offset : ℕ) (data' : List ℕ) (n : ℕ)
    (R : Rewritten v w ino offset data' n) where
  length_bytes : length (copy_in (flat R.old) (offset % block_size) data') ≡ n * block_size
  length_bytes =
      length-copy_in (flat R.old) (offset % block_size) data'
      ∙ length-flat R.old R.old_full
      ∙ ap (λ k. k * block_size) R.length_old

  -- A byte of the blocks that are written back.
  byte_at-new :
      (q' : ℕ)
      → q' < n * block_size
      → byte_at w ino (offset / block_size * block_size + q')
        ≡ get_elem? (copy_in (flat R.old) (offset % block_size) data') q'
  byte_at-new q' h =
      let bytes = copy_in (flat R.old) (offset % block_size) data' in
      sym (
        get_elem?-flat w ino (offset / block_size) (chunks n bytes) q' R.new_held
          (chunks-Full n bytes length_bytes) (omega (arith, length-chunks n bytes, h)))
      ∙ ap (λ l. get_elem? l q') (flat-chunks n bytes length_bytes)

  byte_at-old :
      (q' : ℕ)
      → q' < n * block_size
      → get_elem? (flat R.old) q' ≡ byte_at v ino (offset / block_size * block_size + q')
  byte_at-old q' h =
      get_elem?-flat v ino (offset / block_size) R.old q' R.old_held R.old_full
        (omega (arith, R.length_old, h))

  byte_at-others :
      (q : ℕ)
      → among ino (offset / block_size) n ino (q / block_size) ≡ false
      → byte_at w ino q ≡ byte_at v ino q
  unfolding byte_at
  byte_at-others q h = ap (λ o. byte_in o (q % block_size)) (R.others ino (q / block_size) h)

  byte_at-kept :
      (q' : ℕ)
      → q' < n * block_size
      → (q' < offset % block_size) ⊎ (offset % block_size + length data' ≤ q')
      → byte_at w ino (offset / block_size * block_size + q')
        ≡ byte_at v ino (offset / block_size * block_size + q')
  byte_at-kept q' h out =
      byte_at-new q' h
      ∙ get_elem?-copy_in (flat R.old) (offset % block_size) data' q' out
      ∙ byte_at-old q' h

  -- A place on the blocks of the write, counted from the first of them.
  place :
      (q : ℕ)
      → offset / block_size * block_size ≤ q
      → offset / block_size * block_size + (q - offset / block_size * block_size) ≡ q
  place q h = omega arith

  pub rewritten-Written : Written v w ino offset data'
  rewritten-Written = record {
    inside = λ i h.
        let e : offset / block_size * block_size + (offset % block_size + i) ≡ offset + i =
          omega arith in
        ap (byte_at w ino) (sym e)
        ∙ byte_at-new (offset % block_size + i) (omega (arith, R.room, h))
        ∙ get_elem?-copy_in_at (flat R.old) (offset % block_size) data' (offset % block_size + i) i
            (omega (arith, R.room, length-flat R.old R.old_full, R.length_old)) h refl;
    outside = λ q out. elim (Bool-cases (among ino (offset / block_size) n ino (q / block_size))) [
      | inr b ↦ byte_at-others q b
      | inl b ↦
          let q' = q - offset / block_size * block_size in
          let at_place = place q (ground (arith, b)) in
          ap (byte_at w ino) (sym at_place)
          ∙ byte_at-kept q' (ground (arith, b))
              (elim out [ inl l ↦ inl (ground (arith, b, l)) | inr l ↦ inr (ground (arith, b, l)) ])
          ∙ ap (byte_at v ino) at_place
    ];
  }
