-- ===== src/System/RamFile/Content.antt =====
-- The bytes of the files of grass/ramfilesvr.c.
use cs4411_p.Base.{
  ℕ, zero, suc, ◌+◌, ◌%◌, ◌^◌, ◌≤◌, ◌<◌, ◌≡◌, refl, ap, ◌∙◌, ◌⊎◌, inl, inr, Bool, true, false, ◌&&◌,
  ◌||◌, some, List, [], ◌∷◌, arith, ◌==◌, ltb, leb, Bool-cases, length, get_elem?, take,
}
use cs4411_p.Base.{if_false}
use cs4411_p.System.RamFile.{
  File, RamFileState, Request, file_ok, respond, allocated, set_file, slice, resize, copy_in,
  extended, stored, put, modtime, write_allowed,
}
use cs4411_p.System.RamFile.Requests.{written, do_write}

take-copy_in :
    (bytes bs : List ℕ) → length bs ≤ length bytes → take (length bs) (copy_in bytes 0 bs) ≡ bs
unfolding copy_in
take-copy_in bytes [] h = refl
take-copy_in [] (d ∷ bs) h = absurd (omega arith)
take-copy_in (b ∷ bytes) (d ∷ bs) h = ap (◌∷◌ d) (take-copy_in bytes bs (omega arith))

slice-copy_in :
    (bytes : List ℕ) (o : ℕ) (bs : List ℕ)
    → o + length bs ≤ length bytes
    → slice (copy_in bytes o bs) o (length bs) ≡ bs
unfolding copy_in
slice-copy_in bytes zero bs h = take-copy_in bytes bs (omega arith)
slice-copy_in [] (suc o) bs h = absurd (omega arith)
slice-copy_in (b ∷ bytes) (suc o) bs h = slice-copy_in bytes o bs (omega arith)

pub length-resize : (junk : ℕ → ℕ) (bytes : List ℕ) (n : ℕ) → length (resize junk bytes n) ≡ n
unfolding resize
length-resize junk bytes zero = refl
length-resize junk [] (suc n) = ap suc (length-resize junk [] n)
length-resize junk (b ∷ bytes) (suc n) = ap suc (length-resize junk bytes n)

pub length-copy_in :
    (bytes : List ℕ) (o : ℕ) (bs : List ℕ) → length (copy_in bytes o bs) ≡ length bytes
unfolding copy_in
length-copy_in bytes zero [] = refl
length-copy_in [] zero (d ∷ bs) = refl
length-copy_in (b ∷ bytes) zero (d ∷ bs) = ap suc (length-copy_in bytes zero bs)
length-copy_in [] (suc o) bs = refl
length-copy_in (b ∷ bytes) (suc o) bs = ap suc (length-copy_in bytes o bs)

pub get_elem?-copy_in :
    (bytes : List ℕ) (o : ℕ) (bs : List ℕ) (q : ℕ)
    → (q < o) ⊎ (o + length bs ≤ q)
    → get_elem? (copy_in bytes o bs) q ≡ get_elem? bytes q
unfolding copy_in
get_elem?-copy_in bytes zero [] q h = refl
get_elem?-copy_in [] zero (d ∷ bs) q h = refl
get_elem?-copy_in (b ∷ bytes) zero (d ∷ bs) zero h = absurd (ground arith)
get_elem?-copy_in (b ∷ bytes) zero (d ∷ bs) (suc q) h =
    get_elem?-copy_in bytes zero bs q (inr (ground arith))
get_elem?-copy_in [] (suc o) bs q h = refl
get_elem?-copy_in (b ∷ bytes) (suc o) bs zero h = refl
get_elem?-copy_in (b ∷ bytes) (suc o) bs (suc q) h =
    get_elem?-copy_in bytes o bs q
      (elim h [ inl l ↦ inl (omega arith) | inr l ↦ inr (omega arith) ])

get_elem?-resize :
    (junk : ℕ → ℕ) (bytes : List ℕ) (n q : ℕ)
    → q < n
    → q < length bytes
    → get_elem? (resize junk bytes n) q ≡ get_elem? bytes q
unfolding resize
get_elem?-resize junk bytes zero q h l = absurd (omega arith)
get_elem?-resize junk [] (suc n) q h l = absurd (omega arith)
get_elem?-resize junk (b ∷ bytes) (suc n) zero h l = refl
get_elem?-resize junk (b ∷ bytes) (suc n) (suc q) h l =
    get_elem?-resize junk bytes n q (omega arith) (omega arith)

-- The file has as many bytes as its size says.
abbrev pub Sized : File → Type 0
Sized f = length f.contents ≡ f.fcb.st_size

module _ (junk : ℕ → ℕ) (time : ℕ) (f : File) (offset : ℕ) (bytes : List ℕ) (h : Sized f)
    (fit : offset + length bytes < 2 ^ 64) where
  last_lem : (offset + length bytes) % 2 ^ 64 ≡ offset + length bytes
  last_lem = ground arith

  pub stored-Sized : Sized (stored junk time f offset bytes)
  unfolding stored extended
  stored-Sized = elim (Bool-cases (ltb f.fcb.st_size (offset + length bytes))) [
    | inl g ↦
        rw (last_lem, g, stored, extended)
          ((length-copy_in _ offset bytes ∙ length-resize junk f.contents (offset + length bytes)))
    | inr g ↦ rw (last_lem, g, stored, extended) ((length-copy_in _ offset bytes ∙ h))
  ]

  pub stored-size : offset + length bytes ≤ (stored junk time f offset bytes).fcb.st_size
  unfolding stored extended
  stored-size = elim (Bool-cases (ltb f.fcb.st_size (offset + length bytes))) [
    | inl g ↦ rw (last_lem, g, stored, extended) ((omega arith))
    | inr g ↦ rw (last_lem, g, stored, extended) ((ground arith))
  ]

  pub slice-stored : slice (stored junk time f offset bytes).contents offset (length bytes) ≡ bytes
  unfolding stored extended
  slice-stored = elim (Bool-cases (ltb f.fcb.st_size (offset + length bytes))) [
    | inl g ↦
        rw (last_lem, g, stored, extended)
          ((slice-copy_in _ offset bytes
            (omega (arith, length-resize junk f.contents (offset + length bytes)))))
    | inr g ↦
        rw (last_lem, g, stored, extended) ((slice-copy_in _ offset bytes (ground (arith, h))))
  ]

  pub get_elem?-stored :
      (q : ℕ)
      → q < f.fcb.st_size
      → (q < offset) ⊎ (offset + length bytes ≤ q)
      → get_elem? (stored junk time f offset bytes).contents q ≡ get_elem? f.contents q
  unfolding stored extended
  get_elem?-stored q l out = elim (Bool-cases (ltb f.fcb.st_size (offset + length bytes))) [
    | inl g ↦
        rw (last_lem, g, stored, extended)
          ((get_elem?-copy_in _ offset bytes q out
            ∙ get_elem?-resize junk f.contents _ q (ground arith) (omega (arith, h))))
    | inr g ↦ rw (last_lem, g, stored, extended) ((get_elem?-copy_in _ offset bytes q out))
  ]

  length-extended : offset + length bytes ≤ length (extended junk f (offset + length bytes))
  unfolding extended
  length-extended = elim (Bool-cases (ltb f.fcb.st_size (offset + length bytes))) [
    | inl g ↦
        rw (g, extended) (omega (arith, length-resize junk f.contents (offset + length bytes)))
    | inr g ↦ rw (g, extended) (ground (arith, h))
  ]

  -- The contents have room for the bytes.
  pub put-some : put junk time f offset bytes ≡ some (stored junk time f offset bytes)
  unfolding put
  put-some =
      let room = length-extended in
      let no_overflow : ltb (length (extended junk f ((offset + length bytes) % 2 ^ 64)))
            (offset + length bytes)
          ≡ false =
        rw last_lem (ground (arith, room)) in
      if_false _ _ _ no_overflow

pub do_write_lem :
    (junk : ℕ → ℕ) (now : ℕ) (rs : RamFileState) (req : Request) (uid : ℕ) (f : File)
    → allocated rs.files req.file_no ≡ some f
    → Sized f
    → req.size ≡ length req.data'
    → req.offset + length req.data' < 2 ^ 64
    → write_allowed f uid ≡ true
    → do_write junk now rs req uid
      ≡ some (
        respond file_ok,
        set_file rs req.file_no (stored junk (modtime rs now) f req.offset req.data'),
      )
unfolding do_write
do_write_lem junk now rs req uid f a h s fit w =
    let t : (req.size == length req.data') ≡ true = ground (arith, s) in
    rw (a, t, w, do_write)
      (ap (written rs req.file_no) (put-some junk (modtime rs now) f req.offset req.data' h fit))

-- The byte was in the file and is not among those that are written.
abbrev pub is_kept : File → ℕ → ℕ → ℕ → Bool
is_kept f offset size q = ltb q f.fcb.st_size && (ltb q offset || leb (offset + size) q)
