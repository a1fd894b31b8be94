-- ===== src/Server/Files/Keeping.antt =====
-- Who may change the control blocks of `apps/bfs.c`.
use cs4411_p.Base.{
  ℕ, zero, suc, ◌+◌, ◌≤◌, ◌≡◌, refl, sym, ap, ◌∙◌, ◌≢◌, inl, inr, Bool, true, false, not, Option,
  none, some, List, [], ◌∷◌, arith, ◌==◌, Bool-cases, if◌then◌else◌, get_elem?,
}
use cs4411_p.Base.{get_elem?-set_ne}
use mathlib.Core.Option.{some-injective}
use cs4411_p.Base.{if_true}
use cs4411_p.Block.Store.{Store}
use cs4411_p.System.RamFile.{Fcb}
use cs4411_p.Server.Blocks.{Block}
use cs4411_p.Server.Files.{
  Layout, blkfile_write_allowed, if_allocated, find_free, set_fcb, Fss, flush_fcb_cache,
}
use cs4411_p.Server.Files.Requests.{Replies, drop_one, with_file, after_write, modify}

-- The file that is allocated under a number.
abbrev pub At : List Fcb → ℕ → Fcb → Type 0
At fcbs i f = get_elem? fcbs i ≡ some f

-- A user who is not root, does not own the file and may not write it.
pub record IsStranger (uid : ℕ) (f : Fcb) : Type 0 where
  pub allocated : f.st_alloc ≡ true
  pub no_root : (uid == 0) ≡ false
  pub no_owner : (uid == f.st_uid) ≡ false
  pub no_write : blkfile_write_allowed f uid ≡ false

pub if_allocated-some : {g : Fcb} (o : Option Fcb) → if_allocated o ≡ some g → o ≡ some g
if_allocated-some none e = e
if_allocated-some (some h) e = elim (Bool-cases h.st_alloc) [
  | inl b ↦ sym (if_true h.st_alloc (some h) none b) ∙ e
  | inr b ↦ absurd (ground (arith, e, b))
]

find_free-le : (l : List Fcb) (k : ℕ) → k ≤ find_free l k
unfolding find_free
find_free-le [] k = omega arith
find_free-le (x ∷ l) k = ground (arith, find_free-le l (k + 1))

-- The loop of `blkfile_do_create` does not stop at an allocated file.
find_free-free :
    (l : List Fcb) (k j : ℕ) (h : Fcb)
    → get_elem? l j ≡ some h
    → h.st_alloc ≡ true
    → find_free l k ≢ k + j
unfolding find_free
find_free-free [] k j h e t q = absurd (ground (arith, e))
find_free-free (x ∷ l) k zero h e t q =
    let same : x.st_alloc ≡ true = ap (λ f. f.st_alloc) (some-injective _ _ e) ∙ t in
    ground (arith, same, q, find_free-le l (k + 1))
find_free-free (x ∷ l) k (suc j) h e t q = elim (Bool-cases x.st_alloc) [
  | inl b ↦ find_free-free l (k + 1) j h e t (ground (arith, b, q))
  | inr b ↦ absurd (ground (arith, b, q))
]

-- The number that `blkfile_do_create` takes is not that of an allocated file.
pub create_ne :
    (fcbs : List Fcb) (i : ℕ) (f : Fcb)
    → At fcbs i f
    → f.st_alloc ≡ true
    → find_free (drop_one fcbs) 1 ≢ i
create_ne fcbs zero f a t q = ground (arith, q, find_free-le (drop_one fcbs) 1)
create_ne [] (suc i) f a t q = absurd (ground (arith, a))
create_ne (x ∷ fcbs) (suc i) f a t q =
    let e : suc i ≡ 1 + i = omega arith in find_free-free fcbs 1 i f a t (q ∙ e)

module _ (D : Store Block) (L : Layout) (i : ℕ) (f : Fcb) where
  abbrev pub Keeps : Replies × Fss D L → Type 0
  Keeps (r, fss) = At fss.fcb_cache i f

  pub Keeps-if :
      (b : Bool) (x y : Replies × Fss D L)
      → ((b ≡ true) → Keeps x)
      → ((b ≡ false) → Keeps y)
      → Keeps (if b then x else y)
  Keeps-if true x y h k = h refl
  Keeps-if false x y h k = k refl

  pub Keeps-with_file :
      (fss : Fss D L) (o : Option Fcb) (k : Fcb → Replies × Fss D L)
      → At fss.fcb_cache i f
      → ((g : Fcb) → (o ≡ some g) → Keeps (k g))
      → Keeps (with_file fss o k)
  Keeps-with_file fss none k a h = a
  Keeps-with_file fss (some g) k a h = h g refl

  -- The control block of another file changes.
  pub flush-At :
      (fss : Fss D L) (n : ℕ) (g : Fcb)
      → n ≢ i
      → At fss.fcb_cache i f
      → At (flush_fcb_cache D L (set_fcb fss n g) n).fcb_cache i f
  unfolding flush_fcb_cache
  flush-At fss n g ne a = get_elem?-set_ne fss.fcb_cache n i g ne ∙ a

  after_write-At :
      (fss : Fss D L) (n : ℕ) (g : Fcb) (written : Bool × D.State)
      → n ≢ i
      → At fss.fcb_cache i f
      → At (after_write D L fss n g written).1.fcb_cache i f
  after_write-At fss n g (true, s) ne a = flush-At (record fss { block_svr = s }) n g ne a
  after_write-At fss n g (false, s) ne a = a

  pub modify-At :
      (fss : Fss D L) (n : ℕ) (g : Fcb) (offset : ℕ) (bs : List ℕ) (nblock : ℕ)
      (loaded : Option (List ℕ) × D.State)
      → n ≢ i
      → At fss.fcb_cache i f
      → At (modify D L fss n g offset bs nblock loaded).1.fcb_cache i f
  modify-At fss n g offset bs nblock (none, s1) ne a = a
  modify-At fss n g offset bs nblock (some bytes, s1) ne a = after_write-At fss n g _ ne a

  -- A file that is found under the number is the one of the number.
  found :
      (fss : Fss D L) (n : ℕ) (g : Fcb)
      → At fss.fcb_cache i f
      → get_elem? fss.fcb_cache n ≡ some g
      → (n ≡ i)
      → g ≡ f
  found fss n g a e ni = some-injective _ _ (sym e ∙ ap (λ k. get_elem? fss.fcb_cache k) ni ∙ a)

  -- A change that a test refuses to the user for the file itself.
  pub guarded :
      (fss : Fss D L) (n : ℕ) (g : Fcb) (allowed : Fcb → Bool) (x : Replies × Fss D L)
      → At fss.fcb_cache i f
      → get_elem? fss.fcb_cache n ≡ some g
      → allowed f ≡ false
      → ((n ≢ i) → Keeps x)
      → (not (allowed g) ≡ false)
      → Keeps x
  guarded fss n g allowed x a e no_f h b =
      h λ ni. ground (arith, b, no_f, ap allowed (found fss n g a e ni))
