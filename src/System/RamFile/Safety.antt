-- ===== src/System/RamFile/Safety.antt =====
-- Who can read and change what in grass/ramfilesvr.c.
use cs4411_p.Base.{
  ℕ, zero, suc, ◌+◌, ◌-◌, ◌≤◌, ◌<◌, ◌≡◌, refl, sym, ap, ◌∙◌, ◌⊎◌, inl, inr, true, false, some, List,
  [], ◌∷◌, arith, ◌==◌, ltb, leb, Bool-cases, Option-cases, get_elem?, set,
}
use cs4411_p.Base.{get_elem?-set_self, get_elem?-set_ne, get_elem?-lt}
use cs4411_p.System.RamFile.{
  File, RamFileState, Op, create, chown, chmod, write, setsize, delete, Request, allocated,
  allocated_first, max_files, read_allowed, write_allowed, first_free, drop_one,
}
use cs4411_p.System.RamFile.Requests.{
  do_create, do_read, do_stat, do_setsize, do_delete, do_chown, do_chmod,
}

-- The change of a file that an operation may make for a user.
abbrev pub Allowed : Op → File → File → ℕ → Type 0
Allowed write f f' uid =
    (write_allowed f uid ≡ true) × (f'.fcb.st_uid ≡ f.fcb.st_uid) × (f'.fcb.st_mode ≡ f.fcb.st_mode)
Allowed setsize f f' uid =
    (write_allowed f uid ≡ true) × (f'.fcb.st_uid ≡ f.fcb.st_uid) × (f'.fcb.st_mode ≡ f.fcb.st_mode)
Allowed delete f f' uid = write_allowed f uid ≡ true
Allowed chown f f' uid = (uid ≡ 0) × (f'.contents ≡ f.contents) × (f'.fcb.st_mode ≡ f.fcb.st_mode)
Allowed chmod f f' uid =
    ((uid ≡ 0) ⊎ (uid ≡ f.fcb.st_uid)) × (f'.contents ≡ f.contents) × (f'.fcb.st_uid ≡ f.fcb.st_uid)
Allowed _ f f' uid = ⊥

-- File `j`, which was `g`, after an operation on file `n`.
abbrev pub Outcome : Op → ℕ → ℕ → ℕ → File → List File → Type 0
Outcome op n uid j g files =
    (g' : File) × (get_elem? files j ≡ some g') × ((g' ≡ g) ⊎ ((n ≡ j) × Allowed op g g' uid))

pub get_elem?-allocated :
    (files : List File) (n : ℕ) (f : File)
    → allocated files n ≡ some f
    → (get_elem? files n ≡ some f) × (n < max_files) × (f.fcb.st_alloc ≡ true)
get_elem?-allocated files n f e = elim (Bool-cases (leb max_files n)) [
  | inl big ↦ absurd (ground arith)
  | inr small ↦ elim (Option-cases (get_elem? files n)) [
    | inl none' ↦ absurd (ground arith)
    | inr (g, e') ↦ elim (Bool-cases g.fcb.st_alloc) [
      | inl used ↦ (ground arith, ground arith, ground arith)
      | inr free ↦ absurd (ground arith)
    ]
  ]
]

-- The order of the two tests does not matter.
pub allocated_first_lem : (files : List File) (n : ℕ) → allocated_first files n ≡ allocated files n
allocated_first_lem files n = elim (Option-cases (get_elem? files n)) [
  | inl e ↦ elim (Bool-cases (leb max_files n)) [
    | inl b ↦ rw (e, b, allocated_first) refl
    | inr b ↦ rw (e, b, allocated_first) refl
  ]
  | inr (f, e) ↦ elim (Bool-cases (leb max_files n)) [
    | inl b ↦ elim (Bool-cases f.fcb.st_alloc) [
      | inl u ↦ rw (e, u, b, allocated_first) refl
      | inr u ↦ rw (e, u, b, allocated_first) refl
    ]
    | inr b ↦ elim (Bool-cases f.fcb.st_alloc) [
      | inl u ↦ rw (e, u, b, allocated_first) refl
      | inr u ↦ rw (e, u, b, allocated_first) refl
    ]
  ]
]

pub same-Outcome :
    (op : Op) (n uid j : ℕ) (g : File) (files : List File)
    → get_elem? files j ≡ some g
    → Outcome op n uid j g files
same-Outcome op n uid j g files e = (g, e, inl refl)

pub set-Outcome :
    (op : Op) (n uid j : ℕ) (f f' g : File) (files : List File)
    → allocated files n ≡ some f
    → get_elem? files j ≡ some g
    → Allowed op f f' uid
    → Outcome op n uid j g (set files n f')
set-Outcome op n uid j f f' g files a e ok = elim (Bool-cases (n == j)) [
  | inl y ↦
      let i : n ≡ j = ground arith in
      let (e', _, _) = get_elem?-allocated files n f a in
      let same : f ≡ g = ground (arith, ap (get_elem? files) i) in
      (
        f',
        ap (get_elem? (set files n f')) (sym i)
            ∙ get_elem?-set_self files n f' (get_elem?-lt files n e'),
        inr (i, rw (sym same) ok),
      )
  | inr n1 ↦ (g, get_elem?-set_ne files n j f' (ground arith) ∙ e, inl refl)
]

module _ (rs : RamFileState) (req : Request) (uid j : ℕ) (g : File)
    (e : get_elem? rs.files j ≡ some g) (pid now : ℕ) (junk : ℕ → ℕ) where
  pub do_setsize-Outcome :
      Outcome setsize req.file_no uid j g (do_setsize junk now rs req uid).1.files
  unfolding do_setsize
  do_setsize-Outcome = elim (Option-cases (allocated rs.files req.file_no)) [
    | inl none' ↦ rw (none', do_setsize) (g, e, inl refl)
    | inr (f, a) ↦ elim (Bool-cases (ltb f.fcb.st_size req.offset)) [
      | inl w0 ↦ rw (a, w0, do_setsize) (g, e, inl refl)
      | inr w0 ↦ elim (Bool-cases (write_allowed f uid)) [
        | inl w1 ↦
            rw (a, w0, w1, do_setsize)
              (set-Outcome setsize req.file_no uid j f _ g rs.files a e (w1, refl, refl))
        | inr w1 ↦ rw (a, w0, w1, do_setsize) (g, e, inl refl)
      ]
    ]
  ]

  pub do_delete-Outcome : Outcome delete req.file_no uid j g (do_delete rs req uid).1.files
  unfolding do_delete
  do_delete-Outcome = elim (Option-cases (allocated rs.files req.file_no)) [
    | inl none' ↦ rw (none', do_delete) (g, e, inl refl)
    | inr (f, a) ↦ elim (Bool-cases (write_allowed f uid)) [
      | inl w0 ↦ rw (a, w0, do_delete) (set-Outcome delete req.file_no uid j f _ g rs.files a e w0)
      | inr w0 ↦ rw (a, w0, do_delete) (g, e, inl refl)
    ]
  ]

  pub do_chown-Outcome : Outcome chown req.file_no uid j g (do_chown rs req uid).1.files
  unfolding do_chown
  do_chown-Outcome = elim (Option-cases (allocated rs.files req.file_no)) [
    | inl none' ↦ rw (none', do_chown) (g, e, inl refl)
    | inr (f, a) ↦ elim (Bool-cases (uid == 0)) [
      | inl w0 ↦
          rw (a, w0, do_chown)
            (set-Outcome chown req.file_no uid j f _ g rs.files a e (ground arith, refl, refl))
      | inr w0 ↦ rw (a, w0, do_chown) (g, e, inl refl)
    ]
  ]

  pub do_chmod-Outcome : Outcome chmod req.file_no uid j g (do_chmod rs req uid).1.files
  unfolding do_chmod
  do_chmod-Outcome = elim (Option-cases (allocated rs.files req.file_no)) [
    | inl none' ↦ rw (none', do_chmod) (g, e, inl refl)
    | inr (f, a) ↦ elim (Bool-cases (uid == 0)) [
      | inl w0 ↦
          rw (a, w0, do_chmod)
            (set-Outcome chmod req.file_no uid j f _ g rs.files a e
              (inl (ground arith), refl, refl))
      | inr w0 ↦ elim (Bool-cases (uid == f.fcb.st_uid)) [
        | inl w1 ↦
            rw (a, w0, w1, do_chmod)
              (set-Outcome chmod req.file_no uid j f _ g rs.files a e
                (inr (ground arith), refl, refl))
        | inr w1 ↦ rw (a, w0, w1, do_chmod) (g, e, inl refl)
      ]
    ]
  ]

  pub do_read-same : (do_read rs req uid).1 ≡ rs
  unfolding do_read
  do_read-same = elim (Option-cases (allocated_first rs.files req.file_no)) [
    | inl none' ↦ rw (none', do_read) refl
    | inr (f, a) ↦ elim (Bool-cases (read_allowed f uid)) [
      | inl w ↦ rw (a, w, do_read) refl
      | inr w ↦ rw (a, w, do_read) refl
    ]
  ]

  pub do_stat-same : (do_stat rs req uid).1 ≡ rs
  unfolding do_stat
  do_stat-same = elim (Option-cases (allocated_first rs.files req.file_no)) [
    | inl none' ↦ rw (none', do_stat) refl
    | inr (f, a) ↦ elim (Bool-cases (read_allowed f uid)) [
      | inl w ↦ rw (a, w, do_stat) refl
      | inr w ↦ rw (a, w, do_stat) refl
    ]
  ]

first_free-le : (files : List File) (n : ℕ) → n ≤ first_free files n
unfolding first_free
first_free-le [] n = omega arith
first_free-le (g ∷ files) n = elim (Bool-cases g.fcb.st_alloc) [
  | inl y ↦ rw (y, first_free) (omega (arith, first_free-le files (n + 1)))
  | inr y ↦ rw (y, first_free) (omega arith)
]

-- The loop finds a file that is not allocated, or ends behind the list.
first_free_lem :
    (files : List File) (n k : ℕ) (f : File)
    → get_elem? files k ≡ some f
    → first_free files n ≡ n + k
    → f.fcb.st_alloc ≡ false
unfolding first_free
first_free_lem [] n k f e h = ground arith
first_free_lem (g ∷ files) n zero f e h = elim (Bool-cases g.fcb.st_alloc) [
  | inl y ↦ absurd (ground (arith, first_free, y, h, first_free-le files (n + 1)))
  | inr y ↦ ground arith
]
first_free_lem (g ∷ files) n (suc k) f e h = elim (Bool-cases g.fcb.st_alloc) [
  | inl y ↦ first_free_lem files (n + 1) k f e (ground (arith, first_free, y, h))
  | inr y ↦ absurd (ground (arith, first_free, y, h))
]

create-free :
    (files : List File) (f : File)
    → get_elem? files (first_free (drop_one files) 1) ≡ some f
    → f.fcb.st_alloc ≡ false
create-free [] f e = ground arith
create-free (g ∷ files) f e =
    let k : ℕ = first_free files 1 - 1 in
    let h : first_free files 1 ≡ suc k = ground (arith, first_free-le files 1) in
    first_free_lem files 1 k f (ground (arith, ap (get_elem? (g ∷ files)) (sym h), e))
      (ground (arith, h))

module _ (rs : RamFileState) (req : Request) (uid j : ℕ) (g : File)
    (e : get_elem? rs.files j ≡ some g) (used : g.fcb.st_alloc ≡ true) (pid now : ℕ)
    (junk : ℕ → ℕ) where
  pub do_create-Outcome : Outcome create req.file_no uid j g (do_create pid now rs req uid).1.files
  unfolding do_create
  do_create-Outcome = elim (Option-cases (get_elem? rs.files (first_free (drop_one rs.files) 1))) [
    | inl none' ↦ rw (none', do_create) (g, e, inl refl)
    | inr (f, a) ↦
        rw (a, do_create)
          (
            g,
            get_elem?-set_ne rs.files _ j _
                  (λ i. ground (arith, create-free rs.files f a, ap (get_elem? rs.files) i))
                ∙ e,
            inl refl,
          )
  ]
