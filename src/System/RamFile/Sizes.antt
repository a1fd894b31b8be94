-- ===== src/System/RamFile/Sizes.antt =====
-- That the files of grass/ramfilesvr.c have as many bytes as their sizes say.
use cs4411_p.Base.{
  ℕ, ◌≡◌, refl, inl, inr, false, not, ◌&&◌, some, List, [], ◌==◌, ltb, Bool-cases, Option-cases,
  get_elem?, All,
}
use cs4411_p.Base.{All-get_elem?, All-set}
use cs4411_p.System.RamFile.{
  File, RamFileState, Request, allocated, write_allowed, first_free, drop_one,
}
use cs4411_p.System.RamFile.Requests.{do_create, do_setsize, do_delete, do_chown, do_chmod}
use cs4411_p.System.RamFile.Safety.{get_elem?-allocated}
use cs4411_p.System.RamFile.Content.{Sized, length-resize}

pub allocated-Sized :
    (files : List File) (n : ℕ) (f : File) → All Sized files → allocated files n ≡ some f → Sized f
allocated-Sized files n f all a =
    All-get_elem? Sized files n all (get_elem?-allocated files n f a).0

module _ (rs : RamFileState) (req : Request) (uid pid now : ℕ) (junk : ℕ → ℕ)
    (all : All Sized rs.files) where
  -- A file whose bytes and size are those of the file of the request.
  same-Sized :
      (f f' : File)
      → allocated rs.files req.file_no ≡ some f
      → f'.contents ≡ f.contents
      → f'.fcb.st_size ≡ f.fcb.st_size
      → Sized f'
  same-Sized f f' a c s = let h = allocated-Sized rs.files req.file_no f all a in rw (c, s) h

  pub do_create-Sized : All Sized (do_create pid now rs req uid).1.files
  unfolding do_create
  do_create-Sized = elim (Option-cases (get_elem? rs.files (first_free (drop_one rs.files) 1))) [
    | inl none' ↦ rw (none', do_create) all
    | inr (f, a) ↦
        rw (a, do_create)
          (All-set Sized rs.files (first_free (drop_one rs.files) 1) _ all
            (All-get_elem? Sized rs.files (first_free (drop_one rs.files) 1) all a))
  ]

  pub do_setsize-Sized : All Sized (do_setsize junk now rs req uid).1.files
  unfolding do_setsize
  do_setsize-Sized = elim (Option-cases (allocated rs.files req.file_no)) [
    | inl none' ↦ rw (none', do_setsize) all
    | inr (f, a) ↦ elim (Bool-cases (ltb f.fcb.st_size req.offset)) [
      | inl w0 ↦ rw (a, w0, do_setsize) all
      | inr w0 ↦ elim (Bool-cases (write_allowed f uid)) [
        | inl w1 ↦
            rw (a, w0, w1, do_setsize)
              (All-set Sized rs.files req.file_no _ all (length-resize junk f.contents req.offset))
        | inr w1 ↦ rw (a, w0, w1, do_setsize) all
      ]
    ]
  ]

  pub do_delete-Sized : All Sized (do_delete rs req uid).1.files
  unfolding do_delete
  do_delete-Sized = elim (Option-cases (allocated rs.files req.file_no)) [
    | inl none' ↦ rw (none', do_delete) all
    | inr (f, a) ↦ elim (Bool-cases (write_allowed f uid)) [
      | inl w0 ↦
          rw (a, w0, do_delete)
            (All-set Sized rs.files req.file_no
              (record { fcb = record f.fcb { st_alloc = false; st_size = 0 }; contents = [] }) all
              refl)
      | inr w0 ↦ rw (a, w0, do_delete) all
    ]
  ]

  pub do_chown-Sized : All Sized (do_chown rs req uid).1.files
  unfolding do_chown
  do_chown-Sized = elim (Option-cases (allocated rs.files req.file_no)) [
    | inl none' ↦ rw (none', do_chown) all
    | inr (f, a) ↦ elim (Bool-cases (uid == 0)) [
      | inl w0 ↦
          rw (a, w0, do_chown)
            (let f' : File = record f { fcb = record f.fcb { st_uid = req.uid } } in
              All-set Sized rs.files req.file_no f' all (same-Sized f f' a refl refl))
      | inr w0 ↦ rw (a, w0, do_chown) all
    ]
  ]

  pub do_chmod-Sized : All Sized (do_chmod rs req uid).1.files
  unfolding do_chmod
  do_chmod-Sized = elim (Option-cases (allocated rs.files req.file_no)) [
    | inl none' ↦ rw (none', do_chmod) all
    | inr (f, a) ↦ elim (Bool-cases (not (uid == 0) && not (uid == f.fcb.st_uid))) [
      | inl w0 ↦ rw (a, w0, do_chmod) all
      | inr w0 ↦
          rw (a, w0, do_chmod)
            (let f' : File = record f { fcb = record f.fcb { st_mode = req.mode } } in
              All-set Sized rs.files req.file_no f' all (same-Sized f f' a refl refl))
    ]
  ]
