-- ===== src/System/RamFile/Private.antt =====
-- What a reply of grass/ramfilesvr.c tells.
use cs4411_p.Base.{
  ℕ, ◌+◌, ◌^◌, ◌<◌, ◌≡◌, refl, sym, ◌∙◌, ◌⊎◌, inl, inr, true, Option, arith, All, not, ◌&&◌, none,
  some, List, [], ◌==◌, ltb, Bool-cases, Option-cases, length, get_elem?,
}
use cs4411_p.System.RamFile.{
  File, RamFileState, Op, create, chown, chmod, read, write, stat, setsize, delete, other, Request,
  Reply, respond, file_error, file_ok, stored, modtime, set_file, allocated, allocated_first,
  read_allowed, write_allowed, first_free, drop_one,
}
use cs4411_p.System.RamFile.Requests.{
  do_create, do_read, do_write, do_stat, do_setsize, do_delete, do_chown, do_chmod, handle_op,
  handle,
}
use mathlib.Core.Path.{subst}
use cs4411_p.Base.{All-set}
use cs4411_p.System.RamFile.Safety.{
  Outcome, same-Outcome, set-Outcome, allocated_first_lem, do_create-Outcome, do_chown-Outcome,
  do_chmod-Outcome, do_setsize-Outcome, do_delete-Outcome, do_read-same, do_stat-same,
}
use cs4411_p.System.RamFile.Content.{Sized, stored-Sized, do_write_lem}
use cs4411_p.System.RamFile.Sizes.{
  allocated-Sized, do_create-Sized, do_chown-Sized, do_chmod-Sized, do_setsize-Sized,
  do_delete-Sized,
}

-- The reply carries nothing of a file, or the file is allocated and the user may read it.
abbrev pub Private : List File → ℕ → ℕ → Reply → Type 0
Private files n uid r =
    ((r.fcb ≡ none) × (r.data' ≡ []))
    ⊎ ((f : File) × (allocated files n ≡ some f) × (read_allowed f uid ≡ true))

module _ (rs : RamFileState) (req : Request) (uid pid now : ℕ) (junk : ℕ → ℕ) where
  do_create-Private : Private rs.files req.file_no uid (do_create pid now rs req uid).0
  unfolding do_create
  do_create-Private = elim (Option-cases (get_elem? rs.files (first_free (drop_one rs.files) 1))) [
    | inl none' ↦ rw (none', do_create) (inl (refl, refl))
    | inr (f, a) ↦ rw (a, do_create) (inl (refl, refl))
  ]

  do_read-Private : Private rs.files req.file_no uid (do_read rs req uid).0
  unfolding do_read
  do_read-Private = elim (Option-cases (allocated_first rs.files req.file_no)) [
    | inl none' ↦ rw (none', do_read) (inl (refl, refl))
    | inr (f, a) ↦ elim (Bool-cases (read_allowed f uid)) [
      | inl w0 ↦
          rw (a, w0, do_read) (inr (f, sym (allocated_first_lem rs.files req.file_no) ∙ a, w0))
      | inr w0 ↦ rw (a, w0, do_read) (inl (refl, refl))
    ]
  ]

  do_stat-Private : Private rs.files req.file_no uid (do_stat rs req uid).0
  unfolding do_stat
  do_stat-Private = elim (Option-cases (allocated_first rs.files req.file_no)) [
    | inl none' ↦ rw (none', do_stat) (inl (refl, refl))
    | inr (f, a) ↦ elim (Bool-cases (read_allowed f uid)) [
      | inl w0 ↦
          rw (a, w0, do_stat) (inr (f, sym (allocated_first_lem rs.files req.file_no) ∙ a, w0))
      | inr w0 ↦ rw (a, w0, do_stat) (inl (refl, refl))
    ]
  ]

  do_setsize-Private : Private rs.files req.file_no uid (do_setsize junk now rs req uid).0
  unfolding do_setsize
  do_setsize-Private = elim (Option-cases (allocated rs.files req.file_no)) [
    | inl none' ↦ rw (none', do_setsize) (inl (refl, refl))
    | inr (f, a) ↦ elim (Bool-cases (ltb f.fcb.st_size req.offset)) [
      | inl w0 ↦ rw (a, w0, do_setsize) (inl (refl, refl))
      | inr w0 ↦ elim (Bool-cases (write_allowed f uid)) [
        | inl w1 ↦ rw (a, w0, w1, do_setsize) (inl (refl, refl))
        | inr w1 ↦ rw (a, w0, w1, do_setsize) (inl (refl, refl))
      ]
    ]
  ]

  do_delete-Private : Private rs.files req.file_no uid (do_delete rs req uid).0
  unfolding do_delete
  do_delete-Private = elim (Option-cases (allocated rs.files req.file_no)) [
    | inl none' ↦ rw (none', do_delete) (inl (refl, refl))
    | inr (f, a) ↦ elim (Bool-cases (write_allowed f uid)) [
      | inl w0 ↦ rw (a, w0, do_delete) (inl (refl, refl))
      | inr w0 ↦ rw (a, w0, do_delete) (inl (refl, refl))
    ]
  ]

  do_chown-Private : Private rs.files req.file_no uid (do_chown rs req uid).0
  unfolding do_chown
  do_chown-Private = elim (Option-cases (allocated rs.files req.file_no)) [
    | inl none' ↦ rw (none', do_chown) (inl (refl, refl))
    | inr (f, a) ↦ elim (Bool-cases (uid == 0)) [
      | inl w0 ↦ rw (a, w0, do_chown) (inl (refl, refl))
      | inr w0 ↦ rw (a, w0, do_chown) (inl (refl, refl))
    ]
  ]

  do_chmod-Private : Private rs.files req.file_no uid (do_chmod rs req uid).0
  unfolding do_chmod
  do_chmod-Private = elim (Option-cases (allocated rs.files req.file_no)) [
    | inl none' ↦ rw (none', do_chmod) (inl (refl, refl))
    | inr (f, a) ↦ elim (Bool-cases (not (uid == 0) && not (uid == f.fcb.st_uid))) [
      | inl w0 ↦ rw (a, w0, do_chmod) (inl (refl, refl))
      | inr w0 ↦ rw (a, w0, do_chmod) (inl (refl, refl))
    ]
  ]

-- The request is served: the reply is private, and file `j`, which was `g`, changes only as the
-- operation may change it; the files have as many bytes as their sizes say.
abbrev pub Safe : Option (Reply × RamFileState) → Op → List File → ℕ → ℕ → ℕ → File → Type 0
Safe r op files n uid j g =
    (rep : Reply) × (rs' : RamFileState) × (r ≡ some (rep, rs'))
    × Outcome op n uid j g rs'.files
    × Private files n uid rep
    × All Sized rs'.files

module _ (rs : RamFileState) (req : Request) (uid pid now : ℕ) (junk : ℕ → ℕ) (j : ℕ) (g : File)
    (all : All Sized rs.files) (e : get_elem? rs.files j ≡ some g) where
  refused-Safe :
      (op : Op) (r : Option (Reply × RamFileState))
      → r ≡ some (respond file_error, rs)
      → Safe r op rs.files req.file_no uid j g
  refused-Safe op r refused = (
    respond file_error,
    rs,
    refused,
    same-Outcome op req.file_no uid j g rs.files e,
    inl (refl, refl),
    all,
  )

  do_write-Safe :
      req.offset + length req.data' < 2 ^ 64
      → Safe (do_write junk now rs req uid) write rs.files req.file_no uid j g
  unfolding do_write stored
  do_write-Safe fit = elim (Option-cases (allocated rs.files req.file_no)) [
    | inl none' ↦ refused-Safe write _ (rw (none', do_write) refl)
    | inr (f, a) ↦ elim (Bool-cases (req.size == length req.data')) [
      | inr w0 ↦ refused-Safe write _ (rw (a, w0, do_write) refl)
      | inl w0 ↦ elim (Bool-cases (write_allowed f uid)) [
        | inr w1 ↦ refused-Safe write _ (rw (a, w0, w1, do_write) refl)
        | inl w1 ↦
            let h = allocated-Sized rs.files req.file_no f all a in
            let time = modtime rs now in
            let f' : File = stored junk time f req.offset req.data' in
            (
              respond file_ok,
              set_file rs req.file_no f',
              do_write_lem junk now rs req uid f a h (ground (arith, w0)) fit w1,
              set-Outcome write req.file_no uid j f f' g rs.files a e (w1, refl, refl),
              inl (refl, refl),
              All-set Sized rs.files req.file_no f' all
                  (stored-Sized junk time f req.offset req.data' h fit),
            )
      ]
    ]
  ]

  unchanged-Safe :
      (op : Op) (r : Reply × RamFileState)
      → r.1 ≡ rs
      → Private rs.files req.file_no uid r.0
      → Safe (some r) op rs.files req.file_no uid j g
  unchanged-Safe op r same p = (
    r.0,
    r.1,
    refl,
    subst (λ s. Outcome op req.file_no uid j g s.files) (sym same)
        (same-Outcome op req.file_no uid j g rs.files e),
    p,
    subst (λ s. All Sized s.files) (sym same) all,
  )

  handle-each :
      (op : Op)
      → req.offset + length req.data' < 2 ^ 64
      → g.fcb.st_alloc ≡ true
      → Safe (handle_op op pid junk now rs req uid) op rs.files req.file_no uid j g
  unfolding handle_op
  handle-each create fit used = (
    (do_create pid now rs req uid).0,
    (do_create pid now rs req uid).1,
    refl,
    do_create-Outcome rs req uid j g e used pid now junk,
    do_create-Private rs req uid pid now junk,
    do_create-Sized rs req uid pid now junk all,
  )
  handle-each chown fit used = (
    (do_chown rs req uid).0,
    (do_chown rs req uid).1,
    refl,
    do_chown-Outcome rs req uid j g e pid now junk,
    do_chown-Private rs req uid pid now junk,
    do_chown-Sized rs req uid pid now junk all,
  )
  handle-each chmod fit used = (
    (do_chmod rs req uid).0,
    (do_chmod rs req uid).1,
    refl,
    do_chmod-Outcome rs req uid j g e pid now junk,
    do_chmod-Private rs req uid pid now junk,
    do_chmod-Sized rs req uid pid now junk all,
  )
  handle-each read fit used =
      unchanged-Safe read (do_read rs req uid) (do_read-same rs req uid j g e pid now junk)
        (do_read-Private rs req uid pid now junk)
  handle-each write fit used = do_write-Safe fit
  handle-each stat fit used =
      unchanged-Safe stat (do_stat rs req uid) (do_stat-same rs req uid j g e pid now junk)
        (do_stat-Private rs req uid pid now junk)
  handle-each setsize fit used = (
    (do_setsize junk now rs req uid).0,
    (do_setsize junk now rs req uid).1,
    refl,
    do_setsize-Outcome rs req uid j g e pid now junk,
    do_setsize-Private rs req uid pid now junk,
    do_setsize-Sized rs req uid pid now junk all,
  )
  handle-each delete fit used = (
    (do_delete rs req uid).0,
    (do_delete rs req uid).1,
    refl,
    do_delete-Outcome rs req uid j g e pid now junk,
    do_delete-Private rs req uid pid now junk,
    do_delete-Sized rs req uid pid now junk all,
  )
  handle-each other fit used = refused-Safe other _ refl

-- For every request of every user to the file server of which offset and data together end below 2
-- ^ 64, where the files have as many bytes as their sizes say: nothing outside of the contents of a
-- file is overwritten; a file that is allocated stays as it is, or the request names it and changes
-- it as its operation may (a write or a change of the size by a user who may write, which keeps
-- owner and mode; a deletion by a user who may write; a change of owner by user 0, which keeps
-- contents and mode; a change of mode by user 0 or the owner, which keeps contents and owner); the
-- reply carries neither data nor a control block, unless the file that the request names is
-- allocated and the user may read it; and the files have again as many bytes as their sizes say.
pub handle-Safe :
    (rs : RamFileState) (req : Request) (uid pid now : ℕ) (junk : ℕ → ℕ) (j : ℕ) (g : File)
    → All Sized rs.files
    → req.offset + length req.data' < 2 ^ 64
    → get_elem? rs.files j ≡ some g
    → g.fcb.st_alloc ≡ true
    → Safe (handle pid junk now rs req uid) req.type' rs.files req.file_no uid j g
handle-Safe rs req uid pid now junk j g all fit e used =
    handle-each rs req uid pid now junk j g all e req.type' fit used
