-- ===== src/System/RamFile/Requests.antt =====
-- The handlers of the requests to grass/ramfilesvr.c. A handler gives the reply that
-- `ramfile_respond` or `sys_send` sends, and the new state.
use cs4411_p.Base.{
  ℕ, ◌-◌, true, false, not, ◌&&◌, Option, none, some, [], ◌==◌, ltb, if◌then◌else◌, length,
  get_elem?,
}
use cs4411_p.System.RamFile.{
  File, RamFileState, Op, create, chown, chmod, read, write, stat, setsize, delete, other, Request,
  file_ok, file_error, Reply, respond, read_allowed, write_allowed, allocated, allocated_first,
  set_file, modtime, first_free, drop_one, slice, resize, put,
}

-- The pid of the server is `pid`, the sender's user `uid`. The contents of a file that is not
-- allocated are none.
unfoldable pub do_create : ℕ → ℕ → RamFileState → Request → ℕ → Reply × RamFileState
unfolding first_free modtime
do_create pid now rs req uid =
    let num = first_free (drop_one rs.files) 1 in
    elim (get_elem? rs.files num) [
      | none ↦ (respond file_error, rs)
      | some f ↦ (
        record { status = file_ok; file_no = num; fcb = none; data' = [] },
        set_file rs num (record f {
          fcb = record f.fcb {
            st_alloc = true;
            st_dev = pid;
            st_ino = num;
            st_mode = req.mode;
            st_uid = uid;
            st_modtime = modtime rs now;
          };
        }),
      )
    ]

unfoldable pub do_read : RamFileState → Request → ℕ → Reply × RamFileState
unfolding read_allowed
do_read rs req uid = elim (allocated_first rs.files req.file_no) [
  | none ↦ (respond file_error, rs)
  | some f ↦
      if not (read_allowed f uid)
      then (respond file_error, rs)
      else let left = f.fcb.st_size - req.offset in
        let n =
          if ltb req.offset f.fcb.st_size
          then (if ltb req.size left then req.size else left)
          else 0 in
        (
          record {
            status = file_ok;
            file_no = 0;
            fcb = none;
            data' = slice f.contents req.offset n;
          },
          rs,
        )
]

-- The new state with the file as it is put, and the reply.
abbrev pub written : RamFileState → ℕ → Option File → Option (Reply × RamFileState)
written rs num none = none
written rs num (some f) = some (respond file_ok, set_file rs num f)

-- `none`: the behaviour is not defined.
unfoldable pub do_write : (ℕ → ℕ) → ℕ → RamFileState → Request → ℕ → Option (Reply × RamFileState)
unfolding write_allowed put modtime
do_write junk now rs req uid = elim (allocated rs.files req.file_no) [
  | none ↦ some (respond file_error, rs)
  | some f ↦
      if not (req.size == length req.data')
      then some (respond file_error, rs)
      else if not (write_allowed f uid)
      then some (respond file_error, rs)
      else written rs req.file_no (put junk (modtime rs now) f req.offset req.data')
]

unfoldable pub do_stat : RamFileState → Request → ℕ → Reply × RamFileState
unfolding read_allowed
do_stat rs req uid = elim (allocated_first rs.files req.file_no) [
  | none ↦ (respond file_error, rs)
  | some f ↦
      if not (read_allowed f uid)
      then (respond file_error, rs)
      else (record { status = file_ok; file_no = 0; fcb = some f.fcb; data' = [] }, rs)
]

unfoldable pub do_setsize : (ℕ → ℕ) → ℕ → RamFileState → Request → ℕ → Reply × RamFileState
unfolding write_allowed resize
do_setsize junk now rs req uid = elim (allocated rs.files req.file_no) [
  | none ↦ (respond file_error, rs)
  | some f ↦
      if ltb f.fcb.st_size req.offset
      then (respond file_error, rs)
      else if not (write_allowed f uid)
      then (respond file_error, rs)
      else (
        respond file_ok,
        set_file rs req.file_no (record {
          fcb = record f.fcb { st_size = req.offset; st_modtime = now };
          contents = resize junk f.contents req.offset;
        }),
      )
]

unfoldable pub do_delete : RamFileState → Request → ℕ → Reply × RamFileState
unfolding write_allowed
do_delete rs req uid = elim (allocated rs.files req.file_no) [
  | none ↦ (respond file_error, rs)
  | some f ↦ if not (write_allowed f uid) then (respond file_error, rs) else (
    respond file_ok,
    set_file rs req.file_no
        (record { fcb = record f.fcb { st_alloc = false; st_size = 0 }; contents = [] }),
  )
]

unfoldable pub do_chown : RamFileState → Request → ℕ → Reply × RamFileState
do_chown rs req uid = elim (allocated rs.files req.file_no) [
  | none ↦ (respond file_error, rs)
  | some f ↦ if not (uid == 0) then (respond file_error, rs) else (
    respond file_ok,
    set_file rs req.file_no (record f { fcb = record f.fcb { st_uid = req.uid } }),
  )
]

unfoldable pub do_chmod : RamFileState → Request → ℕ → Reply × RamFileState
do_chmod rs req uid = elim (allocated rs.files req.file_no) [
  | none ↦ (respond file_error, rs)
  | some f ↦ if not (uid == 0) && not (uid == f.fcb.st_uid) then (respond file_error, rs) else (
    respond file_ok,
    set_file rs req.file_no (record f { fcb = record f.fcb { st_mode = req.mode } }),
  )
]

-- The `switch` of `ramfile_proc`.
unfoldable pub handle_op :
    Op → ℕ → (ℕ → ℕ) → ℕ → RamFileState → Request → ℕ → Option (Reply × RamFileState)
unfolding do_create do_read do_write do_stat do_setsize do_delete do_chown do_chmod
handle_op create pid junk now rs req uid = some (do_create pid now rs req uid)
handle_op chown pid junk now rs req uid = some (do_chown rs req uid)
handle_op chmod pid junk now rs req uid = some (do_chmod rs req uid)
handle_op read pid junk now rs req uid = some (do_read rs req uid)
handle_op write pid junk now rs req uid = do_write junk now rs req uid
handle_op stat pid junk now rs req uid = some (do_stat rs req uid)
handle_op setsize pid junk now rs req uid = some (do_setsize junk now rs req uid)
handle_op delete pid junk now rs req uid = some (do_delete rs req uid)
handle_op other pid junk now rs req uid = some (respond file_error, rs)

abbrev pub handle : ℕ → (ℕ → ℕ) → ℕ → RamFileState → Request → ℕ → Option (Reply × RamFileState)
handle pid junk now rs req uid = handle_op req.type' pid junk now rs req uid
