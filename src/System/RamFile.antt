-- ===== src/System/RamFile.antt =====
-- grass/ramfilesvr.c: a server for files in memory. Times are given as `sys_gettime` returns them.
-- What is printed is not modelled.
pub mod Requests
pub mod Safety
pub mod Sizes
pub mod Private
pub mod Content
use cs4411_p.Base.{
  ℕ, zero, suc, ◌+◌, ◌-◌, ◌/◌, ◌%◌, ◌^◌, Bool, true, not, Option, none, some, List, [], ◌∷◌, ◌==◌,
  ltb, leb, if◌then◌else◌, length, get_elem?, set, take, drop,
}
use Prim.Native.Nat.{bit_and}

abbrev pub max_files : ℕ
max_files = 100

-- `struct file_control_block` of h/egos/file.h
pub record Fcb : Type 0 where
  pub st_alloc : Bool
  pub st_dev : ℕ
  pub st_ino : ℕ
  pub st_uid : ℕ
  pub st_mode : ℕ
  pub st_size : ℕ
  pub st_modtime : ℕ

-- `struct file`, with the bytes of its contents.
pub record File : Type 0 where
  pub fcb : Fcb
  pub contents : List ℕ

-- `struct ramfile_state`
pub record RamFileState : Type 0 where
  pub gate : ℕ
  pub start_time : ℕ
  pub files : List File

-- `enum file_op` of h/egos/file.h. `other` is any other number.
pub data Op : Type 0 where
  create chown chmod read write stat setsize delete other : Op

-- `struct file_request` of h/egos/file.h. `data'` is what follows it in the message.
pub record Request : Type 0 where
  pub type' : Op
  pub file_no : ℕ
  pub offset : ℕ
  pub size : ℕ
  pub uid : ℕ
  pub mode : ℕ
  pub data' : List ℕ

pub data Status : Type 0 where
  file_ok file_error : Status

-- `struct file_reply` of h/egos/file.h and what follows it. The control block is the one of a
-- reply to a request for it; that of a reply to a read has only the size, the number of bytes.
pub record Reply : Type 0 where
  pub status : Status
  pub file_no : ℕ
  pub fcb : Option Fcb
  pub data' : List ℕ

-- `ramfile_respond` with no data.
abbrev pub respond : Status → Reply
respond status = record { status = status; file_no = 0; fcb = none; data' = [] }

-- The test of a permission bit.
abbrev pub has : ℕ → ℕ → Bool
has mode bit = not (bit_and mode bit == 0)

unfoldable pub read_allowed : File → ℕ → Bool
read_allowed file uid =
    if uid == 0
    then true
    else if uid == file.fcb.st_uid
    then has file.fcb.st_mode 4
    else has file.fcb.st_mode 1

unfoldable pub write_allowed : File → ℕ → Bool
write_allowed file uid =
    if uid == 0
    then true
    else if uid == file.fcb.st_uid
    then has file.fcb.st_mode 8
    else has file.fcb.st_mode 2

-- The file of a number, if it is below `MAX_FILES` and the file is allocated.
abbrev pub allocated : List File → ℕ → Option File
allocated files num = if leb max_files num then none else elim (get_elem? files num) [
  | none ↦ none
  | some f ↦ if f.fcb.st_alloc then some f else none
]

-- The same for the requests that test `st_alloc` before they compare the number with `MAX_FILES`. Where
-- the number is past the array, C does not define what is read; either value of it gives `none`.
abbrev pub allocated_first : List File → ℕ → Option File
allocated_first files num = elim (get_elem? files num) [
  | none ↦ none
  | some f ↦ if not f.fcb.st_alloc then none else if leb max_files num then none else some f
]

abbrev pub set_file : RamFileState → ℕ → File → RamFileState
set_file rs num f = record rs { files = set rs.files num f }

-- The time of a modification, in seconds; differences of `unsigned long` wrap at 64 bits.
unfoldable pub modtime : RamFileState → ℕ → ℕ
modtime rs now =
    let base : ℕ = elim (get_elem? rs.files 0) [ none ↦ 0 | some f ↦ f.fcb.st_modtime ] in
    (base + ((now + 2 ^ 64 - rs.start_time) % 2 ^ 64) / 1000) % 2 ^ 64

-- The loop of `ramfile_do_create`: the first file from `num` on that is not allocated, or the number
-- behind the last.
unfoldable pub first_free : List File → ℕ → ℕ
first_free [] num = num
first_free (f ∷ files) num =
    let rest = first_free files (num + 1) in if not f.fcb.st_alloc then num else rest

abbrev pub drop_one : List File → List File
drop_one [] = []
drop_one (f ∷ files) = files

-- So many bytes of the contents, from an offset.
abbrev pub slice : List ℕ → ℕ → ℕ → List ℕ
slice bytes offset n = take n (drop offset bytes)

-- `m_realloc`: the bytes that are new are not defined; `junk` gives them.
unfoldable pub resize : (ℕ → ℕ) → List ℕ → ℕ → List ℕ
resize junk bytes zero = []
resize junk [] (suc n) = junk n ∷ resize junk [] n
resize junk (b ∷ bytes) (suc n) = b ∷ resize junk bytes n

-- `memcpy(&contents[offset], data, size)`
unfoldable pub copy_in : List ℕ → ℕ → List ℕ → List ℕ
copy_in bytes zero [] = bytes
copy_in [] zero (d ∷ bs) = []
copy_in (b ∷ bytes) zero (d ∷ bs) = d ∷ copy_in bytes zero bs
copy_in [] (suc o) bs = []
copy_in (b ∷ bytes) (suc o) bs = b ∷ copy_in bytes o bs

-- The contents once they have room, in `ramfile_put`.
unfoldable pub extended : (ℕ → ℕ) → File → ℕ → List ℕ
unfolding resize
extended junk f last = if ltb f.fcb.st_size last then resize junk f.contents last else f.contents

-- The file behind `ramfile_put`, with the time that it notes. `offset + size` wraps at 64 bits.
unfoldable pub stored : (ℕ → ℕ) → ℕ → File → ℕ → List ℕ → File
unfolding extended copy_in
stored junk time f offset bytes =
    let last = (offset + length bytes) % 2 ^ 64 in
    let grown = ltb f.fcb.st_size last in
    record {
      fcb = record f.fcb { st_size = if grown then last else f.fcb.st_size; st_modtime = time };
      contents = copy_in (extended junk f last) offset bytes;
    }

-- `ramfile_put`. Where `offset + size` wraps, the contents can be too short for the `memcpy`: `none`,
-- as C does not define what it overwrites then.
unfoldable pub put : (ℕ → ℕ) → ℕ → File → ℕ → List ℕ → Option File
unfolding stored
put junk time f offset bytes =
    if ltb (length (extended junk f ((offset + length bytes) % 2 ^ 64))) (offset + length bytes)
    then none
    else some (stored junk time f offset bytes)

-- What `ramfile_proc` sets before its loop, with the time of day that the gate server gives.
unfoldable pub start : ℕ → ℕ → RamFileState → RamFileState
start seconds now rs = elim (get_elem? rs.files 0) [
  | none ↦ rs
  | some f ↦ record rs {
    start_time = now;
    files =
        set rs.files 0 (record f { fcb = record f.fcb { st_alloc = true; st_modtime = seconds } });
  }
]
