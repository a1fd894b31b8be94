-- ===== src/Server/Files.antt =====
-- The block file server, `apps/bfs.c`: each file is an inode of a block server, and inode 0 holds the
-- file control blocks. The layout of a control block in memory is the compiler's: its size and its
-- bytes are parameters, and so are the bytes behind the array of control blocks. Numbers of files and
-- blocks are `unsigned int`, offsets and sizes in bytes `unsigned long`; what is printed is not
-- modelled.
pub mod Requests
pub mod Serve
pub mod Bytes
pub mod Spans
pub mod Reading
pub mod Keeping
pub mod Storing
pub mod Writing
pub mod Stored
pub mod Strangers
use cs4411_p.Base.{
  ℕ, zero, suc, ◌+◌, ◌-◌, ◌*◌, ◌/◌, ◌%◌, ◌^◌, Bool, true, false, not, ◌&&◌, ◌||◌, Option, none,
  some, List, [], ◌∷◌, ◌++◌, ◌==◌, if◌then◌else◌, length, get_elem?, get_or, set, take, drop,
}
use cs4411_p.Block.Store.{Store}
use cs4411_p.System.RamFile.{Fcb, Status, has, copy_in}
use cs4411_p.Server.Blocks.{Block, block_size, block_read, block_write, block_getsize}

-- `enum file_op` of h/egos/file.h. `other` is any other number.
pub data FileOp : Type 0 where
  create chown chmod read write stat setsize delete sync other : FileOp

-- `struct file_request` of h/egos/file.h, and what follows it in the message.
pub record FileRequest : Type 0 where
  pub type' : FileOp
  pub file_no : ℕ
  pub offset : ℕ
  pub size : ℕ
  pub uid : ℕ
  pub mode : ℕ
  pub data' : List ℕ

-- `struct file_reply` of h/egos/file.h, and what follows it.
pub record FileReply : Type 0 where
  pub status : Status
  pub file_no : ℕ
  pub fcb : Option Fcb
  pub data' : List ℕ

-- `struct file_server_state`, with the state of the block server that it calls.
pub record ServerState (S : Type 0) : Type 0 where
  pub block_svr : S
  pub global_time : ℕ
  pub start_time : ℕ
  pub fcb_cache : List Fcb

-- The compiler's layout of `struct file_control_block`, and the bytes of the heap behind the array.
pub record Layout : Type 0 where
  pub fcb_size : ℕ
  pub bytes_of : Fcb → List ℕ
  pub fcb_of : List ℕ → Fcb
  pub beyond : ℕ → ℕ

-- `calloc`: an entry of 0s.
abbrev pub no_fcb : Fcb
no_fcb = record {
  st_alloc = false;
  st_dev = 0;
  st_ino = 0;
  st_uid = 0;
  st_mode = 0;
  st_size = 0;
  st_modtime = 0;
}

-- `blkfile_respond` with no data.
abbrev pub blkfile_respond : Status → FileReply
blkfile_respond status = record { status = status; file_no = 0; fcb = none; data' = [] }

-- `blkfile_read_allowed`
unfoldable pub blkfile_read_allowed : Fcb → ℕ → Bool
blkfile_read_allowed f uid =
    if uid == 0 then true else if uid == f.st_uid then has f.st_mode 4 else has f.st_mode 1

-- `blkfile_write_allowed`
unfoldable pub blkfile_write_allowed : Fcb → ℕ → Bool
blkfile_write_allowed f uid =
    if uid == 0 then true else if uid == f.st_uid then has f.st_mode 8 else has f.st_mode 2

-- The bytes of blocks, one behind the other, and back.
abbrev pub flat : List Block → List ℕ
flat [] = []
flat (b ∷ bs) = b ++ flat bs

unfoldable pub chunks : ℕ → List ℕ → List Block
chunks zero bytes = []
chunks (suc n) bytes = take block_size bytes ∷ chunks n (drop block_size bytes)

abbrev pub if_allocated : Option Fcb → Option Fcb
if_allocated none = none
if_allocated (some f) = if f.st_alloc then some f else none

-- The control block of a number, if it is below `num_fcbs` and allocated.
abbrev pub file_of : List Fcb → ℕ → Option Fcb
file_of fcbs file_no = if_allocated (get_elem? fcbs file_no)

-- The loop of `blkfile_do_create` from a number on.
unfoldable pub find_free : List Fcb → ℕ → ℕ
find_free [] file_no = file_no
find_free (f ∷ fcbs) file_no =
    let rest = find_free fcbs (file_no + 1) in if not f.st_alloc then file_no else rest

-- The bytes from an index on, so many.
unfoldable pub memory : List ℕ → (ℕ → ℕ) → ℕ → ℕ → List ℕ
memory bytes beyond start zero = []
memory bytes beyond start (suc n) =
    get_or bytes start (beyond start) ∷ memory bytes beyond (start + 1) n

-- The blocks that are read if the first one is, and those behind it then.
abbrev pub after_block : {S : Type 0} → Option Block → S → List Block × S → List Block × S
after_block none s rest = ([], s)
after_block (some b) s (blocks, s') = (b ∷ blocks, s')

module _ (D : Store Block) where
  -- The loop of `multiblock_read`: the blocks up to the first that cannot be read.
  unfoldable pub read_blocks : D.State → ℕ → ℕ → ℕ → List Block × D.State
  read_blocks s ino offset zero = ([], s)
  read_blocks s ino offset (suc n) =
      let (block, s1) = block_read D s ino offset in
      after_block block s1 (read_blocks s1 ino ((offset + 1) % 2 ^ 32) n)

  -- `multiblock_read`: `none` if the first of the blocks cannot be read.
  unfoldable pub multiblock_read : D.State → ℕ → ℕ → ℕ → Option (List Block) × D.State
  unfolding read_blocks
  multiblock_read s ino offset nblocks =
      let (blocks, s') = read_blocks s ino offset nblocks in
      (if length blocks == 0 && not (nblocks == 0) then none else some blocks, s')

  -- `multiblock_write`
  unfoldable pub multiblock_write : D.State → ℕ → ℕ → List Block → Bool × D.State
  multiblock_write s ino offset [] = (true, s)
  multiblock_write s ino offset (b ∷ blocks) =
      let (done, s1) = block_write D s ino offset b in
      let rest = multiblock_write s1 ino ((offset + 1) % 2 ^ 32) blocks in
      if done then rest else (false, s1)

-- The time of a modification; `sys_gettime` returns `unsigned long`.
abbrev pub modification : {S : Type 0} → ServerState S → ℕ → ℕ
modification fss now =
    (fss.global_time + ((now + 2 ^ 64 - fss.start_time) % 2 ^ 64) / 1000) % 2 ^ 64

abbrev pub set_fcb : {S : Type 0} → ServerState S → ℕ → Fcb → ServerState S
set_fcb fss file_no f = record fss { fcb_cache = set fss.fcb_cache file_no f }

-- `contents` with the blocks that were read, and the block server then.
abbrev pub Loaded : Type 0 → Type 0
Loaded S = Option (List ℕ) × S

module _ (D : Store Block) (L : Layout) where
  abbrev pub Fss : Type 0
  Fss = ServerState D.State

  -- The bytes of the array of control blocks.
  unfoldable pub image : List Fcb → List ℕ
  image [] = []
  image (f ∷ fcbs) = L.bytes_of f ++ image fcbs

  -- `flush_fcb_cache`: `end_block_no + 1` blocks from the first block of the entry on.
  unfoldable pub flush_fcb_cache : Fss → ℕ → Fss
  unfolding image memory chunks
  flush_fcb_cache fss file_no =
      let start_block_no = file_no * L.fcb_size / block_size in
      let end_block_no = ((file_no + 1) * L.fcb_size - 1) / block_size in
      let blocks = chunks (end_block_no + 1) (
        memory (image fss.fcb_cache) L.beyond (start_block_no * block_size)
          ((end_block_no + 1) * block_size)) in
      let (_, s') = multiblock_write D fss.block_svr 0 start_block_no blocks in
      record fss { block_svr = s' }

  -- `flush_stat_cache_all`
  unfoldable pub flush_stat_cache_all : Fss → Fss
  unfolding image memory chunks
  flush_stat_cache_all fss =
      let size = length fss.fcb_cache * L.fcb_size in
      let end_block_no = (size - 1) / block_size in
      let blocks =
        chunks (end_block_no + 1)
          (memory (image fss.fcb_cache) L.beyond 0 ((end_block_no + 1) * block_size)) in
      let (_, s') = multiblock_write D fss.block_svr 0 0 blocks in record fss { block_svr = s' }

  -- The control blocks in memory over which the bytes of blocks are copied.
  unfoldable pub fcbs_of : ℕ → List ℕ → List Fcb
  fcbs_of zero bytes = []
  fcbs_of (suc n) bytes = L.fcb_of (take L.fcb_size bytes) ∷ fcbs_of n (drop L.fcb_size bytes)

  -- `load_fcb_cache`: whether the array is there. `none`: the assertion on `block_getsize` fails.
  unfoldable pub load_fcb_cache : Fss → Option (Bool × Fss)
  unfolding image copy_in fcbs_of
  load_fcb_cache fss =
      let size = length fss.fcb_cache * L.fcb_size in
      let (r, psize_nblock, s1) = block_getsize D fss.block_svr 0 in
      let (blocks, s2) = multiblock_read D s1 0 0 psize_nblock in
      let bytes : List ℕ = elim blocks [ none ↦ [] | some bs ↦ flat bs ] in
      if not r
      then none
      else if psize_nblock == 0 || not (psize_nblock == (size - 1) / block_size + 1)
      then some (false, record fss { block_svr = s1 })
      else some (
        true,
        record fss {
          block_svr = s2;
          fcb_cache =
              fcbs_of (length fss.fcb_cache) (copy_in (image fss.fcb_cache) 0 (take size bytes));
        },
      )
