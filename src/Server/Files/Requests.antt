-- ===== src/Server/Files/Requests.antt =====
-- The requests that `apps/bfs.c` serves. A handler returns the replies that it sends, in order, and
-- the state that it leaves; `now` is what `sys_gettime` returns, `self` what `sys_getpid` does.
use cs4411_p.Base.{
  ℕ, ◌+◌, ◌-◌, ◌*◌, ◌/◌, ◌%◌, ◌^◌, Bool, true, false, not, ◌&&◌, ◌||◌, Option, none, some, List, [],
  ◌∷◌, ◌==◌, ltb, leb, if◌then◌else◌, length, get_elem?, get_or, take,
}
use cs4411_p.Block.Store.{Store}
use cs4411_p.System.RamFile.{Fcb, Status, file_ok, file_error, slice, copy_in}
use cs4411_p.Server.Blocks.{Block, block_size, all_inodes, zeros, block_sync, block_setsize}
use cs4411_p.Server.Files.{
  FileRequest, FileReply, ServerState, Layout, no_fcb, blkfile_respond, blkfile_read_allowed,
  blkfile_write_allowed, flat, chunks, file_of, find_free, multiblock_read, multiblock_write,
  modification, set_fcb, Fss, flush_fcb_cache,
}

abbrev pub Replies : Type 0
Replies = List FileReply

abbrev pub replied : Status → Replies
replied status = blkfile_respond status ∷ []

abbrev pub drop_one : List Fcb → List Fcb
drop_one [] = []
drop_one (f ∷ fcbs) = fcbs

-- The number of bytes that a read returns; it is an `unsigned int`.
abbrev pub read_size : Fcb → FileRequest → ℕ
read_size f req =
    let n = (f.st_size - req.offset) % 2 ^ 32 in if ltb req.size n then req.size else n

-- The number of the last block that a read needs.
abbrev pub last_block : ℕ → ℕ → ℕ
last_block offset n = ((offset + n + 2 ^ 64 - 1) % 2 ^ 64 / block_size) % 2 ^ 32

-- The reply with the bytes, from the blocks that are read: all of them, or it is an error. The size of
-- the buffer for the blocks is an `unsigned int` and wraps; what is written behind the buffer, which C
-- does not define, has no effect here.
abbrev pub read_result : Option (List Block) → ℕ → ℕ → ℕ → Replies
read_result none nblock offset n = replied file_error
read_result (some bs) nblock offset n =
    if not (length bs == nblock)
    then replied file_error
    else record {
      status = file_ok;
      file_no = 0;
      fcb = some (record no_fcb { st_size = n });
      data' = slice (take (nblock * block_size % 2 ^ 32) (flat bs)) (offset % block_size) n;
    }
      ∷ []

-- The blocks that are read, at the start of the others' 0s.
abbrev pub over_blank : {S : Type 0} → List ℕ → Option (List Block) × S → Option (List ℕ) × S
over_blank blank (none, s) = (none, s)
over_blank blank (some bs, s) = (some (copy_in blank 0 (flat bs)), s)

-- A request for a file, if there is one.
abbrev pub with_file :
    {S : Type 0}
    → ServerState S
    → Option Fcb
    → (Fcb → Replies × ServerState S)
    → Replies × ServerState S
with_file fss none k = (replied file_error, fss)
with_file fss (some f) k = k f

module _ (D : Store Block) (L : Layout) where
  -- `blkfile_do_create`
  unfoldable pub blkfile_do_create : ℕ → ℕ → Fss D L → FileRequest → ℕ → Replies × Fss D L
  blkfile_do_create self now fss req uid =
      let file_no = find_free (drop_one fss.fcb_cache) 1 in
      let f = record (get_or fss.fcb_cache file_no no_fcb) {
        st_alloc = true;
        st_dev = self;
        st_ino = file_no;
        st_mode = req.mode;
        st_uid = uid;
        st_modtime = modification fss now;
      } in
      if leb (length fss.fcb_cache) file_no then (replied file_error, fss) else (
        record (blkfile_respond file_ok) { file_no = file_no } ∷ [],
        flush_fcb_cache D L (set_fcb fss file_no f) file_no,
      )

  -- The part of `blkfile_do_delete` for a file that is allocated. After an error it replies twice.
  unfoldable pub delete_file : Fss D L → ℕ → Fcb → Replies × Fss D L
  delete_file fss file_no f =
      let fss1 =
        flush_fcb_cache D L (set_fcb fss file_no (record f { st_alloc = false })) file_no in
      let (done, s') = block_setsize D fss1.block_svr file_no 0 in
      (
        if done then replied file_ok else blkfile_respond file_error ∷ replied file_ok,
        record fss1 { block_svr = s' },
      )

  -- `blkfile_do_delete`
  unfoldable pub blkfile_do_delete : Fss D L → FileRequest → ℕ → Replies × Fss D L
  blkfile_do_delete fss req uid = with_file fss (get_elem? fss.fcb_cache req.file_no) λ f.
      if not (blkfile_write_allowed f uid)
      then (replied file_error, fss)
      else if not f.st_alloc
      then (replied file_ok, fss)
      else delete_file fss req.file_no f

  -- `blkfile_do_chown`
  unfoldable pub blkfile_do_chown : Fss D L → FileRequest → ℕ → Replies × Fss D L
  blkfile_do_chown fss req uid = with_file fss (file_of fss.fcb_cache req.file_no) λ f.
      if not (uid == 0) then (replied file_error, fss) else (
        replied file_ok,
        flush_fcb_cache D L (set_fcb fss req.file_no (record f { st_uid = req.uid })) req.file_no,
      )

  -- `blkfile_do_chmod`
  unfoldable pub blkfile_do_chmod : Fss D L → FileRequest → ℕ → Replies × Fss D L
  blkfile_do_chmod fss req uid = with_file fss (file_of fss.fcb_cache req.file_no) λ f.
      if not (uid == 0) && not (uid == f.st_uid) then (replied file_error, fss) else (
        replied file_ok,
        flush_fcb_cache D L (set_fcb fss req.file_no (record f { st_mode = req.mode })) req.file_no,
      )

  -- The read of so many blocks, and the reply with so many of their bytes.
  unfoldable pub read_span : Fss D L → ℕ → ℕ → ℕ → ℕ → ℕ → Replies × Fss D L
  unfolding multiblock_read
  read_span fss file_no offset start_block_no nblock n =
      let (blocks, s') = multiblock_read D fss.block_svr file_no start_block_no nblock in
      (read_result blocks nblock offset n, record fss { block_svr = s' })

  -- The read of the bytes that are there, of a file in which the offset lies.
  unfoldable pub read_bytes : Fss D L → FileRequest → Fcb → Replies × Fss D L
  read_bytes fss req f =
      let n = read_size f req in
      let start_block_no = (req.offset / block_size) % 2 ^ 32 in
      let nblock = (last_block req.offset n + 2 ^ 32 - start_block_no + 1) % 2 ^ 32 in
      read_span fss req.file_no req.offset start_block_no nblock n

  -- A reply to a read with no bytes.
  abbrev pub empty_read : FileReply
  empty_read = record (blkfile_respond file_ok) { fcb = some no_fcb }

  -- `blkfile_do_read`
  unfoldable pub blkfile_do_read : Fss D L → FileRequest → ℕ → Replies × Fss D L
  blkfile_do_read fss req uid = with_file fss (file_of fss.fcb_cache req.file_no) λ f.
      if not (blkfile_read_allowed f uid)
      then (replied file_error, fss)
      else if req.size == 0
      then (empty_read ∷ [], fss)
      else if ltb req.offset f.st_size
      then read_bytes fss req f
      else (empty_read ∷ [], fss)

  -- The blocks that a `blkfile_put` starts from, as bytes: 0s where nothing is read. `none`: the read
  -- fails.
  unfoldable pub load_blocks : Fss D L → ℕ → ℕ → ℕ → ℕ → ℕ → Option (List ℕ) × D.State
  load_blocks fss file_no file_size start_block_no psize_nblock nblock =
      let blank = zeros (nblock * block_size) in
      if ltb (file_size / block_size) start_block_no || file_size == 0
      then (some blank, fss.block_svr)
      else over_blank blank
          (multiblock_read D fss.block_svr file_no (start_block_no % 2 ^ 32) psize_nblock)

  -- The end of `blkfile_put`: the control block changes if the blocks are written.
  abbrev pub after_write : Fss D L → ℕ → Fcb → Bool × D.State → Bool × Fss D L
  after_write fss file_no f' (true, s2) =
      (true, flush_fcb_cache D L (set_fcb (record fss { block_svr = s2 }) file_no f') file_no)
  after_write fss file_no f' (false, s2) = (false, record fss { block_svr = s2 })

  -- The change of the bytes and their writing back, into so many blocks.
  abbrev pub modify :
      Fss D L → ℕ → Fcb → ℕ → List ℕ → ℕ → Option (List ℕ) × D.State → Bool × Fss D L
  modify fss file_no f' offset data' nblock (none, s1) = (false, record fss { block_svr = s1 })
  modify fss file_no f' offset data' nblock (some bytes, s1) = after_write fss file_no f' (
      multiblock_write D s1 file_no (offset / block_size % 2 ^ 32)
        (chunks nblock (copy_in bytes (offset % block_size) data')))

  -- `blkfile_put`: whether it succeeds. Sums of `unsigned long` wrap.
  unfoldable pub blkfile_put : ℕ → Fss D L → ℕ → Fcb → ℕ → List ℕ → Bool × Fss D L
  blkfile_put now fss file_no f offset data' =
      let last = (offset + length data') % 2 ^ 64 in
      let start_block_no = offset / block_size in
      let grows = ltb f.st_size last in
      let final_size = if grows then last else f.st_size in
      let nblock = (last / block_size + 2 ^ 64 - start_block_no + 1) % 2 ^ 64 in
      let psize_nblock =
        if grows
        then (f.st_size / block_size + 2 ^ 64 - start_block_no + 1) % 2 ^ 32
        else nblock % 2 ^ 32 in
      modify fss file_no (record f { st_size = final_size; st_modtime = modification fss now })
        offset data' (nblock % 2 ^ 32)
        (load_blocks fss file_no f.st_size start_block_no psize_nblock nblock)

  -- `blkfile_do_write`
  unfoldable pub blkfile_do_write : ℕ → Fss D L → FileRequest → ℕ → Replies × Fss D L
  blkfile_do_write now fss req uid = with_file fss (file_of fss.fcb_cache req.file_no) λ f.
      let (done, fss') = blkfile_put now fss req.file_no f req.offset req.data' in
      if not (req.size == length req.data')
      then (replied file_error, fss)
      else if not (blkfile_write_allowed f uid)
      then (replied file_error, fss)
      else (replied (if done then file_ok else file_error), fss')

  -- `blkfile_do_sync`
  unfoldable pub blkfile_do_sync : Fss D L → FileRequest → Replies × Fss D L
  blkfile_do_sync fss req =
      let (r, s') = block_sync D fss.block_svr req.file_no in
      if leb (length fss.fcb_cache) req.file_no && not (req.file_no == all_inodes)
      then (replied file_error, fss)
      else (replied (if r then file_ok else file_error), record fss { block_svr = s' })

  -- `blkfile_do_stat`
  unfoldable pub blkfile_do_stat : Fss D L → FileRequest → ℕ → Replies × Fss D L
  blkfile_do_stat fss req uid = with_file fss (file_of fss.fcb_cache req.file_no) λ f.
      if not (blkfile_read_allowed f uid)
      then (replied file_error, fss)
      else (record (blkfile_respond file_ok) { fcb = some f } ∷ [], fss)

  -- The part of `blkfile_do_setsize` behind the checks. After an error it goes on, and replies twice.
  unfoldable pub set_file_size : ℕ → Fss D L → FileRequest → Fcb → Replies × Fss D L
  set_file_size now fss req f =
      let final_nblock = if req.offset == 0 then 0 else (1 + req.offset / block_size) % 2 ^ 32 in
      let (done, s') = block_setsize D fss.block_svr req.file_no final_nblock in
      let f' = record f { st_size = req.offset; st_modtime = modification fss now } in
      (
        if done then replied file_ok else blkfile_respond file_error ∷ replied file_ok,
        flush_fcb_cache D L (set_fcb (record fss { block_svr = s' }) req.file_no f') req.file_no,
      )

  -- `blkfile_do_setsize`
  unfoldable pub blkfile_do_setsize : ℕ → Fss D L → FileRequest → ℕ → Replies × Fss D L
  blkfile_do_setsize now fss req uid = with_file fss (file_of fss.fcb_cache req.file_no) λ f.
      if ltb f.st_size req.offset
      then (replied file_error, fss)
      else if not (blkfile_write_allowed f uid)
      then (replied file_error, fss)
      else set_file_size now fss req f
