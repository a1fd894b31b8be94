-- ===== src/Server/Files/Serve.antt =====
-- The loop of `apps/bfs.c`: a request is dispatched on its type; and how the server starts.
use cs4411_p.Base.{
  ℕ, zero, suc, ◌*◌, ◌/◌, true, Option, none, some, List, [], ◌∷◌, if◌then◌else◌, length, set,
}
use cs4411_p.Block.Store.{Store}
use cs4411_p.System.RamFile.{Fcb}
use cs4411_p.Server.Blocks.{Block, block_size, block_getninodes}
use cs4411_p.Server.Files.{
  FileOp, create, chown, chmod, read, write, stat, setsize, delete, sync, other, FileRequest,
  Layout, no_fcb, Fss, flush_stat_cache_all, load_fcb_cache,
}
use cs4411_p.Server.Files.Requests.{
  Replies, blkfile_do_create, blkfile_do_delete, blkfile_do_chown, blkfile_do_chmod,
  blkfile_do_read, blkfile_do_write, blkfile_do_sync, blkfile_do_stat, blkfile_do_setsize,
}

unfoldable pub blank_fcbs : ℕ → List Fcb
blank_fcbs zero = []
blank_fcbs (suc n) = no_fcb ∷ blank_fcbs n

module _ (D : Store Block) (L : Layout) where
  -- The `switch` of `blkfile_proc`. `none`: the assertion fails.
  unfoldable pub serve : FileOp → ℕ → ℕ → Fss D L → FileRequest → ℕ → Option (Replies × Fss D L)
  serve create self now fss req uid = some (blkfile_do_create D L self now fss req uid)
  serve delete self now fss req uid = some (blkfile_do_delete D L fss req uid)
  serve chown self now fss req uid = some (blkfile_do_chown D L fss req uid)
  serve chmod self now fss req uid = some (blkfile_do_chmod D L fss req uid)
  serve read self now fss req uid = some (blkfile_do_read D L fss req uid)
  serve write self now fss req uid = some (blkfile_do_write D L now fss req uid)
  serve sync self now fss req uid = some (blkfile_do_sync D L fss req)
  serve stat self now fss req uid = some (blkfile_do_stat D L fss req uid)
  serve setsize self now fss req uid = some (blkfile_do_setsize D L now fss req uid)
  serve other self now fss req uid = none

  unfoldable pub handle : ℕ → ℕ → Fss D L → FileRequest → ℕ → Option (Replies × Fss D L)
  handle self now fss req uid = serve req.type' self now fss req uid

  -- The control blocks of a new disk. The size of the array is divided by the number of control blocks
  -- in a block.
  unfoldable pub install : Fss D L → Fss D L
  unfolding blank_fcbs flush_stat_cache_all
  install fss =
      let n = length fss.fcb_cache in
      let root = record no_fcb {
        st_alloc = true;
        st_size = n * L.fcb_size / (block_size / L.fcb_size);
      } in
      flush_stat_cache_all D L (record fss { fcb_cache = set (blank_fcbs n) 0 root })

  -- `main` and the start of `blkfile_proc`: the time of day and of the system are given. `none`: an
  -- assertion fails.
  unfoldable pub start : D.State → ℕ → ℕ → Option (Fss D L)
  unfolding blank_fcbs load_fcb_cache install
  start s global_time start_time =
      let (_, ninodes, s') = block_getninodes D s in
      let fss : Fss D L = record {
        block_svr = s';
        global_time = global_time;
        start_time = start_time;
        fcb_cache = blank_fcbs ninodes;
      } in
      elim (load_fcb_cache D L fss) [
        | none ↦ none
        | some (loaded, fss') ↦ some (if loaded then fss' else install fss')
      ]
