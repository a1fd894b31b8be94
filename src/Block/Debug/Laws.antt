-- ===== src/Block/Debug/Laws.antt =====
-- block/debugdisk.c against the store below.
use cs4411_p.Base.{◌≡◌, refl, List, [], ◌∷◌}
use cs4411_p.Block.Store.{Store}
use cs4411_p.Block.Client.{Op, get_size, set_size, read_block, write_block, sync_inode, call, run}
use cs4411_p.Block.Debug.{DebugState, getsize, setsize, read, write, sync, store}

module _ {B : Type 0} (D : Store B) where
  call-debug :
      (s : DebugState D.State) (op : Op B)
      → let (reply, below) = call D s.below op in
        call (store D) s op ≡ (reply, record s { below = below })
  unfolding call getsize setsize read write sync
  call-debug s (get_size i) = refl
  call-debug s (set_size i n) = refl
  call-debug s (read_block i o b) = refl
  call-debug s (write_block i o b) = refl
  call-debug s (sync_inode i) = refl

  -- A client that makes any sequence of calls on a debugdisk gets the replies that the store below
  -- gives to that sequence, and leaves that store in the same state.
  pub run-debug :
      (s : DebugState D.State) (ops : List (Op B))
      → let (replies, below) = run D s.below ops in
        run (store D) s ops ≡ (replies, record s { below = below })
  unfolding run
  run-debug s [] = refl
  run-debug s (op ∷ ops) =
      rw (call-debug s op, run-debug (record s { below = (call D s.below op).1 }) ops) refl
