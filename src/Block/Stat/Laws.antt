-- ===== src/Block/Stat/Laws.antt =====
-- block/statdisk.c against the store below, and its counters.
use cs4411_p.Base.{ℕ, ◌+◌, ◌%◌, ◌<◌, ◌≡◌, refl, List, [], ◌∷◌, arith, u32_mod}
use cs4411_p.Block.Store.{Store}
use cs4411_p.Block.Client.{Op, get_size, set_size, read_block, write_block, sync_inode, call, run}
use cs4411_p.Block.Stat.{StatState, getsize, setsize, read, write, sync, store, bump}

module _ {B : Type 0} where
  -- The number of calls of a kind.
  abbrev pub count : (Op B → ℕ) → List (Op B) → ℕ
  count f [] = 0
  count f (op ∷ ops) = f op + count f ops

  abbrev pub getsizes : Op B → ℕ
  getsizes (get_size i) = 1
  getsizes _ = 0

  abbrev pub setsizes : Op B → ℕ
  setsizes (set_size i n) = 1
  setsizes _ = 0

  abbrev pub reads : Op B → ℕ
  reads (read_block i o b) = 1
  reads _ = 0

  abbrev pub writes : Op B → ℕ
  writes (write_block i o b) = 1
  writes _ = 0

  abbrev pub syncs : Op B → ℕ
  syncs (sync_inode i) = 1
  syncs _ = 0

-- The counters behind the calls `ops`, and the store below.
pub record Counted {B S : Type 0} (s : StatState S) (ops : List (Op B)) (below : S)
    (s' : StatState S) : Type 0 where
  pub same_below : s'.below ≡ below
  pub ngetsize : s'.ngetsize ≡ (s.ngetsize + count getsizes ops) % u32_mod
  pub nsetsize : s'.nsetsize ≡ (s.nsetsize + count setsizes ops) % u32_mod
  pub nread : s'.nread ≡ (s.nread + count reads ops) % u32_mod
  pub nwrite : s'.nwrite ≡ (s.nwrite + count writes ops) % u32_mod
  pub nsync : s'.nsync ≡ (s.nsync + count syncs ops) % u32_mod

-- The counters are `unsigned int`s.
pub record Words {S : Type 0} (s : StatState S) : Type 0 where
  pub ngetsize : s.ngetsize < u32_mod
  pub nsetsize : s.nsetsize < u32_mod
  pub nread : s.nread < u32_mod
  pub nwrite : s.nwrite < u32_mod
  pub nsync : s.nsync < u32_mod

module _ {B : Type 0} (D : Store B) where
  call-Counted :
      (s : StatState D.State) (op : Op B)
      → Words s
      → ((call (store D) s op).0 ≡ (call D s.below op).0)
        × Words (call (store D) s op).1
        × Counted s (op ∷ []) (call D s.below op).1 (call (store D) s op).1
  unfolding call getsize setsize read write sync bump
  call-Counted s (get_size i) w = (refl, omega arith, ground arith)
  call-Counted s (set_size i n) w = (refl, omega arith, ground arith)
  call-Counted s (read_block i o b) w = (refl, omega arith, ground arith)
  call-Counted s (write_block i o b) w = (refl, omega arith, ground arith)
  call-Counted s (sync_inode i) w = (refl, omega arith, ground arith)

  -- A client that makes any sequence of calls on a statdisk gets the replies that the store below
  -- gives to that sequence and leaves that store in the same state, and each counter grows, modulo
  -- 2^32, by the number of calls of its kind.
  pub run-stat :
      (s : StatState D.State) (ops : List (Op B))
      → Words s
      → ((run (store D) s ops).0 ≡ (run D s.below ops).0)
        × Counted s ops (run D s.below ops).1 (run (store D) s ops).1
  unfolding run
  run-stat s [] w = (refl, ground arith)
  run-stat s (op ∷ ops) w =
      let (same, w', c) = call-Counted s op w in
      let (ih, c') = run-stat (call (store D) s op).1 ops w' in
      (
        ground (arith, same, ih, c.same_below),
        record {
          same_below = ground (arith, c'.same_below, c.same_below);
          ngetsize = omega (arith, c.ngetsize, c'.ngetsize);
          nsetsize = omega (arith, c.nsetsize, c'.nsetsize);
          nread = omega (arith, c.nread, c'.nread);
          nwrite = omega (arith, c.nwrite, c'.nwrite);
          nsync = omega (arith, c.nsync, c'.nsync);
        },
      )
