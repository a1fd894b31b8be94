-- ===== src/Block/Client.antt =====
-- A client of a block store: a sequence of calls, and what each returns.
use cs4411_p.Base.{ℕ, Option, none, some, List, [], ◌∷◌, ℤ}
use cs4411_p.Block.Store.{Store}

-- The calls that name an inode. A read comes with what its buffer holds.
pub data Op (B : Type 0) : Type 0 where
  get_size : ℕ → Op B
  set_size : ℕ → ℕ → Op B
  read_block : ℕ → ℕ → B → Op B
  write_block : ℕ → ℕ → B → Op B
  sync_inode : ℕ → Op B

-- The result of a call, and the buffer if it is a read.
abbrev pub Reply : Type 0 → Type 0
Reply B = ℤ × Option B

module _ {B : Type 0} (D : Store B) where
  unfoldable pub call : D.State → Op B → Reply B × D.State
  call s (get_size i) = let (r, s') = D.getsize s i in ((r, none), s')
  call s (set_size i n) = let (r, s') = D.setsize s i n in ((r, none), s')
  call s (read_block i o b) = let (r, b', s') = D.read s i o b in ((r, some b'), s')
  call s (write_block i o b) = let (r, s') = D.write s i o b in ((r, none), s')
  call s (sync_inode i) = let (r, s') = D.sync s i in ((r, none), s')

  unfoldable pub run : D.State → List (Op B) → List (Reply B) × D.State
  unfolding call
  run s [] = ([], s)
  run s (op ∷ ops) =
      let (reply, s1) = call s op in let (replies, s2) = run s1 ops in (reply ∷ replies, s2)
