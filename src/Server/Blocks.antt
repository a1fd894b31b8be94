-- ===== src/Server/Blocks.antt =====
-- The block server, `apps/blocksvr.c`, over the block store at the top of its stack, and the
-- procedures of `lib/block.c` that call it. A message that is sent arrives; what is printed is not
-- modelled.
use cs4411_p.Base.{
  ℕ, zero, suc, ◌-◌, ◌^◌, Bool, true, false, not, Option, none, some, List, [], ◌∷◌, ◌==◌,
  if◌then◌else◌, ℤ, pos, negsuc, is_neg,
}
use cs4411_p.Block.Store.{Store}

abbrev pub block_size : ℕ
block_size = 1024

-- A block is the list of its bytes.
abbrev pub Block : Type 0
Block = List ℕ

-- The types of a request, `h/egos/block.h`; `unknown` is any other number.
pub data BlockOp : Type 0 where
  block_read_op block_write_op block_getsize_op block_setsize_op block_sync_op block_getninodes_op :
      BlockOp
  unknown : BlockOp

-- `struct block_request` and the blocks that follow it.
pub record BlockRequest : Type 0 where
  pub type' : BlockOp
  pub ino : ℕ
  pub offset_nblock : ℕ
  pub data' : List Block

-- `enum block_status`
pub data BlockStatus : Type 0 where
  block_ok block_error : BlockStatus

-- `struct block_reply` and the blocks that follow it.
pub record BlockReply : Type 0 where
  pub status : BlockStatus
  pub size_nblock : ℕ
  pub data' : List Block

-- The number -1 as an `unsigned int`, that stands for all inodes.
abbrev pub all_inodes : ℕ
all_inodes = 2 ^ 32 - 1

-- The conversion of an `int` to `unsigned int`.
abbrev pub to_unsigned : ℤ → ℕ
to_unsigned (pos n) = n
to_unsigned (negsuc n) = 2 ^ 32 - 1 - n

unfoldable pub zeros : ℕ → List ℕ
zeros zero = []
zeros (suc n) = 0 ∷ zeros n

-- `block_respond`
abbrev pub block_respond : BlockStatus → BlockReply
block_respond status = record { status = status; size_nblock = 0; data' = [] }

abbrev pub is_block_ok : BlockStatus → Bool
is_block_ok block_ok = true
is_block_ok block_error = false

-- The reply to a read.
abbrev pub read_reply : ℤ → Block → BlockReply
read_reply result buffer =
    if is_neg result
    then block_respond block_error
    else record { status = block_ok; size_nblock = 1; data' = buffer ∷ [] }

-- The block in a reply to a read; none after an error.
abbrev pub block_in : BlockReply → Option Block
block_in reply = elim reply.data' [
  | [] ↦ none
  | block ∷ _ ↦ if is_block_ok reply.status then some block else none
]

module _ (D : Store Block) where
  -- `block_do_read`
  unfoldable pub block_do_read : D.State → BlockRequest → BlockReply × D.State
  block_do_read s req =
      let (result, buffer, s') = D.read s req.ino req.offset_nblock (zeros block_size) in
      (read_reply result buffer, s')

  -- `block_do_write`
  unfoldable pub block_do_write : D.State → BlockRequest → BlockReply × D.State
  block_do_write s req = elim req.data' [
    | block ∷ [] ↦
        let (result, s') = D.write s req.ino req.offset_nblock block in
        (block_respond (if is_neg result then block_error else block_ok), s')
    | _ ↦ (block_respond block_error, s)
  ]

  -- `block_do_sync`
  unfoldable pub block_do_sync : D.State → BlockRequest → BlockReply × D.State
  block_do_sync s req =
      let (result, s') = D.sync s req.ino in
      if not (req.ino == all_inodes)
      then (block_respond block_error, s)
      else (block_respond (if is_neg result then block_error else block_ok), s')

  -- `block_do_getsize`
  unfoldable pub block_do_getsize : D.State → BlockRequest → BlockReply × D.State
  block_do_getsize s req =
      let (size, s') = D.getsize s req.ino in
      (record { status = block_ok; size_nblock = to_unsigned size; data' = [] }, s')

  -- `block_do_setsize`
  unfoldable pub block_do_setsize : D.State → BlockRequest → BlockReply × D.State
  block_do_setsize s req =
      let (result, s') = D.setsize s req.ino req.offset_nblock in
      (block_respond (if is_neg result then block_error else block_ok), s')

  -- `block_do_getninodes`
  unfoldable pub block_do_getninodes : D.State → BlockRequest → BlockReply × D.State
  block_do_getninodes s req =
      let (ninodes, s') = D.getninodes s in
      (record { status = block_ok; size_nblock = to_unsigned ninodes; data' = [] }, s')

  -- The `switch` of `block_proc`. `none`: the assertion fails.
  unfoldable pub serve_op : BlockOp → D.State → BlockRequest → Option (BlockReply × D.State)
  unfolding block_do_read block_do_write block_do_sync block_do_getsize block_do_setsize
      block_do_getninodes
  serve_op block_read_op s req = some (block_do_read s req)
  serve_op block_write_op s req = some (block_do_write s req)
  serve_op block_sync_op s req = some (block_do_sync s req)
  serve_op block_getsize_op s req = some (block_do_getsize s req)
  serve_op block_setsize_op s req = some (block_do_setsize s req)
  serve_op block_getninodes_op s req = some (block_do_getninodes s req)
  serve_op unknown s req = none

  -- A request without blocks.
  abbrev pub header : BlockOp → ℕ → ℕ → BlockRequest
  header op ino offset = record { type' = op; ino = ino; offset_nblock = offset; data' = [] }

  -- The call of `sys_rpc`: the server takes the request and replies.
  abbrev pub rpc : D.State → BlockRequest → BlockReply × D.State
  rpc s req = elim (serve_op req.type' s req) [
    | none ↦ (block_respond block_error, s)
    | some result ↦ result
  ]

  -- `block_read`: the block, if there is one.
  unfoldable pub block_read : D.State → ℕ → ℕ → Option Block × D.State
  unfolding serve_op
  block_read s ino offset =
      let (reply, s') = rpc s (header block_read_op ino offset) in (block_in reply, s')

  -- `block_write`
  unfoldable pub block_write : D.State → ℕ → ℕ → Block → Bool × D.State
  unfolding serve_op
  block_write s ino offset block =
      let (reply, s') = rpc s (record (header block_write_op ino offset) { data' = block ∷ [] }) in
      (is_block_ok reply.status, s')

  -- `block_sync`
  unfoldable pub block_sync : D.State → ℕ → Bool × D.State
  unfolding serve_op
  block_sync s ino =
      let (reply, s') = rpc s (header block_sync_op ino 0) in (is_block_ok reply.status, s')

  -- `block_getsize`: whether it succeeds, and the size.
  unfoldable pub block_getsize : D.State → ℕ → Bool × ℕ × D.State
  unfolding serve_op
  block_getsize s ino =
      let (reply, s') = rpc s (header block_getsize_op ino 0) in
      (is_block_ok reply.status, reply.size_nblock, s')

  -- `block_setsize`
  unfoldable pub block_setsize : D.State → ℕ → ℕ → Bool × D.State
  unfolding serve_op
  block_setsize s ino size =
      let (reply, s') = rpc s (header block_setsize_op ino size) in (is_block_ok reply.status, s')

  -- `block_getninodes`
  unfoldable pub block_getninodes : D.State → Bool × ℕ × D.State
  unfolding serve_op
  block_getninodes s =
      let (reply, s') = rpc s (header block_getninodes_op 0 0) in
      (is_block_ok reply.status, reply.size_nblock, s')
