-- ===== src/Server/Tests.antt =====
-- Runs of the servers.
use cs4411_p.Base.{ℕ, zero, suc, ◌≡◌, refl, ap, true, some, List, [], ◌∷◌, arith, length}
use cs4411_p.Base.{ℤ, pos, minus_one, none, Option, ◌/◌}
use cs4411_p.Block.Store.{Same, Store, View, IsDisk, put}
use cs4411_p.System.RamFile.{file_ok}
use cs4411_p.Block.Ram.{RamState, store}
use cs4411_p.Block.Ram.Laws.{disk}
use cs4411_p.System.RamFile.{Fcb}
use cs4411_p.Server.Blocks.{Block}
use cs4411_p.Server.Files.{
  FileRequest, FileReply, read, write, setsize, blkfile_write_allowed, Layout, no_fcb, Fss,
  blkfile_read_allowed,
}
use cs4411_p.Server.Files.Requests.{replied, blkfile_do_read, blkfile_do_write}
use cs4411_p.Server.Files.Spans.{Present}
use cs4411_p.Server.Files.Storing.{Exist}
use cs4411_p.Server.Files.Stored.{Stores, blkfile_do_write-Stores}
use cs4411_p.Server.Files.Reading.{HasBlocks, ReadsBack, blkfile_do_read-ReadsBack}

abbrev fill : ℕ → ℕ → List ℕ
fill zero c = []
fill (suc n) c = c ∷ fill n c

length-fill : (n c : ℕ) → length (fill n c) ≡ n
length-fill zero c = refl
length-fill (suc n) c = ap suc (length-fill n c)

-- A block whose bytes are all the same.
block_of : ℕ → Block
block_of c = fill 1024 c

length-block_of : (c : ℕ) → length (block_of c) ≡ 1024
unfolding block_of
length-block_of c = length-fill 1024 c

abbrev two_blocks : RamState Block
two_blocks = record { blocks = block_of 7 ∷ block_of 9 ∷ []; nblocks = 2 }

abbrev root : Fcb
root = record no_fcb { st_alloc = true; st_mode = 4; st_uid = 5; st_size = 1500 }

abbrev layout : Layout
layout = record { fcb_size = 40; bytes_of = λ f. []; fcb_of = λ b. no_fcb; beyond = λ i. 0 }

abbrev server : Fss store layout
server = record { block_svr = two_blocks; global_time = 0; start_time = 0; fcb_cache = root ∷ [] }

-- From the first block into the second, for more bytes than there are.
abbrev read_request : FileRequest
read_request = record {
  type' = read;
  file_no = 0;
  offset = 1000;
  size = 800;
  uid = 0;
  mode = 0;
  data' = [];
}

two_blocks-HasBlocks : HasBlocks (disk.view two_blocks) 0 2
two_blocks-HasBlocks zero h = (block_of 7, refl, length-block_of 7)
two_blocks-HasBlocks (suc zero) h = (block_of 9, refl, length-block_of 9)
two_blocks-HasBlocks (suc (suc k)) h = absurd (omega arith)

blkfile_do_read-ReadsBack_example :
    (rep : FileReply) × (s' : RamState Block) × (blkfile_do_read store layout server read_request 5
      ≡ (rep ∷ [], record server { block_svr = s' }))
    × disk.Valid s'
    × Same (disk.view s') (disk.view two_blocks)
    × ReadsBack store disk layout two_blocks read_request 500 rep
unfolding blkfile_read_allowed
blkfile_do_read-ReadsBack_example =
    blkfile_do_read-ReadsBack store disk layout server read_request 5 root (omega arith) refl refl
      (omega arith) (omega arith) (omega arith) two_blocks-HasBlocks

-- User 7 tries to cut the file of user 5.
abbrev cut_request : FileRequest
cut_request = record read_request { type' = setsize; offset = 0 }

-- A store that is its view.
abbrev read_from : Option Block → View Block → Block → ℤ × Block × View Block
read_from none v b = (minus_one, b, v)
read_from (some b') v b = (pos 0, b', v)

abbrev write_to : Option Block → View Block → View Block → ℤ × View Block
write_to none v w = (minus_one, v)
write_to (some b) v w = (pos 0, w)

abbrev views : Store Block
views = record {
  State = View Block;
  getninodes = λ v. (pos 2, v);
  getsize = λ v i. (pos 2, v);
  setsize = λ v i n. (minus_one, v);
  read = λ v i o b. read_from (v i o) v b;
  write = λ v i o b. write_to (v i o) v (put v i o b);
  sync = λ v i. (pos 0, v);
}

abbrev views_disk : IsDisk views
views_disk = record {
  Valid = λ v. Unit;
  view = λ v. v;
  read_some = λ s i o b v V e.
      let r = ap (λ q. read_from q s b) e in
      (ap (λ x. x.0) r, ap (λ x. x.1) r, tt, λ j p. ap (λ x. x.2 j p) r);
  read_none = λ s i o b V e.
      let r = ap (λ q. read_from q s b) e in (ap (λ x. x.0) r, tt, λ j p. ap (λ x. x.2 j p) r);
  write_some = λ s i o b v V e.
      let r = ap (λ q. write_to q s (put s i o b)) e in
      (ap (λ x. x.0) r, tt, λ j p. ap (λ x. x.1 j p) r);
  sync_keeps = λ s i V. (tt, λ j p. refl);
}

abbrev files : View Block
files zero zero = some (block_of 0)
files (suc zero) zero = some (block_of 7)
files (suc zero) (suc zero) = some (block_of 9)
files _ _ = none

abbrev own_file : Fcb
own_file = record no_fcb { st_alloc = true; st_mode = 8; st_uid = 5; st_size = 1500 }

abbrev file_server : Fss views layout
file_server = record {
  block_svr = files;
  global_time = 0;
  start_time = 0;
  fcb_cache = root ∷ own_file ∷ [];
}

-- Over the border of two blocks.
abbrev write_request : FileRequest
write_request = record {
  type' = write;
  file_no = 1;
  offset = 1022;
  size = 4;
  uid = 0;
  mode = 0;
  data' = 1 ∷ 2 ∷ 3 ∷ 4 ∷ [];
}

files-Present : Present files 1 (1022 / 1024) 2
files-Present zero h = (block_of 7, refl, length-block_of 7)
files-Present (suc zero) h = (block_of 9, refl, length-block_of 9)
files-Present (suc (suc k)) h = absurd (omega arith)

files-Exist : Exist files 0 0 1
files-Exist zero h = (block_of 0, refl)
files-Exist (suc k) h = absurd (omega arith)

blkfile_do_write-Stores_example :
    (fss' : Fss views layout) × (blkfile_do_write views layout 5000 file_server write_request 5
      ≡ (replied file_ok, fss'))
    × Stores views views_disk layout 5000 file_server fss' 1 own_file 1022 (1 ∷ 2 ∷ 3 ∷ 4 ∷ [])
unfolding blkfile_write_allowed
blkfile_do_write-Stores_example =
    blkfile_do_write-Stores views views_disk layout 5000 file_server write_request 5 own_file tt
      refl refl refl (omega arith) (omega arith) (omega arith) refl files-Present
      (files-Exist, omega arith)
