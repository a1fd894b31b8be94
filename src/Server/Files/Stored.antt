-- ===== src/Server/Files/Stored.antt =====
-- Writes inside a file, through `apps/bfs.c`.
use cs4411_p.Base.{
  ℕ, ◌+◌, ◌-◌, ◌*◌, ◌/◌, ◌%◌, ◌^◌, ◌≤◌, ◌<◌, ◌≡◌, ap, ◌∙◌, Bool, true, false, not, ◌||◌, some, List,
  arith, ◌==◌, ltb, if◌then◌else◌, length, set,
}
use cs4411_p.Base.{get_elem?_of_lt}
use cs4411_p.Base.{if_false, get_elem?_of_lt}
use cs4411_p.Block.Store.{Store, IsDisk, View, Same}
use cs4411_p.System.RamFile.{Fcb, file_ok, file_error, copy_in}
use cs4411_p.Server.Blocks.{Block, block_size, zeros}
use cs4411_p.Server.Files.{
  FileRequest, Layout, blkfile_write_allowed, flat, chunks, file_of, multiblock_read,
  multiblock_write, modification, set_fcb, Fss, flush_fcb_cache,
}
use cs4411_p.Server.Files.Requests.{
  replied, with_file, after_write, modify, over_blank, load_blocks, blkfile_put, blkfile_do_write,
}
use cs4411_p.Server.Files.Bytes.{byte_at, byte_in, Held, Full, length-flat}
use cs4411_p.Server.Files.Spans.{Present, multiblock_read-Held}
use cs4411_p.Server.Files.Storing.{
  Exist, Others, length-chunks, multiblock_write-Held, flush-Others,
}
use cs4411_p.Server.Files.Writing.{copy_in-all, length-zeros, Written, rewritten-Written}

-- How many blocks a write inside a file takes; the byte behind it counts.
abbrev pub touched : ℕ → ℕ → ℕ
touched offset n = (offset + n) / block_size - offset / block_size + 1

-- Views that agree on the inode hold the same bytes of it.
byte_at-agree :
    (v w : View Block) (ino q : ℕ)
    → ((p : ℕ) → w ino p ≡ v ino p)
    → byte_at w ino q ≡ byte_at v ino q
unfolding byte_at
byte_at-agree v w ino q same = ap (λ o. byte_in o (q % block_size)) (same (q / block_size))

Written-agree :
    (v w u : View Block) (ino offset : ℕ) (data' : List ℕ)
    → Written v w ino offset data'
    → ((p : ℕ) → u ino p ≡ w ino p)
    → Written v u ino offset data'
Written-agree v w u ino offset data' W same = record {
  inside = λ i h. byte_at-agree w u ino (offset + i) same ∙ W.inside i h;
  outside = λ q h. byte_at-agree w u ino q same ∙ W.outside q h;
}

-- A write of some bytes inside a file of less than 2 ^ 32 bytes.
record Inside (f : Fcb) (offset n : ℕ) : Type 0 where
  some_bytes : 0 < n
  ends : offset + n ≤ f.st_size
  small : f.st_size < 2 ^ 32

module _ (D : Store Block) (I : IsDisk D) (L : Layout) where
  load_blocks-Held :
      (fss : Fss D L) (ino file_size start n : ℕ)
      → I.Valid fss.block_svr
      → Present (I.view fss.block_svr) ino start n
      → start + n < 2 ^ 32
      → 0 < n
      → start ≤ file_size / block_size
      → 0 < file_size
      → (bs : List Block) × (s' : D.State) × (load_blocks D L fss ino file_size start n n
          ≡ (some (flat bs), s'))
        × I.Valid s'
        × Same (I.view s') (I.view fss.block_svr)
        × (length bs ≡ n)
        × Held (I.view fss.block_svr) ino start bs
        × Full bs
  unfolding load_blocks
  load_blocks-Held fss ino file_size start n V P room some_of inside nonempty =
      let r = multiblock_read-Held D I n fss.block_svr ino start V P room some_of in
      let wrap : start % 2 ^ 32 ≡ start = omega (arith, room) in
      let whole =
        copy_in-all (zeros (n * block_size)) (flat r.0)
          (length-zeros (n * block_size) ∙ omega (arith, length-flat r.0 r.7, r.5)) in
      (
        r.0,
        r.1,
        if_false (ltb (file_size / block_size) start || file_size == 0) _ _
              (ground (arith, inside, nonempty))
            ∙ ap
                (λ k. over_blank (zeros (n * block_size)) (multiblock_read D fss.block_svr ino k n))
                wrap
            ∙ ap (over_blank (zeros (n * block_size))) r.2
            ∙ ap (λ l. (some l, r.1)) whole,
        r.3,
        r.4,
        r.5,
        r.6,
        r.7,
      )

  -- The write back of changed blocks.
  modify-Written :
      (fss : Fss D L) (ino : ℕ) (g : Fcb) (offset : ℕ) (data' : List ℕ) (n : ℕ) (v : View Block)
      (bs : List Block) (s1 : D.State)
      → I.Valid s1
      → Same (I.view s1) v
      → length bs ≡ n
      → Held v ino (offset / block_size) bs
      → Full bs
      → offset / block_size + n < 2 ^ 32
      → offset % block_size + length data' ≤ n * block_size
      → (s2 : D.State) × (modify D L fss ino g offset data' n (some (flat bs), s1)
          ≡ (true, flush_fcb_cache D L (set_fcb (record fss { block_svr = s2 }) ino g) ino))
        × I.Valid s2
        × Written v (I.view s2) ino offset data'
        × Others v (I.view s2) ino (offset / block_size) n
  modify-Written fss ino g offset data' n v bs s1 V same len held full small room =
      let start = offset / block_size in
      let bytes = copy_in (flat bs) (offset % block_size) data' in
      let count = length-chunks n bytes in
      let wrap : start % 2 ^ 32 ≡ start = omega (arith, small) in
      let w =
        multiblock_write-Held D I (chunks n bytes) s1 ino start V
          (λ k h.
            let (b, e) = get_elem?_of_lt bs k (omega (arith, h, count, len)) in
            (b, same ino (start + k) ∙ held k (omega (arith, h, count, len)) ∙ e))
          (omega (arith, count, small)) in
      let others : Others v (I.view w.0) ino start n =
        λ j p h. w.4 j p (ground (arith, count, h)) ∙ same j p in
      (
        w.0,
        ap (λ k. after_write D L fss ino g (multiblock_write D s1 ino k (chunks n bytes))) wrap
            ∙ ap (after_write D L fss ino g) w.1,
        w.2,
        rewritten-Written v (I.view w.0) ino offset data' n (record {
          old = bs;
          old_held = held;
          old_full = full;
          length_old = len;
          new_held = w.3;
          others = others;
          room = room;
        }),
        others,
      )

  -- The blocks of inode 0 that the flush of a control block writes.
  abbrev pub HasTable : View Block → ℕ → Type 0
  HasTable v n =
      Exist v 0 (n * L.fcb_size / block_size) (((n + 1) * L.fcb_size - 1) / block_size + 1)
      × (n * L.fcb_size / block_size + (((n + 1) * L.fcb_size - 1) / block_size + 1) < 2 ^ 32)

  -- The state after a write: the bytes of the file, the other files, and the control blocks.
  pub record Stores (now : ℕ) (fss fss' : Fss D L) (ino : ℕ) (f : Fcb) (offset : ℕ) (data' : List ℕ)
      : Type 0 where
    pub valid : I.Valid fss'.block_svr
    pub written : Written (I.view fss.block_svr) (I.view fss'.block_svr) ino offset data'
    pub other_files :
        (j p : ℕ)
        → (j == ino) ≡ false
        → (j == 0) ≡ false
        → I.view fss'.block_svr j p ≡ I.view fss.block_svr j p
    pub fcbs :
        fss'.fcb_cache ≡ set fss.fcb_cache ino (record f { st_modtime = modification fss now })

  -- The flush of the control block behind the write.
  flushed-Stores :
      (now : ℕ) (fss : Fss D L) (ino : ℕ) (f : Fcb) (offset n : ℕ) (data' : List ℕ) (s2 : D.State)
      → (ino == 0) ≡ false
      → HasTable (I.view fss.block_svr) ino
      → I.Valid s2
      → Written (I.view fss.block_svr) (I.view s2) ino offset data'
      → Others (I.view fss.block_svr) (I.view s2) ino (offset / block_size) n
      → Stores now fss
          (flush_fcb_cache D L
            (set_fcb
              (record fss { block_svr = s2 })
              ino
              (record f { st_modtime = modification fss now }))
            ino)
          ino
          f
          offset
          data'
  flushed-Stores now fss ino f offset n data' s2 nz (E, room) V W others =
      let g = record f { st_modtime = modification fss now } in
      let fss2 : Fss D L = set_fcb (record fss { block_svr = s2 }) ino g in
      let flush =
        flush-Others D I L fss2 ino V
          (λ k h. let (b, e) = E k h in (b, others 0 _ (ground (arith, nz)) ∙ e)) room in
      record {
        valid = flush.0;
        written =
            Written-agree (I.view fss.block_svr) (I.view s2) _ ino offset data' W
              (λ p. flush.1 ino p nz);
        other_files = λ j p ne nz'. flush.1 j p nz' ∙ others j p (ground (arith, ne));
        fcbs = flush.2;
      }

  -- A write with the sizes that `blkfile_put` computes.
  abbrev with_sizes : ℕ → Fss D L → ℕ → Fcb → ℕ → List ℕ → ℕ → ℕ → ℕ → Bool × Fss D L
  with_sizes now fss ino f offset data' final_size nblock psize_nblock =
      modify D L fss ino (record f { st_size = final_size; st_modtime = modification fss now })
        offset data' (nblock % 2 ^ 32)
        (load_blocks D L fss ino f.st_size (offset / block_size) psize_nblock nblock)

  blkfile_put-Stores :
      (now : ℕ) (fss : Fss D L) (ino : ℕ) (f : Fcb) (offset : ℕ) (data' : List ℕ)
      → I.Valid fss.block_svr
      → Inside f offset (length data')
      → (ino == 0) ≡ false
      → Present (I.view fss.block_svr) ino (offset / block_size) (touched offset (length data'))
      → HasTable (I.view fss.block_svr) ino
      → (fss' : Fss D L) × (blkfile_put D L now fss ino f offset data' ≡ (true, fss'))
        × Stores now fss fss' ino f offset data'
  unfolding blkfile_put
  blkfile_put-Stores now fss ino f offset data' V N nz P T =
      let len = length data' in
      let n = touched offset len in
      let last : (offset + len) % 2 ^ 64 ≡ offset + len = omega (arith, N.ends, N.small) in
      let no_growth : ltb f.st_size ((offset + len) % 2 ^ 64) ≡ false =
        ground (arith, last, N.ends) in
      let count : ((offset + len) % 2 ^ 64 / block_size + 2 ^ 64 - offset / block_size + 1) % 2 ^ 64
          ≡ n =
        omega (arith, last, N.ends, N.small) in
      let wrap : n % 2 ^ 32 ≡ n = omega (arith, N.ends, N.small) in
      let few : offset / block_size + n < 2 ^ 32 = omega (arith, N.ends, N.small) in
      let load =
        load_blocks-Held fss ino f.st_size (offset / block_size) n V P few (omega arith)
          (omega (arith, N.ends)) (omega (arith, N.ends, N.some_bytes)) in
      let g = record f { st_modtime = modification fss now } in
      let back =
        modify-Written fss ino g offset data' n (I.view fss.block_svr) load.0 load.1 load.3 load.4
          load.5 load.6 load.7 few (omega arith) in
      (
        _,
        ap
              (λ grows.
                with_sizes now fss ino f offset data'
                  (if grows then (offset + len) % 2 ^ 64 else f.st_size)
                  (((offset + len) % 2 ^ 64 / block_size + 2 ^ 64 - offset / block_size + 1)
                    % 2 ^ 64)
                  (if grows
                    then (f.st_size / block_size + 2 ^ 64 - offset / block_size + 1) % 2 ^ 32
                    else ((offset + len) % 2 ^ 64 / block_size + 2 ^ 64 - offset / block_size + 1)
                      % 2 ^ 64
                      % 2 ^ 32))
              no_growth
            ∙ ap (λ k. with_sizes now fss ino f offset data' f.st_size k (k % 2 ^ 32)) count
            ∙ ap (with_sizes now fss ino f offset data' f.st_size n) wrap
            ∙ ap
                (λ k.
                  modify D L fss ino g offset data' k
                    (load_blocks D L fss ino f.st_size (offset / block_size) n n))
                wrap
            ∙ ap (modify D L fss ino g offset data' n) load.2
            ∙ back.1,
        flushed-Stores now fss ino f offset n data' back.0 nz T back.2 back.3 back.4,
      )

  -- Over a block store that keeps the contract of block_store.h and that has all blocks of inode 0
  -- to which `flush_fcb_cache` writes for the file (end_block_no + 1 of them from start_block_no
  -- on, which are more than hold its control block, and less than 2 ^ 32): a write of at least one
  -- byte, as many as the request says, by a user who may write the file, inside a file other than
  -- file 0 of less than 2 ^ 32 bytes whose blocks are there up to that of the byte behind the
  -- write, gets one reply, without an error; after it the bytes of the write are in the file from
  -- the offset on, all other bytes of the file and all other files but inode 0 are as before, and
  -- of the control blocks only the time of the file's modification has changed.
  pub blkfile_do_write-Stores :
      (now : ℕ) (fss : Fss D L) (req : FileRequest) (uid : ℕ) (f : Fcb)
      → I.Valid fss.block_svr
      → file_of fss.fcb_cache req.file_no ≡ some f
      → blkfile_write_allowed f uid ≡ true
      → req.size ≡ length req.data'
      → 0 < length req.data'
      → req.offset + length req.data' ≤ f.st_size
      → f.st_size < 2 ^ 32
      → (req.file_no == 0) ≡ false
      → Present
          (I.view fss.block_svr)
          req.file_no
          (req.offset / block_size)
          (touched req.offset (length req.data'))
      → HasTable (I.view fss.block_svr) req.file_no
      → (fss' : Fss D L) × (blkfile_do_write D L now fss req uid ≡ (replied file_ok, fss'))
        × Stores now fss fss' req.file_no f req.offset req.data'
  unfolding blkfile_do_write
  blkfile_do_write-Stores now fss req uid f V found allowed size some_bytes ends small nz P T =
      let stored =
        blkfile_put-Stores now fss req.file_no f req.offset req.data' V
          (record { some_bytes = some_bytes; ends = ends; small = small }) nz P T in
      let same_size : (not (req.size == length req.data')) ≡ false = ground (arith, size) in
      (
        stored.0,
        ap
              (λ o. with_file fss o λ f.
                let (done, fss') = blkfile_put D L now fss req.file_no f req.offset req.data' in
                if not (req.size == length req.data')
                then (replied file_error, fss)
                else if not (blkfile_write_allowed f uid)
                then (replied file_error, fss)
                else (replied (if done then file_ok else file_error), fss'))
              found
            ∙ if_false _ _ _ same_size
            ∙ if_false _ _ _ (ap not allowed)
            ∙ ap (λ r. (replied (if r.0 then file_ok else file_error), r.1)) stored.1,
        stored.2,
      )
