-- ===== src/Server/Files/Reading.antt =====
-- What a read through `apps/bfs.c` returns.
use cs4411_p.Base.{
  ℕ, ◌+◌, ◌-◌, ◌*◌, ◌/◌, ◌%◌, ◌^◌, ◌≤◌, ◌<◌, ◌≡◌, refl, ap, ◌∙◌, true, false, not, some, List, [],
  ◌∷◌, arith, ◌==◌, ltb, lt→ltb, if◌then◌else◌, length, get_elem?, take,
}
use cs4411_p.Base.{if_true, if_false}
use cs4411_p.Block.Store.{Store, IsDisk, View, Same}
use cs4411_p.System.RamFile.{Fcb, file_ok, file_error, slice}
use cs4411_p.Server.Blocks.{Block, block_size}
use cs4411_p.Server.Files.{
  FileRequest, FileReply, Layout, no_fcb, flat, file_of, Fss, blkfile_read_allowed,
}
use cs4411_p.Server.Files.Bytes.{
  byte_at, Held, Full, length-slice, length-flat, get_elem?-flat, get_elem?-slice, span,
  span-nblock,
}
use cs4411_p.Server.Files.Requests.{
  read_size, last_block, read_result, read_span, read_bytes, blkfile_do_read, with_file, replied,
  empty_read,
}
use cs4411_p.Server.Files.Spans.{Present, multiblock_read-Held}

-- The bytes that a read asks for and that the file has.
abbrev pub wanted : Fcb → FileRequest → ℕ
wanted f req = let n = f.st_size - req.offset in if ltb req.size n then req.size else n

-- A file of which all blocks have less than 2 ^ 32 bytes, and a read that begins in it.
record Within (f : Fcb) (req : FileRequest) : Type 0 where
  small : f.st_size ≤ 2 ^ 32 - block_size
  inside : req.offset < f.st_size
  some_bytes : 0 < req.size

read_size-wanted :
    (f : Fcb) (req : FileRequest)
    → Within f req
    → (read_size f req ≡ wanted f req)
      × (0 < wanted f req)
      × (req.offset + wanted f req ≤ f.st_size)
read_size-wanted f req W =
    let exact : (f.st_size - req.offset) % 2 ^ 32 ≡ f.st_size - req.offset =
      omega (arith, W.small) in
    (
      ap (λ n. if ltb req.size n then req.size else n) exact,
      ground (arith, W.inside, W.some_bytes),
      ground (arith, W.inside),
    )

-- The first `n` blocks of an inode are there and have the size of a block.
abbrev pub HasBlocks : View Block → ℕ → ℕ → Type 0
HasBlocks v ino n = (k : ℕ) → k < n → (b : Block) × (v ino k ≡ some b) × (length b ≡ block_size)

-- The blocks of a read are among those of the file.
span-Present :
    (v : View Block) (ino size offset n : ℕ)
    → HasBlocks v ino ((size + block_size - 1) / block_size)
    → 0 < n
    → offset + n ≤ size
    → Present v ino (offset / block_size) (span offset n)
span-Present v ino size offset n P h k i l = P (offset / block_size + i) (omega arith)

same_place :
    (offset i : ℕ) → offset / block_size * block_size + (offset % block_size + i) ≡ offset + i
same_place offset i = omega arith

take-length : (l : List ℕ) → take (length l) l ≡ l
take-length [] = refl
take-length (x ∷ l) = ap (◌∷◌ x) (take-length l)

-- The bytes of the reply are those of the file.
result-bytes :
    (v : View Block) (ino offset n i : ℕ) (bs : List Block)
    → Held v ino (offset / block_size) bs
    → Full bs
    → length bs ≡ span offset n
    → 0 < n
    → i < n
    → get_elem? (slice (flat bs) (offset % block_size) n) i ≡ byte_at v ino (offset + i)
result-bytes v ino offset n i bs held full len h lt =
    get_elem?-slice (flat bs) (offset % block_size) n i lt
    ∙ get_elem?-flat v ino (offset / block_size) bs (offset % block_size + i) held full
        (omega (arith, len))
    ∙ ap (byte_at v ino) (same_place offset i)

module _ (D : Store Block) (I : IsDisk D) (L : Layout) where
  -- A reply to a read is good, for so many bytes of the file from the offset on.
  pub record ReadsBack (s : D.State) (req : FileRequest) (n : ℕ) (rep : FileReply) : Type 0 where
    pub status_ok : rep.status ≡ file_ok
    pub length_data : length rep.data' ≡ n
    pub bytes :
        (i : ℕ) → i < n → get_elem? rep.data' i ≡ byte_at (I.view s) req.file_no (req.offset + i)

  read_span-ReadsBack :
      (fss : Fss D L) (req : FileRequest) (n nblock : ℕ)
      → I.Valid fss.block_svr
      → 0 < n
      → req.offset + n ≤ 2 ^ 32 - block_size
      → Present (I.view fss.block_svr) req.file_no (req.offset / block_size) nblock
      → nblock ≡ span req.offset n
      → (rep : FileReply) × (s' : D.State) × (read_span D L fss req.file_no req.offset
            (req.offset / block_size)
            nblock
            n
          ≡ (rep ∷ [], record fss { block_svr = s' }))
        × I.Valid s'
        × Same (I.view s') (I.view fss.block_svr)
        × ReadsBack fss.block_svr req n rep
  unfolding read_span
  read_span-ReadsBack fss req n nblock V h small P e =
      let r =
        multiblock_read-Held D I nblock fss.block_svr req.file_no (req.offset / block_size) V P
          (omega (arith, e)) (omega (arith, e)) in
      let buffer : nblock * block_size % 2 ^ 32 ≡ length (flat r.0) =
        omega (arith, small, e, length-flat r.0 r.7, r.5) in
      let whole : take (nblock * block_size % 2 ^ 32) (flat r.0) ≡ flat r.0 =
        ap (λ m. take m (flat r.0)) buffer ∙ take-length (flat r.0) in
      let all_read : (not (length r.0 == nblock)) ≡ false = ground (arith, r.5) in
      (
        record {
          status = file_ok;
          file_no = 0;
          fcb = some (record no_fcb { st_size = n });
          data' = slice (flat r.0) (req.offset % block_size) n;
        },
        r.1,
        ap (λ o. (read_result o.0 nblock req.offset n, record fss { block_svr = o.1 })) r.2
            ∙ ap (λ l. (l, record fss { block_svr = r.1 })) (if_false _ _ _ all_read)
            ∙ ap
                (λ bytes. (
                  record {
                    status = file_ok;
                    file_no = 0;
                    fcb = some (record no_fcb { st_size = n });
                    data' = slice bytes (req.offset % block_size) n;
                  }
                      ∷ [],
                  record fss { block_svr = r.1 },
                ))
                whole,
        r.3,
        r.4,
        record {
          status_ok = refl;
          length_data =
              length-slice (flat r.0) (req.offset % block_size) n
                (omega (arith, length-flat r.0 r.7, r.5, e));
          bytes = λ i lt.
              result-bytes (I.view fss.block_svr) req.file_no req.offset n i r.0 r.6 r.7 (r.5 ∙ e) h
                lt;
        },
      )

  read_bytes-ReadsBack :
      (fss : Fss D L) (req : FileRequest) (f : Fcb)
      → I.Valid fss.block_svr
      → Within f req
      → HasBlocks (I.view fss.block_svr) req.file_no ((f.st_size + block_size - 1) / block_size)
      → (rep : FileReply) × (s' : D.State) × (read_bytes D L fss req f
          ≡ (rep ∷ [], record fss { block_svr = s' }))
        × I.Valid s'
        × Same (I.view s') (I.view fss.block_svr)
        × ReadsBack fss.block_svr req (wanted f req) rep
  unfolding read_bytes
  read_bytes-ReadsBack fss req f V W P =
      let n = wanted f req in
      let len = read_size-wanted f req W in
      let room : req.offset + n ≤ 2 ^ 32 - block_size = omega (arith, len.2, W.small) in
      let start : (req.offset / block_size) % 2 ^ 32 ≡ req.offset / block_size =
        omega (arith, room) in
      let blocks = span-nblock req.offset n len.1 (omega (arith, room)) in
      let r =
        read_span-ReadsBack fss req n (span req.offset n) V len.1 room
          (span-Present (I.view fss.block_svr) req.file_no f.st_size req.offset n P len.1 len.2)
          refl in
      (
        r.0,
        r.1,
        ap
              (λ n.
                read_span D L fss req.file_no req.offset ((req.offset / block_size) % 2 ^ 32)
                  ((last_block req.offset n + 2 ^ 32 - (req.offset / block_size) % 2 ^ 32 + 1)
                    % 2 ^ 32)
                  n)
              len.0
            ∙ ap
                (λ k.
                  read_span D L fss req.file_no req.offset ((req.offset / block_size) % 2 ^ 32) k n)
                blocks
            ∙ ap (λ k. read_span D L fss req.file_no req.offset k (span req.offset n) n) start
            ∙ r.2,
        r.3,
        r.4,
        r.5,
      )

  -- Over a block store that keeps the contract of block_store.h: a read of at least one byte by a
  -- user who may read the file, of a file of at most 2 ^ 32 - 1024 bytes whose blocks are there,
  -- from an offset in it, gets one reply, without an error, with as many bytes as it asks for and
  -- the file has; they are the bytes of the file from the offset on, and the server's state and the
  -- contents of the store do not change.
  pub blkfile_do_read-ReadsBack :
      (fss : Fss D L) (req : FileRequest) (uid : ℕ) (f : Fcb)
      → I.Valid fss.block_svr
      → file_of fss.fcb_cache req.file_no ≡ some f
      → blkfile_read_allowed f uid ≡ true
      → f.st_size ≤ 2 ^ 32 - block_size
      → req.offset < f.st_size
      → 0 < req.size
      → HasBlocks (I.view fss.block_svr) req.file_no ((f.st_size + block_size - 1) / block_size)
      → (rep : FileReply) × (s' : D.State) × (blkfile_do_read D L fss req uid
          ≡ (rep ∷ [], record fss { block_svr = s' }))
        × I.Valid s'
        × Same (I.view s') (I.view fss.block_svr)
        × ReadsBack fss.block_svr req (wanted f req) rep
  unfolding blkfile_do_read
  blkfile_do_read-ReadsBack fss req uid f V found allowed small inside asks P =
      let r =
        read_bytes-ReadsBack fss req f V
          (record { small = small; inside = inside; some_bytes = asks }) P in
      let nonzero : (req.size == 0) ≡ false = ground arith in
      (
        r.0,
        r.1,
        ap
              (λ o. with_file fss o λ f.
                if not (blkfile_read_allowed f uid)
                then (replied file_error, fss)
                else if req.size == 0
                then (empty_read D L ∷ [], fss)
                else if ltb req.offset f.st_size
                then read_bytes D L fss req f
                else (empty_read D L ∷ [], fss))
              found
            ∙ if_false _ _ _ (ap not allowed)
            ∙ if_false _ _ _ nonzero
            ∙ if_true _ _ _ (lt→ltb req.offset f.st_size inside)
            ∙ r.2,
        r.3,
        r.4,
        r.5,
      )
