-- ===== src/Block/Tree/Freelist.antt =====
-- The free list that block/treedisk.c lays out on a new disk.
use cs4411_p.Base.{
  ℕ, zero, suc, ◌+◌, ◌-◌, ◌≤◌, ◌<◌, ◌≡◌, refl, sym, ap, ◌∙◌, ◌⊎◌, inl, inr, true, ◌&&◌, Option,
  some, List, [], ◌∷◌, ◌++◌, arith, ◌==◌, ltb, leb, Bool-cases, ==_refl, ==_iff, if◌then◌else◌, pos,
}
use cs4411_p.Block.Store.{Store, IsDisk}
use cs4411_p.Block.Tree.{Block, TreeState, word, ◌>>=◌, ◌>>◌}
use cs4411_p.Block.Tree.Create.{fill, skip, setup_freelist}

abbrev pub occurrences : ℕ → List ℕ → ℕ
occurrences m [] = 0
occurrences m (x ∷ xs) = (if x == m then 1 else 0) + occurrences m xs

abbrev pub nonzero : List ℕ → List ℕ
nonzero [] = []
nonzero (x ∷ xs) = if x == 0 then nonzero xs else x ∷ nonzero xs

-- The references of a block of the free list behind the first.
abbrev pub free_refs : Block → List ℕ
free_refs [] = []
free_refs (x ∷ xs) = nonzero xs

-- The free blocks on the free list that starts at a block, as treedisk.h describes it: the blocks of
-- the list themselves and the references in them.
pub data FreeList (v : ℕ → Option Block) : ℕ → List ℕ → Type 0 where
  empty : FreeList v 0 []
  linked :
      (b : ℕ) (blk : Block) (rest : List ℕ)
      → 0 < b
      → v b ≡ some blk
      → FreeList v (word blk 0) rest
      → FreeList v b (b ∷ (free_refs blk ++ rest))

pub occurrences-append :
    (m : ℕ) (xs ys : List ℕ) → occurrences m (xs ++ ys) ≡ occurrences m xs + occurrences m ys
occurrences-append m [] ys = omega arith
occurrences-append m (x ∷ xs) ys = omega (arith, occurrences-append m xs ys)

-- The list is the same where its blocks are.
pub FreeList-of_agree :
    (v w : ℕ → Option Block) (b : ℕ) (xs : List ℕ)
    → FreeList v b xs
    → ((m : ℕ) → 0 < occurrences m xs → w m ≡ v m)
    → FreeList w b xs
FreeList-of_agree v w _ _ empty h = empty
FreeList-of_agree v w _ _ (linked b blk rest p e l) h =
    linked b blk rest p (h b (ground (arith, ==_refl b)) ∙ e) (
      FreeList-of_agree v w (word blk 0) rest l
        (λ m q. h m (ground (arith, occurrences-append m (free_refs blk) rest))))

skip-bounds : (k a n : ℕ) → a ≤ n → (a ≤ skip k a n) × (skip k a n ≤ n)
unfolding skip
skip-bounds zero a n h = omega arith
skip-bounds (suc k) a n h = elim (Bool-cases (ltb a n)) [
  | inl y ↦ ground (arith, skip-bounds k (a + 1) n)
  | inr n1 ↦ ground arith
]

skip-stop : (k a n : ℕ) → n ≤ a → skip k a n ≡ a
unfolding skip
skip-stop zero a n h = refl
skip-stop (suc k) a n h = ground arith

-- The slots hold the numbers that the second loop passes over.
occurrences-fill :
    (m k a n : ℕ)
    → 0 < a
    → a ≤ n
    → occurrences m (nonzero (fill k a n)) ≡ (if leb a m && ltb m (skip k a n) then 1 else 0)
unfolding fill skip
occurrences-fill m zero a n p h = ground arith
occurrences-fill m (suc k) a n p h = elim (Bool-cases (ltb a n)) [
  | inl y ↦
      let ih = occurrences-fill m k (a + 1) n (omega arith) (ground arith) in
      let (low, high) = skip-bounds k (a + 1) n (ground arith) in
      ground (arith, ih, low, ==_iff a m)
  | inr n1 ↦
      let ih = occurrences-fill m k a n p h in
      let e = skip-stop k a n (ground arith) in ground (arith, ih, e)
]

-- 1 for a number from `low` on and below `high`.
abbrev pub between : ℕ → ℕ → ℕ → ℕ
between low high m = if leb low m && ltb m high then 1 else 0

sum_between :
    (first b b' m : ℕ)
    → first ≤ b
    → b + 1 ≤ b'
    → (if b == m then 1 else 0) + between (b + 1) b' m + between first b m ≡ between first b' m
sum_between first b b' m low high = ground (arith, ==_iff b m)

module _ (D : Store Block) (d : IsDisk D) where
  abbrev pub contents : TreeState D.State → ℕ → Option Block
  contents ts = d.view ts.below ts.below_ino

  -- The free list at `head` after the blocks from `first` to `n` were put on it.
  pub record Laid (first n : ℕ) (ts ts' : TreeState D.State) (head : ℕ) : Type 0 where
    pub xs : List ℕ
    pub free : FreeList (contents ts') head xs
    pub each : (m : ℕ) → occurrences m xs ≡ between first n m
    pub below_valid : d.Valid ts'.below
    pub kept : (m : ℕ) → (m < first) ⊎ (n ≤ m) → contents ts' m ≡ contents ts m

  -- The state after block `b` is written.
  abbrev written : TreeState D.State → ℕ → Block → TreeState D.State
  written ts b blk = record ts { below = (D.write ts.below ts.below_ino b blk).1 }

  -- One block more, with references to those from `b + 1` to `b'`.
  Laid-link :
      (first b b' n : ℕ) (ts ts1 : TreeState D.State) (head : ℕ) (x : Block)
      → first ≤ b
      → 0 < b
      → b < n
      → skip 255 (b + 1) n ≡ b'
      → Laid first b ts ts1 head
      → contents ts1 b ≡ some x
      → let blk = head ∷ fill 255 (b + 1) n in
        ((D.write ts1.below ts1.below_ino b blk).0 ≡ pos 0) × Laid first b' ts (written ts1 b blk) b
  Laid-link first b b' n ts ts1 head x low p high e l old =
      let blk = head ∷ fill 255 (b + 1) n in
      let (r, ok, new) = d.write_some ts1.below ts1.below_ino b blk x l.below_valid old in
      let ts2 = written ts1 b blk in
      let (bound, bound') = skip-bounds 255 (b + 1) n (omega arith) in
      let filled : (m : ℕ) → occurrences m (nonzero (fill 255 (b + 1) n)) ≡ between (b + 1) b' m =
        λ m.
          occurrences-fill m 255 (b + 1) n (omega arith) (omega arith)
          ∙ ap (λ h. between (b + 1) h m) e in
      (
        r,
        record {
          xs = b ∷ (free_refs blk ++ l.xs);
          free =
              linked b blk l.xs p
                (ground (arith, new ts1.below_ino b, ==_refl ts1.below_ino, ==_refl b))
                (FreeList-of_agree (contents ts1) (contents ts2) head l.xs l.free
                  (λ m q. ground (arith, new ts1.below_ino m, l.each m, ==_iff m b)));
          each = λ m. omega (
            arith,
            occurrences-append m (nonzero (fill 255 (b + 1) n)) l.xs,
            sum_between first b b' m low (rw (sym e) bound),
            l.each m,
            filled m,
          );
          below_valid = ok;
          kept = λ m q. elim q [
            | inl before ↦ ground (arith, new ts1.below_ino m, l.kept m (inl before), ==_iff m b)
            | inr behind ↦ ground (
              arith,
              new ts1.below_ino m,
              l.kept m (inr (omega (arith, bound, e))),
              ==_iff m b,
              bound,
              e,
            )
          ];
        },
      )

  setup-save :
      (k head b n : ℕ) (ts : TreeState D.State)
      → ltb b n ≡ true
      → let blk = head ∷ fill 255 (b + 1) n in
        (D.write ts.below ts.below_ino b blk).0 ≡ pos 0
        → setup_freelist D (suc k) head b n ts
          ≡ setup_freelist D k b (skip 255 (b + 1) n) n (written ts b blk)
  unfolding setup_freelist
  setup-save k head b n ts y r = rw y (rw (◌>>◌, ◌>>=◌, r) refl)

  setup-Laid :
      (k first n head b : ℕ) (ts ts1 : TreeState D.State)
      → first ≤ b
      → 0 < b
      → b ≤ n
      → n - b ≤ k
      → ((m : ℕ) → first ≤ m → m < n → (x : Block) × (contents ts m ≡ some x))
      → Laid first b ts ts1 head
      → (head' : ℕ) × (ts' : TreeState D.State) × (setup_freelist D k head b n ts1
          ≡ some (head', ts'))
        × Laid first n ts ts' head'
  unfolding setup_freelist
  setup-Laid zero first n head b ts ts1 low p high fuel ex l =
      let e : b ≡ n = omega arith in (head, ts1, refl, rw (sym e) l)
  setup-Laid (suc k) first n head b ts ts1 low p high fuel ex l = elim (Bool-cases (ltb b n)) [
    | inl y ↦
        let less : b < n = ground arith in
        let (x, there) = ex b low less in
        let old = l.kept b (inr (omega arith)) ∙ there in
        let (r, l') =
          Laid-link first b (skip 255 (b + 1) n) n ts ts1 head x low p less refl l old in
        let blk = head ∷ fill 255 (b + 1) n in
        let ts2 = written ts1 b blk in
        let (bound, bound') = skip-bounds 255 (b + 1) n (omega arith) in
        let (head', ts', e, l'') =
          setup-Laid k first n b (skip 255 (b + 1) n) ts ts2 (omega arith) (omega arith) bound'
            (omega arith) ex l' in
        (head', ts', setup-save k head b n ts1 y r ∙ e, l'')
    | inr n1 ↦ let e : b ≡ n = ground arith in (head, ts1, rw n1 refl, rw (sym e) l)
  ]

  -- Over a store that keeps the contract of block_store.h and has the blocks from `first` to `n`:
  -- `setup_freelist` ends without a panic, and each of those blocks, and no other number, stands on
  -- the free list that it returns, exactly once; no other block is changed.
  pub setup_freelist-Laid :
      (first n : ℕ) (ts : TreeState D.State)
      → 0 < first
      → first ≤ n
      → d.Valid ts.below
      → ((m : ℕ) → first ≤ m → m < n → (x : Block) × (contents ts m ≡ some x))
      → (head : ℕ) × (ts' : TreeState D.State) × (setup_freelist D n 0 first n ts
          ≡ some (head, ts'))
        × Laid first n ts ts' head
  setup_freelist-Laid first n ts p h ok ex =
      setup-Laid n first n 0 first ts ts (omega arith) p h (omega arith) ex (record {
        xs = [];
        free = empty;
        each = λ m. ground arith;
        below_valid = ok;
        kept = λ m q. refl;
      })
