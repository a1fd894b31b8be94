-- ===== src/Block/Combine/Locate.antt =====
-- block/combinedisk.c: where the loop of its methods ends.
use cs4411_p.Base.{
  ℕ, suc, ◌+◌, ◌-◌, ◌^◌, ◌≤◌, ◌<◌, ◌≡◌, refl, inl, inr, true, false, none, some, List, [], ◌∷◌,
  arith, ◌==◌, ltb, Bool-cases, if◌then◌else◌, length, get_elem?, set, is_neg, to_int,
}
use cs4411_p.Block.Store.{Store, View, IsDisk}
use cs4411_p.Block.Combine.{locate, sub_uint}

abbrev pub total : List ℕ → ℕ
total [] = 0
total (n ∷ sizes) = n + total sizes

-- For numbers that an `int` can hold the test of the loop is a comparison.
step-lt : (n nino : ℕ) → nino < 2 ^ 31 → n < 2 ^ 31 → is_neg (to_int (sub_uint nino n)) ≡ ltb nino n
unfolding to_int sub_uint
step-lt n nino h k = ground arith

step-sub : (n nino : ℕ) → nino < 2 ^ 31 → n ≤ nino → sub_uint nino n ≡ nino - n
unfolding sub_uint
step-sub n nino h k = omega arith

module _ {B : Type 0} (D : Store B) (d : IsDisk D) where
  -- The inodes of the stores, one store behind the other.
  unfoldable pub stores_view : List D.State → List ℕ → View B
  stores_view [] sizes i o = none
  stores_view (t ∷ rest) [] i o = none
  stores_view (t ∷ rest) (n ∷ sizes) i o =
      if ltb i n then d.view t i o else stores_view rest sizes (i - n) o

  -- The loop, started at index `k`, ends at the store `k + j` and its inode `m`, which hold inode
  -- `ino` of the combined store.
  pub record Located (xs : List D.State) (sizes : List ℕ) (ino k : ℕ) (out : ℕ × ℕ) : Type 0 where
    pub j : ℕ
    pub t : D.State
    pub index : out.0 ≡ k + j
    pub found : get_elem? xs j ≡ some t
    pub same : (o : ℕ) → stores_view xs sizes ino o ≡ d.view t out.1 o
    -- A new state of that store that changes inode `m` alone changes inode `ino` alone.
    pub changed :
        (t' : D.State)
        → ((a r : ℕ) → (a == out.1) ≡ false → d.view t' a r ≡ d.view t a r)
        → (q r : ℕ)
        → stores_view (set xs j t') sizes q r
          ≡ (if q == ino then d.view t' out.1 r else stores_view xs sizes q r)

  locate-here :
      (n : ℕ) (sizes : List ℕ) (ino k : ℕ)
      → ino < 2 ^ 31
      → n < 2 ^ 31
      → ltb ino n ≡ true
      → locate (n ∷ sizes) ino k ≡ (k, ino)
  unfolding locate
  locate-here n sizes ino k h g e = rw (step-lt n ino h g) (rw e refl)

  locate-next :
      (n : ℕ) (sizes : List ℕ) (ino k : ℕ)
      → ino < 2 ^ 31
      → n < 2 ^ 31
      → ltb ino n ≡ false
      → locate (n ∷ sizes) ino k ≡ locate sizes (ino - n) (k + 1)
  unfolding locate
  locate-next n sizes ino k h g e =
      rw (step-lt n ino h g) (rw e (rw (step-sub n ino h (ground arith)) refl))

  -- Where the stores are as many as the sizes say, and inode `ino` is one of theirs, the loop finds it.
  pub locate-Located :
      (xs : List D.State) (sizes : List ℕ) (ino k : ℕ)
      → length xs ≡ length sizes
      → ino < total sizes
      → total sizes < 2 ^ 31
      → Located xs sizes ino k (locate sizes ino k)
  unfolding stores_view
  locate-Located xs [] ino k l h s = absurd (omega arith)
  locate-Located [] (n ∷ sizes) ino k l h s = absurd (omega arith)
  locate-Located (t ∷ rest) (n ∷ sizes) ino k l h s = elim (Bool-cases (ltb ino n)) [
    | inl here ↦ rw (locate-here n sizes ino k (omega arith) (omega arith) here) (record {
      j = 0;
      t = t;
      index = omega arith;
      found = refl;
      same = λ o. rw here refl;
      changed = λ t' keep q r. ground (arith, keep q r);
    })
    | inr later ↦
        let ih =
          locate-Located rest sizes (ino - n) (k + 1) (omega arith) (ground arith) (omega arith) in
        rw (locate-next n sizes ino k (omega arith) (omega arith) later) (record {
          j = suc ih.j;
          t = ih.t;
          index = omega (arith, ih.index);
          found = ih.found;
          same = λ o. rw later (ih.same o);
          changed = λ t' keep q r. ground (arith, ih.changed t' keep (q - n) r);
        })
  ]
