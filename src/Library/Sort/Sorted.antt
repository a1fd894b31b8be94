-- ===== src/Library/Sort/Sorted.antt =====
-- The result of `lib/qsort.c`.
use cs4411_p.Base.{
  ℕ, zero, suc, ◌+◌, ◌≤◌, ◌≡◌, refl, sym, ap, ◌∙◌, inl, inr, Bool, true, false, List, [], ◌∷◌, ◌++◌,
  arith, leb, Bool-cases, length, All, ℤ, pos, negsuc, is_neg,
}
use cs4411_p.Base.{length-append}
use mathlib.Core.Path.{subst}
use mathlib.Core.List.{Perm, perm_middle, append-nil, append_assoc}
use mathlib.Core.List.Perm
use cs4411_p.Library.Sort.{rotate, partition, sort, qsort}

-- `x` is not greater than `y`.
abbrev pub above_0 : ℤ → Bool
above_0 (pos (suc n)) = true
above_0 _ = false

module _ {A : Type 0} (compar : A → A → ℤ) where
  abbrev pub Below : A → A → Type 0
  Below x y = above_0 (compar x y) ≡ false

  -- What the caller's comparison is to be: an order in which any two elements compare.
  pub record IsOrder : Type 0 where
    pub flip : (x y : A) → is_neg (compar x y) ≡ false → Below y x
    pub trans : (x y z : A) → Below x y → Below y z → Below x z

  abbrev pub IsSorted : List A → Type 0
  IsSorted [] = Unit
  IsSorted (x ∷ l) = All (Below x) l × IsSorted l

neg_not_above : (n : ℤ) → is_neg n ≡ true → above_0 n ≡ false
neg_not_above (pos n) h = absurd (ground (arith, h))
neg_not_above (negsuc n) h = refl

module _ {A : Type 0} where
  All-append : (P : A → Type 0) (l r : List A) → All P l → All P r → All P (l ++ r)
  All-append P [] r a b = b
  All-append P (x ∷ l) r (p, a) b = (p, All-append P l r a b)

  All-rotate : (P : A → Type 0) (l : List A) → All P l → All P (rotate l)
  All-rotate P [] a = a
  All-rotate P (g ∷ l) (p, a) = All-append P l (g ∷ []) a (p, tt)

  All-map : (P Q : A → Type 0) (l : List A) → ((x : A) → P x → Q x) → All P l → All Q l
  All-map P Q [] f a = tt
  All-map P Q (x ∷ l) f (p, a) = (f x p, All-map P Q l f a)

  length-rotate : (l : List A) → length (rotate l) ≡ length l
  length-rotate [] = refl
  length-rotate (g ∷ l) = omega (arith, length-append l (g ∷ []))

  rotate-perm : (l : List A) → Perm (rotate l) l
  rotate-perm [] = Perm.rfl
  rotate-perm (g ∷ l) =
      Perm.trans (perm_middle l [])
        (Perm.cons g (subst (λ k. Perm k l) (sym (append-nil l)) Perm.rfl))

module _ {A : Type 0} (compar : A → A → ℤ) where
  -- The sides of a partition, by any property of pairs of lists that each round keeps.
  partition-induction :
      (Q : List A → List A → List A → Type 0) (x : A)
      → ((l g r : List A) (y : A)
          → is_neg (compar x y) ≡ false
          → Q l g (y ∷ r)
          → Q (l ++ (y ∷ [])) (rotate g) r)
      → ((l g r : List A) (y : A)
          → is_neg (compar x y) ≡ true
          → Q l g (y ∷ r)
          → Q l (g ++ (y ∷ [])) r)
      → (r l g : List A) → Q l g r
      → let (l', g') = partition compar l x g r in Q l' g' []
  unfolding partition
  partition-induction Q x moved left [] l g q = q
  partition-induction Q x moved left (y ∷ r) l g q = elim (Bool-cases (is_neg (compar x y))) [
    | inl e ↦ rw (e) (partition-induction Q x moved left r l (g ++ (y ∷ [])) (left l g r y e q))
    | inr e ↦
        rw (e) (partition-induction Q x moved left r (l ++ (y ∷ [])) (rotate g) (moved l g r y e q))
  ]

  -- The sides have the elements of the array but the pivot.
  moved-perm :
      (l g r : List A) (y : A) → Perm (((l ++ (y ∷ [])) ++ rotate g) ++ r) ((l ++ g) ++ (y ∷ r))
  moved-perm l g r y =
      let turn = Perm.trans (Perm.cons y (rotate-perm g)) (Perm.symm (rotate-perm (y ∷ g))) in
      subst (λ k. Perm (k ++ r) ((l ++ g) ++ (y ∷ r))) (sym (append_assoc l (y ∷ []) (rotate g)))
        (subst (λ k. Perm ((l ++ (y ∷ rotate g)) ++ r) k)
          (ap (λ k. k ++ r) (sym (append_assoc l g (y ∷ []))) ∙ append_assoc (l ++ g) (y ∷ []) r)
          (Perm.append_right r (Perm.append_left l turn)))

  left-perm : (l g r : List A) (y : A) → Perm ((l ++ (g ++ (y ∷ []))) ++ r) ((l ++ g) ++ (y ∷ r))
  left-perm l g r y =
      subst (λ k. Perm ((l ++ (g ++ (y ∷ []))) ++ r) k)
        (ap (λ k. k ++ r) (sym (append_assoc l g (y ∷ []))) ∙ append_assoc (l ++ g) (y ∷ []) r)
        Perm.rfl

  partition-perm :
      (x : A) (r : List A) → let (l', g') = partition compar [] x [] r in Perm (l' ++ g') r
  partition-perm x r =
      subst (λ k. Perm k r) (append-nil _)
        (partition-induction (λ l g rest. Perm ((l ++ g) ++ rest) r) x
          (λ l g rest y _ q. Perm.trans (moved-perm l g rest y) q)
          (λ l g rest y _ q. Perm.trans (left-perm l g rest y) q) r [] [] Perm.rfl)

  partition-All :
      (P : A → Type 0) (x : A) (r : List A)
      → All P r
      → let (l', g') = partition compar [] x [] r in All P l' × All P g'
  partition-All P x r a =
      let both =
        partition-induction (λ l g rest. All P l × All P g × All P rest) x
          (λ l g rest y _ q. (All-append P l (y ∷ []) q.0 (q.2.0, tt), All-rotate P g q.1, q.2.1))
          (λ l g rest y _ q. (q.0, All-append P g (y ∷ []) q.1 (q.2.0, tt), q.2.1)) r [] []
          (tt, tt, a) in
      (both.0, both.1)

  partition-bounds :
      (x : A) (r : List A)
      → IsOrder compar
      → let (l', g') = partition compar [] x [] r in
        All (λ y. Below compar y x) l' × All (Below compar x) g'
  partition-bounds x r O =
      partition-induction (λ l g rest. All (λ y. Below compar y x) l × All (Below compar x) g) x
        (λ l g rest y e q. (
          All-append (λ y. Below compar y x) l (y ∷ []) q.0 (O.flip x y e, tt),
          All-rotate (Below compar x) g q.1,
        ))
        (λ l g rest y e q.
          (q.0, All-append (Below compar x) g (y ∷ []) q.1 (neg_not_above (compar x y) e, tt)))
        r [] [] (tt, tt)

  partition-length :
      (x : A) (r : List A)
      → let (l', g') = partition compar [] x [] r in length l' + length g' ≡ length r
  partition-length x r =
      let e =
        partition-induction (λ l g rest. length l + length g + length rest ≡ length r) x
          (λ l g rest y _ q. omega (arith, length-append l (y ∷ []), length-rotate g, q))
          (λ l g rest y _ q. omega (arith, length-append g (y ∷ []), q)) r [] [] (omega arith) in
      omega (arith, e)

  append-IsSorted :
      (l r : List A) (x : A)
      → IsOrder compar
      → IsSorted compar l
      → IsSorted compar r
      → All (λ y. Below compar y x) l
      → All (Below compar x) r
      → IsSorted compar (l ++ (x ∷ r))
  append-IsSorted [] r x O sl sr bl br = (br, sr)
  append-IsSorted (y ∷ l) r x O (by, sl) sr (yx, bl) br = (
    All-append (Below compar y) l (x ∷ r) by
        (yx, All-map (Below compar x) (Below compar y) r (λ z xz. O.trans y x z yx xz) br),
    append-IsSorted l r x O sl sr bl br,
  )

  sort-All : (P : A → Type 0) (depth : ℕ) (l : List A) → All P l → All P (sort compar depth l)
  unfolding sort
  sort-All P zero l a = a
  sort-All P (suc depth) [] a = a
  sort-All P (suc depth) (x ∷ r) (p, a) = elim (Bool-cases (leb (length r) 0)) [
    | inl e ↦ rw (e) (p, a)
    | inr e ↦
        let sides = partition-All P x r a in
        rw (e) (All-append P _ _ (sort-All P depth _ sides.0) (p, sort-All P depth _ sides.1))
  ]

  sort-perm : (depth : ℕ) (l : List A) → Perm (sort compar depth l) l
  unfolding sort
  sort-perm zero l = Perm.rfl
  sort-perm (suc depth) [] = Perm.rfl
  sort-perm (suc depth) (x ∷ r) = elim (Bool-cases (leb (length r) 0)) [
    | inl e ↦ rw (e) Perm.rfl
    | inr e ↦ rw (e) (
        Perm.trans (perm_middle _ _) (
          Perm.cons x (
            Perm.trans (Perm.append (sort-perm depth _) (sort-perm depth _)) (partition-perm x r))))
  ]

  short-IsSorted : (x : A) (r : List A) → leb (length r) 0 ≡ true → IsSorted compar (x ∷ r)
  short-IsSorted x [] e = (tt, tt)
  short-IsSorted x (y ∷ r) e = absurd (ground (arith, e))

  sort-IsSorted :
      (depth : ℕ) (l : List A)
      → IsOrder compar
      → length l ≤ depth
      → IsSorted compar (sort compar depth l)
  unfolding sort
  sort-IsSorted zero [] O h = tt
  sort-IsSorted zero (x ∷ l) O h = absurd (omega arith)
  sort-IsSorted (suc depth) [] O h = tt
  sort-IsSorted (suc depth) (x ∷ r) O h = elim (Bool-cases (leb (length r) 0)) [
    | inl e ↦ rw (e) (short-IsSorted x r e)
    | inr e ↦
        let sides = partition compar [] x [] r in
        let sizes = partition-length x r in
        let bounds = partition-bounds x r O in
        rw (e) (
          append-IsSorted _ _ x O (sort-IsSorted depth sides.0 O (omega (arith, sizes, h)))
            (sort-IsSorted depth sides.1 O (omega (arith, sizes, h)))
            (sort-All (λ y. Below compar y x) depth sides.0 bounds.0)
            (sort-All (Below compar x) depth sides.1 bounds.1))
  ]

  -- For a comparison that is an order: `qsort` leaves the elements of the array, each as often as
  -- before, so that none is greater than one behind it.
  pub qsort-IsSorted :
      (l : List A) → IsOrder compar → IsSorted compar (qsort compar l) × Perm (qsort compar l) l
  unfolding qsort
  qsort-IsSorted l O = (sort-IsSorted (length l) l O (omega arith), sort-perm (length l) l)
