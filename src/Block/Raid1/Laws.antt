-- ===== src/Block/Raid1/Laws.antt =====
-- block/raid1disk.c over stores that may fail.
use cs4411_p.Base.{
  ℕ, ◌≡◌, refl, ◌∙◌, ◌⊎◌, inl, inr, Bool, false, not, ◌||◌, some, [], ◌∷◌, arith, Bool-cases,
  Option-cases, if◌then◌else◌, All, ℤ, pos, minus_one, is_neg,
}
use cs4411_p.Block.Store.{Store, View, Same, put, IsDisk}
use cs4411_p.Block.Raid1.{RaidState, call_all, read, write}

-- A store that may fail at any call: what holds when a call succeeds, and that a read, failed or
-- not, changes no contents. After a failed write nothing is known.
pub record IsFallible {B : Type 0} (D : Store B) : Type 1 where
  pub Valid : D.State → Type 0
  pub view : D.State → View B
  pub read_keeps :
      (s : D.State) (i o : ℕ) (b : B)
      → Valid s
      → let (r, b', s') = D.read s i o b in Valid s' × Same (view s') (view s)
  pub read_good :
      (s : D.State) (i o : ℕ) (b v : B)
      → Valid s
      → view s i o ≡ some v
      → let (r, b', s') = D.read s i o b in is_neg r ≡ false → b' ≡ v
  pub write_good :
      (s : D.State) (i o : ℕ) (b v : B)
      → Valid s
      → view s i o ≡ some v
      → let (r, s') = D.write s i o b in
        is_neg r ≡ false → Valid s' × Same (view s') (put (view s) i o b)

-- A store that keeps the whole contract is one of these.
abbrev pub fallible_of_disk : {B : Type 0} (D : Store B) → IsDisk D → IsFallible D
fallible_of_disk D d = record {
  Valid = d.Valid;
  view = d.view;
  read_keeps = λ s i o b ok. elim (Option-cases (d.view s i o)) [
    | inl out ↦ let (_, ok', same) = d.read_none s i o b ok out in (ok', same)
    | inr (v, e) ↦ let (_, _, ok', same) = d.read_some s i o b v ok e in (ok', same)
  ];
  read_good = λ s i o b v ok e f. (d.read_some s i o b v ok e).1;
  write_good = λ s i o b v ok e f. let (_, ok', new) = d.write_some s i o b v ok e in (ok', new);
}

module _ {B : Type 0} (D : Store B) (d : IsFallible D) where
  -- Every mirror that is not broken holds `v`.
  abbrev pub Agree : View B → RaidState D.State → Type 0
  Agree v = All (λ m. m.broken ≡ false → d.Valid m.disk × Same (d.view m.disk) v)

  abbrev pub any_working : RaidState D.State → Bool
  any_working [] = false
  any_working (m ∷ ms) = not m.broken || any_working ms

  -- A mirror that is not broken and whose next read of this block works.
  abbrev pub AnyReadable : ℕ → ℕ → RaidState D.State → Type 0
  AnyReadable i o [] = ⊥
  AnyReadable i o (m ∷ ms) =
      ((m.broken ≡ false) × ((b : B) → is_neg (D.read m.disk i o b).0 ≡ false)) ⊎ AnyReadable i o ms

  read-Agree :
      (v : View B) (s : RaidState D.State) (i o : ℕ) (b x : B)
      → Agree v s
      → v i o ≡ some x
      → let (r, b', s') = read D s i o b in
        (((r ≡ pos 0) × (b' ≡ x)) ⊎ (r ≡ minus_one)) × (AnyReadable i o s → r ≡ pos 0) × Agree v s'
  unfolding read
  read-Agree v [] i o b x h e = (inr refl, (λ z. absurd z), tt)
  read-Agree v (m ∷ ms) i o b x h e = elim (Bool-cases m.broken) [
    | inl bad ↦
        let (res, live, ag) = read-Agree v ms i o b x h.1 e in
        rw bad (
          res,
          λ z. elim z [ inl (w, f) ↦ absurd (ground arith) | inr z' ↦ live z' ],
          (λ w. absurd (ground arith), ag),
        )
    | inr good ↦
        let (ok, same) = h.0 good in
        let (ok', same') = d.read_keeps m.disk i o b ok in
        elim (Bool-cases (is_neg (D.read m.disk i o b).0)) [
          | inl failed ↦
              let (res, live, ag) = read-Agree v ms i o (D.read m.disk i o b).1 x h.1 e in
              rw (good, failed)
                (
                  res,
                  λ z. elim z [ inl (w, f) ↦ absurd (ground (arith, f b)) | inr z' ↦ live z' ],
                  (λ w. (ok', λ j p. same' j p ∙ same j p), ag),
                )
          | inr worked ↦
              rw (good, worked)
                (
                  inl (refl, d.read_good m.disk i o b x ok (same i o ∙ e) worked),
                  λ z. refl,
                  (λ w. (ok', λ j p. same' j p ∙ same j p), h.1),
                )
        ]
  ]

  -- When every mirror that is not broken holds `v`, and `v` has a block `x` at the inode and offset:
  -- a read returns 0 and `x`, or else -1, and every mirror that is not broken still holds `v`.
  pub raid1_read :
      (v : View B) (s : RaidState D.State) (i o : ℕ) (b x : B)
      → Agree v s
      → v i o ≡ some x
      → let (r, b', s') = read D s i o b in
        (((r ≡ pos 0) × (b' ≡ x)) ⊎ (r ≡ minus_one)) × Agree v s'
  raid1_read v s i o b x h e = let (res, _, ag) = read-Agree v s i o b x h e in (res, ag)

  -- When every mirror that is not broken holds `v`, `v` has a block `x` at the inode and offset,
  -- and some mirror is not broken and can read that block: a read returns 0 and `x`, however many
  -- other mirrors are broken or fail.
  pub raid1_read_survives :
      (v : View B) (s : RaidState D.State) (i o : ℕ) (b x : B)
      → Agree v s
      → v i o ≡ some x
      → AnyReadable i o s
      → let (r, b', s') = read D s i o b in (r ≡ pos 0) × (b' ≡ x)
  raid1_read_survives v s i o b x h e z =
      let (res, live, _) = read-Agree v s i o b x h e in
      elim res [ inl right ↦ right | inr failed ↦ absurd (ground (arith, live z)) ]

  abbrev status : Bool → ℤ → ℤ
  status worked result = if worked then pos 0 else result

  call_all-Agree :
      (v : View B) (s : RaidState D.State) (i o : ℕ) (b x : B) (result : ℤ)
      → Agree v s
      → v i o ≡ some x
      → let (r, s') = call_all (λ t. D.write t i o b) s result in
        (r ≡ status (any_working s') result) × Agree (put v i o b) s'
  unfolding call_all
  call_all-Agree v [] i o b x result h e = (refl, tt)
  call_all-Agree v (m ∷ ms) i o b x result h e = elim (Bool-cases m.broken) [
    | inl bad ↦
        let (res, ag) = call_all-Agree v ms i o b x result h.1 e in
        rw bad (ground (arith, res, bad), (λ w. absurd (ground arith), ag))
    | inr good ↦
        let (ok, same) = h.0 good in
        elim (Bool-cases (is_neg (D.write m.disk i o b).0)) [
          | inl failed ↦
              let (res, ag) = call_all-Agree v ms i o b x result h.1 e in
              rw (good, failed) (res, (λ w. absurd (ground arith), ag))
          | inr worked ↦
              let (res, ag) = call_all-Agree v ms i o b x (pos 0) h.1 e in
              let (ok', new) = d.write_good m.disk i o b x ok (same i o ∙ e) worked in
              rw (good, worked)
                (ground (arith, res), (λ w. (ok', λ j p. ground (arith, new j p, same j p)), ag))
        ]
  ]

  -- When every mirror that is not broken holds `v`, and `v` has a block at the inode and offset:
  -- after a write every mirror that is still not broken holds `v` with that block changed, and the
  -- write returns 0 if there is such a mirror and -1 if there is none.
  pub raid1_write :
      (v : View B) (s : RaidState D.State) (i o : ℕ) (b x : B)
      → Agree v s
      → v i o ≡ some x
      → let (r, s') = write D s i o b in
        (r ≡ (if any_working s' then pos 0 else minus_one)) × Agree (put v i o b) s'
  unfolding write
  raid1_write v s i o b x h e = call_all-Agree v s i o b x minus_one h e
