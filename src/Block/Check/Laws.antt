-- ===== src/Block/Check/Laws.antt =====
-- block/checkdisk.c: the recorded blocks against those of the store below.
use cs4411_p.Base.{
  ℕ, ◌≡◌, refl, sym, ap, ◌∙◌, ◌↔◌, inl, inr, Bool, true, ◌&&◌, some, List, [], ◌∷◌, arith, ◌==◌,
  Bool-cases, Option-cases, pos,
}
use cs4411_p.Block.Store.{Store, View, Same, put, IsDisk}
use cs4411_p.Block.Check.{Entry, CheckState, is_for, recorded, update, entry, read, write}

-- What is recorded agrees with the view.
abbrev pub Agrees : {B : Type 0} → List (Entry B) → View B → Type 0
Agrees bl v = (j p : ℕ) (b : _) → recorded bl j p ≡ some b → v j p ≡ some b

module _ {B : Type 0} where
  recorded-entry :
      (bl : List (Entry B)) (i o : ℕ) (b : B) (j p : ℕ)
      → recorded (entry i o b ∷ bl) j p ≡ put (recorded bl) i o b j p
  unfolding recorded
  recorded-entry bl i o b j p = ground arith

  -- The recorded blocks still agree once both the list and the view are changed at one block.
  Agrees-put :
      (bl bl' : List (Entry B)) (v w : View B) (i o : ℕ) (b : B)
      → Agrees bl v
      → ((j p : ℕ) → recorded bl' j p ≡ put (recorded bl) i o b j p)
      → Same w (put v i o b)
      → Agrees bl' w
  Agrees-put bl bl' v w i o b h new same j p x f = elim (Bool-cases (j == i && p == o)) [
    | inl y ↦ ground (arith, new j p, same j p)
    | inr n ↦ ground (arith, new j p, same j p, h j p x)
  ]

  put-Same : (v : View B) (i o : ℕ) (b : B) → v i o ≡ some b → Same v (put v i o b)
  put-Same v i o b e j p = ground arith

  update-some :
      (bl bl' : List (Entry B)) (i o : ℕ) (b : B)
      → update bl i o b ≡ some bl'
      → (j p : ℕ) → recorded bl' j p ≡ put (recorded bl) i o b j p
  unfolding update recorded
  update-some [] bl' i o b e j p = absurd (ground arith)
  update-some (x ∷ bl) bl' i o b e j p = elim (Bool-cases (is_for x i o)) [
    | inl y ↦ ground arith
    | inr n ↦ elim (Option-cases (update bl i o b)) [
      | inl none' ↦ absurd (ground arith)
      | inr (bl1, e1) ↦ ground (arith, update-some bl bl1 i o b e1 j p)
    ]
  ]

module _ {B : Type 0} (same : B → B → Bool) (same_iff : (a b : B) → (same a b ≡ true) ↔ (a ≡ b))
    (D : Store B) (d : IsDisk D) where
  pub record Valid (s : CheckState D.State B) : Type 0 where
    pub below_valid : d.Valid s.below
    pub agrees : Agrees s.bl (d.view s.below)

  same_of : (a b : B) → a ≡ b → same a b ≡ true
  same_of a b e = (same_iff a b).1 e

  -- Over a store that keeps the contract of block_store.h, with the recorded blocks those of the
  -- store: a read of a block in range does not stop the program, returns 0 and the block of the
  -- store, and leaves the recorded blocks those of the store.
  pub check_read :
      (s : CheckState D.State B) (i o : ℕ) (b v : B)
      → Valid s
      → d.view s.below i o ≡ some v
      → (s' : CheckState D.State B) × (read same D s i o b ≡ some (pos 0, v, s'))
        × Valid s'
        × Same (d.view s'.below) (d.view s.below)
  unfolding read
  check_read s i o b v ok e =
      let (r, got, ok', same') = d.read_some s.below i o b v ok.below_valid e in
      elim (Option-cases (recorded s.bl i o)) [
        | inl new ↦ (
          record {
            below = (D.read s.below i o b).2;
            bl = entry i o (D.read s.below i o b).1 ∷ s.bl;
          },
          rw (r, new) (rw got refl),
          record {
            below_valid = ok';
            agrees =
                Agrees-put s.bl (entry i o (D.read s.below i o b).1 ∷ s.bl) (d.view s.below) _ i o
                  (D.read s.below i o b).1 ok.agrees
                  (recorded-entry s.bl i o (D.read s.below i o b).1)
                  (λ j p.
                    same' j p
                    ∙ put-Same (d.view s.below) i o (D.read s.below i o b).1 (e ∙ ap some (sym got))
                        j p);
          },
          same',
        )
        | inr (old, f) ↦ (
          record s { below = (D.read s.below i o b).2 },
          rw (r, f) (rw (got, same_of old v (ground (arith, ok.agrees i o old f))) refl),
          record { below_valid = ok'; agrees = λ j p x g. same' j p ∙ ok.agrees j p x g },
          same',
        )
      ]

  -- Over a store that keeps the contract of block_store.h, with the recorded blocks those of the
  -- store: a write to a block in range returns 0, changes the store below at that block alone, and
  -- leaves the recorded blocks those of the store.
  check_write :
      (s : CheckState D.State B) (i o : ℕ) (b v : B)
      → Valid s
      → d.view s.below i o ≡ some v
      → let (r, s') = write same D s i o b in
        (r ≡ pos 0) × Valid s' × Same (d.view s'.below) (put (d.view s.below) i o b)
  unfolding write
  check_write s i o b v ok e =
      let (r, ok', new') = d.write_some s.below i o b v ok.below_valid e in
      elim (Option-cases (update s.bl i o b)) [
        | inl none' ↦
            rw (r, none')
              (
                r,
                record {
                  below_valid = ok';
                  agrees =
                      Agrees-put s.bl (entry i o b ∷ s.bl) (d.view s.below) _ i o b ok.agrees
                        (recorded-entry s.bl i o b) new';
                },
                new',
              )
        | inr (bl', f) ↦
            rw (r, f)
              (
                r,
                record {
                  below_valid = ok';
                  agrees =
                      Agrees-put s.bl bl' (d.view s.below) _ i o b ok.agrees
                        (update-some s.bl bl' i o b f) new';
                },
                new',
              )
      ]
