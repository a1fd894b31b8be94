-- ===== src/Block/Combine/Laws.antt =====
-- block/combinedisk.c against an array of blocks.
use cs4411_p.Base.{
  ℕ, ◌-◌, ◌^◌, ◌<◌, ◌≡◌, refl, sym, ◌∙◌, inl, inr, some, List, [], ◌∷◌, arith, ltb, Bool-cases,
  ==_refl, length, get_elem?, set, All, pos,
}
use cs4411_p.Base.{length-set, All-get_elem?, All-set}
use cs4411_p.Block.Store.{Store, View, Same, put, IsDisk}
use cs4411_p.Block.Combine.{CombineState, locate, read, write, on_store}
use cs4411_p.Block.Combine.Locate.{total, stores_view, Located, locate-Located}

module _ {B : Type 0} (D : Store B) (d : IsDisk D) where
  -- There is a number of inodes for each store, and all of them together fit an `int`.
  pub record Valid (s : CombineState D.State) : Type 0 where
    pub below_valid : All d.Valid s.below
    pub count : length s.below ≡ length s.belowninodes
    pub fits : total s.belowninodes < 2 ^ 31

  abbrev pub view : CombineState D.State → View B
  view s = stores_view D d s.below s.belowninodes

  in_total :
      (xs : List D.State) (sizes : List ℕ) (i o : ℕ) {v : B}
      → stores_view D d xs sizes i o ≡ some v
      → i < total sizes
  unfolding stores_view
  in_total [] sizes i o e = absurd (ground arith)
  in_total (t ∷ rest) [] i o e = absurd (ground arith)
  in_total (t ∷ rest) (n ∷ sizes) i o {v} e = elim (Bool-cases (ltb i n)) [
    | inl here ↦ ground arith
    | inr later ↦ ground (arith, in_total rest sizes (i - n) o {v = v} (ground arith))
  ]

  located :
      (s : CombineState D.State) (i o : ℕ) {v : B}
      → Valid s
      → view s i o ≡ some v
      → Located D d s.below s.belowninodes i 0 (locate s.belowninodes i 0)
  located s i o ok e =
      locate-Located D d s.below s.belowninodes i 0 ok.count (in_total s.below s.belowninodes i o e)
        ok.fits

  Valid-set :
      (s : CombineState D.State) (j : ℕ) (t : D.State)
      → Valid s
      → d.Valid t
      → Valid (record s { below = set s.below j t })
  Valid-set s j t ok v = record {
    below_valid = All-set d.Valid s.below j t ok.below_valid v;
    count = omega (arith, length-set s.below j t, ok.count);
    fits = ok.fits;
  }

  read-at :
      (s : CombineState D.State) (i o j : ℕ) (b : B) {t : D.State}
      → (locate s.belowninodes i 0).0 ≡ j
      → get_elem? s.below j ≡ some t
      → let (r, b', t') = D.read t (locate s.belowninodes i 0).1 o b in
        read D s i o b ≡ (r, b', record s { below = set s.below j t' })
  unfolding read
  read-at s i o j b {t} e f =
      let g : get_elem? s.below (locate s.belowninodes i 0).0 ≡ some t = rw e f in
      rw (g, read) (rw e refl)

  write-at :
      (s : CombineState D.State) (i o j : ℕ) (b : B) {t : D.State}
      → (locate s.belowninodes i 0).0 ≡ j
      → get_elem? s.below j ≡ some t
      → let (r, t') = D.write t (locate s.belowninodes i 0).1 o b in
        write D s i o b ≡ (r, record s { below = set s.below j t' })
  unfolding write
  write-at s i o j b {t} e f =
      let g : get_elem? s.below (locate s.belowninodes i 0).0 ≡ some t = rw e f in
      rw (g, on_store) (rw e refl)

  -- For stores that keep the contract of block_store.h, with a number of inodes each and fewer than
  -- 2^31 in all: a read of a block in range returns 0 and that block, where the inodes of the
  -- combined store are those of the stores below in order, and changes no contents.
  pub combine_read :
      (s : CombineState D.State) (i o : ℕ) (b v : B)
      → Valid s
      → view s i o ≡ some v
      → let (r, b', s') = read D s i o b in
        (r ≡ pos 0) × (b' ≡ v) × Valid s' × Same (view s') (view s)
  combine_read s i o b v ok e =
      let l = located s i o ok e in
      let m = (locate s.belowninodes i 0).1 in
      let at : (locate s.belowninodes i 0).0 ≡ l.j = omega (arith, l.index) in
      let valid = All-get_elem? d.Valid s.below l.j ok.below_valid l.found in
      let (r0, b0, v0, same) = d.read_some l.t m o b v valid (sym (l.same o) ∙ e) in
      rw (read-at s i o l.j b at l.found) (
        r0,
        b0,
        Valid-set s l.j _ ok v0,
        λ j p.
            ground
              (arith, l.changed (D.read l.t m o b).2 (λ a r _. same a r) j p, same m p, l.same p),
      )

  -- For stores that keep the contract of block_store.h, with a number of inodes each and fewer than
  -- 2^31 in all: a write to a block in range returns 0 and changes the contents of the combined
  -- store at that block alone.
  pub combine_write :
      (s : CombineState D.State) (i o : ℕ) (b v : B)
      → Valid s
      → view s i o ≡ some v
      → let (r, s') = write D s i o b in
        (r ≡ pos 0) × Valid s' × Same (view s') (put (view s) i o b)
  combine_write s i o b v ok e =
      let l = located s i o ok e in
      let m = (locate s.belowninodes i 0).1 in
      let at : (locate s.belowninodes i 0).0 ≡ l.j = omega (arith, l.index) in
      let valid = All-get_elem? d.Valid s.below l.j ok.below_valid l.found in
      let (r0, v0, new) = d.write_some l.t m o b v valid (sym (l.same o) ∙ e) in
      rw (write-at s i o l.j b at l.found) (
        r0,
        Valid-set s l.j _ ok v0,
        λ j p. ground (
          arith,
          l.changed (D.write l.t m o b).1 (λ a r h. ground (arith, new a r, h)) j p,
          new m p,
          l.same p,
          ==_refl m,
        ),
      )
