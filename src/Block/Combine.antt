-- ===== src/Block/Combine.antt =====
-- block/combinedisk.c: the inodes of several stores, one store behind the other.
pub mod Locate
pub mod Laws
use cs4411_p.Base.{
  ℕ, ◌+◌, ◌-◌, ◌%◌, none, some, List, [], ◌∷◌, if◌then◌else◌, get_elem?, set, ℤ, pos, negsuc,
  minus_one, is_neg, to_int, u32_mod,
}
use cs4411_p.Block.Store.{Store}

-- `struct combinedisk_state`: the arrays `below` and `belowninodes`, with `nbelow` for their length.
-- The stores of one array are of one kind here.
pub record CombineState (S : Type 0) : Type 0 where
  pub below : List S
  pub belowninodes : List ℕ

-- `unsigned int` subtraction.
unfoldable pub sub_uint : ℕ → ℕ → ℕ
sub_uint a b = (a + u32_mod - b) % u32_mod

-- The conversion of an `int` to `unsigned int`.
unfoldable pub to_uint : ℤ → ℕ
to_uint (pos n) = n
to_uint (negsuc n) = u32_mod - 1 - n

-- The loop `while ((int) (nino - cs->belowninodes[i]) >= 0)` that stands in each method, over the
-- part of the array that is left: the index `i` and the inode number `nino` where it ends. The
-- source does not stop at the end of the array; the loop ends there here, with `i` past the end.
unfoldable pub locate : List ℕ → ℕ → ℕ → ℕ × ℕ
unfolding sub_uint
locate [] nino i = (i, nino)
locate (n ∷ sizes) nino i =
    let next = locate sizes (sub_uint nino n) (i + 1) in
    if is_neg (to_int (sub_uint nino n)) then (i, nino) else next

-- The sum is an `unsigned int`, returned as an `int`.
unfoldable pub sum_ninodes : List ℕ → ℕ → ℕ
sum_ninodes [] total = total
sum_ninodes (n ∷ sizes) total = sum_ninodes sizes ((total + n) % u32_mod)

module _ {B : Type 0} (D : Store B) where
  unfoldable pub getninodes : CombineState D.State → ℤ × CombineState D.State
  unfolding sum_ninodes
  getninodes s = (to_int (sum_ninodes s.belowninodes 0), s)

  -- The call of a method of the store `below[i]`; -1 where there is none, which the source does not
  -- rule out.
  abbrev pub on_store :
      CombineState D.State → ℕ → (D.State → ℤ × D.State) → ℤ × CombineState D.State
  on_store s i method = elim (get_elem? s.below i) [
    | none ↦ (minus_one, s)
    | some t ↦ let (r, t') = method t in (r, record s { below = set s.below i t' })
  ]

  unfoldable pub getsize : CombineState D.State → ℕ → ℤ × CombineState D.State
  unfolding locate
  getsize s ino =
      let (i, nino) = locate s.belowninodes ino 0 in on_store s i (λ t. D.getsize t nino)

  unfoldable pub setsize : CombineState D.State → ℕ → ℕ → ℤ × CombineState D.State
  unfolding locate
  setsize s ino nblocks =
      let (i, nino) = locate s.belowninodes ino 0 in on_store s i (λ t. D.setsize t nino nblocks)

  unfoldable pub read : CombineState D.State → ℕ → ℕ → B → ℤ × B × CombineState D.State
  unfolding locate
  read s ino offset b =
      let (i, nino) = locate s.belowninodes ino 0 in
      elim (get_elem? s.below i) [
        | none ↦ (minus_one, b, s)
        | some t ↦
            let (r, b', t') = D.read t nino offset b in
            (r, b', record s { below = set s.below i t' })
      ]

  unfoldable pub write : CombineState D.State → ℕ → ℕ → B → ℤ × CombineState D.State
  unfolding locate
  write s ino offset b =
      let (i, nino) = locate s.belowninodes ino 0 in on_store s i (λ t. D.write t nino offset b)

  unfoldable pub sync : CombineState D.State → ℕ → ℤ × CombineState D.State
  unfolding locate
  sync s ino = let (i, nino) = locate s.belowninodes ino 0 in on_store s i (λ t. D.sync t nino)

  -- The loop of `combinedisk_init`, which asks each store for its number of inodes.
  unfoldable pub ask_ninodes : List D.State → List D.State × List ℕ
  unfolding to_uint
  ask_ninodes [] = ([], [])
  ask_ninodes (t ∷ rest) =
      let (r, t') = D.getninodes t in
      let (stores, sizes) = ask_ninodes rest in (t' ∷ stores, to_uint r ∷ sizes)

  unfoldable pub init : List D.State → CombineState D.State
  unfolding ask_ninodes
  init below =
      let (stores, sizes) = ask_ninodes below in record { below = stores; belowninodes = sizes }

  -- The methods as `combinedisk_init` installs them.
  abbrev pub store : Store B
  store = record {
    State = CombineState D.State;
    getninodes = getninodes;
    getsize = getsize;
    setsize = setsize;
    read = read;
    write = write;
    sync = sync;
  }
