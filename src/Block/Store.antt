-- ===== src/Block/Store.antt =====
-- h/egos/block_store.h: the interface that every block store offers and that the layers stand on,
-- and the contract of an array of blocks.
use cs4411_p.Base.{ℕ, ◌≡◌, Option, none, some, ◌&&◌, ◌==◌, if◌then◌else◌, ℤ, pos, minus_one}

-- `block_store_t`. A method takes the state behind `this_bs` and returns its result and the new
-- state. `read` takes what `*block` holds before the call and returns what it holds after.
-- Inode numbers and offsets are `unsigned int`.
pub record Store (B : Type 0) : Type 1 where
  pub State : Type 0
  pub getninodes : State → ℤ × State
  pub getsize : State → ℕ → ℤ × State
  pub setsize : State → ℕ → ℕ → ℤ × State
  pub read : State → ℕ → ℕ → B → ℤ × B × State
  pub write : State → ℕ → ℕ → B → ℤ × State
  pub sync : State → ℕ → ℤ × State

-- What a store holds at each inode number and offset; `none` is out of range.
abbrev pub View : Type 0 → Type 0
View B = ℕ → ℕ → Option B

-- Two views hold the same everywhere.
abbrev pub Same : {B : Type 0} → View B → View B → Type 0
Same v w = (j p : ℕ) → v j p ≡ w j p

-- The view after a write.
abbrev pub put : {B : Type 0} → View B → ℕ → ℕ → B → View B
put v i o b j p = if j == i && p == o then some b else v j p

-- What block_store.h says of `read`, `write` and `sync`: in range they return 0, a read gives what
-- was written last and changes nothing, a write changes that one block, a read out of range
-- returns -1, and `sync` and the read of a size change no contents.
pub record IsDisk {B : Type 0} (D : Store B) : Type 1 where
  pub Valid : D.State → Type 0
  pub view : D.State → View B
  pub read_some :
      (s : D.State) (i o : ℕ) (b v : B)
      → Valid s
      → view s i o ≡ some v
      → let (r, b', s') = D.read s i o b in
        (r ≡ pos 0) × (b' ≡ v) × Valid s' × Same (view s') (view s)
  pub read_none :
      (s : D.State) (i o : ℕ) (b : B)
      → Valid s
      → view s i o ≡ none
      → let (r, b', s') = D.read s i o b in (r ≡ minus_one) × Valid s' × Same (view s') (view s)
  pub write_some :
      (s : D.State) (i o : ℕ) (b v : B)
      → Valid s
      → view s i o ≡ some v
      → let (r, s') = D.write s i o b in
        (r ≡ pos 0) × Valid s' × Same (view s') (put (view s) i o b)
  pub sync_keeps :
      (s : D.State) (i : ℕ)
      → Valid s
      → let (r, s') = D.sync s i in Valid s' × Same (view s') (view s)
