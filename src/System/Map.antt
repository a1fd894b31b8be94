-- ===== src/System/Map.antt =====
-- lib/map.c: a binary tree by the hash of the key, with a list of the keys at each hash. A key is its
-- bytes, and `key_size` is their number. The cache of released list nodes is not modelled: a node
-- from it has its data cleared, as a fresh one has.
pub mod Laws
use cs4411_p.Base.{
  ℕ, ◌+◌, ◌-◌, ◌*◌, ◌%◌, ◌^◌, Bool, true, false, ◌&&◌, Option, none, some, List, [], ◌∷◌, map, ◌==◌,
  ltb, if◌then◌else◌, u32_mod,
}

abbrev pub Key : Type 0
Key = List ℕ

-- `memcmp(a, b, key_size) == 0` for keys of one size, and the test of the sizes.
unfoldable pub same_key : Key → Key → Bool
same_key [] [] = true
same_key [] (y ∷ b) = false
same_key (x ∷ a) [] = false
same_key (x ∷ a) (y ∷ b) = (x == y) && same_key a b

-- `sdbm_hash`, from the hash of the bytes before; shifts and sums wrap at 32 bits.
unfoldable pub sdbm_hash_from : ℕ → Key → ℕ
sdbm_hash_from h [] = h
sdbm_hash_from h (c ∷ key) =
    sdbm_hash_from ((c + h * 2 ^ 6 + h * 2 ^ 16 + u32_mod * 2 ^ 16 - h) % u32_mod) key

unfoldable pub sdbm_hash : Key → ℕ
unfolding sdbm_hash_from
sdbm_hash key = sdbm_hash_from 0 key

-- `struct bin_list_node`, without its `next`.
pub record Entry (V : Type 0) : Type 0 where
  pub key : Key
  pub data' : V

-- `struct map *`: null, or a node with its hash, its list and its two children.
pub data Tree (V : Type 0) : Type 0 where
  leaf : Tree V
  node : ℕ → List (Entry V) → Tree V → Tree V → Tree V

-- `null` is the null pointer among the values.
module _ {V : Type 0} (null : V) where
  unfoldable pub map_list_lookup : List (Entry V) → Key → V
  unfolding same_key
  map_list_lookup [] key = null
  map_list_lookup (e ∷ list) key = if same_key e.key key then e.data' else map_list_lookup list key

  -- The walk of `map_lookup`, for a key with hash `h`.
  unfoldable pub lookup_at : ℕ → Tree V → Key → V
  unfolding map_list_lookup
  lookup_at h leaf key = null
  lookup_at h (node hash list left right) key =
      let below = if ltb hash h then lookup_at h right key else lookup_at h left key in
      if hash == h then map_list_lookup list key else below

  unfoldable pub map_lookup : Tree V → Key → V
  unfolding lookup_at sdbm_hash
  map_lookup map key = lookup_at (sdbm_hash key) map key

  -- `map_insert` returns a pointer to the data of the key. Here `put` is what the caller does to the
  -- data through it. First the data of a key that is there.
  unfoldable pub update : List (Entry V) → Key → (V → V) → Option (List (Entry V))
  unfolding same_key
  update [] key put = none
  update (e ∷ list) key put =
      if same_key e.key key
      then some (record e { data' = put e.data' } ∷ list)
      else elim (update list key put) [ none ↦ none | some list' ↦ some (e ∷ list') ]

  unfoldable pub map_list_insert : List (Entry V) → Key → (V → V) → List (Entry V)
  unfolding update
  map_list_insert list key put = elim (update list key put) [
    | none ↦ record { key = key; data' = put null } ∷ list
    | some list' ↦ list'
  ]

  unfoldable pub insert_at : ℕ → Tree V → Key → (V → V) → Tree V
  unfolding map_list_insert
  insert_at h leaf key put = node h (map_list_insert [] key put) leaf leaf
  insert_at h (node hash list left right) key put =
      let below =
        if ltb hash h
        then node hash list left (insert_at h right key put)
        else node hash list (insert_at h left key put) right in
      if hash == h then node hash (map_list_insert list key put) left right else below

  unfoldable pub map_insert : Tree V → Key → (V → V) → Tree V
  unfolding insert_at sdbm_hash
  map_insert map key put = insert_at (sdbm_hash key) map key put

module _ {V Env : Type 0} (upcall : Env → Key → V → Env) where
  unfoldable pub map_list_iter : Env → List (Entry V) → Env
  map_list_iter env [] = env
  map_list_iter env (e ∷ list) = map_list_iter (upcall env e.key e.data') list

  -- `upcall` returns what it leaves in its environment.
  unfoldable pub map_iter : Env → Tree V → Env
  unfolding map_list_iter
  map_iter env leaf = env
  map_iter env (node hash list left right) = map_iter (map_list_iter (map_iter env left) list) right
