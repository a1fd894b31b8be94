-- ===== src/System/Map/Laws.antt =====
-- lib/map.c against a function from keys to values.
use cs4411_p.Base.{
  ℕ, ◌≡◌, refl, ap, ◌↔◌, inl, inr, true, none, some, List, [], ◌∷◌, arith, ◌==◌, ltb, Bool-cases,
  Option-cases, ==_iff, if◌then◌else◌,
}
use cs4411_p.System.Map.{
  Key, same_key, sdbm_hash, Entry, Tree, leaf, node, map_list_lookup, lookup_at, map_lookup, update,
  map_list_insert, insert_at, map_insert,
}

pub same_key_iff : (a b : Key) → (same_key a b ≡ true) ↔ (a ≡ b)
unfolding same_key
same_key_iff [] [] = ground arith
same_key_iff [] (y ∷ b) = ground arith
same_key_iff (x ∷ a) [] = ground arith
same_key_iff (x ∷ a) (y ∷ b) = ground (arith, same_key_iff a b, ==_iff x y)

module _ {V : Type 0} (null : V) where
  update-lookup :
      (list list' : List (Entry V)) (key : Key) (put : V → V) (k : Key)
      → update null list key put ≡ some list'
      → map_list_lookup null list' k ≡ (
          if same_key key k
          then put (map_list_lookup null list key)
          else map_list_lookup null list k)
  unfolding update map_list_lookup
  update-lookup [] list' key put k e = absurd (ground arith)
  update-lookup (x ∷ list) list' key put k e = elim (Bool-cases (same_key x.key key)) [
    | inl y ↦ ground (arith, same_key_iff x.key key)
    | inr n ↦ elim (Option-cases (update null list key put)) [
      | inl none' ↦ absurd (ground arith)
      | inr (rest, e') ↦ ground (
        arith,
        update-lookup list rest key put k e',
        same_key_iff x.key key,
        same_key_iff x.key k,
        same_key_iff key k,
      )
    ]
  ]

  update-none :
      (list : List (Entry V)) (key : Key) (put : V → V)
      → update null list key put ≡ none
      → map_list_lookup null list key ≡ null
  unfolding update map_list_lookup
  update-none [] key put e = refl
  update-none (x ∷ list) key put e = elim (Option-cases (update null list key put)) [
    | inl none' ↦ ground (arith, update-none list key put none')
    | inr (rest, e') ↦ absurd (ground arith)
  ]

  list_lookup-insert :
      (list : List (Entry V)) (key : Key) (put : V → V) (k : Key)
      → map_list_lookup null (map_list_insert null list key put) k ≡ (
          if same_key key k
          then put (map_list_lookup null list key)
          else map_list_lookup null list k)
  unfolding map_list_insert map_list_lookup
  list_lookup-insert list key put k = elim (Option-cases (update null list key put)) [
    | inl e ↦ rw (e, map_list_insert) (ground (arith, update-none list key put e))
    | inr (list', e) ↦ rw (e, map_list_insert) (update-lookup list list' key put k e)
  ]

  lookup_at-insert_at :
      (t : Tree V) (h h' : ℕ) (key k : Key) (put : V → V)
      → (same_key key k ≡ true → h ≡ h')
      → lookup_at null h' (insert_at null h t key put) k
        ≡ (if same_key key k then put (lookup_at null h t key) else lookup_at null h' t k)
  unfolding lookup_at insert_at
  lookup_at-insert_at leaf h h' key k put eq = ground (arith, eq)
  lookup_at-insert_at (node hash list left right) h h' key k put eq =
      elim (Bool-cases (hash == h)) [
        | inl y ↦ rw y (ground (arith, eq, list_lookup-insert list key put k))
        | inr n ↦ elim (Bool-cases (ltb hash h)) [
          | inl lt' ↦ rw (n, lt') (ground (arith, eq, lookup_at-insert_at right h h' key k put eq))
          | inr ge ↦ rw (n, ge) (ground (arith, eq, lookup_at-insert_at left h h' key k put eq))
        ]
      ]

  -- After `*map_insert(&map, key) = f(*map_insert(&map, key))`, `map_lookup` gives for the key `f`
  -- of what it gave before (of null if there was nothing), and for every other key what it gave
  -- before; for any tree, also one in which keys have the same hash.
  pub lookup-insert :
      (t : Tree V) (key k : Key) (put : V → V)
      → map_lookup null (map_insert null t key put) k
        ≡ (if same_key key k then put (map_lookup null t key) else map_lookup null t k)
  unfolding map_lookup map_insert
  lookup-insert t key k put =
      lookup_at-insert_at t (sdbm_hash key) (sdbm_hash k) key k put
        (λ e. ap sdbm_hash ((same_key_iff key k).0 e))
