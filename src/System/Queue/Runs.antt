-- ===== src/System/Queue/Runs.antt =====
-- Any sequence of calls of lib/queue.c, against a list.
use cs4411_p.Base.{◌<◌, ◌≡◌, refl, ap, Option, none, some, List, [], ◌∷◌, ◌++◌}
use cs4411_p.System.Queue.{Heap, Queue, queue_init, queue_insert, queue_add, queue_tget}
use cs4411_p.System.Queue.Fifo.{Holds, tget-Holds, add-Holds, insert-Holds, tget-none, init-Holds}

pub data Call (A : Type 0) : Type 0 where
  add : A → Call A
  insert : A → Call A
  get : Call A

module _ {A : Type 0} where
  -- What the calls of `queue_tget` return, one after the other.
  unfoldable pub run : Queue → Heap A → List (Call A) → List (Option A)
  unfolding queue_add queue_insert queue_tget
  run q h [] = []
  run q h (add x ∷ calls) = let (q', h') = queue_add q h x in run q' h' calls
  run q h (insert x ∷ calls) = let (q', h') = queue_insert q h x in run q' h' calls
  run q h (get ∷ calls) = elim (queue_tget q h) [
    | none ↦ none ∷ run q h calls
    | some (x, q', h') ↦ some x ∷ run q' h' calls
  ]

  -- The same of a list: added behind, inserted and taken in front.
  abbrev pub run_list : List A → List (Call A) → List (Option A)
  run_list xs [] = []
  run_list xs (add x ∷ calls) = run_list (xs ++ (x ∷ [])) calls
  run_list xs (insert x ∷ calls) = run_list (x ∷ xs) calls
  run_list [] (get ∷ calls) = none ∷ run_list [] calls
  run_list (x ∷ xs) (get ∷ calls) = some x ∷ run_list xs calls

  run-Holds :
      (q : Queue) (h : Heap A) (xs : List A) (calls : List (Call A))
      → Holds q h xs
      → run q h calls ≡ run_list xs calls
  unfolding run
  run-Holds q h xs [] s = refl
  run-Holds q h xs (add x ∷ calls) s = run-Holds _ _ (xs ++ (x ∷ [])) calls (add-Holds q h xs x s)
  run-Holds q h xs (insert x ∷ calls) s = run-Holds _ _ (x ∷ xs) calls (insert-Holds q h xs x s)
  run-Holds q h [] (get ∷ calls) s =
      rw (tget-none q h s, run) (ap (λ z. none ∷ z) (run-Holds q h [] calls s))
  run-Holds q h (x ∷ xs) (get ∷ calls) s =
      let (q', h', e, s') = tget-Holds q h x xs s in
      rw (e, run) (ap (λ z. some x ∷ z) (run-Holds q' h' xs calls s'))

  -- On memory whose free addresses are not 0: from a queue that `queue_init` sets up, after any
  -- sequence of `queue_add`, `queue_insert` and `queue_tget`, each `queue_tget` returns what a list
  -- does to which items are added behind and inserted in front and from whose front they are taken.
  pub run-run_list :
      (h : Heap A) (calls : List (Call A))
      → 0 < h.fresh
      → run queue_init h calls ≡ run_list [] calls
  run-run_list h calls p = run-Holds queue_init h [] calls (init-Holds h p)
