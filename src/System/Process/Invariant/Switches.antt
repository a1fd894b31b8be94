-- ===== src/System/Process/Invariant/Switches.antt =====
-- The changes of what grass/process.c handles: a process that is taken from the free ones or from
-- a run queue, and one that starts to run.
use cs4411_p.Base.{
  ℕ, zero, suc, ◌+◌, ◌≤◌, ◌<◌, ◌≡◌, refl, ap, ◌≢◌, inl, inr, true, false, List, [], ◌∷◌, ◌++◌,
  arith, ◌==◌, ltb, Bool-cases,
}
use cs4411_p.System.Process.{
  max_procs, State, free, runnable, waiting, zombie, Process, Kernel, is_free, update, dec, enqueue,
}
use cs4411_p.System.Process.Invariant.{
  occ, queued, one_if, is_queued, flags, held, Valid, occ-append, queued-join, Valid-change,
  Valid-move,
}
use cs4411_p.System.Process.Invariant.Moves.{dec_lem, nprocs-positive}

is_free_lem : (s : State) → is_free s ≡ true → s ≡ free
is_free_lem free e = refl
is_free_lem runnable e = ground arith
is_free_lem waiting e = ground arith
is_free_lem zombie e = ground arith

is_queued-live : (s : State) → is_queued s ≡ true → is_free s ≡ false
is_queued-live free e = ground arith
is_queued-live runnable e = refl
is_queued-live waiting e = refl
is_queued-live zombie e = refl

-- A process leaves the front of the queue of a level.
queued-leave :
    (queues : ℕ → List ℕ) (level i j : ℕ) (rest : List ℕ)
    → level < 3
    → queues level ≡ i ∷ rest
    → queued (update queues level rest) j + one_if (j == i) ≡ queued queues j
queued-leave queues zero i j rest h e = omega (arith, ap (occ j) e)
queued-leave queues (suc zero) i j rest h e = omega (arith, ap (occ j) e)
queued-leave queues (suc (suc zero)) i j rest h e = omega (arith, ap (occ j) e)
queued-leave queues (suc (suc (suc n))) i j rest h e = absurd (omega arith)

module _ (k : Kernel) (i : ℕ) (v : Valid k.current k) where
  -- The first of the free processes is set up.
  pub Valid-alloc :
      (rest : List ℕ) (p : Process)
      → k.free_procs ≡ i ∷ rest
      → p.state ≡ runnable
      → flags p ≡ 0
      → p.priority_level < 3
      → Valid i (record k {
        procs = update k.procs i p;
        free_procs = rest;
        nprocs = k.nprocs + 1;
        nrunnable = k.nrunnable + 1;
      })
        × (i < max_procs)
        × ((k.procs i).state ≡ free)
        × (i ≢ k.current)
  Valid-alloc rest p e s f l =
      let once : occ i k.free_procs ≡ suc (occ i rest) = ground (arith, ap (occ i) e) in
      let i-lt : i < max_procs = elim (Bool-cases (ltb i max_procs)) [
        | inl y ↦ ground arith
        | inr n ↦ absurd (ground (arith, once, (v.outside i (ground arith)).1))
      ] in
      let (q, r, fl, lv, hd) = v.slots i i-lt in
      let w : (k.procs i).state ≡ free = is_free_lem (k.procs i).state (ground (arith, once, r)) in
      let ne : (i == k.current) ≡ false = ground (arith, hd, w) in
      (
        Valid-change k.current i k.current i k p k.runnable_mlfq rest (k.nprocs + 1)
            (k.nrunnable + 1) v i-lt i-lt v.current-lt
            (let t : (i == i) ≡ true = ground arith in rw (t, s) (ground arith))
            (λ j nj. (refl, ground (arith, ap (occ j) e), ground (arith, nj)))
            (
              rw ne (ground (arith, q, w, ne)),
              rw s (ground (arith, r, w, once)),
              rw s (ground (arith, f)),
              l,
              rw s (ground arith),
            )
            (rw (w, s) (omega arith)) (rw (w, s) (omega arith)),
        i-lt,
        w,
        ground (arith, ne),
      )

  -- The first of a run queue is taken.
  pub Valid-pop :
      (level : ℕ) (rest : List ℕ)
      → level < 3
      → k.runnable_mlfq level ≡ i ∷ rest
      → Valid i (record k { runnable_mlfq = update k.runnable_mlfq level rest })
        × (i < max_procs)
        × (is_queued (k.procs i).state ≡ true)
        × (i ≢ k.current)
  Valid-pop level rest l e =
      let leave : (j : ℕ)
          → queued (update k.runnable_mlfq level rest) j + one_if (j == i)
            ≡ queued k.runnable_mlfq j =
        λ j. queued-leave k.runnable_mlfq level i j rest l e in
      let i-lt : i < max_procs = elim (Bool-cases (ltb i max_procs)) [
        | inl y ↦ ground arith
        | inr n ↦ absurd (ground (arith, leave i, (v.outside i (ground arith)).0))
      ] in
      let (q, r, fl, lv, hd) = v.slots i i-lt in
      let ne : held k.current k.current i ≡ false = ground (arith, q, leave i) in
      let w : is_queued (k.procs i).state ≡ true = ground (arith, ne, q, leave i) in
      (
        Valid-move k.current i k.current i k (update k.runnable_mlfq level rest) v i-lt i-lt
            v.current-lt (rw w (ground arith))
            (λ j nj. (ground (arith, leave j), ground (arith, nj)))
            (ground (arith, leave i, q, ne, w))
            (ground (arith, w, is_queued-live (k.procs i).state)),
        i-lt,
        w,
        λ e'. ground (arith, ne, e'),
      )

module _ (next : ℕ) (k : Kernel) (v : Valid next k) (ne : next ≢ k.current) where
  -- The current process goes to a run queue.
  pub Valid-requeue :
      (k.procs k.current).state ≡ runnable
      → Valid next (record (enqueue k.current k) { current = next })
  Valid-requeue w =
      let (q, r, fl, lv, hd) = v.slots k.current v.current-lt in
      let t : (next == next) ≡ true = ground arith in
      let m : (k.current == next) ≡ false = ground (arith, ne) in
      let level : ℕ = (k.procs k.current).priority_level in
      let join = λ (j : ℕ). queued-join k.runnable_mlfq level k.current j lv in
      Valid-move next next next k.current k
        (update k.runnable_mlfq level (k.runnable_mlfq level ++ k.current ∷ [])) v v.current-lt
        v.handled-lt v.handled-lt (rw t refl)
        (λ j nj. (ground (arith, join j, nj), ground (arith, nj)))
        (rw (m, w) (ground (arith, join k.current, q))) (rw m refl)

  pub Valid-retire :
      (p : Process)
      → (k.procs k.current).state ≡ zombie
      → p.state ≡ free
      → flags p ≤ 1
      → p.priority_level < 3
      → Valid next (record k {
        procs = update k.procs k.current p;
        nprocs = dec k.nprocs;
        free_procs = k.free_procs ++ k.current ∷ [];
        current = next;
      })
  Valid-retire p w s f l =
      let (q, r, fl, lv, hd) = v.slots k.current v.current-lt in
      let t : (next == next) ≡ true = ground arith in
      let m : (k.current == next) ≡ false = ground (arith, ne) in
      Valid-change next next next k.current k p k.runnable_mlfq (k.free_procs ++ k.current ∷ [])
        (dec k.nprocs) k.nrunnable v v.current-lt v.handled-lt v.handled-lt (rw t refl)
        (λ j nj. (
          refl,
          ground (arith, nj, occ-append j k.free_procs (k.current ∷ [])),
          ground (arith, nj),
        ))
        (
          rw (m, s) (ground (arith, q)),
          rw s (ground (arith, r, w, occ-append k.current k.free_procs (k.current ∷ []))),
          rw s f,
          l,
          rw m refl,
        )
        (rw (w, s)
          (omega (
            arith,
            dec_lem k.nprocs (nprocs-positive next k.current k p v v.current-lt (rw w refl)),
          )))
        (rw (w, s) refl)

  pub Valid-leave : (k.procs k.current).state ≡ waiting → Valid next (record k { current = next })
  Valid-leave w =
      let (q, r, fl, lv, hd) = v.slots k.current v.current-lt in
      let t : (next == next) ≡ true = ground arith in
      let m : (k.current == next) ≡ false = ground (arith, ne) in
      Valid-move next next next k.current k k.runnable_mlfq v v.current-lt v.handled-lt v.handled-lt
        (rw t refl) (λ j nj. (refl, ground (arith, nj))) (rw (m, w) (ground (arith, q))) (rw m refl)
