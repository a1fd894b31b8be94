-- ===== src/System/Process/Invariant/Moves.antt =====
-- The changes of the processes' states in grass/process.c.
use cs4411_p.Base.{
  ℕ, zero, suc, ◌+◌, ◌≤◌, ◌<◌, ◌≡◌, refl, ◌∙◌, ◌≢◌, inl, inr, true, false, ◌||◌, List, [], ◌∷◌,
  ◌++◌, arith, ◌==◌, Bool-cases, if◌then◌else◌,
}
use cs4411_p.System.Process.{
  max_procs, free, runnable, waiting, zombie, Process, Kernel, is_free, is_runnable, update,
  set_proc, dec,
}
use cs4411_p.System.Process.Invariant.{
  count-update, is_live, is_queued, flags, Valid, occ-append, queued-join, Valid-change,
}

abbrev pub queues_after : Kernel → ℕ → ℕ → ℕ → List ℕ
queues_after k i level =
    if i == k.current
    then k.runnable_mlfq
    else update k.runnable_mlfq level (k.runnable_mlfq level ++ i ∷ [])

pub dec_lem : (n : ℕ) → 0 < n → dec n + 1 ≡ n
dec_lem zero h = absurd (omega arith)
dec_lem (suc n) h = omega arith

module _ (d i : ℕ) (k : Kernel) (p : Process) (v : Valid d k) (i-lt : i < max_procs) where
  handled-keep :
      is_queued p.state ≡ true → ((d == k.current) || is_queued (update k.procs i p d).state) ≡ true
  handled-keep e = elim (Bool-cases (i == d)) [
    | inl y ↦ ground (arith, e)
    | inr n ↦ ground (arith, v.handled)
  ]

  pub nrunnable-positive : (k.procs i).state ≡ runnable → 0 < k.nrunnable
  nrunnable-positive w = ground (
    arith,
    w,
    v.running,
    count-update is_runnable k.procs i (record p { state = zombie }) max_procs i-lt,
  )

  pub nprocs-positive : is_free (k.procs i).state ≡ false → 0 < k.nprocs
  nprocs-positive w =
      ground (
        arith,
        w,
        v.live,
        count-update is_live k.procs i (record p { state = free }) max_procs i-lt,
      )

  waiting-free : (k.procs i).state ≡ waiting → (i == k.current) ≡ false → (i == d) ≡ false
  waiting-free w n = elim (Bool-cases (i == d)) [
    | inl y ↦
        let e : i ≡ d = ground arith in
        let h : ((i == k.current) || is_queued (k.procs i).state) ≡ true = rw e v.handled in
        absurd (ground (arith, h, w, n))
    | inr m ↦ m
  ]

  -- A process changes, but not its state.
  pub Valid-keep :
      p.state ≡ (k.procs i).state
      → flags p ≡ flags (k.procs i)
      → p.priority_level < 3
      → Valid d (set_proc k i p)
  Valid-keep s f l =
      let (q, r, fl, lv, hd) = v.slots i i-lt in
      Valid-change d d k.current i k p k.runnable_mlfq k.free_procs k.nprocs k.nrunnable v i-lt
        v.handled-lt v.current-lt
        (elim (Bool-cases (i == d)) [
          | inl y ↦ let e : i ≡ d = ground arith in rw (y, s) (rw e v.handled)
          | inr n ↦ rw n v.handled
        ])
        (λ j ne. (refl, refl, refl)) (rw (s, f) (q, r, fl, l, hd)) (rw s refl) (rw s refl)

  -- A waiting process becomes runnable.
  pub Valid-wake :
      (k.procs i).state ≡ waiting
      → p.state ≡ runnable
      → flags p ≡ 0
      → p.priority_level < 3
      → Valid d (record k {
        procs = update k.procs i p;
        runnable_mlfq = queues_after k i p.priority_level;
        nrunnable = k.nrunnable + 1;
      })
  Valid-wake w s f l =
      let (q, r, fl, lv, hd) = v.slots i i-lt in
      Valid-change d d k.current i k p (queues_after k i p.priority_level) k.free_procs k.nprocs
        (k.nrunnable + 1) v i-lt v.handled-lt v.current-lt (handled-keep (rw s refl))
        (λ j ne. (
          elim (Bool-cases (i == k.current)) [
            | inl y ↦ rw y refl
            | inr n ↦ rw n (ground (arith, queued-join k.runnable_mlfq p.priority_level i j l))
          ],
          refl,
          refl,
        ))
        (
          elim (Bool-cases (i == k.current)) [
            | inl y ↦ rw y (ground (arith, q, w))
            | inr n ↦
                rw (n, waiting-free w n, s)
                  (ground (arith, q, w, queued-join k.runnable_mlfq p.priority_level i i l))
          ],
          r ∙ rw (w, s) refl,
          rw (s, f) (omega arith),
          l,
          rw s (ground arith),
        )
        (rw (w, s) refl) (rw (w, s) (omega arith))

  -- A runnable process becomes a zombie.
  pub Valid-die :
      (k.procs i).state ≡ runnable
      → p.state ≡ zombie
      → flags p ≡ flags (k.procs i)
      → p.priority_level < 3
      → Valid d (record k { procs = update k.procs i p; nrunnable = dec k.nrunnable })
  Valid-die w s f l =
      let (q, r, fl, lv, hd) = v.slots i i-lt in
      Valid-change d d k.current i k p k.runnable_mlfq k.free_procs k.nprocs (dec k.nrunnable) v
        i-lt v.handled-lt v.current-lt (handled-keep (rw s refl)) (λ j ne. (refl, refl, refl))
        (
          q ∙ rw (w, s) refl,
          r ∙ rw (w, s) refl,
          rw (s, f) (ground (arith, fl, w)),
          l,
          rw s (ground arith),
        )
        (rw (w, s) refl) (rw (w, s) (omega (arith, dec_lem k.nrunnable (nrunnable-positive w))))

  -- A waiting process becomes a zombie in no run queue, which is then handled.
  pub Valid-die_waiting :
      d ≡ k.current
      → (k.procs i).state ≡ waiting
      → p.state ≡ zombie
      → flags p ≡ flags (k.procs i)
      → p.priority_level < 3
      → Valid i (set_proc k i p)
  Valid-die_waiting c w s f l =
      let (q, r, fl, lv, hd) = v.slots i i-lt in
      let t : (i == i) ≡ true = ground arith in
      Valid-change d i k.current i k p k.runnable_mlfq k.free_procs k.nprocs k.nrunnable v i-lt i-lt
        v.current-lt (rw (t, s) (ground arith)) (λ j ne. (refl, refl, ground (arith, c, ne)))
        (
          ground (arith, q, w),
          r ∙ rw (w, s) refl,
          rw (s, f) (ground (arith, fl, w)),
          l,
          rw s (ground arith),
        )
        (rw (w, s) refl) (rw (w, s) refl)

  -- The handled zombie is released.
  pub Valid-release :
      i ≡ d
      → d ≢ k.current
      → (k.procs i).state ≡ zombie
      → p.state ≡ free
      → flags p ≤ 1
      → p.priority_level < 3
      → Valid k.current (record k {
        procs = update k.procs i p;
        nprocs = dec k.nprocs;
        free_procs = k.free_procs ++ i ∷ [];
      })
  Valid-release e c w s f l =
      let (q, r, fl, lv, hd) = v.slots i i-lt in
      Valid-change d k.current k.current i k p k.runnable_mlfq (k.free_procs ++ i ∷ [])
        (dec k.nprocs) k.nrunnable v i-lt v.current-lt v.current-lt (ground arith)
        (λ j ne. (refl, ground (arith, occ-append j k.free_procs (i ∷ [])), ground (arith, e, ne)))
        (
          ground (arith, q, w, s, e),
          ground (arith, r, w, s, occ-append i k.free_procs (i ∷ [])),
          rw s f,
          l,
          ground (arith, e, c),
        )
        (rw (w, s) (omega (arith, dec_lem k.nprocs (nprocs-positive (rw w refl))))) (rw (w, s) refl)
