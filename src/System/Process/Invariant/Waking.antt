-- ===== src/System/Process/Invariant/Waking.antt =====
-- `proc_wakeup` and `proc_send` of grass/process.c.
use cs4411_p.Base.{
  ℕ, ◌+◌, ◌<◌, ◌≡◌, refl, sym, ap, inl, inr, true, some, [], ◌∷◌, ◌++◌, arith, ◌==◌, Bool-cases,
}
use cs4411_p.System.Process.{
  max_procs, runnable, waiting, Process, Kernel, ◌>>=◌, is_runnable, is_waiting, update, set_proc,
  proc_to_runqueue, run_unless_current, awake, clear_waiting, proc_wakeup,
}
use cs4411_p.System.Process.Invariant.{flags, Valid, update-update}
use cs4411_p.System.Process.Invariant.Moves.{queues_after, Valid-wake}
use cs4411_p.System.Process.Invariant.Keeping.{Keeps, Keeps-update, Buries, Buries-update, Safe}

-- A process that runs or is to run, in its queue.
abbrev pub woken : Kernel → ℕ → Process → Kernel
woken k i p = record k {
  procs = update k.procs i p;
  runnable_mlfq = queues_after k i p.priority_level;
  nrunnable = k.nrunnable + 1;
}

-- A process is made runnable, goes to its run queue unless it is the current one, and is changed.
pub woken_lem :
    (k : Kernel) (i : ℕ) (p : Process) (f : Process → Process)
    → p.state ≡ runnable
    → (f p).priority_level ≡ p.priority_level
    → (run_unless_current i (record k { procs = update k.procs i p; nrunnable = k.nrunnable + 1 })
        >>= λ k'. some (set_proc k' i (f (k'.procs i))))
      ≡ some (woken k i (f p))
unfolding proc_to_runqueue
woken_lem k i p f s l =
    let t : (i == i) ≡ true = ground arith in
    let rs : is_runnable p.state ≡ true = rw s refl in
    elim (Bool-cases (i == k.current)) [
      | inl y ↦ rw y (rw t (rw (update-update k.procs i p (f p)) refl))
      | inr n ↦
          rw (n, proc_to_runqueue)
            (rw t (
              rw rs (
                rw t (
                  rw (update-update k.procs i p (f p)) (
                    ap
                      (λ level. some (record k {
                        procs = update k.procs i (f p);
                        runnable_mlfq =
                            update k.runnable_mlfq level (k.runnable_mlfq level ++ i ∷ []);
                        nrunnable = k.nrunnable + 1;
                      }))
                      (sym l))))))
    ]

-- A process that waits wakes up.
pub woken-Safe :
    (d i : ℕ) (k : Kernel) (p : Process)
    → Valid d k
    → i < max_procs
    → (k.procs i).state ≡ waiting
    → p.state ≡ runnable
    → flags p ≡ 0
    → p.priority_level < 3
    → p.pid ≡ (k.procs i).pid
    → Valid d (woken k i p) × Keeps k (woken k i p) × Buries k (woken k i p)
woken-Safe d i k p v i-lt w s f l pid' = (
  Valid-wake d i k p v i-lt w s f l,
  Keeps-update k i p (queues_after k i p.priority_level) k.free_procs k.freeframes k.nprocs
      (k.nrunnable + 1) (λ h. rw w refl) pid',
  Buries-update k i p (λ z. ground (arith, z, w)),
)

pub proc_wakeup-Safe :
    (d i : ℕ) (k : Kernel)
    → Valid d k
    → i < max_procs
    → (k.procs i).state ≡ waiting
    → Safe d k (proc_wakeup i k)
unfolding proc_wakeup
proc_wakeup-Safe d i k v i-lt w =
    let p : Process = clear_waiting (awake (k.procs i)) in
    let (_, _, _, l, _) = v.slots i i-lt in
    let r : is_waiting (k.procs i).state ≡ true = rw w refl in
    let (v', kp, z) = woken-Safe d i k p v i-lt w refl refl l refl in
    (
      woken k i p,
      rw (r, proc_wakeup) (woken_lem k i (awake (k.procs i)) clear_waiting refl refl),
      v',
      kp,
      z,
    )
