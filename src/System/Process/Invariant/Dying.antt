-- ===== src/System/Process/Invariant/Dying.antt =====
-- `proc_term` and `proc_zap` of grass/process.c.
use cs4411_p.Base.{
  ℕ, zero, suc, ◌-◌, ◌<◌, ◌≡◌, refl, ap, ◌∙◌, inl, inr, true, false, ◌&&◌, some, List, arith, ◌==◌,
  ltb, Bool-cases, Option-cases, ℤ,
}
use cs4411_p.System.Process.{
  max_procs, State, free, runnable, waiting, zombie, event, Process, Kernel, ◌>>=◌, is_free,
  is_waiting, is_zombie, proc_find,
}
use cs4411_p.System.Process.Death.{
  virt_pages, fail_rpcs, frames_from, tell_owner, as_zombie, add_frames, proc_term,
}
use cs4411_p.System.Process.Invariant.{Valid}
use cs4411_p.System.Process.Invariant.Keeping.{
  Keeps, Keeps-refl, Keeps-trans, Keeps-update, Safe, Safe->>=,
}
use cs4411_p.System.Process.Invariant.Waking.{proc_wakeup-Safe}
use cs4411_p.System.Process.Invariant.Sending.{proc_send-Answers, if_true, if_false}

pub is_waiting_lem : (s : State) → is_waiting s ≡ true → s ≡ waiting
is_waiting_lem free e = ground arith
is_waiting_lem runnable e = ground arith
is_waiting_lem waiting e = refl
is_waiting_lem zombie e = ground arith

fail_rpcs-Safe : (n pid d : ℕ) (k : Kernel) → Valid d k → Safe d k (fail_rpcs n pid k)
unfolding fail_rpcs
fail_rpcs-Safe zero pid d k v = (k, refl, v, Keeps-refl k, λ i z. z)
fail_rpcs-Safe (suc n) pid d k v =
    let i : ℕ = max_procs - suc n in
    let p : Process = k.procs i in
    Safe->>= d d k _ (fail_rpcs n pid)
      (elim (Bool-cases (is_waiting p.state && p.replies.waiting' && (p.server == pid))) [
        | inl y ↦
            let (k1, e, v1, kp, z) =
              proc_wakeup-Safe d i k v (omega arith) (is_waiting_lem p.state (ground (arith, y))) in
            (k1, if_true _ _ _ y ∙ e, v1, kp, z)
        | inr n1 ↦ (k, if_false _ _ _ n1, v, Keeps-refl k, λ i z. z)
      ])
      (λ k1 v1 kp z. fail_rpcs-Safe n pid d k1 v1)

tell_owner-Safe :
    (encode : ℕ → ℤ → List ℕ) (p : Process) (status : ℤ) (d : ℕ) (k : Kernel)
    → Valid d k
    → Safe d k (tell_owner encode p status k)
unfolding tell_owner
tell_owner-Safe encode p status d k v = elim (Option-cases (proc_find p.owner k)) [
  | inl e ↦ rw (e, tell_owner) (k, refl, v, Keeps-refl k, λ i z. z)
  | inr (o, e) ↦
      let (b, k1, e1, v1, kp, z) =
        proc_send-Answers d p.pid p.uid (k.procs o).pid event (encode p.pid status) k v in
      rw (e, e1, tell_owner) (k1, refl, v1, kp, z)
]

-- The free frames do not matter.
Valid-frames : (d : ℕ) (k : Kernel) (frames : List ℕ) → Valid d k → Valid d (add_frames frames k)
Valid-frames d k frames v = record {
  slots = v.slots;
  outside = v.outside;
  live = v.live;
  running = v.running;
  current-lt = v.current-lt;
  handled-lt = v.handled-lt;
  handled = v.handled;
}

Keeps-frames : (k k' : Kernel) (frames : List ℕ) → Keeps k k' → Keeps k (add_frames frames k')
Keeps-frames k k' frames a = record {
  current-same = a.current-same;
  pid_gen-same = a.pid_gen-same;
  live-before = a.live-before;
  pid-same = a.pid-same;
}

module _ (encode : ℕ → ℤ → List ℕ) (status : ℤ) (i : ℕ) (k : Kernel) where
  -- The process ends; it was not a zombie, and the state with it as a zombie is valid.
  pub term-Safe :
      (d : ℕ)
      → is_free (k.procs i).state ≡ false
      → is_zombie (k.procs i).state ≡ false
      → 0 < k.nprocs
      → Valid d (as_zombie i k)
      → (k' : Kernel) × (proc_term encode i status k ≡ some k')
        × Valid d k'
        × Keeps k k'
        × ((k'.procs i).state ≡ zombie)
  unfolding proc_term
  term-Safe d live z pos' v =
      let p : Process = k.procs i in
      let (k2, e2, v2, kp2, z2) =
        Safe->>= d d (as_zombie i k) (tell_owner encode p status (as_zombie i k))
          (fail_rpcs max_procs p.pid) (tell_owner-Safe encode p status d (as_zombie i k) v)
          (λ k1 v1 kp z. fail_rpcs-Safe max_procs p.pid d k1 v1) in
      let t : ltb 0 k.nprocs ≡ true = ground arith in
      let kp : Keeps k (as_zombie i k) =
        Keeps-update k i (record p { state = zombie }) k.runnable_mlfq k.free_procs k.freeframes
          k.nprocs (as_zombie i k).nrunnable (λ h. live) refl in
      (
        add_frames (frames_from virt_pages p.pages) k2,
        if_true _ _ _ t
            ∙ ap (λ r. r >>= λ k2. some (add_frames (frames_from virt_pages p.pages) k2))
                (if_false _ _ _ z ∙ e2),
        Valid-frames d k2 _ v2,
        Keeps-frames k k2 _ (Keeps-trans k (as_zombie i k) k2 kp kp2),
        z2 i (let u : (i == i) ≡ true = ground arith in rw u refl),
      )
