-- ===== src/System/Process/Invariant/Starting.antt =====
-- `proc_create_uid` and `proc_kill` of grass/process.c.
use mathlib.Core.Path.{subst}
use cs4411_p.Base.{
  ℕ, zero, suc, ◌+◌, ◌-◌, ◌%◌, ◌^◌, ◌<◌, ◌≡◌, refl, sym, ap, ◌∙◌, inl, inr, false, not, ◌&&◌, some,
  List, [], ◌∷◌, arith, ◌==◌, Bool-cases, Option-cases, if◌then◌else◌, ℤ,
}
use cs4411_p.System.Process.{
  max_procs, runnable, Process, Kernel, ◌>>=◌, is_free, is_runnable, is_zombie, update, new_process,
  alloc_from, enqueue, proc_to_runqueue, proc_find,
}
use cs4411_p.System.Process.Death.{proc_zap, zap_interruptable, proc_kill}
use cs4411_p.System.Process.Schedule.{start_process, proc_create_uid}
use cs4411_p.System.Process.Invariant.{Valid}
use cs4411_p.System.Process.Invariant.Switches.{Valid-alloc, Valid-requeue}
use cs4411_p.System.Process.Invariant.Keeping.{index-eq, Keeps, Keeps-refl, Keeps-trans, Goes}
use cs4411_p.System.Process.Invariant.Sending.{if_true, if_false, find_from-some}
use cs4411_p.System.Process.Invariant.Zapping.{proc_zap-Goes}
use cs4411_p.System.Process.Invariant.Choosing.{Settled}
use cs4411_p.System.Process.Invariant.Yielding.{Named, Keeps-Named, Holds}

-- The pid of a new process is new.
Named-new :
    (k : Kernel) (i : ℕ) (p : Process) (rest : List ℕ) (m r : ℕ)
    → Named k
    → p.pid ≡ k.pid_gen
    → k.pid_gen + 1 < 2 ^ 32
    → Named (record k {
      procs = update k.procs i p;
      free_procs = rest;
      pid_gen = (k.pid_gen + 1) % 2 ^ 32;
      nprocs = m;
      nrunnable = r;
    })
Named-new k i p rest m r n e small = record {
  unique = λ x y. elim (Bool-cases (i == x)) [
    | inl ix ↦ elim (Bool-cases (i == y)) [
      | inl iy ↦ λ lx ly same. sym (index-eq i x ix) ∙ index-eq i y iy
      | inr ny ↦ rw (ix, ny) (λ lx ly same. absurd (omega (arith, n.generated y ly, same, e)))
    ]
    | inr nx ↦ elim (Bool-cases (i == y)) [
      | inl iy ↦ rw (nx, iy) (λ lx ly same. absurd (omega (arith, n.generated x lx, same, e)))
      | inr ny ↦ rw (nx, ny) (n.unique x y)
    ]
  ];
  generated = λ x. elim (Bool-cases (i == x)) [
    | inl ix ↦ rw ix (λ lx. ground (arith, e, small))
    | inr nx ↦ rw nx (λ lx. ground (arith, n.generated x lx, small))
  ];
}

Valid-generator : (d g : ℕ) (k : Kernel) → Valid d k → Valid d (record k { pid_gen = g })
Valid-generator d g k v = record {
  slots = v.slots;
  outside = v.outside;
  live = v.live;
  running = v.running;
  current-lt = v.current-lt;
  handled-lt = v.handled-lt;
  handled = v.handled;
}

Named-moved : (k : Kernel) (c i : ℕ) → Named k → Named (record (enqueue c k) { current = i })
Named-moved k c i n = record { unique = n.unique; generated = n.generated }

start-Holds :
    (list : List ℕ) (owner uid : ℕ) (k : Kernel)
    → k.free_procs ≡ list
    → Settled k
    → Named k
    → (k.procs k.current).state ≡ runnable
    → k.pid_gen + 1 < 2 ^ 32
    → Holds (start_process (alloc_from list owner uid k) k)
unfolding start_process alloc_from proc_to_runqueue
start-Holds [] owner uid k e v n w small = (0, k, refl, v, n)
start-Holds (i ∷ rest) owner uid k e v n w small =
    let p : Process = new_process k.pid_gen owner uid in
    let k0 : Kernel = record k {
      procs = update k.procs i p;
      free_procs = rest;
      nprocs = k.nprocs + 1;
      nrunnable = k.nrunnable + 1;
    } in
    let k1 : Kernel = record k0 { pid_gen = (k.pid_gen + 1) % 2 ^ 32 } in
    let (v1, i-lt, f, ne) = Valid-alloc k i v rest p e refl refl (omega arith) in
    let far : (i == k.current) ≡ false = ground (arith, ne) in
    let w1 : (k1.procs k.current).state ≡ runnable = rw far w in
    let n1 : Named k1 = Named-new k i p rest (k.nprocs + 1) (k.nrunnable + 1) n refl small in
    (
      (k1.procs i).pid,
      record (enqueue k.current k1) { current = i },
      ap (λ r. r >>= λ k2. some ((k1.procs i).pid, record k2 { current = i }))
          (if_true _ _ _ (ap is_runnable w1)),
      Valid-requeue i k1 (Valid-generator i k1.pid_gen k0 v1) ne w1,
      Named-moved k1 k.current i n1,
    )

pub proc_create_uid-Holds :
    (owner uid : ℕ) (k : Kernel)
    → Settled k
    → Named k
    → (k.procs k.current).state ≡ runnable
    → k.pid_gen + 1 < 2 ^ 32
    → Holds (proc_create_uid owner uid k)
unfolding proc_create_uid
proc_create_uid-Holds owner uid k v n w small = elim (Bool-cases k.shutting_down) [
  | inl y ↦ (0, k, if_true _ _ _ y, v, n)
  | inr m ↦ elim (Option-cases (proc_find owner k)) [
    | inl e ↦ rw (m, e, proc_create_uid) (0, k, refl, v, n)
    | inr (parent, e) ↦
        let user : ℕ = if (k.procs parent).uid == 0 then uid else (k.procs parent).uid in
        let (a, k1, e1, v1, n1) = start-Holds k.free_procs owner user k refl v n w small in
        (a, k1, if_false _ _ _ m ∙ rw e e1, v1, n1)
  ]
]

module _ (encode : ℕ → ℤ → List ℕ) (status : ℤ) where
  zap_interruptable-Settled :
      (n by : ℕ) (k : Kernel)
      → Settled k
      → (k' : Kernel) × (zap_interruptable n encode by status k ≡ some k') × Settled k' × Keeps k k'
  unfolding zap_interruptable
  zap_interruptable-Settled zero by k v = (k, refl, v, Keeps-refl k)
  zap_interruptable-Settled (suc n) by k v =
      let i : ℕ = max_procs - suc n in
      let (k1, e1, v1, kp1) : Goes k.current k (
          if not (is_free (k.procs i).state) && (k.procs i).interruptable
          then proc_zap encode (some by) i status k
          else some k) =
        elim (Bool-cases (not (is_free (k.procs i).state) && (k.procs i).interruptable)) [
          | inl y ↦
              let (k1, e, v1, kp) =
                proc_zap-Goes encode status i k v (omega arith) (some by) (ground (arith, y)) in
              (k1, if_true _ _ _ y ∙ e, v1, kp)
          | inr m ↦ (k, if_false _ _ _ m, v, Keeps-refl k)
        ] in
      let s1 : Settled k1 = subst (λ c. Valid c k1) (sym kp1.current-same) v1 in
      let (k2, e2, v2, kp2) = zap_interruptable-Settled n by k1 s1 in
      (
        k2,
        ap (λ r. r >>= zap_interruptable n encode by status) e1 ∙ e2,
        v2,
        Keeps-trans k k1 k2 kp1 kp2,
      )

  pub proc_kill-Holds :
      (killer pid : ℕ) (k : Kernel)
      → Settled k
      → Named k
      → Holds (proc_kill encode killer pid status k)
  unfolding proc_kill
  proc_kill-Holds killer pid k v n = elim (Option-cases (proc_find killer k)) [
    | inl e ↦ rw (e, proc_kill) (false, k, refl, v, n)
    | inr (by, e) ↦ elim (Bool-cases (pid == 0)) [
      | inl y ↦
          let (k1, e1, v1, kp) = zap_interruptable-Settled max_procs by k v in
          rw (e, y, e1, proc_kill)
            (is_zombie (k1.procs k1.current).state, k1, refl, v1, Keeps-Named k k1 n kp)
      | inr m ↦ elim (Option-cases (proc_find pid k)) [
        | inl none' ↦ rw (e, m, none', proc_kill) (false, k, refl, v, n)
        | inr (i, e2) ↦
            let (i-lt, live, _) = find_from-some max_procs pid i k e2 in
            let (k1, e1, v1, kp) = proc_zap-Goes encode status i k v i-lt (some by) live in
            let s1 : Settled k1 = subst (λ c. Valid c k1) (sym kp.current-same) v1 in
            rw (e, m, e2, e1, proc_kill)
              (is_zombie (k1.procs i).state, k1, refl, s1, Keeps-Named k k1 n kp)
      ]
    ]
  ]
