-- ===== src/System/Process/Invariant/Deciding.antt =====
-- `proc_yield` of grass/process.c.
use cs4411_p.Base.{
  ℕ, zero, suc, ◌+◌, ◌-◌, ◌%◌, ◌^◌, ◌<◌, ◌≡◌, refl, sym, ap, ◌∙◌, inl, inr, true, false, not, ◌&&◌,
  Option, none, some, List, [], arith, ◌==◌, ltb, Bool-cases, ℤ,
}
use cs4411_p.System.Process.{
  max_procs, State, free, runnable, waiting, zombie, Process, Kernel, ◌>>=◌, is_runnable, set_proc,
}
use cs4411_p.System.Process.Schedule.{
  pick, mlfq_levels, Outcome, switched, stays, stops, idles, refill, dispatch, yield_round,
}
use cs4411_p.System.Process.Invariant.{held, one_if, occ, queued, count, is_queued}
use cs4411_p.System.Process.Invariant.Moves.{Valid-keep, nprocs-positive}
use cs4411_p.System.Process.Invariant.Keeping.{index-eq, Keeps, Keeps-trans, Keeps-update}
use cs4411_p.System.Process.Invariant.Sending.{if_true, if_false}
use cs4411_p.System.Process.Invariant.Choosing.{
  Settled, scan-Settled, is_runnable_lem, Found, pick-Finds,
}
use cs4411_p.System.Process.Invariant.Yielding.{Named, Keeps-Named, current-live, switch_to-Settled}

-- A process that goes on after its `proc_yield` is runnable, and the machine only goes to sleep when
-- none is.
abbrev pub Runs : Outcome → Kernel → Type 0
Runs switched k = (k.procs k.current).state ≡ runnable
Runs stays k = (k.procs k.current).state ≡ runnable
Runs stops k = Unit
Runs (idles wait) k = k.nrunnable ≡ 0

abbrev pub Decides : Option (Outcome × Kernel) → Type 0
Decides r = (o : Outcome) × (k : Kernel) × (r ≡ some (o, k)) × Settled k × Named k × Runs o k

count-none :
    (procs : ℕ → Process) (n : ℕ)
    → ((i : ℕ) → i < n → is_runnable (procs i).state ≡ false)
    → count is_runnable procs n ≡ 0
unfolding count
count-none procs zero h = refl
count-none procs (suc n) h =
    rw (h n (omega arith)) (omega (arith, count-none procs n (λ i l. h i (omega arith))))

is_queued-none : (s : State) → 0 ≡ one_if (is_queued s) → is_runnable s ≡ false
is_queued-none free e = refl
is_queued-none runnable e = absurd (omega arith)
is_queued-none waiting e = refl
is_queued-none zombie e = refl

not_held : (k : Kernel) (i : ℕ) → (i == k.current) ≡ false → held k.current k.current i ≡ false
not_held k i n = rw n refl

-- With empty run queues and a current process that is not runnable, none is.
nothing-runnable :
    (k : Kernel)
    → Settled k
    → ((level : ℕ) → level < 3 → k.runnable_mlfq level ≡ [])
    → is_runnable (k.procs k.current).state ≡ false
    → k.nrunnable ≡ 0
nothing-runnable k v empty m =
    v.running
    ∙ count-none k.procs max_procs (λ i l.
      let (q, _, _, _, _) = v.slots i l in
      let q0 : queued k.runnable_mlfq i ≡ 0 = ground (
        arith,
        ap (occ i) (empty 0 (omega arith)),
        ap (occ i) (empty 1 (omega arith)),
        ap (occ i) (empty 2 (omega arith)),
      ) in
      elim (Bool-cases (i == k.current)) [
        | inl y ↦ ap (λ j. is_runnable (k.procs j).state) (index-eq i k.current y) ∙ m
        | inr n ↦ is_queued-none (k.procs i).state (sym q0 ∙ q ∙ if_false _ _ _ (not_held k i n))
      ])

dispatch-Decides :
    (wait : ℕ) (found : Option ℕ) (k : Kernel)
    → Found found k
    → Named k
    → Decides (dispatch wait found k)
unfolding dispatch
dispatch-Decides wait none k (v, empty) n =
    let t : ltb 0 k.nprocs ≡ true = ground (
      arith,
      nprocs-positive k.current k.current k (k.procs k.current) v v.current-lt
          (current-live k k.current v),
    ) in
    elim (Bool-cases (is_runnable (k.procs k.current).state)) [
      | inl y ↦ (
        stays,
        k,
        if_true _ _ _ t ∙ if_true _ _ _ y,
        v,
        n,
        is_runnable_lem (k.procs k.current).state y,
      )
      | inr m ↦ elim (Bool-cases ((k.nprocs == 1) && k.shutting_down)) [
        | inl z ↦ (stops, k, if_true _ _ _ t ∙ if_false _ _ _ m ∙ if_true _ _ _ z, v, n, tt)
        | inr z ↦ (
          idles wait,
          k,
          if_true _ _ _ t ∙ if_false _ _ _ m ∙ if_false _ _ _ z,
          v,
          n,
          nothing-runnable k v empty m,
        )
      ]
    ]
dispatch-Decides wait (some i) k (v, ne, w) n =
    let p : Process = refill (k.procs i) in
    let k1 : Kernel = set_proc k i p in
    let (_, _, _, l, _) = v.slots i v.handled-lt in
    let t : ltb 0 k.nprocs ≡ true = ground (
      arith,
      nprocs-positive i k.current k (k.procs k.current) v v.current-lt (current-live k i v),
    ) in
    let same : (i == i) ≡ true = ground arith in
    let kp : Keeps k k1 =
      Keeps-update k i p k.runnable_mlfq k.free_procs k.freeframes k.nprocs k.nrunnable (λ h. h)
        refl in
    let (k2, e2, v2, n2, w2) =
      switch_to-Settled i k1 (Valid-keep i i k p v v.handled-lt refl refl l) (Keeps-Named k k1 n kp)
        ne (rw same w) in
    (switched, k2, if_true _ _ _ t ∙ ap (λ r. r >>= λ k1. some (switched, k1)) e2, v2, n2, w2)

-- A round of the loop of `proc_yield`, at any time and in any state in which the invariants hold,
-- fails no assert, and they hold again; and if it ends with a switch or without one, then the
-- process that is now the current one is runnable, and if it ends with the decision to go to sleep,
-- then no process is runnable.
pub yield_round-Decides :
    (encode : ℕ → ℤ → List ℕ) (now : ℕ) (k : Kernel)
    → Settled k
    → Named k
    → Decides (yield_round encode now k)
unfolding yield_round
yield_round-Decides encode now k v n =
    let t : ltb 0 k.nprocs ≡ true = ground (
      arith,
      nprocs-positive k.current k.current k (k.procs k.current) v v.current-lt
          (current-live k k.current v),
    ) in
    elim (Bool-cases (not (k.curfew == 0) && ltb k.curfew now)) [
      | inl y ↦ (stops, k, if_true _ _ _ t ∙ if_true _ _ _ y, v, n, tt)
      | inr m ↦
          let (next, k1, e1, v1, kp1) = scan-Settled max_procs encode now (now + 1000) k v in
          let (found, k2, e2, f2, kp2) =
            pick-Finds mlfq_levels k1 (omega arith) v1 (λ l h. absurd (omega arith)) in
          let (o, k3, e3, v3, n3, w3) =
            dispatch-Decides ((next + 2 ^ 64 - now) % 2 ^ 64) found k2 f2
              (Keeps-Named k k2 n (Keeps-trans k k1 k2 kp1 kp2)) in
          (
            o,
            k3,
            if_true _ _ _ t
                ∙ if_false _ _ _ m
                ∙ ap
                    (λ r. r >>= λ s. pick mlfq_levels s.1 >>= λ r.
                      dispatch ((s.0 + 2 ^ 64 - now) % 2 ^ 64) r.0 r.1)
                    e1
                ∙ ap (λ r. r >>= λ r. dispatch ((next + 2 ^ 64 - now) % 2 ^ 64) r.0 r.1) e2
                ∙ e3,
            v3,
            n3,
            w3,
          )
    ]
