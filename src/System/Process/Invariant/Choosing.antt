-- ===== src/System/Process/Invariant/Choosing.antt =====
-- How `proc_yield` of grass/process.c wakes processes up and finds the next one to run.
use mathlib.Core.Path.{subst}
use cs4411_p.Base.{
  ℕ, zero, suc, ◌+◌, ◌-◌, ◌≤◌, ◌<◌, ◌≡◌, refl, sym, ap, ◌∙◌, ◌≢◌, inl, inr, true, false, not, ◌&&◌,
  Option, none, some, List, [], ◌∷◌, arith, ◌==◌, leb, Bool-cases, ℤ,
}
use cs4411_p.System.Process.{
  max_procs, State, runnable, zombie, Process, Kernel, ◌>>=◌, is_free, is_runnable, is_waiting,
  update,
}
use cs4411_p.System.Process.Schedule.{
  stat_shutdown, next_alarm, scan_one, scan, pick_level, mlfq_levels, pick,
}
use cs4411_p.System.Process.Invariant.{is_queued, Valid, update-same, update-update}
use cs4411_p.System.Process.Invariant.Switches.{Valid-pop}
use cs4411_p.System.Process.Invariant.Keeping.{Keeps, Keeps-refl, Keeps-trans, Goes}
use cs4411_p.System.Process.Invariant.Sending.{if_true, if_false}
use cs4411_p.System.Process.Invariant.Waking.{proc_wakeup-Safe}
use cs4411_p.System.Process.Invariant.Dying.{is_waiting_lem}
use cs4411_p.System.Process.Invariant.Zapping.{
  State-cases, proc_zap-Goes, release_of, proc_release_lem, release-Keeps, release-Valid,
}

-- Between two operations.
abbrev pub Settled : Kernel → Type 0
Settled k = Valid k.current k

scan_one-Goes :
    (encode : ℕ → ℤ → List ℕ) (now i : ℕ) (k : Kernel)
    → Settled k
    → i < max_procs
    → Goes k.current k (scan_one encode now i k)
unfolding scan_one
scan_one-Goes encode now i k v i-lt =
    let p : Process = k.procs i in
    elim (Bool-cases (k.shutting_down && not (is_free p.state))) [
      | inl y ↦
          let (k1, e, v1, kp) =
            proc_zap-Goes encode stat_shutdown i k v i-lt none (ground (arith, y)) in
          (k1, if_true _ _ _ y ∙ e, v1, kp)
      | inr n ↦ elim (Bool-cases (is_waiting p.state && p.alarm_set && leb p.exptime now)) [
        | inl y ↦
            let (k1, e, v1, kp, _) =
              proc_wakeup-Safe k.current i k v i-lt (is_waiting_lem p.state (ground (arith, y))) in
            (k1, if_false _ _ _ n ∙ if_true _ _ _ y ∙ e, v1, kp)
        | inr n1 ↦ (k, if_false _ _ _ n ∙ if_false _ _ _ n1, v, Keeps-refl k)
      ]
    ]

pub scan-Settled :
    (n : ℕ) (encode : ℕ → ℤ → List ℕ) (now next : ℕ) (k : Kernel)
    → Settled k
    → (later : ℕ) × (k' : Kernel) × (scan n encode now next k ≡ some (later, k'))
      × Settled k'
      × Keeps k k'
unfolding scan
scan-Settled zero encode now next k v = (next, k, refl, v, Keeps-refl k)
scan-Settled (suc n) encode now next k v =
    let i : ℕ = max_procs - suc n in
    let (k1, e1, v1, kp1) = scan_one-Goes encode now i k v (omega arith) in
    let s1 : Settled k1 = subst (λ c. Valid c k1) (sym kp1.current-same) v1 in
    let (later, k2, e2, v2, kp2) = scan-Settled n encode now (next_alarm i k next) k1 s1 in
    (
      later,
      k2,
      ap (λ r. r >>= scan n encode now (next_alarm i k next)) e1 ∙ e2,
      v2,
      Keeps-trans k k1 k2 kp1 kp2,
    )

-- What the search finds: nothing, and empty run queues, or a runnable process that is in no run queue any more.
abbrev pub Found : Option ℕ → Kernel → Type 0
Found none k = Settled k × ((level : ℕ) → level < 3 → k.runnable_mlfq level ≡ [])
Found (some i) k = Valid i k × (i ≢ k.current) × ((k.procs i).state ≡ runnable)

abbrev pub Finds : Kernel → Option (Option ℕ × Kernel) → Type 0
Finds k r =
    (found : Option ℕ) × (k' : Kernel) × (r ≡ some (found, k')) × Found found k' × Keeps k k'

pub queue-Keeps : (k : Kernel) (queues : ℕ → List ℕ) → Keeps k (record k { runnable_mlfq = queues })
queue-Keeps k queues = record {
  current-same = refl;
  pid_gen-same = refl;
  live-before = λ i e. e;
  pid-same = λ i e. refl;
}

is_queued-zombie : (s : State) → is_queued s ≡ true → is_runnable s ≡ false → s ≡ zombie
is_queued-zombie s q n = elim (State-cases s) [
  | inl w ↦ absurd (ground (arith, w, q))
  | inr (inl w) ↦ absurd (ground (arith, w, n))
  | inr (inr (inl w)) ↦ absurd (ground (arith, w, q))
  | inr (inr (inr w)) ↦ w
]

pub is_runnable_lem : (s : State) → is_runnable s ≡ true → s ≡ runnable
is_runnable_lem s r = elim (State-cases s) [
  | inl w ↦ absurd (ground (arith, w, r))
  | inr (inl w) ↦ w
  | inr (inr (inl w)) ↦ absurd (ground (arith, w, r))
  | inr (inr (inr w)) ↦ absurd (ground (arith, w, r))
]

-- What the search in a level finds.
abbrev Taken : ℕ → Kernel → Option ℕ → Kernel → Type 0
Taken level k none k' =
    Settled k' × ((l : ℕ) → k'.runnable_mlfq l ≡ update k.runnable_mlfq level [] l)
Taken level k (some i) k' = Valid i k' × (i ≢ k'.current) × ((k'.procs i).state ≡ runnable)

Taken-after :
    (level : ℕ) (k k1 : Kernel) (rest : List ℕ) (found : Option ℕ) (k' : Kernel)
    → k1.runnable_mlfq ≡ update k.runnable_mlfq level rest
    → Taken level k1 found k'
    → Taken level k found k'
Taken-after level k k1 rest none k' e (v, d) = (
  v,
  λ l.
      d l
      ∙ ap (λ qs. update qs level [] l) e
      ∙ ap (λ qs. qs l) (update-update k.runnable_mlfq level rest []),
)
Taken-after level k k1 rest (some i) k' e f = f

pick_level-Taken :
    (level : ℕ) (items : List ℕ) (k : Kernel)
    → level < 3
    → Settled k
    → k.runnable_mlfq level ≡ items
    → (found : Option ℕ) × (k' : Kernel) × (pick_level level items k ≡ some (found, k'))
      × Taken level k found k'
      × Keeps k k'
unfolding pick_level
pick_level-Taken level [] k l v e = (
  none,
  record k { runnable_mlfq = update k.runnable_mlfq level [] },
  refl,
  (
    subst (λ q. Settled (record k { runnable_mlfq = update k.runnable_mlfq level q })) e
        (subst (λ qs. Settled (record k { runnable_mlfq = qs }))
          (sym (update-same k.runnable_mlfq level)) v),
    λ l. refl,
  ),
  queue-Keeps k (update k.runnable_mlfq level []),
)
pick_level-Taken level (i ∷ rest) k l v e =
    let k1 : Kernel = record k { runnable_mlfq = update k.runnable_mlfq level rest } in
    let (v1, i-lt, q, ne) = Valid-pop k i v level rest l e in
    elim (Bool-cases (is_runnable (k.procs i).state)) [
      | inl y ↦ (
        some i,
        k1,
        if_true _ _ _ y,
        (v1, ne, is_runnable_lem (k.procs i).state y),
        queue-Keeps k k1.runnable_mlfq,
      )
      | inr n ↦
          let z : (k.procs i).state ≡ zombie = is_queued-zombie (k.procs i).state q n in
          let t : (level == level) ≡ true = ground arith in
          let (found, k2, e2, f, kp) =
            pick_level-Taken level rest (release_of i k1) l (release-Valid i k1 v1 ne z)
              (rw t refl) in
          (
            found,
            k2,
            if_false _ _ _ n ∙ ap (λ r. r >>= pick_level level rest) (proc_release_lem i k1 z) ∙ e2,
            Taken-after level k (release_of i k1) rest found k2 refl f,
            Keeps-trans k k1 k2 (queue-Keeps k k1.runnable_mlfq)
                (Keeps-trans k1 (release_of i k1) k2 (release-Keeps i k1) kp),
          )
    ]

-- The levels before the last `n` have no processes.
abbrev Cleared : ℕ → Kernel → Type 0
Cleared n k = (l : ℕ) → l + n < 3 → k.runnable_mlfq l ≡ []

Cleared-level :
    (n : ℕ) (k k1 : Kernel)
    → n < 3
    → Cleared (suc n) k
    → ((l : ℕ) → k1.runnable_mlfq l ≡ update k.runnable_mlfq (mlfq_levels - suc n) [] l)
    → Cleared n k1
Cleared-level n k k1 small c d l h = elim (Bool-cases ((mlfq_levels - suc n) == l)) [
  | inl y ↦ d l ∙ rw y refl
  | inr m ↦ d l ∙ rw m (c l (ground (arith, m, h, small)))
]

after_level :
    (n : ℕ) (k : Kernel) (found : Option ℕ) (k1 : Kernel)
    → n < 3
    → Cleared (suc n) k
    → Taken (mlfq_levels - suc n) k found k1
    → Keeps k k1
    → ((k' : Kernel) → Settled k' → Cleared n k' → Finds k' (pick n k'))
    → Finds k (elim found [ none ↦ pick n k1 | some i ↦ some (some i, k1) ])
after_level n k none k1 small c (v, d) kp rest =
    let (found, k2, e2, f2, kp2) = rest k1 v (Cleared-level n k k1 small c d) in
    (found, k2, e2, f2, Keeps-trans k k1 k2 kp kp2)
after_level n k (some i) k1 small c f kp rest = (some i, k1, refl, f, kp)

pub pick-Finds : (n : ℕ) (k : Kernel) → n ≤ 3 → Settled k → Cleared n k → Finds k (pick n k)
unfolding pick
pick-Finds zero k small v c = (none, k, refl, (v, λ l h. c l (omega arith)), Keeps-refl k)
pick-Finds (suc n) k small v c =
    let level : ℕ = mlfq_levels - suc n in
    let (found, k1, e1, f, kp) =
      pick_level-Taken level (k.runnable_mlfq level) k (omega arith) v refl in
    let (found2, k2, e2, f2, kp2) =
      after_level n k found k1 (omega arith) c f kp (λ k'. pick-Finds n k' (omega arith)) in
    (
      found2,
      k2,
      ap (λ r. r >>= λ s. elim s.0 [ none ↦ pick n s.1 | some i ↦ some (some i, s.1) ]) e1 ∙ e2,
      f2,
      kp2,
    )
