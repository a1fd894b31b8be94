-- ===== src/System/Process/Invariant/Yielding.antt =====
-- The switch to another process in grass/process.c, and the pids.

use cs4411_p.Base.{
  ℕ, ◌<◌, ◌≡◌, refl, sym, ap, ◌∙◌, ◌≢◌, inl, inr, true, false, not, ◌&&◌, Option, some, arith, ◌==◌,
  Bool-cases, if◌then◌else◌,
}
use cs4411_p.System.Process.{
  runnable, Process, Kernel, ◌>>=◌, is_free, is_runnable, is_zombie, proc_release, enqueue,
  proc_to_runqueue,
}
use cs4411_p.System.Process.Schedule.{switch_to}
use cs4411_p.System.Process.Invariant.{Valid}
use cs4411_p.System.Process.Invariant.Switches.{Valid-requeue, Valid-retire, Valid-leave}
use cs4411_p.System.Process.Invariant.Keeping.{index-eq, Keeps}
use cs4411_p.System.Process.Invariant.Sending.{if_true, if_false}
use cs4411_p.System.Process.Invariant.Zapping.{
  State-cases, released, release_of, proc_release_lem, release-Keeps,
}
use cs4411_p.System.Process.Invariant.Choosing.{Settled, queue-Keeps}

-- Two processes that are there have different pids, and all pids were generated.
pub record Named (k : Kernel) : Type 0 where
  pub unique :
      (i j : ℕ)
      → is_free (k.procs i).state ≡ false
      → is_free (k.procs j).state ≡ false
      → (k.procs i).pid ≡ (k.procs j).pid
      → i ≡ j
  pub generated : (i : ℕ) → is_free (k.procs i).state ≡ false → (k.procs i).pid < k.pid_gen

pub Keeps-Named : (k k' : Kernel) → Named k → Keeps k k' → Named k'
Keeps-Named k k' n kp = record {
  unique = λ i j li lj e.
      n.unique i j (kp.live-before i li) (kp.live-before j lj)
        (sym (kp.pid-same i li) ∙ e ∙ kp.pid-same j lj);
  generated = λ i li.
      let g = n.generated i (kp.live-before i li) in
      omega (arith, g, kp.pid-same i li, kp.pid_gen-same);
}

Named-current : (k : Kernel) (c : ℕ) → Named k → Named (record k { current = c })
Named-current k c n = record { unique = n.unique; generated = n.generated }

-- The operation gives its answer and a state in which both hold.
abbrev pub Holds {ℓ} : {A : Type ℓ} → Option (A × Kernel) → Type ℓ
Holds {A = A} r = (a : A) × (k : Kernel) × (r ≡ some (a, k)) × Settled k × Named k

-- The current process is there.
pub current-live : (k : Kernel) (d : ℕ) → Valid d k → is_free (k.procs k.current).state ≡ false
current-live k d v =
    let (_, _, _, _, hd) = v.slots k.current v.current-lt in
    let t : (k.current == k.current) ≡ true = ground arith in ground (arith, t, hd)

abbrev pub Leaving : ℕ → Kernel → Type 0
Leaving next k =
    (k' : Kernel) × (switch_to next k ≡ some k')
    × Settled k'
    × Named k'
    × ((k'.procs k'.current).state ≡ runnable)

chain :
    (m : Option Kernel) (f g : Kernel → Option Kernel) (k1 k2 : Kernel)
    → m ≡ some k1
    → f k1 ≡ some k2
    → (m >>= λ k. f k >>= g) ≡ g k2
chain m f g k1 k2 e1 e2 = ap (λ r. r >>= λ k. f k >>= g) e1 ∙ ap (λ r. r >>= g) e2

-- What `proc_after_switch` does with the process before.
abbrev clean_up : Kernel → Option Kernel
clean_up k = if is_zombie (k.procs k.current).state then proc_release k.current k else some k

-- The asserts hold.
switch_ok :
    (next : ℕ) (k : Kernel)
    → Valid next k
    → Named k
    → next ≢ k.current
    → (k.procs next).state ≡ runnable
    → (not (next == k.current)
        && not ((k.procs next).pid == (k.procs k.current).pid)
        && is_runnable (k.procs next).state)
      ≡ true
switch_ok next k v n ne w =
    let e : (next == k.current) ≡ false = ground arith in
    let p : ((k.procs next).pid == (k.procs k.current).pid) ≡ false =
      elim (Bool-cases ((k.procs next).pid == (k.procs k.current).pid)) [
        | inl y ↦
            absurd
              (ne (n.unique next k.current (rw w refl) (current-live k next v) (index-eq _ _ y)))
        | inr m ↦ m
      ] in
    rw (e, p, w) refl

pub switch_to-Settled :
    (next : ℕ) (k : Kernel)
    → Valid next k
    → Named k
    → next ≢ k.current
    → (k.procs next).state ≡ runnable
    → Leaving next k
unfolding switch_to proc_to_runqueue
switch_to-Settled next k v n ne w =
    let p : Process = k.procs k.current in
    let (_, _, fl, l, _) = v.slots k.current v.current-lt in
    let ok = switch_ok next k v n ne w in
    elim (State-cases p.state) [
      | inl f ↦ absurd (ground (arith, current-live k next v, f))
      | inr (inl r) ↦
          let r1 : is_runnable p.state ≡ true = rw r refl in
          let z1 : is_zombie p.state ≡ false = rw r refl in
          (
            record (enqueue k.current k) { current = next },
            if_true _ _ _ ok
                ∙ chain _ clean_up (λ k2. some (record k2 { current = next })) (enqueue k.current k)
                    (enqueue k.current k) (if_true _ _ _ r1 ∙ if_true _ _ _ r1) (if_false _ _ _ z1),
            Valid-requeue next k v ne r,
            Named-current (enqueue k.current k) next (
                Keeps-Named k (enqueue k.current k) n
                  (queue-Keeps k (enqueue k.current k).runnable_mlfq)),
            w,
          )
      | inr (inr (inl r)) ↦
          let r1 : is_runnable p.state ≡ false = rw r refl in
          let z1 : is_zombie p.state ≡ false = rw r refl in
          (
            record k { current = next },
            if_true _ _ _ ok
                ∙ chain _ clean_up (λ k2. some (record k2 { current = next })) k k
                    (if_false _ _ _ r1) (if_false _ _ _ z1),
            Valid-leave next k v ne r,
            Named-current k next n,
            w,
          )
      | inr (inr (inr r)) ↦
          let r1 : is_runnable p.state ≡ false = rw r refl in
          let z1 : is_zombie p.state ≡ true = rw r refl in
          (
            record (release_of k.current k) { current = next },
            if_true _ _ _ ok
                ∙ chain _ clean_up (λ k2. some (record k2 { current = next })) k
                    (release_of k.current k) (if_false _ _ _ r1)
                    (if_true _ _ _ z1 ∙ proc_release_lem k.current k r),
            Valid-retire next k v ne (released p) r refl (ground (arith, fl, r)) l,
            Named-current (release_of k.current k) next
                (Keeps-Named k (release_of k.current k) n (release-Keeps k.current k)),
            (let e : (k.current == next) ≡ false = ground (arith, ne) in rw e w),
          )
    ]
