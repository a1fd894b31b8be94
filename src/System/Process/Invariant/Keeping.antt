-- ===== src/System/Process/Invariant/Keeping.antt =====
-- What the operations of grass/process.c leave as it is.
use cs4411_p.Base.{
  ℕ, ◌≡◌, refl, sym, ap, ◌∙◌, ◌≢◌, inl, inr, true, false, Option, some, List, arith, ◌==◌,
  Bool-cases,
}
use cs4411_p.System.Process.{zombie, Process, Kernel, ◌>>=◌, is_free, update}
use cs4411_p.System.Process.Invariant.{Valid}

pub index-eq : (i j : ℕ) → (i == j) ≡ true → i ≡ j
index-eq i j e = ground (arith, e)

pub index-ne : (i j : ℕ) → (i == j) ≡ false → i ≢ j
index-ne i j e = ground (arith, e)

-- The same process runs, and every process that is there was there, with the same pid.
pub record Keeps (k k' : Kernel) : Type 0 where
  pub current-same : k'.current ≡ k.current
  pub pid_gen-same : k'.pid_gen ≡ k.pid_gen
  pub live-before : (i : ℕ) → is_free (k'.procs i).state ≡ false → is_free (k.procs i).state ≡ false
  pub pid-same : (i : ℕ) → is_free (k'.procs i).state ≡ false → (k'.procs i).pid ≡ (k.procs i).pid

pub Keeps-refl : (k : Kernel) → Keeps k k
Keeps-refl k = record {
  current-same = refl;
  pid_gen-same = refl;
  live-before = λ i e. e;
  pid-same = λ i e. refl;
}

pub Keeps-trans : (k k1 k2 : Kernel) → Keeps k k1 → Keeps k1 k2 → Keeps k k2
Keeps-trans k k1 k2 a b = record {
  current-same = b.current-same ∙ a.current-same;
  pid_gen-same = b.pid_gen-same ∙ a.pid_gen-same;
  live-before = λ i e. a.live-before i (b.live-before i e);
  pid-same = λ i e. b.pid-same i e ∙ a.pid-same i (b.live-before i e);
}

-- One process changes and keeps its pid.
pub Keeps-update :
    (k : Kernel) (i : ℕ) (p : Process) (queues : ℕ → List ℕ) (vacant frames : List ℕ) (m r : ℕ)
    → (is_free p.state ≡ false → is_free (k.procs i).state ≡ false)
    → p.pid ≡ (k.procs i).pid
    → Keeps k (record k {
      procs = update k.procs i p;
      runnable_mlfq = queues;
      free_procs = vacant;
      freeframes = frames;
      nprocs = m;
      nrunnable = r;
    })
Keeps-update k i p queues vacant frames m r live' pid' = record {
  current-same = refl;
  pid_gen-same = refl;
  live-before = λ j. elim (Bool-cases (i == j)) [
    | inl y ↦ let e : i ≡ j = ground arith in rw y (rw (sym e) live')
    | inr n ↦ rw n (λ h. h)
  ];
  pid-same = λ j. elim (Bool-cases (i == j)) [
    | inl y ↦ let e : i ≡ j = ground arith in rw y (λ h. pid' ∙ ap (λ j. (k.procs j).pid) e)
    | inr n ↦ rw n (λ h. refl)
  ];
}

-- No zombie is released.
abbrev pub Buries : Kernel → Kernel → Type 0
Buries k k' = (i : ℕ) → (k.procs i).state ≡ zombie → (k'.procs i).state ≡ zombie

pub Buries-update :
    (k : Kernel) (i : ℕ) (p : Process)
    → ((k.procs i).state ≡ zombie → p.state ≡ zombie)
    → (j : ℕ) → (k.procs j).state ≡ zombie
    → (update k.procs i p j).state ≡ zombie
Buries-update k i p h j z = elim (Bool-cases (i == j)) [
  | inl y ↦ let e : i ≡ j = ground arith in rw y (h (ap (λ j. (k.procs j).state) e ∙ z))
  | inr n ↦ rw n z
]

-- The operation gives a state, which is valid with `d` handled.
abbrev pub Goes : ℕ → Kernel → Option Kernel → Type 0
Goes d k r = (k' : Kernel) × (r ≡ some k') × Valid d k' × Keeps k k'

-- And no zombie is released.
abbrev pub Safe : ℕ → Kernel → Option Kernel → Type 0
Safe d k r = (k' : Kernel) × (r ≡ some k') × Valid d k' × Keeps k k' × Buries k k'

module _ (d d' : ℕ) (k : Kernel) (r : Option Kernel) (f : Kernel → Option Kernel) where
  pub Goes->>= :
      Goes d k r
      → ((k1 : Kernel) → Valid d k1 → Keeps k k1 → Goes d' k1 (f k1))
      → Goes d' k (r >>= f)
  Goes->>= (k1, e, v, kp) rest =
      let (k2, e2, v2, kp2) = rest k1 v kp in (k2, rw e e2, v2, Keeps-trans k k1 k2 kp kp2)

  pub Safe->>= :
      Safe d k r
      → ((k1 : Kernel) → Valid d k1 → Keeps k k1 → Buries k k1 → Safe d' k1 (f k1))
      → Safe d' k (r >>= f)
  Safe->>= (k1, e, v, kp, z) rest =
      let (k2, e2, v2, kp2, z2) = rest k1 v kp z in
      (k2, rw e e2, v2, Keeps-trans k k1 k2 kp kp2, λ i h. z2 i (z i h))
