-- ===== src/System/Process/Invariant.antt =====
-- What holds of the kernel of grass/process.c between its operations, and inside of them.
pub mod Moves
pub mod Switches
pub mod Keeping
pub mod Waking
pub mod Sending
pub mod Dying
pub mod Zapping
pub mod Choosing
pub mod Yielding
pub mod Deciding
pub mod Calling
pub mod Starting
pub mod Booting
use cs4411_p.Base.{
  ℕ, zero, suc, ◌+◌, ◌≤◌, ◌<◌, ◌≡◌, refl, sym, ap, ◌∙◌, fun_ext, ◌≢◌, inl, inr, Bool, true, false,
  not, ◌&&◌, ◌||◌, List, [], ◌∷◌, ◌++◌, arith, ◌==◌, Bool-cases, if◌then◌else◌,
}
use mathlib.Core.Path.{subst}
use cs4411_p.System.Process.{
  max_procs, State, runnable, zombie, Process, Kernel, is_free, is_runnable, update,
}

-- How often a number occurs.
abbrev pub occ : ℕ → List ℕ → ℕ
occ i [] = 0
occ i (j ∷ js) = (if i == j then 1 else 0) + occ i js

-- How often a process is in the run queues.
abbrev pub queued : (ℕ → List ℕ) → ℕ → ℕ
queued queues i = occ i (queues 0) + occ i (queues 1) + occ i (queues 2)

abbrev pub one_if : Bool → ℕ
one_if b = if b then 1 else 0

-- The number of processes below `n` with a property.
unfoldable pub count : (State → Bool) → (ℕ → Process) → ℕ → ℕ
count test procs zero = 0
count test procs (suc n) = one_if (test (procs n).state) + count test procs n

abbrev pub is_live : State → Bool
is_live s = not (is_free s)

-- In a run queue, unless it runs.
abbrev pub is_queued : State → Bool
is_queued runnable = true
is_queued zombie = true
is_queued _ = false

-- On how many of its queues of messages the process waits.
abbrev pub flags : Process → ℕ
flags p = one_if p.requests.waiting' + one_if p.replies.waiting' + one_if p.events.waiting'

abbrev pub max_flags : State → ℕ
max_flags runnable = 0
max_flags _ = 1

-- The current process and the one that is being handled are in no run queue.
abbrev pub held : ℕ → ℕ → ℕ → Bool
held c d i = (i == c) || (i == d)

-- What holds of a process: if it is held, how often it is in run queues
-- and among the free ones.
abbrev pub Slot : Bool → ℕ → ℕ → Process → Type 0
Slot hold q f p =
    (q ≡ (if hold then 0 else one_if (is_queued p.state)))
    × (f ≡ one_if (is_free p.state))
    × (flags p ≤ max_flags p.state)
    × (p.priority_level < 3)
    × ((hold && is_free p.state) ≡ false)

-- The process `d`, if it is not the current one, is runnable or a zombie, but in no run queue;
-- between two operations `d` is the current process.
pub record Valid (d : ℕ) (k : Kernel) : Type 0 where
  pub slots :
      (i : ℕ)
      → i < max_procs
      → Slot (held k.current d i) (queued k.runnable_mlfq i) (occ i k.free_procs) (k.procs i)
  pub outside : (i : ℕ) → max_procs ≤ i → (queued k.runnable_mlfq i ≡ 0) × (occ i k.free_procs ≡ 0)
  pub live : k.nprocs ≡ count is_live k.procs max_procs
  pub running : k.nrunnable ≡ count is_runnable k.procs max_procs
  pub current-lt : k.current < max_procs
  pub handled-lt : d < max_procs
  pub handled : ((d == k.current) || is_queued (k.procs d).state) ≡ true

count-above :
    (test : State → Bool) (procs : ℕ → Process) (i : ℕ) (p : Process) (n : ℕ)
    → n ≤ i
    → count test (update procs i p) n ≡ count test procs n
unfolding count
count-above test procs i p zero h = refl
count-above test procs i p (suc n) h =
    let e : (i == n) ≡ false = ground arith in
    rw e (omega (arith, count-above test procs i p n (omega arith)))

pub count-update :
    (test : State → Bool) (procs : ℕ → Process) (i : ℕ) (p : Process) (n : ℕ)
    → i < n
    → count test (update procs i p) n + one_if (test (procs i).state)
      ≡ count test procs n + one_if (test p.state)
unfolding count
count-update test procs i p zero h = absurd (omega arith)
count-update test procs i p (suc n) h = elim (Bool-cases (i == n)) [
  | inl y ↦
      let e : i ≡ n = ground arith in
      rw (y, sym e) (omega (arith, count-above test procs i p i (omega arith)))
  | inr n1 ↦ rw n1 (omega (arith, count-update test procs i p n (ground arith)))
]

pub occ-append : (i : ℕ) (xs ys : List ℕ) → occ i (xs ++ ys) ≡ occ i xs + occ i ys
occ-append i [] ys = omega arith
occ-append i (x ∷ xs) ys = omega (arith, occ-append i xs ys)

-- A process joins the queue of a level.
pub queued-join :
    (queues : ℕ → List ℕ) (level i j : ℕ)
    → level < 3
    → queued (update queues level (queues level ++ i ∷ [])) j ≡ queued queues j + one_if (j == i)
queued-join queues zero i j h = omega (arith, occ-append j (queues 0) (i ∷ []))
queued-join queues (suc zero) i j h = omega (arith, occ-append j (queues 1) (i ∷ []))
queued-join queues (suc (suc zero)) i j h = omega (arith, occ-append j (queues 2) (i ∷ []))
queued-join queues (suc (suc (suc n))) i j h = absurd (omega arith)

-- The change of one process and of where it stands.
pub Valid-change :
    (d d' c i : ℕ) (k : Kernel) (p : Process) (queues : ℕ → List ℕ) (vacant : List ℕ) (m r : ℕ)
    → Valid d k
    → i < max_procs
    → d' < max_procs
    → c < max_procs
    → ((d' == c) || is_queued (update k.procs i p d').state) ≡ true
    → ((j : ℕ)
        → j ≢ i
        → (queued queues j ≡ queued k.runnable_mlfq j)
          × (occ j vacant ≡ occ j k.free_procs)
          × (held c d' j ≡ held k.current d j))
    → Slot (held c d' i) (queued queues i) (occ i vacant) p
    → m + one_if (is_live (k.procs i).state) ≡ k.nprocs + one_if (is_live p.state)
    → r + one_if (is_runnable (k.procs i).state) ≡ k.nrunnable + one_if (is_runnable p.state)
    → Valid d' (record k {
      procs = update k.procs i p;
      current = c;
      runnable_mlfq = queues;
      free_procs = vacant;
      nprocs = m;
      nrunnable = r;
    })
Valid-change d d' c i k p queues vacant m r v i-lt d'-lt c-lt hd others slot live' running' =
    record {
      slots = λ j j-lt. elim (Bool-cases (i == j)) [
        | inl y ↦
            let e : i ≡ j = ground arith in
            rw (sym e) (let t : (i == i) ≡ true = ground arith in rw t slot)
        | inr n ↦ let (a, b, c) = others j (ground arith) in rw n (rw (a, b, c) (v.slots j j-lt))
      ];
      outside = λ j far.
          let (a, b, c) = others j (ground arith) in
          (a ∙ (v.outside j far).0, b ∙ (v.outside j far).1);
      live = omega (arith, count-update is_live k.procs i p max_procs i-lt, v.live, live');
      running =
          omega (arith, count-update is_runnable k.procs i p max_procs i-lt, v.running, running');
      current-lt = c-lt;
      handled-lt = d'-lt;
      handled = hd;
    }

pub update-update {ℓ} :
    {A : Type ℓ} (f : ℕ → A) (i : ℕ) (a b : A) → update (update f i a) i b ≡ update f i b
update-update f i a b =
    fun_ext (λ j. elim (Bool-cases (i == j)) [ inl y ↦ rw y refl | inr n ↦ rw n refl ])

pub update-same {ℓ} : {A : Type ℓ} (f : ℕ → A) (i : ℕ) → update f i (f i) ≡ f
update-same f i =
    fun_ext
      (λ j. elim (Bool-cases (i == j)) [ inl y ↦ rw y (ap f (ground arith)) | inr n ↦ rw n refl ])

-- The change of where a process stands.
pub Valid-move :
    (d d' c i : ℕ) (k : Kernel) (queues : ℕ → List ℕ)
    → Valid d k
    → i < max_procs
    → d' < max_procs
    → c < max_procs
    → ((d' == c) || is_queued (k.procs d').state) ≡ true
    → ((j : ℕ)
        → j ≢ i
        → (queued queues j ≡ queued k.runnable_mlfq j) × (held c d' j ≡ held k.current d j))
    → queued queues i ≡ (if held c d' i then 0 else one_if (is_queued (k.procs i).state))
    → (held c d' i && is_free (k.procs i).state) ≡ false
    → Valid d' (record k { current = c; runnable_mlfq = queues })
Valid-move d d' c i k queues v i-lt d'-lt c-lt hd others q free' =
    let (_, r, fl, lv, _) = v.slots i i-lt in
    subst (λ ps. Valid d' (record k { procs = ps; current = c; runnable_mlfq = queues }))
      (update-same k.procs i)
      (Valid-change d d' c i k (k.procs i) queues k.free_procs k.nprocs k.nrunnable v i-lt d'-lt
        c-lt (ap (λ ps. (d' == c) || is_queued (ps d').state) (update-same k.procs i) ∙ hd)
        (λ j ne. ((others j ne).0, refl, (others j ne).1)) (q, r, fl, lv, free') refl refl)
