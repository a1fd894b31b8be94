-- ===== src/System/Process/Death.antt =====
-- How processes end in grass/process.c. The pages of a process that ends are unmapped from the
-- TLB, which is not modelled.
use cs4411_p.Base.{
  ℕ, zero, suc, ◌-◌, Bool, true, false, not, ◌&&◌, ◌||◌, Option, none, some, List, [], ◌∷◌, ◌++◌,
  ◌==◌, ltb, if◌then◌else◌, ℤ,
}
use cs4411_p.System.Process.{
  max_procs, State, free, runnable, waiting, zombie, event, Process, Kernel, ◌>>=◌, assert, is_free,
  is_runnable, is_waiting, is_zombie, update, dec, proc_release, find_from, proc_find, proc_wakeup,
}
use cs4411_p.System.Process.Messages.{proc_send}

abbrev pub virt_pages : ℕ
virt_pages = 4096

-- The last `n` processes wake up if they wait for a reply from the server `pid`.
unfoldable pub fail_rpcs : ℕ → ℕ → Kernel → Option Kernel
unfolding proc_wakeup
fail_rpcs zero pid k = some k
fail_rpcs (suc n) pid k =
    let i = max_procs - suc n in
    let p = k.procs i in
    (if is_waiting p.state && p.replies.waiting' && (p.server == pid)
      then proc_wakeup i k
      else some k)
    >>= fail_rpcs n pid

-- The frames of the last `n` pages, in the order of the pages.
unfoldable pub frames_from : ℕ → (ℕ → Option ℕ) → List ℕ
frames_from zero pages = []
frames_from (suc n) pages =
    let rest = frames_from n pages in
    elim (pages (virt_pages - suc n)) [ none ↦ rest | some frame ↦ frame ∷ rest ]

-- A message to the owner, where `encode` gives the bytes of a `struct msg_event` with type
-- `MEV_PROCDIED`, the pid and the status.
unfoldable pub tell_owner : (ℕ → ℤ → List ℕ) → Process → ℤ → Kernel → Option Kernel
unfolding proc_send find_from
tell_owner encode p status k = elim (proc_find p.owner k) [
  | none ↦ some k
  | some o ↦ proc_send p.pid p.uid (k.procs o).pid event (encode p.pid status) k >>= λ r. some r.1
]

-- The process as a zombie.
abbrev pub as_zombie : ℕ → Kernel → Kernel
as_zombie i k = record k {
  procs = update k.procs i (record (k.procs i) { state = zombie });
  nrunnable = if is_runnable (k.procs i).state then dec k.nrunnable else k.nrunnable;
}

abbrev pub add_frames : List ℕ → Kernel → Kernel
add_frames frames k = record k { freeframes = k.freeframes ++ frames }

unfoldable pub proc_term : (ℕ → ℤ → List ℕ) → ℕ → ℤ → Kernel → Option Kernel
unfolding tell_owner fail_rpcs frames_from
proc_term encode i status k =
    let p = k.procs i in
    let notify = λ (k : Kernel). tell_owner encode p status k >>= fail_rpcs max_procs p.pid in
    assert (ltb 0 k.nprocs) (
      (if is_zombie p.state then some k else notify (as_zombie i k)) >>= λ k2.
      some (add_frames (frames_from virt_pages p.pages) k2))

-- `killer` is none for the kernel itself.
abbrev pub may_zap : Option ℕ → ℕ → Kernel → Bool
may_zap none i k = true
may_zap (some killer) i k = ((k.procs killer).uid == 0) || ((k.procs killer).uid == (k.procs i).uid)

-- The `switch` of `proc_zap`.
unfoldable pub zap_as : State → (ℕ → ℤ → List ℕ) → ℕ → ℤ → Kernel → Option Kernel
unfolding proc_term proc_release
zap_as runnable encode i status k = proc_term encode i status k
zap_as waiting encode i status k =
    proc_term encode i status k >>= λ k1. if i == k1.current then some k1 else proc_release i k1
zap_as zombie encode i status k = some k
zap_as free encode i status k = none

unfoldable pub proc_zap : (ℕ → ℤ → List ℕ) → Option ℕ → ℕ → ℤ → Kernel → Option Kernel
unfolding zap_as
proc_zap encode killer i status k =
    if not (may_zap killer i k)
    then some k
    else assert (ltb 0 k.nprocs) (zap_as (k.procs i).state encode i status k)

-- The loop of `proc_kill` over the last `n` processes.
unfoldable pub zap_interruptable : ℕ → (ℕ → ℤ → List ℕ) → ℕ → ℤ → Kernel → Option Kernel
unfolding proc_zap
zap_interruptable zero encode killer status k = some k
zap_interruptable (suc n) encode killer status k =
    let i = max_procs - suc n in
    (if not (is_free (k.procs i).state) && (k.procs i).interruptable
      then proc_zap encode (some killer) i status k
      else some k)
    >>= zap_interruptable n encode killer status

-- Says if it calls `proc_yield` at its end.
unfoldable pub proc_kill : (ℕ → ℤ → List ℕ) → ℕ → ℕ → ℤ → Kernel → Option (Bool × Kernel)
unfolding find_from zap_interruptable proc_zap
proc_kill encode killer pid status k = elim (proc_find killer k) [
  | none ↦ some (false, k)
  | some by ↦
      if pid == 0
      then (zap_interruptable max_procs encode by status k >>= λ k1.
          some (is_zombie (k1.procs k1.current).state, k1))
      else elim (proc_find pid k) [
        | none ↦ some (false, k)
        | some i ↦
            proc_zap encode (some by) i status k >>= λ k1. some (is_zombie (k1.procs i).state, k1)
      ]
]
