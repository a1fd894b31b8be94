-- ===== src/System/Process/Schedule.antt =====
-- The scheduler of grass/process.c: `proc_yield`, `proc_create_uid` and the clock's interrupt.
-- `proc_cleanup`, after which the machine stops, and the flush of the TLB are not modelled.
use cs4411_p.Base.{
  ℕ, zero, suc, ◌+◌, ◌-◌, ◌%◌, ◌^◌, Bool, true, false, not, ◌&&◌, Option, none, some, List, [], ◌∷◌,
  ◌++◌, ◌==◌, ltb, leb, if◌then◌else◌, ℤ, pos, negsuc,
}
use cs4411_p.System.Process.{
  max_procs, free, Process, Kernel, ◌>>=◌, assert, is_free, is_runnable, is_waiting, is_zombie,
  update, set_proc, quantums, new_process, alloc_from, proc_alloc, proc_release, proc_to_runqueue,
  find_from, proc_find, proc_wakeup,
}
use cs4411_p.System.Process.Death.{proc_zap}

-- `STAT_SHUTDOWN`
abbrev pub stat_shutdown : ℤ
stat_shutdown = negsuc 3

abbrev pub min : ℕ → ℕ → ℕ
min a b = if ltb a b then a else b

-- What the loop that looks for timeouts does with a process.
unfoldable pub scan_one : (ℕ → ℤ → List ℕ) → ℕ → ℕ → Kernel → Option Kernel
unfolding proc_zap proc_wakeup
scan_one encode now i k =
    let p = k.procs i in
    if k.shutting_down && not (is_free p.state)
    then proc_zap encode none i stat_shutdown k
    else if is_waiting p.state && p.alarm_set && leb p.exptime now
    then proc_wakeup i k
    else some k

-- The time of the next timeout, with that of a process.
abbrev pub next_alarm : ℕ → Kernel → ℕ → ℕ
next_alarm i k next =
    let p = k.procs i in
    if k.shutting_down && not (is_free p.state)
    then next
    else if is_waiting p.state && p.alarm_set
    then min p.exptime next
    else next

-- The loop over the last `n` processes that looks for timeouts; gives the time of the next one.
unfoldable pub scan : ℕ → (ℕ → ℤ → List ℕ) → ℕ → ℕ → Kernel → Option (ℕ × Kernel)
unfolding scan_one
scan zero encode now next k = some (next, k)
scan (suc n) encode now next k =
    let i = max_procs - suc n in scan_one encode now i k >>= scan n encode now (next_alarm i k next)

-- The inner loop that looks for a process to run, on the items of the queue of a level.
unfoldable pub pick_level : ℕ → List ℕ → Kernel → Option (Option ℕ × Kernel)
unfolding proc_release
pick_level level [] k = some (none, record k { runnable_mlfq = update k.runnable_mlfq level [] })
pick_level level (i ∷ rest) k =
    let k1 = record k { runnable_mlfq = update k.runnable_mlfq level rest } in
    let go_on = λ (k2 : Kernel). pick_level level rest k2 in
    if is_runnable (k.procs i).state then some (some i, k1) else (proc_release i k1 >>= go_on)

abbrev pub mlfq_levels : ℕ
mlfq_levels = 3

-- The loop over the last `n` levels.
unfoldable pub pick : ℕ → Kernel → Option (Option ℕ × Kernel)
unfolding pick_level
pick zero k = some (none, k)
pick (suc n) k =
    let level = mlfq_levels - suc n in
    let go_on = λ (k1 : Kernel). pick n k1 in
    pick_level level (k.runnable_mlfq level) k >>= λ r. elim r.0 [
      | none ↦ go_on r.1
      | some i ↦ some (some i, r.1)
    ]

-- The end of `proc_yield` and `proc_after_switch`, which runs on the stack of the next process.
unfoldable pub switch_to : ℕ → Kernel → Option Kernel
unfolding proc_to_runqueue proc_release
switch_to next k =
    let p = k.procs k.current in
    let q = k.procs next in
    assert (not (next == k.current) && not (q.pid == p.pid) && is_runnable q.state) (
      (if is_runnable p.state then proc_to_runqueue k.current k else some k) >>= λ k1.
      (if is_zombie (k1.procs k1.current).state then proc_release k1.current k1 else some k1)
      >>= λ k2. some (record k2 { current = next }))

-- What a round of the loop of `proc_yield` ends with: another process runs, the current one goes
-- on, the machine waits for so many milliseconds and tries again, or it stops.
pub data Outcome : Type 0 where
  switched stays stops : Outcome
  idles : ℕ → Outcome

-- `ticks_left` is set before the switch.
abbrev pub refill : Process → Process
refill p = record p { ticks_left = quantums p.priority_level }

-- What follows the search in a round.
unfoldable pub dispatch : ℕ → Option ℕ → Kernel → Option (Outcome × Kernel)
unfolding switch_to
dispatch wait found k = assert (ltb 0 k.nprocs) (elim found [
  | some i ↦ switch_to i (set_proc k i (refill (k.procs i))) >>= λ k1. some (switched, k1)
  | none ↦
      if is_runnable (k.procs k.current).state
      then some (stays, k)
      else if (k.nprocs == 1) && k.shutting_down
      then some (stops, k)
      else some (idles wait, k)
])

-- A round of the loop of `proc_yield` at the time `now`.
unfoldable pub yield_round : (ℕ → ℤ → List ℕ) → ℕ → Kernel → Option (Outcome × Kernel)
unfolding scan pick dispatch
yield_round encode now k = assert (ltb 0 k.nprocs) (
    if not (k.curfew == 0) && ltb k.curfew now
    then some (stops, k)
    else (scan max_procs encode now (now + 1000) k >>= λ s.
        pick mlfq_levels s.1 >>= λ r. dispatch ((s.0 + 2 ^ 64 - now) % 2 ^ 64) r.0 r.1))

-- The current process goes to its run queue, and the new one starts in `ctx_entry`; gives its pid,
-- or 0 if there is none.
unfoldable pub start_process : Option (ℕ × Kernel) → Kernel → Option (ℕ × Kernel)
unfolding proc_to_runqueue
start_process none k = some (0, k)
start_process (some (i, k1)) k =
    proc_to_runqueue k1.current k1 >>= λ k2. some ((k1.procs i).pid, record k2 { current = i })

-- `proc_create_uid`, up to the start of the new process.
unfoldable pub proc_create_uid : ℕ → ℕ → Kernel → Option (ℕ × Kernel)
unfolding find_from alloc_from start_process
proc_create_uid owner uid k = if k.shutting_down then some (0, k) else elim (proc_find owner k) [
  | none ↦ some (0, k)
  | some parent ↦
      let user = if (k.procs parent).uid == 0 then uid else (k.procs parent).uid in
      start_process (proc_alloc owner user k) k
]

-- `ticks_left -= 1`, an `int` of 32 bits. C does not define what is below the least one; here it wraps,
-- as the compilers' code does.
abbrev pub tick : ℤ → ℤ
tick (pos zero) = negsuc 0
tick (pos (suc n)) = pos n
tick (negsuc n) = if n == 2 ^ 31 - 1 then pos (2 ^ 31 - 1) else negsuc (suc n)

abbrev pub is_zero : ℤ → Bool
is_zero (pos zero) = true
is_zero _ = false

abbrev pub demote : Process → Process
demote p =
    if ltb p.priority_level (mlfq_levels - 1)
    then record p { priority_level = p.priority_level + 1 }
    else p

-- `INTR_CLOCK` of `proc_got_interrupt`; says if it calls `proc_yield`.
unfoldable pub clock_interrupt : Kernel → Bool × Kernel
clock_interrupt k =
    let p = record (k.procs k.current) { ticks_left = tick (k.procs k.current).ticks_left } in
    if is_zero p.ticks_left
    then (true, set_proc k k.current (demote p))
    else (false, set_proc k k.current p)

-- `proc_shutdown` at the time `now`
unfoldable pub proc_shutdown : ℕ → Kernel → Kernel
proc_shutdown now k = record k { shutting_down = true; curfew = (now + 3000) % 2 ^ 64 }

-- The numbers below `n` in ascending order.
unfoldable pub numbers : ℕ → List ℕ
numbers zero = []
numbers (suc n) = numbers n ++ n ∷ []

abbrev pub phys_frames : ℕ
phys_frames = 1024

-- A process in `proc_set` before its first use.
abbrev pub zeroed : ℕ → Process
zeroed i = record (new_process i 0 0) { state = free; ticks_left = pos 0 }

-- `proc_initialize` up to the process of the kernel.
abbrev pub boot : Kernel
boot = record {
  procs = zeroed;
  current = 0;
  runnable_mlfq = λ level. [];
  free_procs = numbers max_procs;
  freeframes = numbers phys_frames;
  nprocs = 0;
  nrunnable = 0;
  pid_gen = 1;
  shutting_down = false;
  curfew = 0;
}

-- `proc_current` is what `proc_alloc` gave.
abbrev pub become : Option (ℕ × Kernel) → Option Kernel
become none = none
become (some (i, k)) = some (record k { current = i })

-- The first process, "main", is allocated from the free ones.
unfoldable pub proc_initialize : Option Kernel
unfolding alloc_from
proc_initialize = become (proc_alloc 1 0 boot)
