-- ===== src/System/Tests/Kernels.antt =====
-- The kernel in some states, and the theorems at them.
use cs4411_p.Base.{ℕ, ◌+◌, ◌%◌, ◌^◌, ◌≡◌, refl, true, false, some, List, [], ◌∷◌, arith, ℤ, pos}
use cs4411_p.System.Process.{
  max_procs, waiting, request, Kernel, update, set_proc, new_process, alloc_from, find_from,
  proc_find,
}
use cs4411_p.System.Process.Messages.{recv_end, proc_send}
use cs4411_p.System.Process.Schedule.{
  numbers, boot, zeroed, proc_initialize, yield_round, clock_interrupt,
}
use cs4411_p.System.Process.Invariant.Choosing.{Settled}
use cs4411_p.System.Process.Invariant.Yielding.{Named}
use cs4411_p.System.Process.Invariant.Deciding.{Decides, yield_round-Decides}
use cs4411_p.System.Process.Invariant.Booting.{boot-Holds}
use cs4411_p.System.Process.Runs.{create, exec, booted, Succeeds, run-Succeeds}
use cs4411_p.System.Process.Clock.{ticks, clock-slice, clock-starves}
use cs4411_p.System.Process.Mail.{recv_end-proc_send}

abbrev encode : ℕ → ℤ → List ℕ
encode pid status = 1 ∷ pid ∷ []

abbrev tail : List ℕ → List ℕ
tail [] = []
tail (x ∷ xs) = xs

-- The kernel after its start, with one process.
abbrev first : Kernel
first = record boot {
  procs = update zeroed 0 (new_process 1 1 0);
  free_procs = tail (numbers max_procs);
  pid_gen = (1 + 1) % 2 ^ 32;
  nprocs = 1;
  nrunnable = 1;
}

first-numbers : numbers max_procs ≡ 0 ∷ tail (numbers max_procs)
unfolding numbers
first-numbers = refl

first-Holds : Settled first × Named first
first-Holds = boot-Holds (tail (numbers max_procs)) first-numbers

first-start : proc_initialize ≡ some first
unfolding proc_initialize alloc_from numbers
first-start = refl

run-Succeeds_example : Succeeds proc_initialize × Succeeds (exec encode (create 1 7) first)
run-Succeeds_example =
    run-Succeeds encode (create 1 7) first (booted first first-start) (refl, omega arith)

yield_round-Decides_example : Decides (yield_round encode 5 first)
yield_round-Decides_example = yield_round-Decides encode 5 first first-Holds.0 first-Holds.1

clock-slice_example :
    ((clock_interrupt (ticks 3 first)).0 ≡ false) × ((clock_interrupt (ticks 9 first)).0 ≡ true)
clock-slice_example = clock-slice 9 3 first refl (omega arith)

-- The time slice is over.
abbrev tired : Kernel
tired = set_proc first 0 (record (new_process 1 1 0) { ticks_left = pos 0 })

clock-starves_example : (clock_interrupt (ticks 4 tired)).0 ≡ false
clock-starves_example = clock-starves 4 tired (omega arith) refl

-- The process waits for a request.
abbrev listening : Kernel
listening = record first {
  procs = update zeroed 0 (record (new_process 1 1 0) {
    state = waiting;
    requests = record { waiting' = true; messages = [] };
  });
  nrunnable = 0;
}

found : proc_find 1 listening ≡ some 0
unfolding find_from
found = refl

recv_end-proc_send_example :
    (k1 : Kernel) × (proc_send 4 7 1 request (8 ∷ 9 ∷ []) listening ≡ some (true, k1))
    × (k2 : Kernel) × (recv_end request 1 k1 ≡ some (some (8 ∷ [], 4, 7), k2))
recv_end-proc_send_example =
    recv_end-proc_send 4 7 1 1 request (8 ∷ 9 ∷ []) listening refl refl refl found refl
