-- ===== src/System/Process.antt =====
-- grass/process.c and grass/process.h, built with `HW_MLFQ`: processes, their messages and the
-- run queues. An operation is a function on the state of the kernel that gives `none` when an
-- `assert` fails. A pointer to a process is its index in `proc_set`, a `struct queue` the list
-- of its items. Stacks, contexts, the executable, what is counted and what is
-- printed are not modelled.
pub mod Messages
pub mod Death
pub mod Schedule
pub mod Running
pub mod Invariant
pub mod Runs
pub mod Clock
pub mod Mail
pub use cs4411_p.Base.{◌>>=◌}
use cs4411_p.Base.{
  ℕ, zero, suc, ◌+◌, ◌-◌, ◌%◌, ◌^◌, Bool, true, false, not, ◌&&◌, Option, none, some, List, [], ◌∷◌,
  ◌++◌, ◌==◌, if◌then◌else◌, ℤ, pos,
}

abbrev pub max_procs : ℕ
max_procs = 100

-- `PROC_FREE` and so on.
pub data State : Type 0 where
  free runnable waiting zombie : State

-- `enum msg_type`
pub data MsgType : Type 0 where
  request reply event : MsgType

-- `struct message`; its size is the length of the contents.
pub record Message : Type 0 where
  pub src : ℕ
  pub uid : ℕ
  pub contents : List ℕ

-- `struct msg_queue`
pub record MsgQueue : Type 0 where
  pub waiting' : Bool
  pub messages : List Message

-- `struct process`. A page is the number of its frame, if it is mapped.
pub record Process : Type 0 where
  pub pid : ℕ
  pub uid : ℕ
  pub owner : ℕ
  pub state : State
  pub ticks_left : ℤ
  pub priority_level : ℕ
  pub requests : MsgQueue
  pub replies : MsgQueue
  pub events : MsgQueue
  pub server : ℕ
  pub alarm_set : Bool
  pub exptime : ℕ
  pub interruptable : Bool
  pub pages : ℕ → Option ℕ

-- The variables of the file, with their `proc_` left out; `current` is an index.
pub record Kernel : Type 0 where
  pub procs : ℕ → Process
  pub current : ℕ
  pub runnable_mlfq : ℕ → List ℕ
  pub free_procs : List ℕ
  pub freeframes : List ℕ
  pub nprocs : ℕ
  pub nrunnable : ℕ
  pub pid_gen : ℕ
  pub shutting_down : Bool
  pub curfew : ℕ

-- `assert(test)`, then the rest.
abbrev pub assert {ℓ} : {A : Type ℓ} → Bool → Option A → Option A
assert test rest = if test then rest else none

abbrev pub is_free : State → Bool
is_free free = true
is_free _ = false

abbrev pub is_runnable : State → Bool
is_runnable runnable = true
is_runnable _ = false

abbrev pub is_waiting : State → Bool
is_waiting waiting = true
is_waiting _ = false

abbrev pub is_zombie : State → Bool
is_zombie zombie = true
is_zombie _ = false

-- `a[i] = v`
abbrev pub update {ℓ} : {A : Type ℓ} → (ℕ → A) → ℕ → A → ℕ → A
update a i v j = if i == j then v else a j

-- The process at an index, with the state of the kernel around it.
abbrev pub set_proc : Kernel → ℕ → Process → Kernel
set_proc k i p = record k { procs = update k.procs i p }

-- `&p->mboxes[mtype]`
abbrev pub mbox : Process → MsgType → MsgQueue
mbox p request = p.requests
mbox p reply = p.replies
mbox p event = p.events

abbrev pub set_mbox : Process → MsgType → MsgQueue → Process
set_mbox p request mq = record p { requests = mq }
set_mbox p reply mq = record p { replies = mq }
set_mbox p event mq = record p { events = mq }

-- `n--` of an `unsigned int`. Counts of processes do not come near 2 ^ 32, so `n++` is `n + 1`.
abbrev pub dec : ℕ → ℕ
dec zero = 2 ^ 32 - 1
dec (suc n) = n

abbrev pub quantums : ℕ → ℤ
quantums zero = pos 10
quantums (suc zero) = pos 20
quantums (suc (suc n)) = pos 30

abbrev pub mq_init : MsgQueue
mq_init = record { waiting' = false; messages = [] }

-- The process that `proc_alloc` sets up; `pages` are all `PI_UNINIT`.
abbrev pub new_process : ℕ → ℕ → ℕ → Process
new_process pid owner uid = record {
  pid = pid;
  uid = uid;
  owner = owner;
  state = runnable;
  ticks_left = quantums 0;
  priority_level = 0;
  requests = mq_init;
  replies = mq_init;
  events = mq_init;
  server = 0;
  alarm_set = false;
  exptime = 0;
  interruptable = false;
  pages = λ n. none;
}

-- `proc_alloc` with the list of the free processes; `none` stands for the null pointer.
unfoldable pub alloc_from : List ℕ → ℕ → ℕ → Kernel → Option (ℕ × Kernel)
alloc_from [] owner uid k = none
alloc_from (i ∷ rest) owner uid k = some (
  i,
  record k {
    procs = update k.procs i (new_process k.pid_gen owner uid);
    free_procs = rest;
    pid_gen = (k.pid_gen + 1) % 2 ^ 32;
    nprocs = k.nprocs + 1;
    nrunnable = k.nrunnable + 1;
  },
)

abbrev pub proc_alloc : ℕ → ℕ → Kernel → Option (ℕ × Kernel)
proc_alloc owner uid k = alloc_from k.free_procs owner uid k

-- The messages are released.
abbrev pub no_messages : MsgQueue → MsgQueue
no_messages mq = record mq { messages = [] }

unfoldable pub proc_release : ℕ → Kernel → Option Kernel
proc_release i k =
    let p = k.procs i in
    assert (is_zombie p.state) (
      some (record k {
        procs = update k.procs i (record p {
          requests = no_messages p.requests;
          replies = no_messages p.replies;
          events = no_messages p.events;
          state = free;
        });
        nprocs = dec k.nprocs;
        free_procs = k.free_procs ++ i ∷ [];
      }))

-- The `queue_add` of `proc_to_runqueue`.
abbrev pub enqueue : ℕ → Kernel → Kernel
enqueue i k =
    let level = (k.procs i).priority_level in
    record k { runnable_mlfq = update k.runnable_mlfq level (k.runnable_mlfq level ++ i ∷ []) }

unfoldable pub proc_to_runqueue : ℕ → Kernel → Option Kernel
proc_to_runqueue i k = assert (is_runnable (k.procs i).state) (some (enqueue i k))

-- The loop of `proc_find` over the last `n` processes.
unfoldable pub find_from : ℕ → ℕ → Kernel → Option ℕ
find_from zero pid k = none
find_from (suc n) pid k =
    let i = max_procs - suc n in
    let rest = find_from n pid k in
    if not (is_free (k.procs i).state) && ((k.procs i).pid == pid) then some i else rest

abbrev pub proc_find : ℕ → Kernel → Option ℕ
proc_find pid k = find_from max_procs pid k

-- If the process is not the current one, it goes to its run queue.
abbrev pub run_unless_current : ℕ → Kernel → Option Kernel
run_unless_current i k = if i == k.current then some k else proc_to_runqueue i k

abbrev pub awake : Process → Process
awake p = record p { state = runnable; alarm_set = false }

-- A level closer to 0, where there is one.
abbrev pub promote : Process → Process
promote p = record p { priority_level = p.priority_level - 1 }

-- The flags of all the queues of messages.
abbrev pub clear_waiting : Process → Process
clear_waiting p = record p {
  requests = record p.requests { waiting' = false };
  replies = record p.replies { waiting' = false };
  events = record p.events { waiting' = false };
}

unfoldable pub proc_wakeup : ℕ → Kernel → Option Kernel
unfolding proc_to_runqueue
proc_wakeup i k = assert (is_waiting (k.procs i).state) (
    run_unless_current i
      (record k { procs = update k.procs i (awake (k.procs i)); nrunnable = k.nrunnable + 1 })
    >>= λ k. some (set_proc k i (clear_waiting (k.procs i))))
