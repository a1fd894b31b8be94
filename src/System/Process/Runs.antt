-- ===== src/System/Process/Runs.antt =====
-- Runs of the kernel of grass/process.c: the calls that processes, devices and the clock make.
use mathlib.Core.Path.{subst}
use mathlib.Core.Option.{some-injective}
use cs4411_p.Base.{
  ℕ, ◌+◌, ◌^◌, ◌<◌, ◌≡◌, refl, sym, ap, ◌∙◌, Bool, Option, none, some, List, ◌∷◌, ℤ,
}
use cs4411_p.System.Process.{runnable, MsgType, Kernel, update, set_proc}
use cs4411_p.System.Process.Running.{set_server, set_interruptable, proc_frame_alloc}
use cs4411_p.System.Process.Messages.{proc_send, recv_begin, recv_end}
use cs4411_p.System.Process.Death.{proc_kill}
use cs4411_p.System.Process.Schedule.{
  yield_round, proc_create_uid, clock_interrupt, proc_shutdown, proc_initialize,
}
use cs4411_p.System.Process.Invariant.{Valid}
use cs4411_p.System.Process.Invariant.Sending.{proc_send-Answers}
use cs4411_p.System.Process.Invariant.Choosing.{Settled}
use cs4411_p.System.Process.Invariant.Yielding.{Named, Keeps-Named, Holds}
use cs4411_p.System.Process.Invariant.Deciding.{yield_round-Decides}
use cs4411_p.System.Process.Invariant.Calling.{
  Ready, adjust-Settled, recv_begin-Holds, recv_end-Holds, clock_interrupt-Settled,
}
use cs4411_p.System.Process.Invariant.Booting.{proc_initialize-Holds}
use cs4411_p.System.Process.Invariant.Starting.{proc_create_uid-Holds, proc_kill-Holds}

-- A call; `receive` and `resume` are the parts of `proc_recv` before and after its `proc_yield`,
-- and `yield` is a round of the loop of `proc_yield`. The last three are what a process sets in its own
-- entry of the table: the server of an RPC that it waits for, the flag, and a frame for a page.
pub data Call : Type 0 where
  send : ℕ → ℕ → ℕ → MsgType → List ℕ → Call
  receive : MsgType → ℕ → ℕ → Call
  resume : MsgType → ℕ → Call
  create : ℕ → ℕ → Call
  kill : ℕ → ℕ → ℤ → Call
  yield : ℕ → Call
  clock : Call
  shutdown : ℕ → Call
  serve_by : ℕ → Call
  interrupt_by : Bool → Call
  alloc_frame : ℕ → Call

abbrev pub forget {ℓ} : {A : Type ℓ} → Option (A × Kernel) → Option Kernel
forget none = none
forget (some (a, k)) = some k

unfoldable pub exec : (ℕ → ℤ → List ℕ) → Call → Kernel → Option Kernel
unfolding proc_send recv_begin recv_end proc_create_uid proc_kill yield_round clock_interrupt
    proc_shutdown set_server set_interruptable proc_frame_alloc
exec encode (send src uid dst mtype contents) k = forget (proc_send src uid dst mtype contents k)
exec encode (receive mtype max_time now) k = forget (recv_begin mtype max_time now k)
exec encode (resume mtype size) k = forget (recv_end mtype size k)
exec encode (create owner uid) k = forget (proc_create_uid owner uid k)
exec encode (kill killer pid status) k = forget (proc_kill encode killer pid status k)
exec encode (yield now) k = forget (yield_round encode now k)
exec encode clock k = some (clock_interrupt k).1
exec encode (shutdown now) k = some (proc_shutdown now k)
exec encode (serve_by pid) k = some (set_server pid k)
exec encode (interrupt_by b) k = some (set_interruptable b k)
exec encode (alloc_frame page) k = proc_frame_alloc page k

-- When a call may be made: only a process that runs receives or creates a process, it does not wait
-- for a reply that it has, and there are pids left; and a frame is taken where one is free.
abbrev pub May : Call → Kernel → Type 0
May (receive mtype max_time now) k =
    ((k.procs k.current).state ≡ runnable) × Ready mtype (k.procs k.current)
May (resume mtype size) k = (k.procs k.current).state ≡ runnable
May (create owner uid) k = ((k.procs k.current).state ≡ runnable) × (k.pid_gen + 1 < 2 ^ 32)
May (alloc_frame page) k = (frame : ℕ) × (frames : List ℕ) × (k.freeframes ≡ frame ∷ frames)
May _ k = Unit

-- The states that the kernel gets into by these calls.
pub data Reached (encode : ℕ → ℤ → List ℕ) : Kernel → Type 0 where
  booted : (k : Kernel) → proc_initialize ≡ some k → Reached encode k
  called :
      (c : Call) (k k' : Kernel)
      → Reached encode k
      → May c k
      → exec encode c k ≡ some k'
      → Reached encode k'

-- Other free frames.
frames-Settled :
    (k : Kernel) (frames : List ℕ)
    → Settled k × Named k
    → Settled (record k { freeframes = frames }) × Named (record k { freeframes = frames })
frames-Settled k frames (v, n) = (
  record {
    slots = v.slots;
    outside = v.outside;
    live = v.live;
    running = v.running;
    current-lt = v.current-lt;
    handled-lt = v.handled-lt;
    handled = v.handled;
  },
  record { unique = n.unique; generated = n.generated },
)

-- The call gives a state, in which the invariants hold.
abbrev pub Succeeds : Option Kernel → Type 0
Succeeds r = (k' : Kernel) × (r ≡ some k') × Settled k' × Named k'

forget-Succeeds {ℓ} : {A : Type ℓ} (r : Option (A × Kernel)) → Holds r → Succeeds (forget r)
forget-Succeeds r (a, k, e, v, n) = (k, ap forget e, v, n)

shutdown-Settled : (now : ℕ) (k : Kernel) → Settled k → Settled (proc_shutdown now k)
unfolding proc_shutdown
shutdown-Settled now k v = record {
  slots = v.slots;
  outside = v.outside;
  live = v.live;
  running = v.running;
  current-lt = v.current-lt;
  handled-lt = v.handled-lt;
  handled = v.handled;
}

exec-Succeeds :
    (encode : ℕ → ℤ → List ℕ) (c : Call) (k : Kernel)
    → Settled k
    → Named k
    → May c k
    → Succeeds (exec encode c k)
unfolding exec proc_shutdown set_server set_interruptable proc_frame_alloc
exec-Succeeds encode (send src uid dst mtype contents) k v n may =
    let (b, k1, e, v1, kp, _) = proc_send-Answers k.current src uid dst mtype contents k v in
    (k1, ap forget e, subst (λ c. Valid c k1) (sym kp.current-same) v1, Keeps-Named k k1 n kp)
exec-Succeeds encode (receive mtype max_time now) k v n (w, r) =
    forget-Succeeds (recv_begin mtype max_time now k)
      (recv_begin-Holds mtype max_time now k v n w r)
exec-Succeeds encode (resume mtype size) k v n w =
    forget-Succeeds (recv_end mtype size k) (recv_end-Holds mtype size k v n w)
exec-Succeeds encode (create owner uid) k v n (w, small) =
    forget-Succeeds (proc_create_uid owner uid k) (proc_create_uid-Holds owner uid k v n w small)
exec-Succeeds encode (kill killer pid status) k v n may =
    forget-Succeeds (proc_kill encode killer pid status k)
      (proc_kill-Holds encode status killer pid k v n)
exec-Succeeds encode (yield now) k v n may =
    let (o, k1, e, v1, n1, _) = yield_round-Decides encode now k v n in (k1, ap forget e, v1, n1)
exec-Succeeds encode clock k v n may =
    let (v1, n1) = clock_interrupt-Settled k v n in ((clock_interrupt k).1, refl, v1, n1)
exec-Succeeds encode (shutdown now) k v n may = (
  proc_shutdown now k,
  refl,
  shutdown-Settled now k v,
  record { unique = n.unique; generated = n.generated },
)
exec-Succeeds encode (serve_by pid) k v n may =
    let (_, _, _, l, _) = v.slots k.current v.current-lt in
    let p = record (k.procs k.current) { server = pid } in
    let (v1, n1) = adjust-Settled k p v n refl refl l refl in (set_proc k k.current p, refl, v1, n1)
exec-Succeeds encode (interrupt_by b) k v n may =
    let (_, _, _, l, _) = v.slots k.current v.current-lt in
    let p = record (k.procs k.current) { interruptable = b } in
    let (v1, n1) = adjust-Settled k p v n refl refl l refl in (set_proc k k.current p, refl, v1, n1)
exec-Succeeds encode (alloc_frame page) k v n (frame, frames, e) =
    let (_, _, _, l, _) = v.slots k.current v.current-lt in
    let p0 = k.procs k.current in
    let p = record p0 { pages = update p0.pages page (some frame) } in
    let (v1, n1) =
      frames-Settled (set_proc k k.current p) frames (adjust-Settled k p v n refl refl l refl) in
    (record (set_proc k k.current p) { freeframes = frames }, rw e refl, v1, n1)

Reached-Sound : (encode : ℕ → ℤ → List ℕ) {k : Kernel} → Reached encode k → Settled k × Named k
Reached-Sound encode (booted k e) =
    let (k1, e1, v, n) = proc_initialize-Holds in
    let same : k1 ≡ k = some-injective _ _ (sym e1 ∙ e) in
    (subst Settled same v, subst Named same n)
Reached-Sound encode (called c k k' r may e) =
    let (v, n) = Reached-Sound encode r in
    let (k1, e1, v1, n1) = exec-Succeeds encode c k v n may in
    let same : k1 ≡ k' = some-injective _ _ (sym e1 ∙ e) in
    (subst Settled same v1, subst Named same n1)

-- The kernel starts; and in every state that it gets into by calls that may be made (of sends,
-- receptions, creations, kills, rounds of `proc_yield`, interrupts by the clock, shutdowns, and the
-- running process setting the server it waits for, its flag for interrupts and a frame of its own;
-- only a running process receives or creates one, it does not wait for a reply that it has, pids
-- are left for one that is created, and a frame is free where one is taken), each further call that
-- may be made fails no assert, and gives a state in which again the counts of processes and
-- runnable processes are right, each free process is once in the list of the free ones, each
-- runnable process or zombie but the current one is once in a run queue and no other process is in
-- one, levels are below 3, only processes that do not run wait for messages, on one queue at most,
-- and pids are unique.
pub run-Succeeds :
    (encode : ℕ → ℤ → List ℕ) (c : Call) (k : Kernel)
    → Reached encode k
    → May c k
    → Succeeds proc_initialize × Succeeds (exec encode c k)
run-Succeeds encode c k r may =
    let (v, n) = Reached-Sound encode r in (proc_initialize-Holds, exec-Succeeds encode c k v n may)
