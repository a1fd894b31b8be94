-- ===== src/System/Process/Messages.antt =====
-- The messages of grass/process.c: `proc_send`, and `proc_recv` up to and from its `proc_yield`.
use cs4411_p.Base.{
  ℕ, ◌+◌, ◌%◌, ◌^◌, Bool, true, false, not, ◌||◌, Option, none, some, List, [], ◌∷◌, ◌++◌, ◌==◌,
  if◌then◌else◌, take,
}
use cs4411_p.System.Process.{
  waiting, MsgType, request, reply, event, Message, Process, Kernel, ◌>>=◌, assert, is_runnable,
  is_waiting, is_zombie, update, set_proc, mbox, set_mbox, dec, proc_to_runqueue, find_from,
  proc_find, run_unless_current, awake, promote,
}

-- The process does not wait for this reply.
abbrev pub refused : Process → MsgType → ℕ → Bool
refused dst reply src =
    not (is_waiting dst.state) || not dst.replies.waiting' || not (dst.server == src)
refused dst _ src = false

abbrev pub queue_message : Process → MsgType → Message → Process
queue_message p mtype msg =
    let mq = mbox p mtype in set_mbox p mtype (record mq { messages = mq.messages ++ msg ∷ [] })

abbrev pub set_waiting : Process → MsgType → Bool → Process
set_waiting p mtype flag = set_mbox p mtype (record (mbox p mtype) { waiting' = flag })

-- The process wakes up; one that is not current moves a level up and goes to its run queue.
unfoldable pub wake_receiver : ℕ → MsgType → Kernel → Option Kernel
unfolding proc_to_runqueue
wake_receiver i mtype k =
    let p = awake (k.procs i) in
    let dst = if i == k.current then p else promote p in
    assert (is_waiting (k.procs i).state) (
      run_unless_current i (record k { procs = update k.procs i dst; nrunnable = k.nrunnable + 1 })
      >>= λ k. some (set_proc k i (set_waiting (k.procs i) mtype false)))

-- What `proc_send` does when nothing speaks against it.
unfoldable pub deliver : MsgType → Message → ℕ → Kernel → Option Kernel
unfolding wake_receiver
deliver mtype msg i k =
    let k1 = set_proc k i (queue_message (k.procs i) mtype msg) in
    if (mbox (k.procs i) mtype).waiting' then wake_receiver i mtype k1 else some k1

unfoldable pub proc_send : ℕ → ℕ → ℕ → MsgType → List ℕ → Kernel → Option (Bool × Kernel)
unfolding find_from deliver
proc_send src_pid src_uid dst_pid mtype contents k = elim (proc_find dst_pid k) [
  | none ↦ some (false, k)
  | some i ↦
      if is_zombie (k.procs i).state
      then some (false, k)
      else if refused (k.procs i) mtype src_pid
      then some (false, k)
      else (deliver mtype (record { src = src_pid; uid = src_uid; contents = contents }) i k
          >>= λ k1. some (true, k1))
]

-- The process waits, until the time `now + max_time` if `max_time` is not 0.
abbrev pub to_wait : Process → MsgType → ℕ → ℕ → Process
to_wait p mtype max_time now =
    let p1 = set_waiting (record p { state = waiting }) mtype true in
    if max_time == 0
    then p1
    else record p1 { exptime = (now + max_time) % 2 ^ 64; alarm_set = true }

-- Whether there are messages, and what follows; `waits` is the state with the process waiting.
unfoldable pub recv_with : List Message → MsgType → Kernel → Kernel → Option (Bool × Kernel)
recv_with [] mtype k waits = some (true, waits)
recv_with (msg ∷ rest) request k waits = some (false, k)
recv_with (msg ∷ rest) reply k waits = none
recv_with (msg ∷ rest) event k waits = some (false, k)

-- `proc_recv` up to its `proc_yield`; says if it calls it.
unfoldable pub recv_begin : MsgType → ℕ → ℕ → Kernel → Option (Bool × Kernel)
unfolding recv_with
recv_begin mtype max_time now k =
    let p = k.procs k.current in
    assert (is_runnable p.state) (
      assert (not (mbox p mtype).waiting') (
        recv_with (mbox p mtype).messages mtype k (record k {
          procs = update k.procs k.current (to_wait p mtype max_time now);
          nrunnable = dec k.nrunnable;
        })))

-- The bytes, source and user of a message as `proc_recv` gives them; `none` stands for its `false`.
abbrev pub Received : Type 0
Received = Option (List ℕ × ℕ × ℕ)

abbrev pub drop_message : Process → MsgType → List Message → Process
drop_message p mtype rest = set_mbox p mtype (record (mbox p mtype) { messages = rest })

-- The first message, of which there is room for `size` bytes.
unfoldable pub take_message : List Message → MsgType → ℕ → Kernel → Received × Kernel
take_message [] mtype size k = (none, k)
take_message (msg ∷ rest) mtype size k = (
  some (take size msg.contents, msg.src, msg.uid),
  set_proc k k.current (drop_message (k.procs k.current) mtype rest),
)

-- `proc_recv` from the end of its `proc_yield` on.
unfoldable pub recv_end : MsgType → ℕ → Kernel → Option (Received × Kernel)
unfolding take_message
recv_end mtype size k =
    let p = k.procs k.current in
    assert (not (mbox p mtype).waiting')
      (assert (is_runnable p.state) (some (take_message (mbox p mtype).messages mtype size k)))
