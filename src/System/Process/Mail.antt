-- ===== src/System/Process/Mail.antt =====
-- A message on its way from `proc_send` to `proc_recv` in grass/process.c.
use cs4411_p.Base.{
  ℕ, ◌≡◌, refl, ap, ◌∙◌, true, false, not, some, List, [], ◌∷◌, ◌++◌, ◌==◌, ==_refl, take,
}
use cs4411_p.System.Process.{
  runnable, waiting, MsgType, request, reply, event, Message, Process, Kernel, ◌>>=◌, is_runnable,
  is_zombie, update, set_proc, mbox, proc_find,
}
use cs4411_p.System.Process.Messages.{
  refused, queue_message, set_waiting, deliver, proc_send, take_message, recv_end,
}
use cs4411_p.System.Process.Invariant.Sending.{if_true, receiver, wake_receiver_lem}
use cs4411_p.System.Process.Invariant.Waking.{woken}

recv_end_lem :
    (mtype : MsgType) (size : ℕ) (k : Kernel) (msg : Message)
    → (k.procs k.current).state ≡ runnable
    → (mbox (k.procs k.current) mtype).waiting' ≡ false
    → (mbox (k.procs k.current) mtype).messages ≡ msg ∷ []
    → (k' : Kernel) × (recv_end mtype size k
        ≡ some (some (take size msg.contents, msg.src, msg.uid), k'))
unfolding recv_end take_message
recv_end_lem mtype size k msg w n e = (
  _,
  if_true _ _ _ (ap not n)
      ∙ if_true _ _ _ (ap is_runnable w)
      ∙ ap (λ list. some (take_message list mtype size k)) e,
)

-- The mail of the process that was waiting, when it has woken up.
woken-mail :
    (p : Process) (mtype : MsgType) (msg : Message)
    → (mbox p mtype).messages ≡ []
    → let q = set_waiting (receiver (queue_message p mtype msg) true) mtype false in
      (q.state ≡ runnable)
      × ((mbox q mtype).waiting' ≡ false)
      × ((mbox q mtype).messages ≡ msg ∷ [])
woken-mail p request msg e = (refl, refl, ap (λ l. l ++ msg ∷ []) e)
woken-mail p reply msg e = (refl, refl, ap (λ l. l ++ msg ∷ []) e)
woken-mail p event msg e = (refl, refl, ap (λ l. l ++ msg ∷ []) e)

mail-keeps :
    (p : Process) (mtype : MsgType) (msg : Message) → (queue_message p mtype msg).state ≡ p.state
mail-keeps p request msg = refl
mail-keeps p reply msg = refl
mail-keeps p event msg = refl

deliver_lem :
    (mtype : MsgType) (msg : Message) (k : Kernel)
    → (k.procs k.current).state ≡ waiting
    → (mbox (k.procs k.current) mtype).waiting' ≡ true
    → deliver mtype msg k.current k
      ≡ some (
          woken
            (set_proc k k.current (queue_message (k.procs k.current) mtype msg))
            k.current
            (set_waiting (receiver (queue_message (k.procs k.current) mtype msg) true) mtype false))
unfolding deliver
deliver_lem mtype msg k w m =
    let i : ℕ = k.current in
    let p : Process = queue_message (k.procs i) mtype msg in
    let k1 : Kernel = set_proc k i p in
    let t : (i == i) ≡ true = ==_refl i in
    let self : update k.procs i p i ≡ p = rw t refl in
    if_true _ _ _ m
    ∙ wake_receiver_lem i mtype k1 (ap (λ p. p.state) self ∙ mail-keeps (k.procs i) mtype msg ∙ w)
    ∙ ap (λ p. some (woken k1 i (set_waiting (receiver p (i == k.current)) mtype false))) self
    ∙ ap (λ b. some (woken k1 i (set_waiting (receiver p b) mtype false))) t

-- While the current process waits for a message of a type, in `proc_recv`, and has none, a message
-- of this type is sent to it that it does not refuse (a reply must come from its server). Then
-- `proc_send` says true, and `proc_recv` gives the bytes that were sent, as many as there is room
-- for, with the pid and the user of the sender.
pub recv_end-proc_send :
    (src uid dst size : ℕ) (mtype : MsgType) (contents : List ℕ) (k : Kernel)
    → (k.procs k.current).state ≡ waiting
    → (mbox (k.procs k.current) mtype).waiting' ≡ true
    → (mbox (k.procs k.current) mtype).messages ≡ []
    → proc_find dst k ≡ some k.current
    → refused (k.procs k.current) mtype src ≡ false
    → (k1 : Kernel) × (proc_send src uid dst mtype contents k ≡ some (true, k1))
      × (k2 : Kernel) × (recv_end mtype size k1 ≡ some (some (take size contents, src, uid), k2))
unfolding proc_send
recv_end-proc_send src uid dst size mtype contents k w m none' e ok =
    let i : ℕ = k.current in
    let msg : Message = record { src = src; uid = uid; contents = contents } in
    let q : Process =
      set_waiting (receiver (queue_message (k.procs i) mtype msg) true) mtype false in
    let k1 : Kernel = woken (set_proc k i (queue_message (k.procs i) mtype msg)) i q in
    let t : (i == i) ≡ true = ==_refl i in
    let self : k1.procs i ≡ q = rw t refl in
    let (s, n, ms) = woken-mail (k.procs i) mtype msg none' in
    let live : is_zombie (k.procs i).state ≡ false = rw w refl in
    let (k2, got) =
      recv_end_lem mtype size k1 msg (ap (λ p. p.state) self ∙ s)
        (ap (λ p. (mbox p mtype).waiting') self ∙ n)
        (ap (λ p. (mbox p mtype).messages) self ∙ ms) in
    (
      k1,
      rw (e, live, ok, proc_send)
          (ap (λ r. r >>= λ k1. some (true, k1)) (deliver_lem mtype msg k w m)),
      k2,
      got,
    )
