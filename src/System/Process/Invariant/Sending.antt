-- ===== src/System/Process/Invariant/Sending.antt =====
-- `proc_find` and `proc_send` of grass/process.c.
pub use cs4411_p.Base.{if_true, if_false}
use cs4411_p.Base.{
  ℕ, zero, suc, ◌-◌, ◌≤◌, ◌<◌, ◌≡◌, refl, sym, ◌∙◌, inl, inr, Bool, true, false, not, ◌&&◌, Option,
  some, List, arith, ◌==◌, Bool-cases, Option-cases, if◌then◌else◌,
}
use cs4411_p.System.Process.{
  max_procs, State, free, runnable, waiting, zombie, MsgType, request, reply, event, Message,
  Process, Kernel, is_free, is_waiting, is_zombie, set_proc, mbox, find_from, proc_find, awake,
  promote,
}
use cs4411_p.System.Process.Messages.{
  refused, queue_message, set_waiting, wake_receiver, deliver, proc_send,
}
use cs4411_p.System.Process.Invariant.{flags, max_flags, Valid}
use cs4411_p.System.Process.Invariant.Moves.{Valid-keep}
use cs4411_p.System.Process.Invariant.Keeping.{
  Keeps, Keeps-refl, Keeps-trans, Keeps-update, Buries, Buries-update, Safe,
}
use cs4411_p.System.Process.Invariant.Waking.{woken, woken_lem, woken-Safe}

-- What is found is a process of this pid.
pub find_from-some :
    (n pid i : ℕ) (k : Kernel)
    → find_from n pid k ≡ some i
    → (i < max_procs) × (is_free (k.procs i).state ≡ false) × ((k.procs i).pid ≡ pid)
unfolding find_from
find_from-some zero pid i k e = ground arith
find_from-some (suc n) pid i k e =
    let j : ℕ = max_procs - suc n in
    elim (Bool-cases (not (is_free (k.procs j).state) && ((k.procs j).pid == pid))) [
      | inl y ↦
          let s : j ≡ i = ground (arith, e, y, find_from) in
          rw (sym s) (omega arith, ground (arith, y), ground (arith, y))
      | inr f ↦ find_from-some n pid i k (ground (arith, e, f, find_from))
    ]

flags-queue_message :
    (p : Process) (mtype : MsgType) (msg : Message) → flags (queue_message p mtype msg) ≡ flags p
flags-queue_message p request msg = refl
flags-queue_message p reply msg = refl
flags-queue_message p event msg = refl

-- The fields that a message leaves as they are.
queue_message-same :
    (p : Process) (mtype : MsgType) (msg : Message)
    → ((queue_message p mtype msg).state ≡ p.state)
      × ((queue_message p mtype msg).priority_level ≡ p.priority_level)
      × ((queue_message p mtype msg).pid ≡ p.pid)
      × ((mbox (queue_message p mtype msg) mtype).waiting' ≡ (mbox p mtype).waiting')
queue_message-same p request msg = (refl, refl, refl, refl)
queue_message-same p reply msg = (refl, refl, refl, refl)
queue_message-same p event msg = (refl, refl, refl, refl)

set_waiting-same :
    (p : Process) (mtype : MsgType) (flag : Bool)
    → ((set_waiting p mtype flag).state ≡ p.state)
      × ((set_waiting p mtype flag).priority_level ≡ p.priority_level)
      × ((set_waiting p mtype flag).pid ≡ p.pid)
set_waiting-same p request flag = (refl, refl, refl)
set_waiting-same p reply flag = (refl, refl, refl)
set_waiting-same p event flag = (refl, refl, refl)

flags-set_waiting :
    (p : Process) (mtype : MsgType)
    → (mbox p mtype).waiting' ≡ true
    → flags p ≤ 1
    → flags (set_waiting p mtype false) ≡ 0
flags-set_waiting p request e l = ground (arith, e)
flags-set_waiting p reply e l = ground (arith, e)
flags-set_waiting p event e l = ground (arith, e)

waiting-flags : (p : Process) (mtype : MsgType) → (mbox p mtype).waiting' ≡ true → 0 < flags p
waiting-flags p request e = ground (arith, e)
waiting-flags p reply e = ground (arith, e)
waiting-flags p event e = ground (arith, e)

max_flags-waiting :
    (s : State) → is_free s ≡ false → is_zombie s ≡ false → 0 < max_flags s → s ≡ waiting
max_flags-waiting free f z m = ground arith
max_flags-waiting runnable f z m = absurd (omega arith)
max_flags-waiting waiting f z m = refl
max_flags-waiting zombie f z m = ground arith

-- What wakes up in `proc_send`.
abbrev pub receiver : Process → Bool → Process
receiver p stays = if stays then awake p else promote (awake p)

receiver-same :
    (p : Process) (mtype : MsgType) (stays : Bool)
    → ((receiver p stays).state ≡ runnable)
      × (flags (receiver p stays) ≡ flags p)
      × ((receiver p stays).priority_level ≤ p.priority_level)
      × ((receiver p stays).pid ≡ p.pid)
      × ((mbox (receiver p stays) mtype).waiting' ≡ (mbox p mtype).waiting')
receiver-same p request true = (refl, refl, omega arith, refl, refl)
receiver-same p request false = (refl, refl, omega arith, refl, refl)
receiver-same p reply true = (refl, refl, omega arith, refl, refl)
receiver-same p reply false = (refl, refl, omega arith, refl, refl)
receiver-same p event true = (refl, refl, omega arith, refl, refl)
receiver-same p event false = (refl, refl, omega arith, refl, refl)

pub wake_receiver_lem :
    (i : ℕ) (mtype : MsgType) (k : Kernel)
    → (k.procs i).state ≡ waiting
    → wake_receiver i mtype k
      ≡ some (woken k i (set_waiting (receiver (k.procs i) (i == k.current)) mtype false))
unfolding wake_receiver
wake_receiver_lem i mtype k w =
    let q : Process = receiver (k.procs i) (i == k.current) in
    let (s, _, _, _, _) = receiver-same (k.procs i) mtype (i == k.current) in
    let (_, l1, _) = set_waiting-same q mtype false in
    let r : is_waiting (k.procs i).state ≡ true = rw w refl in
    rw (r, wake_receiver) (woken_lem k i q (λ p. set_waiting p mtype false) s l1)

wake_receiver-Safe :
    (d i : ℕ) (mtype : MsgType) (k : Kernel)
    → Valid d k
    → i < max_procs
    → (k.procs i).state ≡ waiting
    → (mbox (k.procs i) mtype).waiting' ≡ true
    → Safe d k (wake_receiver i mtype k)
wake_receiver-Safe d i mtype k v i-lt w m =
    let q : Process = receiver (k.procs i) (i == k.current) in
    let (_, _, fl, l, _) = v.slots i i-lt in
    let (s, same, le, pid', mb) = receiver-same (k.procs i) mtype (i == k.current) in
    let (s1, l1, pid1) = set_waiting-same q mtype false in
    let fl1 : flags (k.procs i) ≤ 1 = ground (arith, fl, w) in
    let none' : flags (set_waiting q mtype false) ≡ 0 =
      flags-set_waiting q mtype (mb ∙ m) (omega (arith, same, fl1)) in
    let (v', kp, z) =
      woken-Safe d i k (set_waiting q mtype false) v i-lt w (s1 ∙ s) none'
        (omega (arith, l1, le, l)) (pid1 ∙ pid') in
    (woken k i (set_waiting q mtype false), wake_receiver_lem i mtype k w, v', kp, z)

-- The answer with the state that the operation gives.
abbrev pub Answers {ℓ} : {A : Type ℓ} → ℕ → Kernel → Option (A × Kernel) → Type ℓ
Answers {A = A} d k r =
    (a : A) × (k' : Kernel) × (r ≡ some (a, k')) × Valid d k' × Keeps k k' × Buries k k'

deliver-Safe :
    (d i : ℕ) (mtype : MsgType) (msg : Message) (k : Kernel)
    → Valid d k
    → i < max_procs
    → is_free (k.procs i).state ≡ false
    → is_zombie (k.procs i).state ≡ false
    → Safe d k (deliver mtype msg i k)
unfolding deliver
deliver-Safe d i mtype msg k v i-lt there live =
    let p : Process = queue_message (k.procs i) mtype msg in
    let (s, l, pid', mb) = queue_message-same (k.procs i) mtype msg in
    let (_, _, fl, lv, _) = v.slots i i-lt in
    let v1 : Valid d (set_proc k i p) =
      Valid-keep d i k p v i-lt s (flags-queue_message (k.procs i) mtype msg)
        (omega (arith, l, lv)) in
    let kp1 : Keeps k (set_proc k i p) =
      Keeps-update k i p k.runnable_mlfq k.free_procs k.freeframes k.nprocs k.nrunnable (λ h. there)
        pid' in
    let z1 : Buries k (set_proc k i p) = Buries-update k i p (λ z. s ∙ z) in
    elim (Bool-cases (mbox (k.procs i) mtype).waiting') [
      | inr idle ↦ (set_proc k i p, if_false _ _ _ idle, v1, kp1, z1)
      | inl wait ↦
          let w : (k.procs i).state ≡ waiting =
            max_flags-waiting (k.procs i).state there live
              (omega (arith, fl, waiting-flags (k.procs i) mtype wait)) in
          let t : (i == i) ≡ true = ground arith in
          let (k2, e2, v2, kp2, z2) =
            wake_receiver-Safe d i mtype (set_proc k i p) v1 i-lt (rw t (s ∙ w))
              (rw t (mb ∙ wait)) in
          (
            k2,
            if_true _ _ _ wait ∙ e2,
            v2,
            Keeps-trans k (set_proc k i p) k2 kp1 kp2,
            λ j h. z2 j (z1 j h),
          )
    ]

pub proc_send-Answers :
    (d src_pid src_uid dst_pid : ℕ) (mtype : MsgType) (contents : List ℕ) (k : Kernel)
    → Valid d k
    → Answers d k (proc_send src_pid src_uid dst_pid mtype contents k)
unfolding proc_send
proc_send-Answers d src_pid src_uid dst_pid mtype contents k v =
    elim (Option-cases (proc_find dst_pid k)) [
      | inl e ↦ rw (e, proc_send) (false, k, refl, v, Keeps-refl k, λ i z. z)
      | inr (i, e) ↦ elim (Bool-cases (is_zombie (k.procs i).state)) [
        | inl zo ↦ rw (e, zo, proc_send) (false, k, refl, v, Keeps-refl k, λ i z. z)
        | inr live ↦ elim (Bool-cases (refused (k.procs i) mtype src_pid)) [
          | inl ref ↦ rw (e, live, ref, proc_send) (false, k, refl, v, Keeps-refl k, λ i z. z)
          | inr ok ↦
              let (i-lt, there, _) = find_from-some max_procs dst_pid i k e in
              let msg : Message = record { src = src_pid; uid = src_uid; contents = contents } in
              let (k1, e1, v1, kp1, z1) = deliver-Safe d i mtype msg k v i-lt there live in
              rw (e, live, ok, e1, proc_send) (true, k1, refl, v1, kp1, z1)
        ]
      ]
    ]
