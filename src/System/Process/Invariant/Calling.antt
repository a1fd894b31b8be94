-- ===== src/System/Process/Invariant/Calling.antt =====
-- What processes, devices and the clock call in grass/process.c.

use cs4411_p.Base.{
  ℕ, ◌≤◌, ◌<◌, ◌≡◌, refl, sym, ap, ◌∙◌, inl, inr, true, false, not, List, [], ◌∷◌, arith, ◌==◌, ltb,
  Bool-cases,
}
use cs4411_p.System.Process.{
  runnable, waiting, MsgType, request, reply, event, Message, Process, Kernel, is_free, is_runnable,
  update, set_proc, mbox, dec,
}
use cs4411_p.System.Process.Messages.{
  set_waiting, to_wait, recv_with, drop_message, take_message, recv_begin, recv_end,
}
use cs4411_p.System.Process.Schedule.{tick, is_zero, clock_interrupt}
use cs4411_p.System.Process.Invariant.{flags, Valid-change}
use cs4411_p.System.Process.Invariant.Moves.{Valid-keep, dec_lem, nrunnable-positive}
use cs4411_p.System.Process.Invariant.Keeping.{Keeps, Keeps-update}
use cs4411_p.System.Process.Invariant.Sending.{if_true}
use cs4411_p.System.Process.Invariant.Choosing.{Settled}
use cs4411_p.System.Process.Invariant.Yielding.{Named, Keeps-Named, Holds}

set_waiting-wait :
    (p : Process) (mtype : MsgType)
    → flags p ≤ 0
    → let q = set_waiting (record p { state = waiting }) mtype true in
      (q.state ≡ waiting) × (q.priority_level ≡ p.priority_level) × (flags q ≤ 1) × (q.pid ≡ p.pid)
set_waiting-wait p request f = (refl, refl, omega (arith, f), refl)
set_waiting-wait p reply f = (refl, refl, omega (arith, f), refl)
set_waiting-wait p event f = (refl, refl, omega (arith, f), refl)

to_wait-same :
    (p : Process) (mtype : MsgType) (max_time now : ℕ)
    → flags p ≤ 0
    → ((to_wait p mtype max_time now).state ≡ waiting)
      × ((to_wait p mtype max_time now).priority_level ≡ p.priority_level)
      × (flags (to_wait p mtype max_time now) ≤ 1)
      × ((to_wait p mtype max_time now).pid ≡ p.pid)
to_wait-same p mtype max_time now f = elim (Bool-cases (max_time == 0)) [
  | inl y ↦ rw y (set_waiting-wait p mtype f)
  | inr n ↦ rw n (set_waiting-wait p mtype f)
]

-- The current process starts to wait.
to_wait-Valid :
    (k : Kernel) (mtype : MsgType) (max_time now : ℕ)
    → Settled k
    → (k.procs k.current).state ≡ runnable
    → Settled (record k {
      procs = update k.procs k.current (to_wait (k.procs k.current) mtype max_time now);
      nrunnable = dec k.nrunnable;
    })
to_wait-Valid k mtype max_time now v w =
    let p : Process = to_wait (k.procs k.current) mtype max_time now in
    let (q, r, fl, l, hd) = v.slots k.current v.current-lt in
    let t : (k.current == k.current) ≡ true = ground arith in
    let (s, l1, f1, _) =
      to_wait-same (k.procs k.current) mtype max_time now (ground (arith, fl, w)) in
    Valid-change k.current k.current k.current k.current k p k.runnable_mlfq k.free_procs k.nprocs
      (dec k.nrunnable) v v.current-lt v.current-lt v.current-lt (rw t refl)
      (λ j ne. (refl, refl, refl))
      (
        rw t (ground (arith, q, t)),
        rw s (ground (arith, r, w)),
        rw s f1,
        omega (arith, l1, l),
        rw (s) (ground arith),
      )
      (rw (w, s) refl)
      (rw (w, s)
        (omega (
          arith,
          dec_lem k.nrunnable (nrunnable-positive k.current k.current k p v v.current-lt w),
        )))

-- A process does not wait for a reply while there is one.
abbrev pub Ready : MsgType → Process → Type 0
Ready request p = Unit
Ready reply p = p.replies.messages ≡ []
Ready event p = Unit

Ready-empty :
    (mtype : MsgType) (p : Process) → Ready mtype p → mtype ≡ reply → (mbox p mtype).messages ≡ []
Ready-empty request p r e = ground arith
Ready-empty reply p r e = r
Ready-empty event p r e = ground arith

recv_with-Holds :
    (mtype : MsgType) (k waits : Kernel) (list : List Message)
    → Settled k
    → Named k
    → Settled waits
    → Named waits
    → (mtype ≡ reply → list ≡ [])
    → Holds (recv_with list mtype k waits)
unfolding recv_with
recv_with-Holds mtype k waits [] v n v1 n1 r = (true, waits, refl, v1, n1)
recv_with-Holds request k waits (msg ∷ rest) v n v1 n1 r = (false, k, refl, v, n)
recv_with-Holds reply k waits (msg ∷ rest) v n v1 n1 r = absurd (ground (arith, r refl))
recv_with-Holds event k waits (msg ∷ rest) v n v1 n1 r = (false, k, refl, v, n)

not_waiting : (p : Process) (mtype : MsgType) → flags p ≤ 0 → (mbox p mtype).waiting' ≡ false
not_waiting p request f = ground (arith, f)
not_waiting p reply f = ground (arith, f)
not_waiting p event f = ground (arith, f)

pub recv_begin-Holds :
    (mtype : MsgType) (max_time now : ℕ) (k : Kernel)
    → Settled k
    → Named k
    → (k.procs k.current).state ≡ runnable
    → Ready mtype (k.procs k.current)
    → Holds (recv_begin mtype max_time now k)
unfolding recv_begin
recv_begin-Holds mtype max_time now k v n w ready =
    let p : Process = k.procs k.current in
    let q : Process = to_wait p mtype max_time now in
    let (_, _, fl, _, _) = v.slots k.current v.current-lt in
    let f : flags p ≤ 0 = ground (arith, fl, w) in
    let (s, l1, f1, pid') = to_wait-same p mtype max_time now f in
    let kp : Keeps k
        (record k { procs = update k.procs k.current q; nrunnable = dec k.nrunnable }) =
      Keeps-update k k.current q k.runnable_mlfq k.free_procs k.freeframes k.nprocs
        (dec k.nrunnable) (λ h. rw w refl) pid' in
    let (b, k1, e, v1, n1) =
      recv_with-Holds mtype k
        (record k { procs = update k.procs k.current q; nrunnable = dec k.nrunnable })
        (mbox p mtype).messages v n (to_wait-Valid k mtype max_time now v w) (Keeps-Named k _ n kp)
        (Ready-empty mtype p ready) in
    (
      b,
      k1,
      if_true _ _ _ (ap is_runnable w) ∙ if_true _ _ _ (ap not (not_waiting p mtype f)) ∙ e,
      v1,
      n1,
    )

drop_message-same :
    (p : Process) (mtype : MsgType) (rest : List Message)
    → ((drop_message p mtype rest).state ≡ p.state)
      × ((drop_message p mtype rest).priority_level ≡ p.priority_level)
      × (flags (drop_message p mtype rest) ≡ flags p)
      × ((drop_message p mtype rest).pid ≡ p.pid)
drop_message-same p request rest = (refl, refl, refl, refl)
drop_message-same p reply rest = (refl, refl, refl, refl)
drop_message-same p event rest = (refl, refl, refl, refl)

-- A change of the current process that leaves its state as it is.
pub adjust-Settled :
    (k : Kernel) (p : Process)
    → Settled k
    → Named k
    → p.state ≡ (k.procs k.current).state
    → flags p ≡ flags (k.procs k.current)
    → p.priority_level < 3
    → p.pid ≡ (k.procs k.current).pid
    → Settled (set_proc k k.current p) × Named (set_proc k k.current p)
adjust-Settled k p v n s f l pid' = (
  Valid-keep k.current k.current k p v v.current-lt s f l,
  Keeps-Named k (set_proc k k.current p) n (
      Keeps-update k k.current p k.runnable_mlfq k.free_procs k.freeframes k.nprocs k.nrunnable
        (λ h. ap is_free (sym s) ∙ h) pid'),
)

take_message-Settled :
    (list : List Message) (mtype : MsgType) (size : ℕ) (k : Kernel)
    → Settled k
    → Named k
    → Settled (take_message list mtype size k).1 × Named (take_message list mtype size k).1
unfolding take_message
take_message-Settled [] mtype size k v n = (v, n)
take_message-Settled (msg ∷ rest) mtype size k v n =
    let (s, l1, f, pid') = drop_message-same (k.procs k.current) mtype rest in
    let (_, _, _, l, _) = v.slots k.current v.current-lt in
    adjust-Settled k (drop_message (k.procs k.current) mtype rest) v n s f (omega (arith, l1, l))
      pid'

pub recv_end-Holds :
    (mtype : MsgType) (size : ℕ) (k : Kernel)
    → Settled k
    → Named k
    → (k.procs k.current).state ≡ runnable
    → Holds (recv_end mtype size k)
unfolding recv_end
recv_end-Holds mtype size k v n w =
    let p : Process = k.procs k.current in
    let (_, _, fl, _, _) = v.slots k.current v.current-lt in
    let f : flags p ≤ 0 = ground (arith, fl, w) in
    let r = take_message (mbox p mtype).messages mtype size k in
    let (v1, n1) = take_message-Settled (mbox p mtype).messages mtype size k v n in
    (
      r.0,
      r.1,
      if_true _ _ _ (ap not (not_waiting p mtype f)) ∙ if_true _ _ _ (ap is_runnable w),
      v1,
      n1,
    )

pub clock_interrupt-Settled :
    (k : Kernel) → Settled k → Named k → Settled (clock_interrupt k).1 × Named (clock_interrupt k).1
unfolding clock_interrupt
clock_interrupt-Settled k v n =
    let p : Process = record (k.procs k.current) {
      ticks_left = tick (k.procs k.current).ticks_left;
    } in
    let (_, _, _, l, _) = v.slots k.current v.current-lt in
    elim (Bool-cases (is_zero p.ticks_left)) [
      | inr m ↦ rw (m, clock_interrupt) (adjust-Settled k p v n refl refl l refl)
      | inl y ↦ elim (Bool-cases (ltb (k.procs k.current).priority_level 2)) [
        | inl z ↦
            rw (y, z, clock_interrupt) (adjust-Settled k _ v n refl refl (ground (arith, z)) refl)
        | inr z ↦ rw (y, z, clock_interrupt) (adjust-Settled k p v n refl refl l refl)
      ]
    ]
