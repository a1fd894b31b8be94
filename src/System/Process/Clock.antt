-- ===== src/System/Process/Clock.antt =====
-- The time slices of grass/process.c.
use cs4411_p.Base.{
  ℕ, zero, suc, ◌+◌, ◌-◌, ◌^◌, ◌<◌, ◌≡◌, refl, ap, ◌∙◌, inl, inr, true, false, arith, ◌==◌, ltb,
  Bool-cases, ℤ, pos, negsuc,
}
use cs4411_p.System.Process.{Process, Kernel, set_proc}
use cs4411_p.System.Process.Schedule.{tick, is_zero, clock_interrupt}

-- So many interrupts by the clock, without a `proc_yield` in between.
unfoldable pub ticks : ℕ → Kernel → Kernel
unfolding clock_interrupt
ticks zero k = k
ticks (suc n) k = (clock_interrupt (ticks n k)).1

-- The ticks that the current process has left.
abbrev pub slice_left : Kernel → ℤ
slice_left k = (k.procs k.current).ticks_left

set-slice_left : (k : Kernel) (p : Process) → slice_left (set_proc k k.current p) ≡ p.ticks_left
set-slice_left k p =
    let t : (k.current == k.current) ≡ true = ground arith in rw (t, slice_left) refl

clock-left : (k : Kernel) → slice_left (clock_interrupt k).1 ≡ tick (slice_left k)
unfolding clock_interrupt
clock-left k =
    let p : Process = record (k.procs k.current) { ticks_left = tick (slice_left k) } in
    elim (Bool-cases (is_zero (tick (slice_left k)))) [
      | inl y ↦ elim (Bool-cases (ltb (k.procs k.current).priority_level 2)) [
        | inl z ↦
            rw (y, z, clock_interrupt)
              (set-slice_left k (record p { priority_level = p.priority_level + 1 }))
        | inr z ↦ rw (y, z, clock_interrupt) (set-slice_left k p)
      ]
      | inr n ↦ rw (n, clock_interrupt) (set-slice_left k p)
    ]

clock-yields : (k : Kernel) → (clock_interrupt k).0 ≡ is_zero (tick (slice_left k))
unfolding clock_interrupt
clock-yields k = elim (Bool-cases (is_zero (tick (slice_left k)))) [
  | inl y ↦ rw (y, clock_interrupt) refl
  | inr n ↦ rw (n, clock_interrupt) refl
]

ticks-left : (n m : ℕ) (k : Kernel) → slice_left k ≡ pos (n + m) → slice_left (ticks n k) ≡ pos m
unfolding ticks
ticks-left zero m k e = e ∙ ap pos (omega arith)
ticks-left (suc n) m k e =
    clock-left (ticks n k) ∙ ap tick (ticks-left n (suc m) k (e ∙ ap pos (omega arith)))

tick-negsuc : (n : ℕ) → suc n < 2 ^ 31 → tick (negsuc n) ≡ negsuc (suc n)
tick-negsuc n h = ground arith

ticks-spent :
    (n : ℕ) (k : Kernel)
    → n < 2 ^ 31
    → slice_left k ≡ pos 0
    → slice_left (ticks (suc n) k) ≡ negsuc n
unfolding ticks
ticks-spent zero k h e = clock-left k ∙ ap tick e
ticks-spent (suc n) k h e =
    clock-left (ticks (suc n) k) ∙ ap tick (ticks-spent n k (omega arith) e) ∙ tick-negsuc n h

-- From a state in which the current process has `n + 1` ticks left, the interrupt by the clock that
-- comes after `i` others does not make it yield if `i` is less than `n`, and the one that comes
-- after `n` others does.
pub clock-slice :
    (n i : ℕ) (k : Kernel)
    → slice_left k ≡ pos (suc n)
    → i < n
    → ((clock_interrupt (ticks i k)).0 ≡ false) × ((clock_interrupt (ticks n k)).0 ≡ true)
clock-slice n i k e h = (
  clock-yields (ticks i k)
      ∙ ap (λ t. is_zero (tick t))
          (ticks-left i (suc (suc (n - i - 1))) k (e ∙ ap pos (omega arith))),
  clock-yields (ticks n k)
      ∙ ap (λ t. is_zero (tick t)) (ticks-left n 1 k (e ∙ ap pos (omega arith))),
)

-- From a state in which the current process has no ticks left, none of the next 2 ^ 31 interrupts
-- by the clock, which bring `ticks_left` down to the least `int`, makes it yield.
pub clock-starves :
    (n : ℕ) (k : Kernel)
    → n < 2 ^ 31
    → slice_left k ≡ pos 0
    → (clock_interrupt (ticks n k)).0 ≡ false
unfolding ticks
clock-starves zero k h e = clock-yields k ∙ ap (λ t. is_zero (tick t)) e
clock-starves (suc n) k h e =
    clock-yields (ticks (suc n) k)
    ∙ ap (λ t. is_zero (tick t)) (ticks-spent n k (omega arith) e)
    ∙ ap is_zero (tick-negsuc n h)
