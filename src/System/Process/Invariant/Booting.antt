-- ===== src/System/Process/Invariant/Booting.antt =====
-- `proc_initialize` of grass/process.c.
use cs4411_p.Base.{
  ℕ, zero, suc, ◌+◌, ◌-◌, ◌%◌, ◌^◌, ◌≡◌, refl, sym, ap, ◌∙◌, inl, inr, Bool, false, some, List, [],
  ◌∷◌, ◌++◌, arith, ◌==◌, ltb, Bool-cases,
}
use cs4411_p.System.Process.{
  max_procs, State, free, Kernel, is_free, is_runnable, update, new_process, alloc_from,
}
use cs4411_p.System.Process.Schedule.{numbers, boot, zeroed, become, proc_initialize}
use cs4411_p.System.Process.Invariant.{occ, one_if, count, count-update, is_live, occ-append}
use cs4411_p.System.Process.Invariant.Keeping.{index-eq}
use cs4411_p.System.Process.Invariant.Choosing.{Settled}
use cs4411_p.System.Process.Invariant.Yielding.{Named}

numbers-front : (n : ℕ) → (rest : List ℕ) × (numbers (suc n) ≡ 0 ∷ rest)
unfolding numbers
numbers-front zero = ([], refl)
numbers-front (suc n) =
    let (rest, e) = numbers-front n in (rest ++ suc n ∷ [], ap (λ l. l ++ suc n ∷ []) e)

occ-numbers : (i n : ℕ) → occ i (numbers n) ≡ one_if (ltb i n)
unfolding numbers
occ-numbers i zero = ground arith
occ-numbers i (suc n) = ground (arith, occ-append i (numbers n) (n ∷ []), occ-numbers i n)

count-zeroed : (test : State → Bool) (n : ℕ) → test free ≡ false → count test zeroed n ≡ 0
unfolding count
count-zeroed test zero e = refl
count-zeroed test (suc n) e = rw e (omega (arith, count-zeroed test n e))

-- After the start, one process runs.
pub boot-Holds :
    (rest : List ℕ)
    → numbers max_procs ≡ 0 ∷ rest
    → let k = record boot {
      procs = update zeroed 0 (new_process 1 1 0);
      free_procs = rest;
      pid_gen = (1 + 1) % 2 ^ 32;
      nprocs = 1;
      nrunnable = 1;
    } in
      Settled k × Named k
boot-Holds rest e =
    let once : (i : ℕ) → occ i rest + one_if (i == 0) ≡ one_if (ltb i max_procs) =
      λ i. omega (arith, sym (ap (occ i) e) ∙ occ-numbers i max_procs) in
    let only : (i : ℕ) → is_free (update zeroed 0 (new_process 1 1 0) i).state ≡ false → 0 ≡ i =
      λ i. elim (Bool-cases (0 == i)) [
        | inl y ↦ λ h. index-eq 0 i y
        | inr n ↦ rw n (λ h. ground arith)
      ] in
    (
      record {
        slots = λ i i-lt. elim (Bool-cases (0 == i)) [
          | inl y ↦
              let z : 0 ≡ i = index-eq 0 i y in
              rw (sym z) (refl, omega (arith, once 0), omega arith, omega arith, refl)
          | inr n ↦
              let m : (i == 0) ≡ false = ground (arith, n) in
              rw (n, m) (refl, ground (arith, once i, m, i-lt), omega arith, omega arith, refl)
        ];
        outside = λ i far. (refl, ground (arith, once i));
        live = omega (
          arith,
          count-update is_live zeroed 0 (new_process 1 1 0) max_procs (omega arith),
          count-zeroed is_live max_procs refl,
        );
        running = omega (
          arith,
          count-update is_runnable zeroed 0 (new_process 1 1 0) max_procs (omega arith),
          count-zeroed is_runnable max_procs refl,
        );
        current-lt = omega arith;
        handled-lt = omega arith;
        handled = refl;
      },
      record {
        unique = λ i j li lj same. sym (only i li) ∙ only j lj;
        generated = λ i li. rw (sym (only i li)) (omega arith);
      },
    )

-- The start gives a state in which the invariants hold.
pub proc_initialize-Holds : (k : Kernel) × (proc_initialize ≡ some k) × Settled k × Named k
unfolding proc_initialize alloc_from
proc_initialize-Holds =
    let (rest, e) = numbers-front (max_procs - 1) in
    let (v, n) = boot-Holds rest e in (_, ap (λ l. become (alloc_from l 1 0 boot)) e, v, n)
