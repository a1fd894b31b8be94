-- ===== src/System/Process/Invariant/Zapping.antt =====
-- `proc_release` and `proc_zap` of grass/process.c.
use mathlib.Core.Path.{subst}
use cs4411_p.Base.{
  ℕ, ◌<◌, ◌≡◌, refl, sym, ap, ◌∙◌, ◌≢◌, ◌⊎◌, inl, inr, true, false, not, Option, some, List, [],
  ◌∷◌, ◌++◌, arith, ◌==◌, ltb, Bool-cases, ℤ,
}
use cs4411_p.System.Process.{
  max_procs, State, free, runnable, waiting, zombie, Process, Kernel, is_free, is_runnable,
  is_zombie, update, dec, no_messages, proc_release,
}
use cs4411_p.System.Process.Death.{as_zombie, may_zap, zap_as, proc_zap}
use cs4411_p.System.Process.Invariant.{Valid}
use cs4411_p.System.Process.Invariant.Moves.{
  Valid-die, Valid-die_waiting, Valid-release, nprocs-positive,
}
use cs4411_p.System.Process.Invariant.Keeping.{
  index-eq, index-ne, Keeps, Keeps-refl, Keeps-trans, Keeps-update, Goes,
}
use cs4411_p.System.Process.Invariant.Sending.{if_true, if_false}
use cs4411_p.System.Process.Invariant.Dying.{term-Safe}

abbrev pub released : Process → Process
released p = record p {
  requests = no_messages p.requests;
  replies = no_messages p.replies;
  events = no_messages p.events;
  state = free;
}

-- The state after the release.
abbrev pub release_of : ℕ → Kernel → Kernel
release_of i k = record k {
  procs = update k.procs i (released (k.procs i));
  nprocs = dec k.nprocs;
  free_procs = k.free_procs ++ i ∷ [];
}

pub proc_release_lem :
    (i : ℕ) (k : Kernel) → (k.procs i).state ≡ zombie → proc_release i k ≡ some (release_of i k)
unfolding proc_release
proc_release_lem i k z = let t : is_zombie (k.procs i).state ≡ true = rw z refl in if_true _ _ _ t

pub release-Keeps : (i : ℕ) (k : Kernel) → Keeps k (release_of i k)
release-Keeps i k =
    Keeps-update k i (released (k.procs i)) k.runnable_mlfq (k.free_procs ++ i ∷ []) k.freeframes
      (dec k.nprocs) k.nrunnable (λ h. ground arith) refl

-- The zombie that is handled is released.
pub release-Valid :
    (i : ℕ) (k : Kernel)
    → Valid i k
    → i ≢ k.current
    → (k.procs i).state ≡ zombie
    → Valid k.current (release_of i k)
release-Valid i k v ne z =
    let (_, _, fl, l, _) = v.slots i v.handled-lt in
    Valid-release i i k (released (k.procs i)) v v.handled-lt refl ne z refl (ground (arith, fl, z))
      l

pub State-cases : (s : State) → (s ≡ free) ⊎ (s ≡ runnable) ⊎ (s ≡ waiting) ⊎ (s ≡ zombie)
State-cases free = inl refl
State-cases runnable = inr (inl refl)
State-cases waiting = inr (inr (inl refl))
State-cases zombie = inr (inr (inr refl))

module _ (encode : ℕ → ℤ → List ℕ) (status : ℤ) (i : ℕ) (k : Kernel) (v : Valid k.current k)
    (i-lt : i < max_procs) where
  zap_runnable : (k.procs i).state ≡ runnable → Goes k.current k (zap_as runnable encode i status k)
  unfolding zap_as
  zap_runnable w =
      let p : Process = record (k.procs i) { state = zombie } in
      let (_, _, _, l, _) = v.slots i i-lt in
      let r : is_runnable (k.procs i).state ≡ true = rw w refl in
      let v1 : Valid k.current (as_zombie i k) =
        subst (λ n. Valid k.current (record k { procs = update k.procs i p; nrunnable = n }))
          (sym (if_true _ _ _ r)) (Valid-die k.current i k p v i-lt w refl refl l) in
      let (k2, e2, v2, kp2, _) =
        term-Safe encode status i k k.current (rw w refl) (rw w refl)
          (nprocs-positive k.current i k p v i-lt (rw w refl)) v1 in
      (k2, e2, v2, kp2)

  zap_waiting : (k.procs i).state ≡ waiting → Goes k.current k (zap_as waiting encode i status k)
  unfolding zap_as
  zap_waiting w =
      let p : Process = record (k.procs i) { state = zombie } in
      let (_, _, _, l, _) = v.slots i i-lt in
      let r : is_runnable (k.procs i).state ≡ false = rw w refl in
      let v1 : Valid i (as_zombie i k) =
        subst (λ n. Valid i (record k { procs = update k.procs i p; nrunnable = n }))
          (sym (if_false _ _ _ r)) (Valid-die_waiting k.current i k p v i-lt refl w refl refl l) in
      let (k2, e2, v2, kp2, z2) =
        term-Safe encode status i k i (rw w refl) (rw w refl)
          (nprocs-positive k.current i k p v i-lt (rw w refl)) v1 in
      elim (Bool-cases (i == k2.current)) [
        | inl y ↦
            let e : i ≡ k.current = index-eq i k2.current y ∙ kp2.current-same in
            (k2, rw e2 (if_true _ _ _ y), subst (λ d. Valid d k2) e v2, kp2)
        | inr n ↦ (
          release_of i k2,
          rw e2 (if_false _ _ _ n ∙ proc_release_lem i k2 z2),
          subst (λ d. Valid d (release_of i k2)) kp2.current-same
              (release-Valid i k2 v2 (index-ne i k2.current n) z2),
          Keeps-trans k k2 (release_of i k2) kp2 (release-Keeps i k2),
        )
      ]

  zap_switch :
      is_free (k.procs i).state ≡ false
      → Goes k.current k (zap_as (k.procs i).state encode i status k)
  unfolding zap_as
  zap_switch live = elim (State-cases (k.procs i).state) [
    | inl w ↦ absurd (ground (arith, w, live))
    | inr (inl w) ↦
        subst (λ s. Goes k.current k (zap_as s encode i status k)) (sym w) (zap_runnable w)
    | inr (inr (inl w)) ↦
        subst (λ s. Goes k.current k (zap_as s encode i status k)) (sym w) (zap_waiting w)
    | inr (inr (inr w)) ↦
        subst (λ s. Goes k.current k (zap_as s encode i status k)) (sym w)
          (k, refl, v, Keeps-refl k)
  ]

  pub proc_zap-Goes :
      (killer : Option ℕ)
      → is_free (k.procs i).state ≡ false
      → Goes k.current k (proc_zap encode killer i status k)
  unfolding proc_zap
  proc_zap-Goes killer live = elim (Bool-cases (may_zap killer i k)) [
    | inr n ↦ (k, if_true _ _ _ (ap not n), v, Keeps-refl k)
    | inl y ↦
        let (k1, e1, v1, kp1) = zap_switch live in
        let t : ltb 0 k.nprocs ≡ true =
          ground (arith, nprocs-positive k.current i k (k.procs i) v i-lt live) in
        (k1, if_false _ _ _ (ap not y) ∙ if_true _ _ _ t ∙ e1, v1, kp1)
  ]
