-- ===== src/Library/Fill/Phases.antt =====
-- The three phases of `memset`, `lib/string.c`.
use cs4411_p.Base.{
  ℕ, zero, suc, ◌+◌, ◌-◌, ◌*◌, ◌^◌, ◌/◌, ◌%◌, ◌≤◌, ◌<◌, ◌==◌, ◌≡◌, ◌⊎◌, inl, inr, refl, sym, ap,
  ◌∙◌, arith, if◌then◌else◌, Bool-cases, ltb, leb,
}
use cs4411_p.Library.Fill.{Memory, store, set_bytes, clear_ints, Phase, align, clear, memset}

-- What the bytes are afterwards.
set_bytes_lem :
    (n d v : ℕ) (m : Memory) (a : ℕ)
    → set_bytes n d v m a ≡ (if leb d a then if ltb a (d + n) then v else m a else m a)
unfolding set_bytes store
set_bytes_lem zero d v m a = ground arith
set_bytes_lem (suc n) d v m a = set_bytes_lem n (suc d) v (store d v m) a ∙ ground arith

-- The loop in two parts.
set_bytes-set_bytes :
    (j k n d e v : ℕ) (m : Memory)
    → n ≡ j + k
    → e ≡ d + j
    → set_bytes n d v m ≡ set_bytes k e v (set_bytes j d v m)
unfolding set_bytes
set_bytes-set_bytes zero k n d e v m p q =
    let same : n ≡ k = omega arith in
    let start : d ≡ e = omega arith in λ i. set_bytes (same i) (start i) v m
set_bytes-set_bytes (suc j) k zero d e v m p q = absurd (omega arith)
set_bytes-set_bytes (suc j) k (suc n) d e v m p q =
    set_bytes-set_bytes j k n (suc d) e v (store d v m) (omega arith) (omega arith)

set_bytes-int :
    (d : ℕ) (m : Memory)
    → set_bytes 4 d 0 m ≡ store (d + 3) 0 (store (d + 2) 0 (store (d + 1) 0 (store d 0 m)))
unfolding set_bytes
set_bytes-int d m =
    let one : suc d ≡ d + 1 = omega arith in
    let two : suc (suc d) ≡ d + 2 = omega arith in
    let three : suc (suc (suc d)) ≡ d + 3 = omega arith in
    λ i. store (three i) 0 (store (two i) 0 (store (one i) 0 (store d 0 m)))

clear_ints-set_bytes :
    (cnt k d : ℕ) (m : Memory) → k ≡ 4 * cnt → clear_ints cnt d m ≡ set_bytes k d 0 m
unfolding clear_ints set_bytes
clear_ints-set_bytes zero zero d m e = refl
clear_ints-set_bytes zero (suc k) d m e = absurd (omega arith)
clear_ints-set_bytes (suc cnt) k d m e =
    ap (clear_ints cnt (d + 4)) (sym (set_bytes-int d m))
    ∙ clear_ints-set_bytes cnt (4 * cnt) (d + 4) (set_bytes 4 d 0 m) refl
    ∙ sym (set_bytes-set_bytes 4 (4 * cnt) k d (d + 4) 0 m (omega arith) refl)

-- The bytes that phase 1 clears.
record Aligned (d n : ℕ) (m : Memory) (out : Phase) : Type 0 where
  pub skipped : ℕ
  pub memory_lem : out.memory ≡ set_bytes skipped d 0 m
  pub d_lem : out.d ≡ d + skipped
  pub n_lem : n ≡ skipped + out.n

stay-Aligned : (d n : ℕ) (m : Memory) → Aligned d n m (record { memory = m; d = d; n = n })
unfolding set_bytes
stay-Aligned d n m = record {
  skipped = 0;
  memory_lem = refl;
  d_lem = omega arith;
  n_lem = omega arith;
}

step-Aligned :
    (d n k : ℕ) (m : Memory) (out : Phase)
    → 1 ≤ n
    → k ≡ n - 1
    → Aligned (suc d) k (store d 0 m) out
    → Aligned d n m out
unfolding set_bytes
step-Aligned d n k m out h e al =
    let f = al.d_lem in
    let g = al.n_lem in
    record {
      skipped = suc al.skipped;
      memory_lem = al.memory_lem;
      d_lem = omega arith;
      n_lem = omega arith;
    }

align-Aligned :
    (cnt d n : ℕ) (m : Memory)
    → n < 2 ^ 64
    → (cnt ≤ n) ⊎ ((4 - d % 4) % 4 ≤ n)
    → Aligned d n m (align cnt d n m)
unfolding align
align-Aligned zero d n m s h = stay-Aligned d n m
align-Aligned (suc cnt) d n m s h = elim (Bool-cases (d % 4 == 0)) [
  | inl e ↦ rw (e) (stay-Aligned d n m)
  | inr e ↦
      let some_left : 1 ≤ n = ground (arith, e, h) in
      let k = (n + (2 ^ 64 - 1)) % 2 ^ 64 in
      let less : k ≡ n - 1 = omega arith in
      rw (e) (
        step-Aligned d n k m (align cnt (suc d) k (store d 0 m)) some_left less
          (align-Aligned cnt (suc d) k (store d 0 m) (omega arith) (ground (arith, e, h, less))))
]

clear-Aligned : (d n : ℕ) (m : Memory) (p : Phase) → Aligned d n m p → clear p ≡ set_bytes n d 0 m
unfolding clear
clear-Aligned d n m p al =
    let e = al.d_lem in
    ap (set_bytes (p.n % 4) (p.d + 4 * (p.n / 4)) 0)
      (clear_ints-set_bytes (p.n / 4) (4 * (p.n / 4)) p.d p.memory refl)
    ∙ sym (
        set_bytes-set_bytes (4 * (p.n / 4)) (p.n % 4) p.n p.d (p.d + 4 * (p.n / 4)) 0 p.memory
          (omega arith) refl)
    ∙ ap (set_bytes p.n p.d 0) al.memory_lem
    ∙ sym (set_bytes-set_bytes al.skipped p.n n d p.d 0 m al.n_lem e)

-- `memset` writes the low byte of `c` to the `n` addresses from `d` on and to no other, where the
-- bytes up to an aligned address, the distance behind the last one or before the next one, are
-- among the `n`.
pub memset_lem :
    (d c n : ℕ) (m : Memory) (a : ℕ)
    → n < 2 ^ 64
    → (d % 4 ≤ n) ⊎ ((4 - d % 4) % 4 ≤ n)
    → memset d c n m a ≡ (if leb d a then if ltb a (d + n) then c % 256 else m a else m a)
unfolding memset
memset_lem d c n m a s h = elim (Bool-cases (c == 0)) [
  | inl e ↦
      let zeros : c % 256 ≡ 0 = ground (arith, e) in
      rw (e, zeros)
        (ap (λ r. r a) (clear-Aligned d n m (align (d % 4) d n m) (align-Aligned (d % 4) d n m s h))
          ∙ set_bytes_lem n d 0 m a)
  | inr e ↦ rw (e) (set_bytes_lem n d (c % 256) m a)
]
