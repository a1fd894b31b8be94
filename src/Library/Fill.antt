-- ===== src/Library/Fill.antt =====
-- `memset` of `lib/string.c`. The memory is a function of the address; a `size_t` has 64 bits and an
-- `int` four bytes; `c` is a number of 32 bits.
pub mod Phases
use cs4411_p.Base.{ℕ, zero, suc, not, ◌+◌, ◌-◌, ◌*◌, ◌^◌, ◌/◌, ◌%◌, ◌==◌, if◌then◌else◌}

abbrev pub Memory : Type 0
Memory = ℕ → ℕ

unfoldable pub store : ℕ → ℕ → Memory → Memory
store d v m a = if a == d then v else m a

-- `while (cnt-- > 0) *d++ = v`.
unfoldable pub set_bytes : ℕ → ℕ → ℕ → Memory → Memory
set_bytes zero d v m = m
set_bytes (suc cnt) d v m = set_bytes cnt (suc d) v (store d v m)

-- Phase 2: `while (cnt-- > 0) { * (int *) d = 0; d += ALIGN; }`.
unfoldable pub clear_ints : ℕ → ℕ → Memory → Memory
clear_ints zero d m = m
clear_ints (suc cnt) d m =
    clear_ints cnt (d + 4) (store (d + 3) 0 (store (d + 2) 0 (store (d + 1) 0 (store d 0 m))))

-- The memory, `d` and `n` behind phase 1.
pub record Phase : Type 0 where
  pub memory : Memory
  pub d : ℕ
  pub n : ℕ

-- Phase 1, the loop that looks for an aligned address. `n--` wraps.
unfoldable pub align : ℕ → ℕ → ℕ → Memory → Phase
align zero d n m = record { memory = m; d = d; n = n }
align (suc cnt) d n m =
    let rest = align cnt (suc d) ((n + (2 ^ 64 - 1)) % 2 ^ 64) (store d 0 m) in
    if d % 4 == 0 then record { memory = m; d = d; n = n } else rest

-- Phases 2 and 3.
unfoldable pub clear : Phase → Memory
clear p = set_bytes (p.n % 4) (p.d + 4 * (p.n / 4)) 0 (clear_ints (p.n / 4) p.d p.memory)

unfoldable pub memset : ℕ → ℕ → ℕ → Memory → Memory
memset d c n m = if not (c == 0) then set_bytes n d (c % 256) m else clear (align (d % 4) d n m)
