-- ===== src/Block/Tree/Levels.antt =====
-- The height of a file's tree in block/treedisk.c: the counts in `treedisk_read` and
-- `treedisk_write` and the count in `treedisk_free_file`.
use cs4411_p.Base.{
  ℕ, zero, suc, ◌+◌, ◌-◌, ◌^◌, ◌≤◌, ◌<◌, ◌≡◌, refl, sym, ap, ◌∙◌, ◌⊎◌, inl, inr, none, some, arith,
  u32_mod,
}
use mathlib.Core.Path.{subst}
use cs4411_p.Block.Tree.{log_shift_r, count_levels, or_zero, levels}
use cs4411_p.Block.Tree.File.{level_for}

-- A tree with so many levels has room for the offset, and a lower one has not.
abbrev pub IsHeight : ℕ → ℕ → Type 0
IsHeight x n = (x < 256 ^ n) × ((n ≡ 0) ⊎ (256 ^ (n - 1) ≤ x))

levels-cases :
    (x : ℕ)
    → x < u32_mod
    → ((count_levels 5 x 0 ≡ some 0) × (x ≡ 0))
      ⊎ ((count_levels 5 x 0 ≡ some 1) × (0 < x) × (x < 256))
      ⊎ ((count_levels 5 x 0 ≡ some 2) × (256 ≤ x) × (x < 256 ^ 2))
      ⊎ ((count_levels 5 x 0 ≡ some 3) × (256 ^ 2 ≤ x) × (x < 256 ^ 3))
      ⊎ ((count_levels 5 x 0 ≡ some 4) × (256 ^ 3 ≤ x) × (x < 256 ^ 4))
unfolding count_levels log_shift_r
levels-cases x h = ground arith

levels-some : (x n : ℕ) → count_levels 5 x 0 ≡ some n → levels x ≡ n
levels-some x n e = ap or_zero e

height :
    (x n : ℕ)
    → count_levels 5 x 0 ≡ some n
    → IsHeight x n
    → (count_levels 5 x 0 ≡ some (levels x)) × IsHeight x (levels x)
height x n e h = let l = levels-some x n e in (e ∙ ap some (sym l), subst (IsHeight x) (sym l) h)

-- For every offset of 32 bits the loop that counts levels ends within four rounds, with the least
-- height of a tree that has room for the offset.
pub levels-IsHeight :
    (x : ℕ) → x < u32_mod → (count_levels 5 x 0 ≡ some (levels x)) × IsHeight x (levels x)
levels-IsHeight x h = elim (levels-cases x h) [
  | inl (e, p) ↦ height x 0 e (ground arith)
  | inr (inl (e, p, q)) ↦ height x 1 e (ground arith)
  | inr (inr (inl (e, p, q))) ↦ height x 2 e (ground arith)
  | inr (inr (inr (inl (e, p, q)))) ↦ height x 3 e (ground arith)
  | inr (inr (inr (inr (e, p, q)))) ↦ height x 4 e (ground arith)
]

-- For a file of 2 to 2^24 blocks, `treedisk_free_file` counts the levels that `treedisk_read`
-- counts, within three rounds.
pub level_for-levels : (n : ℕ) → 2 ≤ n → n ≤ 2 ^ 24 → level_for 3 n 1 256 ≡ some (levels (n - 1))
unfolding level_for
level_for-levels n low high = elim (levels-cases (n - 1) (omega arith)) [
  | inl (e, p) ↦ absurd (omega (arith, p))
  | inr (inl (e, p, q)) ↦ rw (levels-some (n - 1) 1 e) (ground arith)
  | inr (inr (inl (e, p, q))) ↦ rw (levels-some (n - 1) 2 e) (ground arith)
  | inr (inr (inr (inl (e, p, q)))) ↦ rw (levels-some (n - 1) 3 e) (ground arith)
  | inr (inr (inr (inr (e, p, q)))) ↦ absurd (omega (arith, p, q))
]

stuck : (n k level : ℕ) → 0 < n → level_for k n level 0 ≡ none
unfolding level_for
stuck n zero level h = refl
stuck n (suc k) level h = ground (arith, stuck n k (level + 1) h)

-- For a file of more than 2^24 blocks, the loop of `treedisk_free_file` that counts levels never
-- ends: it has not ended after any number of rounds.
pub level_for-none : (n k : ℕ) → 2 ^ 24 < n → level_for k n 1 256 ≡ none
unfolding level_for
level_for-none n zero h = refl
level_for-none n (suc zero) h = ground arith
level_for-none n (suc (suc zero)) h = ground arith
level_for-none n (suc (suc (suc zero))) h = ground arith
level_for-none n (suc (suc (suc (suc k)))) h = ground (arith, stuck n (suc k) 4 (omega arith))
