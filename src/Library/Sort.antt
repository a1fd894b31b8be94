-- ===== src/Library/Sort.antt =====
-- Sorting, `lib/qsort.c`. The elements of the array are a list; an array has less than 2 ^ 31 of them,
-- as the number on the left of the pivot is an `int`.
pub mod Sorted
use cs4411_p.Base.{ℕ, zero, suc, not, List, [], ◌∷◌, ◌++◌, leb, if◌then◌else◌, length, ℤ, is_neg}

-- The order of the elements between the pivot and `p` after the two calls of `exch`: the first of them
-- goes to the place of `p`.
abbrev pub rotate {ℓ} : {A : Type ℓ} → List A → List A
rotate [] = []
rotate (g ∷ greater) = greater ++ (g ∷ [])

module _ {A : Type 0} (compar : A → A → ℤ) where
  -- The loop of `qsort`. The array is `less`, the pivot, `greater` and `rest`; `p` points to the first
  -- of `rest`. An element that is not greater than the pivot changes places with it, and the element
  -- behind the pivot, if there is one, goes to the place of `p`.
  unfoldable pub partition : List A → A → List A → List A → List A × List A
  partition less pivot greater [] = (less, greater)
  partition less pivot greater (y ∷ rest) =
      let moved = partition (less ++ (y ∷ [])) pivot (rotate greater) rest in
      let left = partition less pivot (greater ++ (y ∷ [])) rest in
      if not (is_neg (compar pivot y)) then moved else left

  -- `qsort`, with the depth of the calls as fuel.
  unfoldable pub sort : ℕ → List A → List A
  sort zero l = l
  sort (suc depth) [] = []
  sort (suc depth) (x ∷ rest) =
      let (less, greater) = partition [] x [] rest in
      let left = sort depth less in
      let right = sort depth greater in
      if leb (length rest) 0 then x ∷ rest else left ++ (x ∷ right)

  -- Each call has less elements.
  unfoldable pub qsort : List A → List A
  qsort l = sort (length l) l
