-- ===== src/System/Tests.antt =====
-- Runs of a queue of numbers, and the theorems at them.
mod Files
mod Kernels
mod Pages
use cs4411_p.Base.{ℕ, List, ◌≡◌, refl, none, some, [], ◌∷◌, arith}
use cs4411_p.System.Queue.{Heap, queue_init}
use cs4411_p.System.Queue.Runs.{Call, add, insert, get, run, run_list, run-run_list}

abbrev memory : Heap ℕ
memory = record { cells = λ a. none; fresh = 1 }

-- An item that is inserted comes before one that is added.
abbrev calls : List (Call ℕ)
calls = add 5 ∷ add 6 ∷ insert 4 ∷ get ∷ get ∷ add 7 ∷ get ∷ get ∷ get ∷ []

queue_order : run queue_init memory calls ≡ some 4 ∷ some 5 ∷ some 6 ∷ some 7 ∷ none ∷ []
unfolding run queue_init
queue_order = refl

run-run_list_example : run queue_init memory calls ≡ run_list [] calls
run-run_list_example = run-run_list memory calls (omega arith)
