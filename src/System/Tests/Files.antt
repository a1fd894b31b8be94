-- ===== src/System/Tests/Files.antt =====
-- Runs of the map and of the file server, and the theorems at them.
use cs4411_p.Base.{ℕ, ◌-◌, ◌^◌, none, All, ◌+◌, ◌≡◌, refl, true, [], ◌∷◌, arith, if◌then◌else◌}
use cs4411_p.System.Map.{Tree, leaf, map_insert, map_lookup, same_key}
use cs4411_p.System.Map.Laws.{lookup-insert}
use cs4411_p.System.RamFile.{Fcb, File, RamFileState, write, Request, write_allowed, extended, put}
use cs4411_p.System.RamFile.Requests.{do_write, handle_op, handle}
use cs4411_p.System.RamFile.Private.{Safe, handle-Safe}
use cs4411_p.System.RamFile.Content.{Sized}

abbrev one_key : Tree ℕ
one_key = map_insert 0 leaf (1 ∷ 2 ∷ []) (λ v. 7)

lookup-insert_example : map_lookup 0 (map_insert 0 one_key (3 ∷ []) (λ v. v + 5)) (1 ∷ 2 ∷ []) ≡ (
    if same_key (3 ∷ []) (1 ∷ 2 ∷ [])
    then map_lookup 0 one_key (3 ∷ []) + 5
    else map_lookup 0 one_key (1 ∷ 2 ∷ []))
lookup-insert_example = lookup-insert 0 one_key (3 ∷ []) (1 ∷ 2 ∷ []) (λ v. v + 5)

abbrev control : ℕ → ℕ → ℕ → Fcb
control owner mode size = record {
  st_alloc = true;
  st_dev = 9;
  st_ino = 0;
  st_uid = owner;
  st_mode = mode;
  st_size = size;
  st_modtime = 100;
}

-- User 5 may read and write the second file, others may not.
abbrev own_file : File
own_file = record { fcb = control 5 12 3; contents = 10 ∷ 11 ∷ 12 ∷ [] }

abbrev server : RamFileState
server = record {
  gate = 3;
  start_time = 0;
  files = record { fcb = control 0 15 0; contents = [] } ∷ own_file ∷ [];
}

abbrev write_request : Request
write_request = record {
  type' = write;
  file_no = 1;
  offset = 1;
  size = 3;
  uid = 0;
  mode = 0;
  data' = 20 ∷ 21 ∷ 22 ∷ [];
}

server-Sized : All Sized server.files
server-Sized = (refl, (refl, tt))

handle-Safe_example :
    Safe (handle 9 (λ n. 0) 5000 server write_request 5) write server.files 1 5 1 own_file
handle-Safe_example =
    handle-Safe server write_request 5 9 5000 (λ n. 0) 1 own_file server-Sized (omega arith) refl
      refl

-- An offset just below 2 ^ 64: the end wraps to 2, and the copy is outside of the contents.
abbrev wrapping : Request
wrapping = record write_request { offset = 2 ^ 64 - 1 }

write_wraps : handle 9 (λ n. 0) 5000 server wrapping 5 ≡ none
unfolding handle_op do_write put extended write_allowed
write_wraps = refl
