-- ===== src/LargeFile/Tests.antt =====
-- A file of 101 bytes for three machines.
use sky_flow.Base.{Member, ℕ, ◌+◌, ◌≡◌, ◌≢◌, refl, true, false, List, [], ◌∷◌, some, arith}
use sky_flow.Base.Int.{pos, negsuc}
use sky_flow.Base.Word.{add64, sub64, mul64, div64}
use sky_flow.Base.Text.{Text, codes, ◌≟◌}
use sky_flow.Base.Dict.{lookup, insert}
use sky_flow.Compose.Memory.{memory}
use sky_flow.LargeFile.{
  WeightedVm, File, total_from, split_name, allocated, task, split_tasks, vm_tasks,
  split_file_names, all_succeed, with_length, is_zero, process_large_file_upload,
  process_upload_logic,
}
use sky_flow.LargeFile.Shares.{vms_of, Shared, split_tasks-Shared}
use sky_flow.LargeFile.Doubles.{process_large_file_upload-doubles}
use sky_flow.LargeFile.Late.{process_upload_logic-late}

abbrev file : File
file = record {
  file_name = codes "a";
  file_start = pos 0;
  file_length = pos 101;
  new_file_name = codes "b";
}

abbrev vm : Text → ℕ → WeightedVm
vm address w = record { ip = address; weight = pos w }

-- Two shares are rounded up, so that one byte less than nothing is left for the third.
negative_share :
    split_tasks file (pos 2) 0 (pos 0) (vm (codes "x") 1 ∷ vm (codes "y") 1 ∷ vm (codes "z") 0 ∷ [])
    ≡ (codes "x", task file 0 (pos 0) (pos 51))
      ∷ (codes "y", task file 1 (pos 51) (pos 51))
      ∷ (codes "z", task file 2 (pos 102) (negsuc 0))
      ∷ []
unfolding split_tasks allocated div64 add64 sub64 mul64 task
negative_share = refl

abbrev three : List (Text × ℕ)
three = (codes "x", 2) ∷ (codes "y", 1) ∷ (codes "z", 1) ∷ []

split_tasks-Shared_example :
    Shared 101 4
      (0 + 101)
      0
      three
      (split_tasks file (total_from (pos 0) (vms_of three)) 0 file.file_start (vms_of three))
split_tasks-Shared_example =
    split_tasks-Shared file 0 101 (codes "x", 2) ((codes "y", 1) ∷ (codes "z", 1) ∷ []) refl refl
      (omega arith) (omega arith) (omega arith)

abbrev twice : List WeightedVm
twice = vm (codes "x") 1 ∷ vm (codes "y") 1 ∷ vm (codes "x") 1 ∷ []

process_large_file_upload-doubles_example :
    Member
      (split_name (codes "b") 0)
      (split_name (codes "b") 0 ∷ split_name (codes "b") 1 ∷ split_name (codes "b") 2 ∷ [])
    × ((ip : Text) (t : File)
        → lookup ip (process_large_file_upload (λ a t. true) true twice file (pos 101)).1 ≡ some t
        → t.new_file_name ≢ split_name (codes "b") 0)
unfolding process_large_file_upload total_from split_tasks task split_file_names vm_tasks
    all_succeed with_length is_zero insert lookup ◌≟◌ add64
process_large_file_upload-doubles_example =
    process_large_file_upload-doubles (λ a t. true) true [] (vm (codes "x") 1)
      (vm (codes "y") 1 ∷ []) (vm (codes "x") 1) [] file (pos 101)
      (split_name (codes "b") 0 ∷ split_name (codes "b") 1 ∷ split_name (codes "b") 2 ∷ []) refl
      (omega arith) refl

process_upload_logic-late_example :
    process_upload_logic memory (λ a t. true) true true 12000000000 twice file (some (pos 101)) []
    ≡ ([], false)
process_upload_logic-late_example =
    process_upload_logic-late memory (λ a t. true) true true 12000000000 (vm (codes "x") 1)
      (vm (codes "y") 1) (vm (codes "x") 1 ∷ []) file (some (pos 101)) [] (omega arith)
