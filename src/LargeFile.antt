-- ===== src/LargeFile.antt =====
-- A large file that several machines send together (client-plugin/api/large-file.go): each gets a part
-- of the range by its weight, and the parts are composed at the end. What the requests to the
-- machines answer is an argument; the composition is that of GCS.
pub mod Shares
pub mod Tasks
pub mod Doubles
pub mod Late
mod Tests
use sky_flow.Base.{
  ℕ, zero, suc, ◌+◌, Bool, true, false, not, ◌&&◌, List, [], ◌∷◌, ◌++◌, Option, none, some, length,
  ltb, leb, if◌then◌else◌,
}
use sky_flow.Base.Int.{ℤ, pos, negsuc}
use sky_flow.Base.Word.{add64, sub64, mul64, div64}
use sky_flow.Base.Text.{Text, codes}
use sky_flow.Base.Dict.{Dict, insert}
use sky_flow.Chunk.Parts.{itoa, sort_part_strings}
use sky_flow.Compose.{ObjectStore, ComposeResult, done}
use sky_flow.Compose.Gcs.{Session, compose_file}

pub record WeightedVm : Type 0 where
  pub ip : Text
  pub weight : ℤ

pub record File : Type 0 where
  pub file_name : Text
  pub file_start : ℤ
  pub file_length : ℤ
  pub new_file_name : Text

pub data LargeFileResult : Type 0 where
  uploaded : List Text → LargeFileResult
  no_vms : LargeFileResult
  zero_weight : LargeFileResult
  timed_out : LargeFileResult
  nodes_failed : LargeFileResult

unfoldable pub is_zero : ℤ → Bool
is_zero (pos zero) = true
is_zero _ = false

unfoldable pub total_from : ℤ → List WeightedVm → ℤ
total_from total [] = total
total_from total (v ∷ vs) = total_from (add64 total v.weight) vs

-- `fmt.Sprintf("%s_%d", file.NewFileName, i)`
unfoldable pub split_name : Text → ℕ → Text
split_name name i = name ++ (codes "_" ++ itoa i)

-- A share in proportion to the weight, rounded.
unfoldable pub allocated : File → ℤ → ℤ → ℤ
allocated file total weight =
    div64 (add64 (mul64 file.file_length weight) (div64 total (pos 2))) total

unfoldable pub task : File → ℕ → ℤ → ℤ → File
task file i offset bytes = record file {
  file_start = offset;
  file_length = bytes;
  new_file_name = split_name file.new_file_name i;
}

-- The address and the task of each machine, in order; the last one gets what is left.
unfoldable pub split_tasks : File → ℤ → ℕ → ℤ → List WeightedVm → List (Text × File)
split_tasks file total i offset [] = []
split_tasks file total i offset (v ∷ []) =
    (v.ip, task file i offset (sub64 (add64 file.file_start file.file_length) offset)) ∷ []
split_tasks file total i offset (v ∷ w ∷ vs) =
    let bytes = allocated file total v.weight in
    (v.ip, task file i offset bytes) ∷ split_tasks file total (suc i) (add64 offset bytes) (w ∷ vs)

-- The map from addresses to tasks: a second task for an address replaces the first.
unfoldable pub vm_tasks : List (Text × File) → Dict File → Dict File
vm_tasks [] m = m
vm_tasks ((ip, t) ∷ ts) m = vm_tasks ts (insert ip t m)

unfoldable pub split_file_names : List (Text × File) → List Text
split_file_names [] = []
split_file_names ((ip, t) ∷ ts) = t.new_file_name ∷ split_file_names ts

-- Whether the requests of all tasks succeed.
unfoldable pub all_succeed : (Text → File → Bool) → Dict File → Bool
all_succeed sends [] = true
all_succeed sends ((ip, t) ∷ m) = let rest = all_succeed sends m in sends ip t && rest

unfoldable pub with_length : File → ℤ → File
with_length file size =
    if is_zero file.file_length then record file { file_length = size } else file

-- The result, and the tasks that were sent out. `sends` answers each request, `in_time` says whether
-- all have answered within the limit.
unfoldable pub process_large_file_upload :
    (Text → File → Bool) → Bool → List WeightedVm → File → ℤ → LargeFileResult × Dict File
process_large_file_upload sends in_time [] file size = (no_vms, [])
process_large_file_upload sends in_time (v ∷ vs) file size =
    let sized = with_length file size in
    let total = total_from (pos 0) (v ∷ vs) in
    let parts = split_tasks sized total 0 sized.file_start (v ∷ vs) in
    let tasks = vm_tasks parts [] in
    if is_zero total
    then (zero_weight, [])
    else if not in_time
    then (timed_out, tasks)
    else if all_succeed sends tasks
    then (uploaded (split_file_names parts), tasks)
    else (nodes_failed, tasks)

-- 10 seconds in nanoseconds, for everything from the size of the file to the composition.
abbrev pub context_timeout : ℕ
context_timeout = 10000000000

module _ (S : ObjectStore) where
  -- The end of `processUploadLogic`, `elapsed` after its start: whether it answers 200.
  unfoldable pub compose_list : Bool → ℕ → Text → List Text → S.State → S.State × Bool
  compose_list connects elapsed name [] s = (s, true)
  compose_list connects elapsed name (p ∷ []) s = (s, true)
  compose_list connects elapsed name (p ∷ q ∷ ps) s =
      let session : Session = record {
        context_done = leb context_timeout elapsed;
        connects = connects;
      } in
      let r = compose_file S session name (sort_part_strings (p ∷ q ∷ ps)) s in
      (r.0, elim r.1 [ done ↦ true | _ ↦ false ])

  after_upload : Bool → ℕ → Text → LargeFileResult → S.State → S.State × Bool
  after_upload connects elapsed name (uploaded list) s = compose_list connects elapsed name list s
  after_upload connects elapsed name _ s = (s, false)

  -- `size` is the size of the file, or an error; `stored` is the bucket after the requests.
  unfoldable pub process_upload_logic :
      (Text → File → Bool)
      → Bool
      → Bool
      → ℕ
      → List WeightedVm
      → File
      → Option ℤ
      → S.State
      → S.State × Bool
  unfolding after_upload
  process_upload_logic sends in_time connects elapsed vms file none stored = (stored, false)
  process_upload_logic sends in_time connects elapsed vms file (some size) stored =
      after_upload connects elapsed file.file_name
        (process_large_file_upload sends in_time vms file size).0 stored
