-- ===== src/Compose/Tests.antt =====
-- A bucket with three parts of a file, and one other object.
use sky_flow.Base.{List, ◌≡◌, refl, List, true, false, [], ◌∷◌, arith}
use sky_flow.Base.Text.{Text, codes, ◌≟◌}
use sky_flow.Base.Dict.{Dict, lookup, insert, delete}
use sky_flow.Chunk.Parts.{part_name}
use sky_flow.Compose.{Holds, done, merge_failed, panics, temp_name}
use sky_flow.Compose.Trees.{IsFresh}
use sky_flow.Compose.Ends.{IsSafe, IsComplete}
use sky_flow.Compose.Tree.{compose_level, compose_tree, delete_all, delete_except}
use sky_flow.Compose.Gcs as Gcs
use sky_flow.Compose.Gcs.{Session, move_single, finalize_object}
use sky_flow.Compose.Gcs.Whole.{compose_file-IsSafe, compose_file-IsComplete}
use sky_flow.Compose.S3 as S3
use sky_flow.Compose.S3.{LocalFile, download_all, merge_parts_to_temp_file}
use sky_flow.Compose.S3.Merge.{IsFine}
use sky_flow.Compose.S3.Whole.{s3_compose-IsSafe}
use sky_flow.Compose.Agree.{part_names, part_names-IsPlan, compose_file-agrees}
use sky_flow.Compose.Memory.{memory, contents, memory-IsLawful, memory-IsReliable}

abbrev file : Text
file = codes "f"

abbrev parts : List Text
parts = part_names file (0 ∷ 1 ∷ 2 ∷ [])

abbrev bucket : Dict Text
bucket =
    (part_name file 0, codes "abc")
    ∷ (part_name file 1, codes "d")
    ∷ (codes "other", codes "x")
    ∷ (part_name file 2, codes "ef")
    ∷ []

abbrev session : Session
session = record { context_done = false; connects = true }

abbrev local_file : LocalFile
local_file = record { creates = true; context_live = λ p. true; writes = λ p. true; seeks = true }

local_file-IsFine : IsFine local_file
local_file-IsFine = record { creates = refl; live = λ p. refl; writes = λ p. refl; seeks = refl }

parts_hold : Holds memory bucket parts (codes "abcdef")
unfolding lookup ◌≟◌ part_name
parts_hold = (
  codes "abc",
  codes "def",
  refl,
  (codes "d", codes "ef", refl, (codes "ef", [], refl, refl, refl), refl),
  refl,
)

three_parts :
    Gcs.compose_file memory session file parts bucket
    ≡ ((codes "other", codes "x") ∷ (file, codes "abcdef") ∷ [], done)
unfolding Gcs.compose_file compose_tree compose_level contents lookup ◌≟◌ part_name insert temp_name
    delete_all delete_except delete
three_parts = refl

-- Without parts the code indexes an empty list.
no_parts : Gcs.compose_file memory session file [] bucket ≡ (bucket, panics)
unfolding Gcs.compose_file compose_tree
no_parts = refl

three_parts_s3 :
    S3.compose_file memory local_file session file parts bucket
    ≡ ((codes "other", codes "x") ∷ (file, codes "abcdef") ∷ [], done)
unfolding S3.compose_file merge_parts_to_temp_file download_all compose_tree compose_level lookup
    ◌≟◌ part_name insert temp_name delete_all delete_except delete
three_parts_s3 = refl

-- A missing part: the merge fails and nothing is deleted.
part_missing :
    Gcs.compose_file memory session file (part_names file (0 ∷ 7 ∷ [])) bucket
    ≡ (bucket, merge_failed)
unfolding Gcs.compose_file compose_tree compose_level contents lookup ◌≟◌ part_name insert temp_name
    delete_all delete_except delete
part_missing = refl

compose_file-IsSafe_example :
    IsSafe memory file parts bucket (Gcs.compose_file memory session file parts bucket)
compose_file-IsSafe_example =
    compose_file-IsSafe memory memory-IsLawful session file parts bucket
      (part_names-IsPlan file (0 ∷ 1 ∷ 2 ∷ []) (omega arith) (omega arith))

compose_file-IsComplete_example :
    IsComplete memory file parts
      (codes "abcdef")
      bucket
      (Gcs.compose_file memory session file parts bucket)
compose_file-IsComplete_example =
    compose_file-IsComplete memory memory-IsLawful memory-IsReliable session file parts
      (codes "abcdef") bucket refl refl
      (part_names-IsPlan file (0 ∷ 1 ∷ 2 ∷ []) (omega arith) (omega arith)) parts_hold

s3_compose-IsSafe_example :
    IsSafe memory file parts bucket (S3.compose_file memory local_file session file parts bucket)
s3_compose-IsSafe_example =
    s3_compose-IsSafe memory memory-IsLawful local_file session file parts bucket
      (part_names-IsPlan file (0 ∷ 1 ∷ 2 ∷ []) (omega arith) (omega arith))

compose_file-agrees_example :
    ((Gcs.compose_file memory session file parts bucket).1
      ≡ (S3.compose_file memory local_file session file parts bucket).1)
    × ((j : Text)
        → IsFresh file 0 j
        → lookup j (Gcs.compose_file memory session file parts bucket).0
          ≡ lookup j (S3.compose_file memory local_file session file parts bucket).0)
compose_file-agrees_example =
    compose_file-agrees memory memory-IsLawful memory-IsReliable local_file local_file-IsFine
      session file parts (codes "abcdef") bucket refl refl
      (part_names-IsPlan file (0 ∷ 1 ∷ 2 ∷ []) (omega arith) (omega arith)) parts_hold
