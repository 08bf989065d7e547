-- ===== src/ChunkServer.antt =====
-- The server that receives the chunks of a file and merges them (client-plugin/api/chunk-server.go),
-- and the client that asks it to (client-plugin/upload/remote/compose.go). Chunks lie in one
-- directory under plain names, without separators, so a directory is a map from names to contents;
-- what the operating system and the network answer is an argument. A list of several chunks that
-- names the final file itself is outside the model: the code would read the file that it writes.
pub mod Copies
pub mod Merges
pub mod Fine
pub mod Receives
pub mod Loses
mod Tests
use sky_flow.Base.{
  ℕ, Bool, true, false, ◌||◌, List, [], ◌∷◌, ◌++◌, Option, none, some, take, if◌then◌else◌,
}
use sky_flow.Base.Text.{Text, ◌≟◌}
use sky_flow.Base.Dict.{Dict, lookup, insert, delete}

pub data MergeResult : Type 0 where
  merged : MergeResult
  invalid : MergeResult
  missing : MergeResult
  rename_failed : MergeResult
  create_failed : MergeResult
  open_failed : MergeResult
  copy_failed : MergeResult

-- What has been written without an error stays: the code ignores the answer to closing the final file,
-- and a disk that fails there is outside the model.
-- `breaks n` is the number of bytes of chunk `n` after which copying it fails.
pub record Disk : Type 0 where
  pub makes_dirs : Bool
  pub creates : Bool
  pub renames : Bool
  pub opens : Text → Bool
  pub breaks : Text → Option ℕ
  pub removes : Text → Bool

abbrev pub or_empty : Option Text → Text
or_empty none = []
or_empty (some c) = c

-- A write at the end of a file.
unfoldable pub append_to : Text → Text → Dict Text → Dict Text
append_to name c d = insert name (or_empty (lookup name d) ++ c) d

-- What is left of a chunk after it has been copied.
unfoldable pub removed : Disk → Bool → Text → Dict Text → Dict Text
removed o delete_chunks n d = if delete_chunks then (if o.removes n then delete n d else d) else d

unfoldable pub merge_loop : Disk → Bool → Text → List Text → Dict Text → Dict Text × MergeResult
merge_loop o delete_chunks final [] d = (d, merged)
merge_loop o delete_chunks final (n ∷ ns) d = elim (lookup n d) [
  | none ↦ (d, missing)
  | some c ↦
      let rest =
        merge_loop o delete_chunks final ns (removed o delete_chunks n (append_to final c d)) in
      let copied : Dict Text × MergeResult = elim (o.breaks n) [
        | none ↦ rest
        | some k ↦ (append_to final (take k c) d, copy_failed)
      ] in
      if o.opens n then copied else (d, open_failed)
]

-- A single chunk is renamed, and is gone then whatever the flag says.
unfoldable pub merge_single : Disk → Text → Text → Dict Text → Dict Text × MergeResult
merge_single o final n d = elim (lookup n d) [
  | none ↦ (d, missing)
  | some c ↦
      if n ≟ final
      then (d, merged)
      else if o.renames
      then (insert final c (delete n d), merged)
      else (d, rename_failed)
]

merge_many : Disk → Bool → Text → List Text → Dict Text → Dict Text × MergeResult
merge_many o delete_chunks final names d =
    if o.creates
    then merge_loop o delete_chunks final names (insert final [] d)
    else (d, create_failed)

merge_valid : Disk → Bool → Text → List Text → Dict Text → Dict Text × MergeResult
merge_valid o delete_chunks final [] d = (d, invalid)
merge_valid o delete_chunks final (n ∷ []) d = merge_single o final n d
merge_valid o delete_chunks final (n ∷ m ∷ ns) d = merge_many o delete_chunks final (n ∷ m ∷ ns) d

unfoldable pub merge_file_chunks :
    Disk → Text → Bool → Text → List Text → Dict Text → Dict Text × MergeResult
unfolding merge_valid merge_many
merge_file_chunks o base delete_chunks final names d =
    if base ≟ [] || final ≟ [] then (d, invalid) else merge_valid o delete_chunks final names d

pub data Status : Type 0 where
  status_ok : Status
  bad_request : Status
  internal_error : Status

abbrev pub status_of : MergeResult → Status
status_of merged = status_ok
status_of _ = internal_error

-- The file name of the header, and the names and the flag of the body, unless it does not bind.
unfoldable pub chunk_merge_handler :
    Disk → Text → Text → Option (List Text × Bool) → Dict Text → Dict Text × Status
chunk_merge_handler o base final none d = (d, bad_request)
chunk_merge_handler o base final (some ([], delete_chunks)) d = (d, bad_request)
chunk_merge_handler o base final (some (n ∷ ns, delete_chunks)) d =
    let r = merge_file_chunks o base delete_chunks final (n ∷ ns) d in
    if final ≟ [] then (d, bad_request) else (r.0, status_of r.1)

-- The chunk's file, and whether it was written whole.
unfoldable pub save_file_chunk : Disk → Text → Text → Dict Text → Dict Text × Bool
save_file_chunk o name body d =
    if o.makes_dirs
    then if o.creates
      then elim (o.breaks name) [
        | none ↦ (insert name body d, true)
        | some k ↦ (insert name (take k body) d, false)
      ]
      else (d, false)
    else (d, false)

-- `none` is a request without a file.
unfoldable pub chunk_upload_handler :
    Disk → Text → Text → Option Text → Dict Text → Dict Text × Status
chunk_upload_handler o final name body d =
    if final ≟ [] || name ≟ [] then (d, bad_request) else elim body [
      | none ↦ (d, bad_request)
      | some c ↦
          let saved = save_file_chunk o name c d in
          if o.makes_dirs
          then (saved.0, if saved.1 then status_ok else internal_error)
          else (d, internal_error)
    ]

-- Whether the request reaches the server, and its response the client in time.
pub record Network : Type 0 where
  pub context_done : Bool
  pub delivers : Bool
  pub responds : Bool

-- `ComposeFile` of the remote back end, with the server at the other end: true is no error.
unfoldable pub remote_compose_file :
    Network → Disk → Text → Bool → Text → List Text → Dict Text → Dict Text × Bool
remote_compose_file net o base delete_chunks object parts d =
    let served = chunk_merge_handler o base object (some (parts, delete_chunks)) d in
    if net.context_done
    then (d, false)
    else if net.delivers
    then (served.0, net.responds)
    else (d, false)
