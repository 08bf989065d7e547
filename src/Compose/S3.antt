-- ===== src/Compose/S3.antt =====
-- ComposeFile of client-plugin/upload/s3/compose.go: a group of up to 1000 objects is downloaded,
-- concatenated in a local file and uploaded.
pub mod Merge
mod Laws
pub mod Whole
use sky_flow.Base.{
  ℕ, Bool, true, false, List, [], ◌∷◌, ◌++◌, Option, none, some, length, if◌then◌else◌,
}
use sky_flow.Base.Text.{Text}
use sky_flow.Compose.{
  ObjectStore, ComposeResult, done, canceled, no_client, copy_failed, merge_failed, finalize_failed,
  panics,
}
use sky_flow.Compose.Tree.{compose_tree, delete_all, delete_except}
use sky_flow.Compose.Gcs.{Session, move_single}

-- What the context and the local file answer in a merge: before each part, at each write, and at the
-- creation and the rewinding of the file.
pub record LocalFile : Type 0 where
  pub creates : Bool
  pub context_live : Text → Bool
  pub writes : Text → Bool
  pub seeks : Bool

module _ (S : ObjectStore) (l : LocalFile) where
  -- The file after the parts, or `none`.
  unfoldable pub download_all : List Text → Text → S.State → S.State × Option Text
  download_all [] file s = (s, some file)
  download_all (p ∷ ps) file s =
      let got = S.get s p in
      let rest : S.State × Option Text = elim got.1 [
        | none ↦ (got.0, none)
        | some body ↦
            let more = download_all ps (file ++ body) got.0 in
            if l.writes p then more else (got.0, none)
      ] in
      if l.context_live p then rest else (s, none)

  unfoldable pub merge_parts_to_temp_file : S.State → List Text → Text → S.State × Bool
  merge_parts_to_temp_file s parts temp =
      let down = download_all parts [] s in
      let up : S.State × Bool = elim down.1 [
        | none ↦ (down.0, false)
        | some file ↦ if l.seeks then S.put down.0 temp file else (down.0, false)
      ] in
      if l.creates then up else (s, false)

  unfoldable pub finish :
      Text → List Text → List Text → List Text → S.State → S.State × ComposeResult
  finish object parts [] temps s = (s, panics)
  finish object parts (n ∷ ns) temps s =
      let copied = S.copy s n object in
      if copied.1
      then (delete_all S parts (S.delete (delete_except S n temps copied.0) n).0, done)
      else (copied.0, finalize_failed)

  unfoldable pub compose_many : Text → List Text → S.State → S.State × ComposeResult
  compose_many object parts s =
      let tree = compose_tree S merge_parts_to_temp_file 1000 object (length parts) 0 parts [] s in
      elim tree.1 [
        | none ↦ (tree.0, merge_failed)
        | some (current, temps) ↦ finish object parts current temps tree.0
      ]

  unfoldable pub connected : Text → List Text → S.State → S.State × ComposeResult
  connected object (p ∷ []) s = move_single S object p s
  connected object parts s = compose_many object parts s

  unfoldable pub compose_file : Session → Text → List Text → S.State → S.State × ComposeResult
  unfolding connected compose_many finish
  compose_file c object parts s =
      if c.context_done
      then (s, canceled)
      else if c.connects
      then connected object parts s
      else (s, no_client)
