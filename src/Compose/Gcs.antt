-- ===== src/Compose/Gcs.antt =====
-- ComposeFile of client-plugin/upload/gcs/compose.go: the service composes up to 32 objects.
mod Laws
pub mod Whole
use sky_flow.Base.{ℕ, Bool, true, false, List, [], ◌∷◌, Option, none, some, length, if◌then◌else◌}
use sky_flow.Base.Text.{Text, ◌≟◌}
use sky_flow.Compose.{
  ObjectStore, ComposeResult, done, canceled, no_client, copy_failed, merge_failed, finalize_failed,
  panics,
}
use sky_flow.Compose.Tree.{compose_tree, delete_all, delete_except}

-- What the context and the creation of the client answer.
pub record Session : Type 0 where
  pub context_done : Bool
  pub connects : Bool

module _ (S : ObjectStore) where
  -- A single part is renamed.
  unfoldable pub move_single : Text → Text → S.State → S.State × ComposeResult
  move_single object part s =
      let copied = S.copy s part object in
      if part ≟ object
      then (s, done)
      else if copied.1
      then ((S.delete copied.0 part).0, done)
      else (copied.0, copy_failed)

  -- `finalizeObject`: whether the copy and the deletion succeeded.
  unfoldable pub finalize_object : Text → Text → S.State → S.State × Bool
  finalize_object temp final s =
      let copied = S.copy s temp final in
      if copied.1 then S.delete copied.0 temp else (copied.0, false)

  -- What follows the loops; `current[0]` of an empty list panics.
  unfoldable pub finish :
      Text → List Text → List Text → List Text → S.State → S.State × ComposeResult
  finish object parts [] temps s = (s, panics)
  finish object parts (n ∷ ns) temps s =
      let final = finalize_object n object s in
      if final.1
      then (delete_all S parts (delete_except S n temps final.0), done)
      else (final.0, finalize_failed)

  unfoldable pub compose_many : Text → List Text → S.State → S.State × ComposeResult
  compose_many object parts s =
      let tree = compose_tree S S.compose 32 object (length parts) 0 parts [] s in
      elim tree.1 [
        | none ↦ (tree.0, merge_failed)
        | some (current, temps) ↦ finish object parts current temps tree.0
      ]

  unfoldable pub connected : Text → List Text → S.State → S.State × ComposeResult
  connected object (p ∷ []) s = move_single object p s
  connected object parts s = compose_many object parts s

  unfoldable pub compose_file : Session → Text → List Text → S.State → S.State × ComposeResult
  unfolding connected compose_many finish finalize_object
  compose_file c object parts s =
      if c.context_done
      then (s, canceled)
      else if c.connects
      then connected object parts s
      else (s, no_client)
