-- ===== src/Transfer/Events.antt =====
-- The event loop (client-plugin/upload/upload.go, ChunkEventLoop) and what `UploadFunc` returns.
use sky_flow.Base.{Bool, true, false, List, [], ◌∷◌, ◌++◌, ◌==◌, if◌then◌else◌}
use sky_flow.Base.Text.{Text}
use sky_flow.Chunk.Parts.{sort_part_strings}
use sky_flow.Chunk.Split.{ChunkState}
use sky_flow.Transfer.Status
use sky_flow.Transfer.{
  Transfer, ChunkEvent, chunk_expired, chunk_finished, resubmitting, ended, keys,
}
use sky_flow.Transfer.Checker.{values}

unfoldable pub all_completed : List ChunkState → Bool
all_completed [] = true
all_completed (c ∷ cs) =
    let rest = all_completed cs in if c.acked == Status.completed then rest else false

abbrev pub object_names : List ChunkState → List Text
object_names [] = []
object_names (c ∷ cs) = c.object_name ∷ object_names cs

-- The case ChunkFinished. Without an implementation of ComposeFile the loop ends and `done` stays open;
-- an error of ComposeFile is only logged.
unfoldable pub on_finished : Bool → Transfer → Transfer
unfolding all_completed sort_part_strings
on_finished has_compose t =
    if all_completed (values t.chunks)
    then (if has_compose
        then record t {
          event_loop = ended;
          done = true;
          composed = t.composed ++ sort_part_strings (object_names (values t.chunks)) ∷ [];
        }
        else record t { event_loop = ended })
    else record t { event_loop = ended; done = true }

unfoldable pub on_event : Bool → ChunkEvent → Transfer → Transfer
unfolding on_finished
on_event has_compose (chunk_expired indexes) t = record t {
  event_loop = resubmitting (keys t.chunks) indexes;
}
on_event has_compose chunk_finished t = on_finished has_compose t

-- The case `ctx.Done()`.
unfoldable pub on_cancel : Transfer → Transfer
on_cancel t = record t { event_loop = ended; done = true }
