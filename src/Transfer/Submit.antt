-- ===== src/Transfer/Submit.antt =====
-- Submitting tasks (client-plugin/upload/upload.go, Submit and StartChunkSubmitLoop).
use sky_flow.Base.{
  Bool, true, false, ◌&&◌, not, List, [], ◌∷◌, ◌++◌, length, Option, none, some, ltb, ◌==◌,
  if◌then◌else◌,
}
use sky_flow.Base.Text.{Text, mem}
use sky_flow.Base.Dict.{lookup}
use sky_flow.Chunk.Split.{ChunkState}
use sky_flow.Transfer.Status
use sky_flow.Transfer.{Transfer, EventLoop, waiting, resubmitting, ended, queue_buffer_size}

-- Whether the loop submits a chunk; `resubmit` comes with the expired indexes.
unfoldable pub is_due : Bool → List Text → ChunkState → Bool
unfolding mem
is_due true expired c = mem c.index expired && not (c.acked == Status.completed)
is_due false expired c = c.acked == Status.init

-- A round of the loop at index `k`: the queue, and whether the loop goes on.
unfoldable pub visit : Bool → List Text → Text → List Text → Option ChunkState → List Text × Bool
unfolding is_due
visit resubmit expired k queue none = (queue, true)
visit resubmit expired k queue (some c) =
    if is_due resubmit expired c
    then (if ltb (length queue) queue_buffer_size then (queue ++ k ∷ [], true) else (queue, false))
    else (queue, true)

unfoldable pub visit_chunk : Bool → List Text → Text → Transfer → List Text × Bool
unfolding visit
visit_chunk resubmit expired k t = visit resubmit expired k t.queue (lookup k t.chunks)

unfoldable pub first_round : List Text → Transfer → Transfer
unfolding visit_chunk
first_round [] t = t
first_round (k ∷ ks) t =
    let (q, goes_on) = visit_chunk false [] k t in
    record t { queue = q; submitting = if goes_on then ks else [] }

-- A round of the loop that `UploadFunc` starts; the loop ends when the context does.
unfoldable pub submit_round : Transfer → Transfer
unfolding first_round
submit_round t = if t.canceled then record t { submitting = [] } else first_round t.submitting t

unfoldable pub resubmit_in : EventLoop → Transfer → Transfer
unfolding visit_chunk
resubmit_in waiting t = t
resubmit_in ended t = t
resubmit_in (resubmitting [] expired) t = record t { event_loop = waiting }
resubmit_in (resubmitting (k ∷ ks) expired) t =
    let (q, goes_on) = visit_chunk true expired k t in
    record t { queue = q; event_loop = if goes_on then resubmitting ks expired else waiting }

unfoldable pub stopped : EventLoop → EventLoop
stopped (resubmitting ks expired) = waiting
stopped waiting = waiting
stopped ended = ended

-- A round of the loop that the event loop runs.
unfoldable pub resubmit_round : Transfer → Transfer
unfolding resubmit_in stopped
resubmit_round t =
    let next = resubmit_in t.event_loop t in
    if t.canceled then record t { event_loop = stopped t.event_loop } else next
