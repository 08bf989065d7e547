-- ===== src/Transfer.antt =====
-- The transfer of a split file (client-plugin/upload/upload.go, client.go, proxy.go): the state that
-- its goroutines share. A task in the queue stands for its chunk's index; the rest of a ChunkTask is
-- the same for all tasks or is read from the chunk.
pub mod Status
pub mod Worker
pub mod Checker
pub mod Submit
pub mod Events
pub mod Steps
pub mod Shape
pub mod Quiet
pub mod Safety
pub mod Unsent
pub mod Stuck
pub mod Collects
pub mod Returns
mod Tests
use sky_flow.Base.{ℕ, Bool, true, false, List, [], ◌∷◌, Option, none, some, map}
use sky_flow.Base.Text.{Text}
use sky_flow.Base.Dict.{Dict, lookup, insert}
use sky_flow.Chunk.Split.{ChunkState, put_chunks}

abbrev pub max_concurrency : ℕ
max_concurrency = 10

abbrev pub queue_buffer_size : ℕ
queue_buffer_size = 100

-- Two minutes, in nanoseconds.
abbrev pub chunk_expire_time : ℕ
chunk_expire_time = 120_000_000_000

pub data ChunkEvent : Type 0 where
  chunk_expired : List Text → ChunkEvent
  chunk_finished : ChunkEvent

-- What the event loop is doing: `resubmitting` holds the indexes that its submit loop has still to
-- visit, and the expired ones.
pub data EventLoop : Type 0 where
  waiting : EventLoop
  resubmitting : List Text → List Text → EventLoop
  ended : EventLoop

-- `submitting` holds the indexes that the first submit loop has still to visit, `busy` the tasks of the
-- workers. `uploaded` records the calls of UploadFile that answered without an error, `composed` the
-- calls of ComposeFile.
pub record Transfer : Type 0 where
  pub chunks : Dict ChunkState
  pub submitting : List Text
  pub queue : List Text
  pub busy : List Text
  pub events : List ChunkEvent
  pub checking : Bool
  pub event_loop : EventLoop
  pub done : Bool
  pub canceled : Bool
  pub uploaded : List Text
  pub composed : List (List Text)

abbrev pub keys : Dict ChunkState → List Text
keys [] = []
keys ((k, c) ∷ m) = k ∷ keys m

-- The state after `UploadFunc` has split the file and started its goroutines.
unfoldable pub start_transfer : List ChunkState → Transfer
unfolding put_chunks
start_transfer cs = record {
  chunks = put_chunks cs [];
  submitting = keys (put_chunks cs []);
  queue = [];
  busy = [];
  events = [];
  checking = true;
  event_loop = waiting;
  done = false;
  canceled = false;
  uploaded = [];
  composed = [];
}
