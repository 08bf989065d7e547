-- ===== src/Transfer/Worker.antt =====
-- What a worker does with a task (client-plugin/upload/client.go, DirectImp; proxy.go, RedirectImp;
-- GetTransferReader of upload.go). The chunk is an object that every goroutine shares, so a write goes
-- to what the map holds at that time.
use sky_flow.Base.{ℕ, Bool, false, not, ◌&&◌, ◌∷◌, Option, none, some, if◌then◌else◌}
use sky_flow.Base.Text.{Text}
use sky_flow.Base.Dict.{Dict, lookup, insert}
use sky_flow.Chunk.Split.{ChunkState}
use sky_flow.Transfer.Status
use sky_flow.Transfer.{Transfer}

-- What the outside answers, one reading for each place. `has_download` and `has_upload` say that the
-- client has an implementation.
pub record Answers : Type 0 where
  pub canceled_before_reader : Bool
  pub canceled_in_reader : Bool
  pub has_download : Bool
  pub download_ok : Bool
  pub canceled_before_upload : Bool
  pub has_upload : Bool
  pub upload_ok : Bool
  pub canceled_after_upload : Bool

-- How a handler ends: an error that the deferred function sees (`finalErr`), an error that it does not
-- see, or success.
pub data Verdict : Type 0 where
  marked_failed : Verdict
  unmarked_error : Verdict
  success : Verdict

unfoldable pub get_transfer_reader : Answers → Bool
get_transfer_reader a =
    if a.canceled_in_reader then false else if a.has_download then a.download_ok else false

-- From the reader on both handlers agree.
unfoldable pub upload_part : Answers → Verdict
upload_part a =
    if a.canceled_before_upload
    then marked_failed
    else if not a.has_upload
    then unmarked_error
    else if not a.upload_ok
    then unmarked_error
    else if a.canceled_after_upload
    then marked_failed
    else success

unfoldable pub direct_imp : Answers → Verdict
unfolding get_transfer_reader upload_part
direct_imp a =
    if a.canceled_before_reader
    then marked_failed
    else if get_transfer_reader a
    then upload_part a
    else marked_failed

unfoldable pub redirect_imp : Answers → Verdict
unfolding get_transfer_reader upload_part
redirect_imp a =
    if a.canceled_before_reader
    then marked_failed
    else if get_transfer_reader a
    then upload_part a
    else unmarked_error

write_to : Text → ℕ → ℕ → Dict ChunkState → Option ChunkState → Dict ChunkState
write_to k status time m none = m
write_to k status time m (some c) = insert k (record c { acked = status; last_send = time }) m

-- The three assignments with `Set`. Tasks come from the keys of the map and no key is deleted, so the
-- index is never missing.
unfoldable pub write_status : Text → ℕ → ℕ → Dict ChunkState → Dict ChunkState
unfolding write_to
write_status k status time m = write_to k status time m (lookup k m)

-- The handler marks the chunk as being transferred.
unfoldable pub begin_task : ℕ → Text → Transfer → Transfer
unfolding write_status
begin_task time k t = record t { chunks = write_status k Status.transferring time t.chunks }

-- How the handler leaves the chunk. It was started at `time`.
unfoldable pub end_task : Verdict → ℕ → Text → Transfer → Transfer
unfolding write_status
end_task marked_failed time k t = record t {
  chunks = write_status k Status.transfer_failed time t.chunks;
}
end_task unmarked_error time k t = t
end_task success time k t = record t { chunks = write_status k Status.completed time t.chunks }

-- The handler calls `UploadFile`, and that reports no error, however the handler goes on.
unfoldable pub is_stored : Answers → Bool
unfolding get_transfer_reader
is_stored a =
    not a.canceled_before_reader
    && (get_transfer_reader a && (not a.canceled_before_upload && (a.has_upload && a.upload_ok)))

-- What the target then has.
abbrev pub store_part : Answers → Text → Transfer → Transfer
store_part a k t = record t { uploaded = (if is_stored a then k ∷ t.uploaded else t.uploaded) }
