-- ===== src/Transfer/Checker.antt =====
-- The timeout checker (client-plugin/upload/upload.go, CollectExpiredChunks and the loop of
-- StartChunkTimeoutChecker). The list of chunks is in the order of the map's iteration.
use sky_flow.Base.{
  ℕ, ◌-◌, min, Bool, true, false, ◌&&◌, ◌||◌, not, List, [], ◌∷◌, ◌++◌, length, ltb, ◌==◌,
  if◌then◌else◌,
}
use sky_flow.Base.Word.{two63}
use sky_flow.Base.Text.{Text}
use sky_flow.Base.Dict.{Dict}
use sky_flow.Chunk.Split.{ChunkState}
use sky_flow.Transfer.Status
use sky_flow.Transfer.{Transfer, chunk_expired, chunk_finished, chunk_expire_time}

pub record Collected : Type 0 where
  pub expired : List Text
  pub finished : Bool
  pub has_init : Bool

-- `now.Sub(LastSend) > expire`, where `Sub` saturates. A difference below 0 is 0 here, which is no
-- more than `expire` either.
unfoldable pub is_expired : ℕ → ℕ → ChunkState → Bool
is_expired now expire c = not (c.last_send == 0) && ltb expire (min (now - c.last_send) (two63 - 1))

abbrev pub in_transfer : ChunkState → Bool
in_transfer c = c.acked == Status.transferring || c.acked == Status.transfer_failed

unfoldable pub collect_from : ℕ → ℕ → List Text → Bool → List ChunkState → Collected
unfolding is_expired
collect_from now expire found so_far [] = record {
  expired = found;
  finished = so_far;
  has_init = false;
}
collect_from now expire found so_far (c ∷ cs) =
    let added = found ++ c.index ∷ [] in
    let later = collect_from now expire found so_far cs in
    let unfinished = collect_from now expire found false cs in
    let more = collect_from now expire added false cs in
    if c.acked == Status.init
    then record { expired = found; finished = false; has_init = true }
    else if in_transfer c
    then (if is_expired now expire c then more else unfinished)
    else later

unfoldable pub collect_expired_chunks : ℕ → ℕ → List ChunkState → Collected
unfolding collect_from
collect_expired_chunks now expire cs = collect_from now expire [] true cs

abbrev pub values : Dict ChunkState → List ChunkState
values [] = []
values ((k, c) ∷ m) = c ∷ values m

unfoldable pub send_event : Collected → Transfer → Transfer
send_event r t =
    if r.has_init
    then t
    else if r.finished
    then record t { events = t.events ++ chunk_finished ∷ []; checking = false }
    else if ltb 0 (length r.expired)
    then record t { events = t.events ++ chunk_expired r.expired ∷ [] }
    else t

-- One tick of the checker.
unfoldable pub check_chunks : ℕ → Transfer → Transfer
unfolding collect_expired_chunks send_event
check_chunks now t = send_event (collect_expired_chunks now chunk_expire_time (values t.chunks)) t
