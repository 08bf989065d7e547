-- ===== src/Transfer/Returns.antt =====
-- What UploadFunc returns once its goroutines run (client-plugin/upload/upload.go, lines 504 to 521).
use sky_flow.Base.{◌≡◌, refl, true}
use sky_flow.Transfer.{Transfer, waiting}
use sky_flow.Transfer.Events.{on_cancel}
use sky_flow.Transfer.Steps.{times_out, stops, Runs, here, next}

pub data UploadResult : Type 0 where
  uploaded : UploadResult
  timed_out : UploadResult

-- The `select`: either ready case may be taken.
pub data Returns : Transfer → UploadResult → Type 0 where
  on_done : (t : Transfer) → t.done ≡ true → Returns t uploaded
  on_timeout : (t : Transfer) → t.canceled ≡ true → Returns t timed_out

-- From any state in which the event loop waits, whatever the chunks' states are, a timeout can be
-- returned as a success: nothing is composed on the way.
pub timeout-uploaded :
    (t : Transfer)
    → t.event_loop ≡ waiting
    → (u : Transfer) × Runs t u
      × Returns u uploaded
      × (u.composed ≡ t.composed)
      × (u.chunks ≡ t.chunks)
unfolding on_cancel
timeout-uploaded t w = (
  on_cancel late,
  next t late (on_cancel late) (next t t late (here t) (times_out t)) (stops late refl w),
  on_done (on_cancel late) refl,
  refl,
  refl,
)
  where
    late : Transfer
    late = record t { canceled = true }
