-- ===== src/Transfer/Steps.antt =====
-- The goroutines of a transfer, interleaved: one step of any of them.
use sky_flow.Base.{ℕ, ◌<◌, ◌≡◌, Bool, true, false, List, ◌∷◌, ◌++◌, length}
use sky_flow.Base.Text.{Text}
use sky_flow.Transfer.{Transfer, ChunkEvent, waiting, max_concurrency, queue_buffer_size}
use sky_flow.Transfer.Worker.{
  Answers, Verdict, direct_imp, redirect_imp, begin_task, end_task, store_part,
}
use sky_flow.Transfer.Checker.{check_chunks}
use sky_flow.Transfer.Submit.{submit_round, resubmit_round}
use sky_flow.Transfer.Events.{on_event, on_cancel}

-- `direct` says which handler the workers run.
unfoldable pub handler : Bool → Answers → Verdict
unfolding direct_imp redirect_imp
handler true a = direct_imp a
handler false a = redirect_imp a

infix 40 ◌~>◌
pub data ◌~>◌ : Transfer → Transfer → Type 0 where
  submits : (t : Transfer) → t ~> submit_round t
  resubmits : (t : Transfer) → t ~> resubmit_round t
  takes :
      (t : Transfer) (time : ℕ) (k : Text) (rest : List Text)
      → t.queue ≡ k ∷ rest
      → length t.busy < max_concurrency
      → t ~> begin_task time k (record t { queue = rest; busy = k ∷ t.busy })
  ends :
      (t : Transfer) (direct : Bool) (a : Answers) (time : ℕ) (k : Text) (before after : List Text)
      → t.busy ≡ before ++ k ∷ after
      → t
        ~> end_task (handler direct a) time k (store_part a k (record t { busy = before ++ after }))
  checks :
      (t : Transfer) (now : ℕ)
      → t.checking ≡ true
      → length t.events < queue_buffer_size
      → t ~> check_chunks now t
  handles :
      (t : Transfer) (has_compose : Bool) (e : ChunkEvent) (rest : List ChunkEvent)
      → t.event_loop ≡ waiting
      → t.events ≡ e ∷ rest
      → t ~> on_event has_compose e (record t { events = rest })
  times_out : (t : Transfer) → t ~> record t { canceled = true }
  checker_stops : (t : Transfer) → t.canceled ≡ true → t ~> record t { checking = false }
  stops : (t : Transfer) → t.canceled ≡ true → t.event_loop ≡ waiting → t ~> on_cancel t

pub data Runs : Transfer → Transfer → Type 0 where
  here : (t : Transfer) → Runs t t
  next : (t u v : Transfer) → Runs t u → u ~> v → Runs t v
