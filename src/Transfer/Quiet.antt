-- ===== src/Transfer/Quiet.antt =====
-- Steps that neither write a chunk nor compose: submitting and checking.
use sky_flow.Base.{ℕ, ◌≡◌, refl, Bool, true, false, List, [], ◌∷◌, ltb, length, if◌then◌else◌}
use sky_flow.Base.Text.{Text}
use sky_flow.Transfer.{
  Transfer, ChunkEvent, EventLoop, waiting, resubmitting, ended, chunk_expire_time,
}
use sky_flow.Transfer.Checker.{Collected, check_chunks, send_event, collect_expired_chunks, values}
use sky_flow.Transfer.Submit.{submit_round, resubmit_round, first_round, resubmit_in, stopped}

-- An event loop that has ended stays so.
pub record Quiet (t u : Transfer) : Type 0 where
  pub same_chunks : u.chunks ≡ t.chunks
  pub same_uploads : u.uploaded ≡ t.uploaded
  pub same_parts : u.composed ≡ t.composed
  pub stays_ended : t.event_loop ≡ ended → u.event_loop ≡ ended

-- A change of any other field.
pub updated :
    (t : Transfer)
    → (submitting queue busy : List Text) (events : List ChunkEvent) (checking : Bool)
    → (loop : EventLoop) (done canceled : Bool) → (t.event_loop ≡ ended → loop ≡ ended)
    → Quiet t (record t {
      submitting = submitting;
      queue = queue;
      busy = busy;
      events = events;
      checking = checking;
      event_loop = loop;
      done = done;
      canceled = canceled;
    })
updated t submitting queue busy events checking loop done canceled l = record {
  same_chunks = refl;
  same_uploads = refl;
  same_parts = refl;
  stays_ended = l;
}

if-Quiet : (b : Bool) (t u v : Transfer) → Quiet t u → Quiet t v → Quiet t (if b then u else v)
if-Quiet true t u v p q = p
if-Quiet false t u v p q = q

first_round-Quiet : (ks : List Text) (t : Transfer) → Quiet t (first_round ks t)
unfolding first_round
first_round-Quiet [] t = updated t _ _ _ _ _ _ _ _ (λ l. l)
first_round-Quiet (k ∷ ks) t = updated t _ _ _ _ _ _ _ _ (λ l. l)

pub submit_round-Quiet : (t : Transfer) → Quiet t (submit_round t)
unfolding submit_round
submit_round-Quiet t =
    if-Quiet t.canceled t (record t { submitting = [] }) (first_round t.submitting t)
      (updated t _ _ _ _ _ _ _ _ (λ l. l)) (first_round-Quiet t.submitting t)

resubmit_in-Quiet : (e : EventLoop) (t : Transfer) → t.event_loop ≡ e → Quiet t (resubmit_in e t)
unfolding resubmit_in
resubmit_in-Quiet waiting t h = updated t _ _ _ _ _ _ _ _ (λ l. l)
resubmit_in-Quiet ended t h = updated t _ _ _ _ _ _ _ _ (λ l. l)
resubmit_in-Quiet (resubmitting [] expired) t h = updated t _ _ _ _ _ _ _ _ (λ l. cc)
resubmit_in-Quiet (resubmitting (k ∷ ks) expired) t h = updated t _ _ _ _ _ _ _ _ (λ l. cc)

pub resubmit_round-Quiet : (t : Transfer) → Quiet t (resubmit_round t)
unfolding resubmit_round
resubmit_round-Quiet t =
    if-Quiet t.canceled t (record t { event_loop = stopped t.event_loop })
      (resubmit_in t.event_loop t) (updated t _ _ _ _ _ _ _ _ (λ l. rw l refl))
      (resubmit_in-Quiet t.event_loop t refl)

send_event-Quiet : (r : Collected) (t : Transfer) → Quiet t (send_event r t)
unfolding send_event
send_event-Quiet r t = if-Quiet r.has_init t t _ (updated t _ _ _ _ _ _ _ _ (λ l. l)) (
    if-Quiet r.finished t _ _ (updated t _ _ _ _ _ _ _ _ (λ l. l)) (
      if-Quiet (ltb 0 (length r.expired)) t _ t (updated t _ _ _ _ _ _ _ _ (λ l. l))
        (updated t _ _ _ _ _ _ _ _ (λ l. l))))

pub check_chunks-Quiet : (now : ℕ) (t : Transfer) → Quiet t (check_chunks now t)
unfolding check_chunks
check_chunks-Quiet now t =
    send_event-Quiet (collect_expired_chunks now chunk_expire_time (values t.chunks)) t
