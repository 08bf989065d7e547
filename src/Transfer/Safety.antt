-- ===== src/Transfer/Safety.antt =====
-- What is composed at the end of a transfer was uploaded, in every interleaving.
use sky_flow.Base.{
  ℕ, ◌≡◌, ◌⊎◌, refl, sym, ap, subst, ◌∙◌, inl, inr, Bool, true, false, List, [], ◌∷◌, ◌++◌, All,
  arith, if◌then◌else◌, Bool-cases,
}
use sky_flow.Base.Text.{Text, mem}
use sky_flow.Base.Dict.{Dict}
use sky_flow.Chunk.Parts.{sort_part_strings}
use sky_flow.Chunk.Split.{ChunkState, put_chunks}
use sky_flow.Transfer.Status
use sky_flow.Transfer.{
  Transfer, ChunkEvent, chunk_expired, chunk_finished, waiting, ended, keys, start_transfer,
}
use sky_flow.Transfer.Worker.{
  Answers, Verdict, marked_failed, unmarked_error, success, begin_task, end_task, is_stored,
  store_part, direct_imp, redirect_imp, upload_part,
}
use sky_flow.Transfer.Checker.{check_chunks, values}
use sky_flow.Transfer.Submit.{submit_round, resubmit_round}
use sky_flow.Transfer.Events.{object_names, all_completed, on_finished, on_event, on_cancel}
use sky_flow.Transfer.Steps.{
  ◌~>◌, submits, resubmits, takes, ends, checks, handles, times_out, checker_stops, stops, Runs,
  here, next, handler,
}
use sky_flow.Transfer.Quiet.{
  Quiet, submit_round-Quiet, resubmit_round-Quiet, check_chunks-Quiet, updated,
}
use sky_flow.Transfer.Shape.{
  shape, shape-write_status, object_names-shape, keys-shape, Uploaded, Uploaded-write_status,
  Uploaded-more, Uploaded-put_chunks, Whole, Whole-more, Whole-completed, Fresh, mem-here,
}

-- The parts of all chunks, by number.
unfoldable pub all_parts : Dict ChunkState → List Text
all_parts m = sort_part_strings (object_names (values m))

-- Nothing is composed yet, or all chunks are, once, and they have been uploaded.
abbrev pub Composed : Dict ChunkState → Transfer → Type 0
Composed m t =
    (t.composed ≡ [])
    ⊎ ((t.composed ≡ all_parts m ∷ []) × (t.event_loop ≡ ended) × Whole t.uploaded (keys m))

-- `m` is the map at the start.
record Safe (m : Dict ChunkState) (t : Transfer) : Type 0 where
  kept : shape t.chunks ≡ shape m
  uploads : All (Uploaded t.uploaded) t.chunks
  parts : Composed m t

Quiet-Safe : (m : Dict ChunkState) (t u : Transfer) → Quiet t u → Safe m t → Safe m u
Quiet-Safe m t u q s = record {
  kept = ap shape q.same_chunks ∙ s.kept;
  uploads = rw (q.same_chunks, q.same_uploads) s.uploads;
  parts = elim s.parts [
    | inl e ↦ inl (q.same_parts ∙ e)
    | inr (e, l, w) ↦ inr (q.same_parts ∙ e, q.stays_ended l, rw q.same_uploads w)
  ];
}

begin_task-Safe :
    (m : Dict ChunkState) (time : ℕ) (k : Text) (t : Transfer)
    → Safe m t
    → Safe m (begin_task time k t)
unfolding begin_task
begin_task-Safe m time k t s = record {
  kept = shape-write_status k Status.transferring time t.chunks ∙ s.kept;
  uploads =
      Uploaded-write_status t.uploaded k Status.transferring time t.chunks
        (λ e. absurd (omega (arith, e))) s.uploads;
  parts = s.parts;
}

end_task-Safe :
    (m : Dict ChunkState) (v : Verdict) (time : ℕ) (k : Text) (t : Transfer)
    → (v ≡ success → mem k t.uploaded ≡ true)
    → Safe m t
    → Safe m (end_task v time k t)
unfolding end_task
end_task-Safe m marked_failed time k t u s = record {
  kept = shape-write_status k Status.transfer_failed time t.chunks ∙ s.kept;
  uploads =
      Uploaded-write_status t.uploaded k Status.transfer_failed time t.chunks
        (λ e. absurd (omega (arith, e))) s.uploads;
  parts = s.parts;
}
end_task-Safe m unmarked_error time k t u s = s
end_task-Safe m success time k t u s = record {
  kept = shape-write_status k Status.completed time t.chunks ∙ s.kept;
  uploads =
      Uploaded-write_status t.uploaded k Status.completed time t.chunks (λ e. u refl) s.uploads;
  parts = s.parts;
}

stored-Safe :
    (m : Dict ChunkState) (k : Text) (b : Bool) (t : Transfer)
    → Safe m t
    → Safe m (record t { uploaded = (if b then k ∷ t.uploaded else t.uploaded) })
stored-Safe m k false t s = s
stored-Safe m k true t s = record {
  kept = s.kept;
  uploads = Uploaded-more k t.uploaded t.chunks s.uploads;
  parts = elim s.parts [
    | inl e ↦ inl e
    | inr (e, l, w) ↦ inr (e, l, Whole-more k t.uploaded (keys m) w)
  ];
}

-- A handler succeeds only if `UploadFile` has reported no error.
success-is_stored : (direct : Bool) (a : Answers) → handler direct a ≡ success → is_stored a ≡ true
unfolding handler direct_imp redirect_imp upload_part is_stored
success-is_stored true a h = ground (arith, h)
success-is_stored false a h = ground (arith, h)

success-stored :
    (direct : Bool) (a : Answers) (k : Text) (t : Transfer)
    → handler direct a ≡ success
    → mem k (store_part a k t).uploaded ≡ true
success-stored direct a k t h = rw (success-is_stored direct a h) (mem-here k t.uploaded)

not_yet :
    (m : Dict ChunkState) (t : Transfer) → t.event_loop ≡ waiting → Composed m t → t.composed ≡ []
not_yet m t h (inl e) = e
not_yet m t h (inr (e, l, w)) = cc

all_parts-kept : (m n : Dict ChunkState) → shape n ≡ shape m → all_parts n ≡ all_parts m
unfolding all_parts
all_parts-kept m n h =
    ap sort_part_strings
      (sym (object_names-shape n) ∙ ap (λ x. object_names (values x)) h ∙ object_names-shape m)

compose-Safe :
    (m : Dict ChunkState) (t : Transfer)
    → t.event_loop ≡ waiting
    → all_completed (values t.chunks) ≡ true
    → Safe m t
    → Safe m (record t {
      event_loop = ended;
      done = true;
      composed = t.composed ++ all_parts t.chunks ∷ [];
    })
compose-Safe m t h c s = record {
  kept = s.kept;
  uploads = s.uploads;
  parts = inr (
    rw (not_yet m t h s.parts, all_parts-kept m t.chunks s.kept) refl,
    refl,
    subst (λ ks. Whole t.uploaded ks) (sym (keys-shape t.chunks) ∙ ap keys s.kept ∙ keys-shape m)
        (Whole-completed t.uploaded t.chunks s.uploads c),
  );
}

on_finished-Safe :
    (m : Dict ChunkState) (has_compose : Bool) (t : Transfer)
    → t.event_loop ≡ waiting
    → Safe m t
    → Safe m (on_finished has_compose t)
unfolding on_finished all_parts
on_finished-Safe m has_compose t h s = elim (Bool-cases (all_completed (values t.chunks))) [
  | inr e ↦ rw e (Quiet-Safe m t _ (updated t _ _ _ _ _ _ _ _ (λ l. refl)) s)
  | inl e ↦ rw e (composing has_compose e)
]
  where
    composing :
        (has_compose : Bool)
        → all_completed (values t.chunks) ≡ true
        → Safe m (
            if has_compose
            then record t {
              event_loop = ended;
              done = true;
              composed = t.composed ++ sort_part_strings (object_names (values t.chunks)) ∷ [];
            }
            else record t { event_loop = ended })
    composing true e = compose-Safe m t h e s
    composing false e = Quiet-Safe m t _ (updated t _ _ _ _ _ _ _ _ (λ l. refl)) s

on_event-Safe :
    (m : Dict ChunkState) (has_compose : Bool) (e : ChunkEvent) (t : Transfer)
    → t.event_loop ≡ waiting
    → Safe m t
    → Safe m (on_event has_compose e t)
unfolding on_event
on_event-Safe m has_compose (chunk_expired indexes) t h s =
    Quiet-Safe m t _ (updated t _ _ _ _ _ _ _ _ (λ l. cc)) s
on_event-Safe m has_compose chunk_finished t h s = on_finished-Safe m has_compose t h s

step-Safe : (m : Dict ChunkState) (t u : Transfer) → t ~> u → Safe m t → Safe m u
unfolding on_cancel
step-Safe m _ _ (submits t) s = Quiet-Safe m t (submit_round t) (submit_round-Quiet t) s
step-Safe m _ _ (resubmits t) s = Quiet-Safe m t (resubmit_round t) (resubmit_round-Quiet t) s
step-Safe m _ _ (takes t time k rest q b) s =
    begin_task-Safe m time k _ (Quiet-Safe m t _ (updated t _ _ _ _ _ _ _ _ (λ l. l)) s)
step-Safe m _ _ (ends t direct a time k before after b) s =
    end_task-Safe m (handler direct a) time k (store_part a k (record t { busy = before ++ after }))
      (success-stored direct a k (record t { busy = before ++ after }))
      (stored-Safe m k (is_stored a) (record t { busy = before ++ after })
        (Quiet-Safe m t _ (updated t _ _ _ _ _ _ _ _ (λ l. l)) s))
step-Safe m _ _ (checks t now c b) s =
    Quiet-Safe m t (check_chunks now t) (check_chunks-Quiet now t) s
step-Safe m _ _ (handles t has_compose e rest w q) s =
    on_event-Safe m has_compose e _ w (Quiet-Safe m t _ (updated t _ _ _ _ _ _ _ _ (λ l. l)) s)
step-Safe m _ _ (times_out t) s = Quiet-Safe m t _ (updated t _ _ _ _ _ _ _ _ (λ l. l)) s
step-Safe m _ _ (checker_stops t c) s = Quiet-Safe m t _ (updated t _ _ _ _ _ _ _ _ (λ l. l)) s
step-Safe m _ _ (stops t c w) s = Quiet-Safe m t _ (updated t _ _ _ _ _ _ _ _ (λ l. refl)) s

run-Safe : (m : Dict ChunkState) (t u : Transfer) → Runs t u → Safe m t → Safe m u
run-Safe m _ _ (here t) s = s
run-Safe m _ _ (next t u v r st) s = step-Safe m u v st (run-Safe m t u r s)

start-Safe : (cs : List ChunkState) → Fresh cs → Safe (put_chunks cs []) (start_transfer cs)
unfolding start_transfer
start-Safe cs f = record { kept = refl; uploads = Uploaded-put_chunks cs [] f tt; parts = inl refl }

-- However the goroutines of a transfer interleave, time out and fail: the parts are composed at most
-- once, and then all of them, by number, after `UploadFile` has answered without an error for each
-- chunk.
pub run-Composed :
    (cs : List ChunkState) (t : Transfer)
    → Fresh cs
    → Runs (start_transfer cs) t
    → Composed (put_chunks cs []) t
run-Composed cs t f r =
    (run-Safe (put_chunks cs []) (start_transfer cs) t r (start-Safe cs f)).parts
