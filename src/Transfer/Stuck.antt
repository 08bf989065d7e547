-- ===== src/Transfer/Stuck.antt =====
-- A chunk that the first submit loop leaves out is never sent, and the transfer never completes.
use sky_flow.Base.{
  if◌then◌else◌, ℕ, ◌≤◌, ◌≡◌, ◌⊎◌, ◌≢◌, subst, refl, sym, ap, ◌∙◌, inl, inr, Bool, true, false,
  List, [], ◌∷◌, ◌++◌, length, some,
}
use sky_flow.Base.Text.{Text, ◌≟◌}
use sky_flow.Base.Dict.{Dict, lookup}
use sky_flow.Chunk.Split.{ChunkState}
use sky_flow.Transfer.Status
use sky_flow.Transfer.{Transfer, ChunkEvent, EventLoop, waiting, ended, queue_buffer_size}
use sky_flow.Transfer.Worker.{
  Verdict, marked_failed, unmarked_error, success, begin_task, end_task, is_stored,
}
use sky_flow.Transfer.Submit.{submit_round}
use sky_flow.Base.Text.{mem}
use sky_flow.Transfer.Events.{on_cancel}
use sky_flow.Transfer.Steps.{
  ◌~>◌, submits, resubmits, takes, ends, checks, handles, times_out, checker_stops, stops, Runs,
  here, next, handler,
}
use sky_flow.Transfer.Unsent.{
  lookup-write_status, mem-head, mem-cons, mem-middle, check_chunks-quiet, submit_round-quiet,
  resubmit_round-quiet, submit_round_full, Unwoken,
}

-- `k` is still to be sent, but is neither queued nor will be.
pub record Stranded (k : Text) (c : ChunkState) (t : Transfer) : Type 0 where
  pub chunk : lookup k t.chunks ≡ some c
  pub unsent : c.acked ≡ Status.init
  pub not_queued : mem k t.queue ≡ false
  pub not_busy : mem k t.busy ≡ false
  pub submitted : t.submitting ≡ []
  pub no_events : t.events ≡ []
  pub unwoken : Unwoken t
  pub not_composed : t.composed ≡ []
  pub not_done : (t.done ≡ false) ⊎ (t.canceled ≡ true)

-- A change of the map, the queue, the workers and the uploads that spares `k`.
spared :
    (k : Text) (c : ChunkState) (t : Transfer) (m : Dict ChunkState)
    (queue busy uploaded : List Text)
    → lookup k m ≡ lookup k t.chunks
    → mem k queue ≡ false
    → mem k busy ≡ false
    → Stranded k c t
    → Stranded k c (record t { chunks = m; queue = queue; busy = busy; uploaded = uploaded })
spared k c t m queue busy uploaded l q b s = record {
  chunk = l ∙ s.chunk;
  unsent = s.unsent;
  not_queued = q;
  not_busy = b;
  submitted = s.submitted;
  no_events = s.no_events;
  unwoken = s.unwoken;
  not_composed = s.not_composed;
  not_done = s.not_done;
}

begin_task-Stranded :
    (k : Text) (c : ChunkState) (t : Transfer) (time : ℕ) (j : Text) (rest : List Text)
    → t.queue ≡ j ∷ rest
    → Stranded k c t
    → Stranded k c (begin_task time j (record t { queue = rest; busy = j ∷ t.busy }))
unfolding begin_task
begin_task-Stranded k c t time j rest q s =
    let (p, r) = mem-head k j rest (ap (mem k) (sym q) ∙ s.not_queued) in
    spared k c t _ rest (j ∷ t.busy) t.uploaded
      (lookup-write_status j k Status.transferring time t.chunks p) r
      (mem-cons k j t.busy p s.not_busy) s

end_task-Stranded :
    (k : Text) (c : ChunkState) (t : Transfer) (v : Verdict) (time : ℕ) (j : Text)
    (before after done : List Text)
    → t.busy ≡ before ++ j ∷ after
    → Stranded k c t
    → Stranded k c (end_task v time j (record t { busy = before ++ after; uploaded = done }))
unfolding end_task
end_task-Stranded k c t v time j before after done b s =
    let (p, r) = mem-middle k j before after (ap (mem k) (sym b) ∙ s.not_busy) in left v p r
  where
    left :
        (v : Verdict)
        → (j ≟ k) ≡ false
        → mem k (before ++ after) ≡ false
        → Stranded k c (end_task v time j (record t { busy = before ++ after; uploaded = done }))
    left marked_failed p r =
        spared k c t _ t.queue (before ++ after) done
          (lookup-write_status j k Status.transfer_failed time t.chunks p) s.not_queued r s
    left unmarked_error p r =
        spared k c t t.chunks t.queue (before ++ after) done refl s.not_queued r s
    left success p r =
        spared k c t _ t.queue (before ++ after) done
          (lookup-write_status j k Status.completed time t.chunks p) s.not_queued r s

-- A change of the flags after a cancellation.
canceled :
    (k : Text) (c : ChunkState) (t : Transfer) (checking done : Bool) (loop : EventLoop)
    → (loop ≡ waiting) ⊎ (loop ≡ ended)
    → Stranded k c t
    → Stranded k c
        (record t { checking = checking; done = done; event_loop = loop; canceled = true })
canceled k c t checking done loop l s = record {
  chunk = s.chunk;
  unsent = s.unsent;
  not_queued = s.not_queued;
  not_busy = s.not_busy;
  submitted = s.submitted;
  no_events = s.no_events;
  unwoken = elim l [ inl e ↦ inl e | inr e ↦ inr (e, refl) ];
  not_composed = s.not_composed;
  not_done = inr refl;
}

loop_of : (t : Transfer) → Unwoken t → (t.event_loop ≡ waiting) ⊎ (t.event_loop ≡ ended)
loop_of t (inl e) = inl e
loop_of t (inr (e, c)) = inr e

step-Stranded :
    (k : Text) (c : ChunkState) (t u : Transfer) → t ~> u → Stranded k c t → Stranded k c u
unfolding on_cancel
step-Stranded k c _ _ (submits t) s =
    subst (Stranded k c) (sym (submit_round-quiet t s.submitted)) s
step-Stranded k c _ _ (resubmits t) s =
    subst (Stranded k c) (sym (resubmit_round-quiet t s.unwoken)) s
step-Stranded k c _ _ (takes t time j rest q b) s = begin_task-Stranded k c t time j rest q s
step-Stranded k c _ _ (ends t direct a time j before after b) s =
    end_task-Stranded k c t (handler direct a) time j before after
      (if is_stored a then j ∷ t.uploaded else t.uploaded) b s
step-Stranded k c _ _ (checks t now o b) s =
    subst (Stranded k c) (sym (check_chunks-quiet now k c t s.chunk s.unsent)) s
step-Stranded k c _ _ (handles t has_compose e rest w q) s =
    absurd (nonempty e rest (sym s.no_events ∙ q))
  where
    nonempty : (e : ChunkEvent) (rest : List ChunkEvent) → [] ≢ e ∷ rest
    nonempty e rest h = cc
step-Stranded k c _ _ (times_out t) s =
    canceled k c t t.checking t.done t.event_loop (loop_of t s.unwoken) s
step-Stranded k c _ _ (checker_stops t e) s =
    subst (λ b. Stranded k c (record t { checking = false; canceled = b })) (sym e)
      (canceled k c t false t.done t.event_loop (loop_of t s.unwoken) s)
step-Stranded k c _ _ (stops t e w) s =
    subst (λ b. Stranded k c (record t { done = true; event_loop = ended; canceled = b })) (sym e)
      (canceled k c t t.checking true ended (inr refl) s)

run-Stranded :
    (k : Text) (c : ChunkState) (t u : Transfer) → Runs t u → Stranded k c t → Stranded k c u
run-Stranded k c _ _ (here t) s = s
run-Stranded k c _ _ (next t u v r st) s = step-Stranded k c u v st (run-Stranded k c t u r s)

-- Before the round of the first submit loop that finds the queue full.
pub record Full (k : Text) (ks : List Text) (c : ChunkState) (t : Transfer) : Type 0 where
  pub running : t.canceled ≡ false
  pub visiting : t.submitting ≡ k ∷ ks
  pub held : lookup k t.chunks ≡ some c
  pub fresh : c.acked ≡ Status.init
  pub full : queue_buffer_size ≤ length t.queue
  pub unqueued : mem k t.queue ≡ false
  pub idle : mem k t.busy ≡ false
  pub quiet : t.events ≡ []
  pub awaiting : t.event_loop ≡ waiting
  pub open_parts : t.composed ≡ []
  pub open_done : t.done ≡ false

submit_round_full-Stranded :
    (k : Text) (ks : List Text) (c : ChunkState) (t : Transfer)
    → Full k ks c t
    → Stranded k c (submit_round t)
submit_round_full-Stranded k ks c t f =
    subst (Stranded k c)
      (sym (submit_round_full t k ks c f.running f.visiting f.held f.fresh f.full))
      (record {
        chunk = f.held;
        unsent = f.fresh;
        not_queued = f.unqueued;
        not_busy = f.idle;
        submitted = refl;
        no_events = f.quiet;
        unwoken = inl f.awaiting;
        not_composed = f.open_parts;
        not_done = inl f.open_done;
      })

-- If the first submit loop meets a full queue at a chunk, that chunk is never sent, whatever happens
-- later: no event reaches the event loop, nothing is composed, and the transfer ends by its timeout
-- only.
pub submit_round-Full-run :
    (k : Text) (ks : List Text) (c : ChunkState) (t u : Transfer)
    → Full k ks c t
    → Runs (submit_round t) u
    → (lookup k u.chunks ≡ some c)
      × (u.events ≡ [])
      × (u.composed ≡ [])
      × ((u.done ≡ false) ⊎ (u.canceled ≡ true))
submit_round-Full-run k ks c t u f r =
    let s = run-Stranded k c (submit_round t) u r (submit_round_full-Stranded k ks c t f) in
    (s.chunk, s.no_events, s.not_composed, s.not_done)
