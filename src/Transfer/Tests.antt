-- ===== src/Transfer/Tests.antt =====
-- A transfer of two chunks.
use sky_flow.Base.{
  ℕ, zero, suc, ◌≡◌, ◌⊎◌, refl, true, false, not, List, [], ◌∷◌, some, map, filterb, arith,
}
use sky_flow.Base.Int.{pos}
use sky_flow.Base.Text.{Text, codes, ◌≟◌}
use sky_flow.Base.Dict.{lookup, insert}
use sky_flow.Chunk.Split.{ChunkState, put_chunks}
use sky_flow.Transfer.{Transfer, waiting, start_transfer, chunk_finished}
use sky_flow.Transfer.Worker.{Answers, begin_task, end_task, store_part}
use sky_flow.Transfer.Checker.{check_chunks, collect_expired_chunks, values}
use sky_flow.Transfer.Submit.{submit_round}
use sky_flow.Base.Text.{mem}
use sky_flow.Transfer.Events.{on_event}
use sky_flow.Transfer.Steps.{submits, takes, ends, checks, handles, Runs, here, next, handler}
use sky_flow.Transfer.Safety.{Composed, run-Composed}
use sky_flow.Transfer.Stuck.{Full, submit_round-Full-run}
use sky_flow.Transfer.Collects.{any, unsent, under_way, overdue, collect_expired_chunks_rule}
use sky_flow.Transfer.Returns.{uploaded, Returns, timeout-uploaded}

abbrev sample : Text → Text → ChunkState
sample i name = record {
  index = i;
  file_name = codes "in";
  new_file_name = codes "out";
  object_name = name;
  offset = pos 0;
  size = pos 5;
  last_send = 0;
  acked = 0;
}

abbrev first : Text
first = codes "0"

abbrev second : Text
second = codes "1"

abbrev two_chunks : List ChunkState
two_chunks = sample first (codes "out.part.00000") ∷ sample second (codes "out.part.00001") ∷ []

abbrev all_well : Answers
all_well = record {
  canceled_before_reader = false;
  canceled_in_reader = false;
  has_download = true;
  download_ok = true;
  canceled_before_upload = false;
  has_upload = true;
  upload_ok = true;
  canceled_after_upload = false;
}

-- Both chunks are queued, the first is sent, then the second, and the parts are composed.
abbrev queued : Transfer
queued = submit_round (submit_round (start_transfer two_chunks))

abbrev sending : Transfer
sending = begin_task 7 first (record queued { queue = second ∷ []; busy = first ∷ [] })

abbrev half : Transfer
half =
    end_task (handler true all_well) 7 first
      (store_part all_well first (record sending { busy = [] }))

abbrev sending_more : Transfer
sending_more = begin_task 8 second (record half { queue = []; busy = second ∷ [] })

abbrev sent : Transfer
sent =
    end_task (handler true all_well) 8 second
      (store_part all_well second (record sending_more { busy = [] }))

abbrev finished : Transfer
finished = on_event true chunk_finished (record (check_chunks 9 sent) { events = [] })

whole_run : Runs (start_transfer two_chunks) finished
unfolding start_transfer submit_round begin_task end_task handler check_chunks put_chunks lookup
    insert ◌≟◌
whole_run =
    next _ _ _
      (next _ _ _
        (next _ _ _
          (next _ _ _
            (next _ _ _
              (next _ _ _
                (next _ _ _
                  (next _ _ _ (here (start_transfer two_chunks))
                    (submits (start_transfer two_chunks)))
                  (submits (submit_round (start_transfer two_chunks))))
                (takes queued 7 first (second ∷ []) refl (omega arith)))
              (ends sending true all_well 7 first [] [] refl))
            (takes half 8 second [] refl (omega arith)))
          (ends sending_more true all_well 8 second [] [] refl))
        (checks sent 9 refl (omega arith)))
      (handles (check_chunks 9 sent) true chunk_finished [] refl refl)

run-Composed_example : Composed (put_chunks two_chunks []) finished
run-Composed_example = run-Composed two_chunks finished (refl, (refl, tt)) whole_run

-- The parts were composed in that run.
both_parts : finished.composed ≡ (codes "out.part.00000" ∷ codes "out.part.00001" ∷ []) ∷ []
unfolding start_transfer submit_round begin_task end_task handler check_chunks on_event put_chunks
    lookup insert ◌≟◌
both_parts = refl

repeated : ℕ → List Text
repeated zero = []
repeated (suc n) = second ∷ repeated n

abbrev full_queue : Transfer
full_queue = record (start_transfer two_chunks) { queue = repeated 100; submitting = first ∷ [] }

full_queue-Full : Full first [] (sample first (codes "out.part.00000")) full_queue
unfolding start_transfer put_chunks lookup insert mem repeated ◌≟◌
full_queue-Full = record {
  running = refl;
  visiting = refl;
  held = refl;
  fresh = refl;
  full = omega arith;
  unqueued = refl;
  idle = refl;
  quiet = refl;
  awaiting = refl;
  open_parts = refl;
  open_done = refl;
}

submit_round-Full-run_example :
    (lookup first (submit_round full_queue).chunks ≡ some (sample first (codes "out.part.00000")))
    × ((submit_round full_queue).events ≡ [])
    × ((submit_round full_queue).composed ≡ [])
    × (((submit_round full_queue).done ≡ false) ⊎ ((submit_round full_queue).canceled ≡ true))
submit_round-Full-run_example =
    submit_round-Full-run first [] (sample first (codes "out.part.00000")) full_queue
      (submit_round full_queue) full_queue-Full (here (submit_round full_queue))

-- One chunk is completed, the other has been in transfer since time 5.
abbrev one_late : List ChunkState
one_late =
    record (sample first (codes "a")) { acked = 3; last_send = 2 }
    ∷ record (sample second (codes "b")) { acked = 1; last_send = 5 }
    ∷ []

collect_expired_chunks_rule_example :
    (any unsent one_late ≡ true
      → ((collect_expired_chunks 20 10 one_late).has_init ≡ true)
        × ((collect_expired_chunks 20 10 one_late).finished ≡ false)
        × ((t : Transfer) → values t.chunks ≡ one_late → check_chunks 20 t ≡ t))
    × (any unsent one_late ≡ false
        → collect_expired_chunks 20 10 one_late ≡ record {
          expired = map (λ c. c.index) (filterb (overdue 20 10) one_late);
          finished = not (any under_way one_late);
          has_init = false;
        })
collect_expired_chunks_rule_example = collect_expired_chunks_rule 20 10 one_late (omega arith)

second_late : (collect_expired_chunks 20 10 one_late).expired ≡ second ∷ []
unfolding collect_expired_chunks
second_late = refl

queued_waits : queued.event_loop ≡ waiting
unfolding submit_round start_transfer put_chunks lookup insert ◌≟◌
queued_waits = refl

timeout-uploaded_example :
    (u : Transfer) × Runs queued u
    × Returns u uploaded
    × (u.composed ≡ queued.composed)
    × (u.chunks ≡ queued.chunks)
timeout-uploaded_example = timeout-uploaded queued queued_waits
