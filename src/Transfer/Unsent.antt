-- ===== src/Transfer/Unsent.antt =====
-- Where the rounds of a transfer change nothing for a chunk that is still to be sent.
use sky_flow.Base.{
  ℕ, ◌≤◌, ◌≡◌, ◌⊎◌, refl, sym, ap, ◌∙◌, inl, inr, Bool, true, false, List, [], ◌∷◌, ◌++◌, length,
  some, arith, if◌then◌else◌, Bool-cases, Option-cases,
}
use sky_flow.Base.Text.{Text, ◌≟◌}
use sky_flow.Base.Dict.{Dict, lookup, lookup-insert}
use sky_flow.Chunk.Split.{ChunkState}
use sky_flow.Transfer.Status
use sky_flow.Transfer.{Transfer, waiting, ended, queue_buffer_size, chunk_expire_time}
use sky_flow.Transfer.Worker.{write_status}
use sky_flow.Transfer.Checker.{
  check_chunks, send_event, collect_from, collect_expired_chunks, values,
}
use sky_flow.Transfer.Submit.{
  is_due, visit_chunk, submit_round, resubmit_round, first_round, resubmit_in, stopped, visit,
}
use sky_flow.Base.Text.{mem}

pub lookup-write_status :
    (j k : Text) (status time : ℕ) (m : Dict ChunkState)
    → (j ≟ k) ≡ false
    → lookup k (write_status j status time m) ≡ lookup k m
unfolding write_status
lookup-write_status j k status time m h = elim (Option-cases (lookup j m)) [
  | inl e ↦ rw e refl
  | inr (c, e) ↦
      rw e (lookup-insert j k (record c { acked = status; last_send = time }) m ∙ rw h refl)
]

pub mem-head :
    (k j : Text) (js : List Text) → mem k (j ∷ js) ≡ false → ((j ≟ k) ≡ false) × (mem k js ≡ false)
unfolding mem
mem-head k j js h = ground arith

pub mem-cons :
    (k i : Text) (js : List Text) → (i ≟ k) ≡ false → mem k js ≡ false → mem k (i ∷ js) ≡ false
unfolding mem
mem-cons k i js p s = rw p s

pub mem-middle :
    (k j : Text) (before after : List Text)
    → mem k (before ++ j ∷ after) ≡ false
    → ((j ≟ k) ≡ false) × (mem k (before ++ after) ≡ false)
mem-middle k j [] after h = mem-head k j after h
mem-middle k j (i ∷ is) after h =
    let (p, q) = mem-head k i (is ++ j ∷ after) h in
    let (r, s) = mem-middle k j is after q in (r, mem-cons k i (is ++ after) p s)

-- The first chunk that is still to be sent stops the search for expired ones.
collect_from-init :
    (now expire : ℕ) (found : List Text) (so_far : Bool) (k : Text) (c : ChunkState)
    (m : Dict ChunkState)
    → lookup k m ≡ some c
    → c.acked ≡ Status.init
    → (collect_from now expire found so_far (values m)).has_init ≡ true
unfolding collect_from lookup
collect_from-init now expire found so_far k c [] h i = cc
collect_from-init now expire found so_far k c ((j, b) ∷ m) h i = elim (Bool-cases (j ≟ k)) [
  | inl p ↦ let zero : b.acked ≡ Status.init = ground (arith, p, h, i) in ground (arith, zero)
  | inr p ↦
      let tail : lookup k m ≡ some c = ground (arith, p, h) in
      ground (
        arith,
        collect_from-init now expire (found ++ b.index ∷ []) false k c m tail i,
        collect_from-init now expire found false k c m tail i,
        collect_from-init now expire found so_far k c m tail i,
      )
]

pub check_chunks-quiet :
    (now : ℕ) (k : Text) (c : ChunkState) (t : Transfer)
    → lookup k t.chunks ≡ some c
    → c.acked ≡ Status.init
    → check_chunks now t ≡ t
unfolding check_chunks send_event collect_expired_chunks
check_chunks-quiet now k c t h i =
    rw (collect_from-init now chunk_expire_time [] true k c t.chunks h i) refl

if-same : {A : Type 0} (b : Bool) (x y z : A) → x ≡ z → y ≡ z → (if b then x else y) ≡ z
if-same true x y z p q = p
if-same false x y z p q = q

pub submit_round-quiet : (t : Transfer) → t.submitting ≡ [] → submit_round t ≡ t
unfolding submit_round first_round
submit_round-quiet t h =
    if-same t.canceled _ _ t (ap (λ ks. record t { submitting = ks }) (sym h))
      (ap (λ ks. first_round ks t) h)

abbrev pub Unwoken : Transfer → Type 0
Unwoken t = (t.event_loop ≡ waiting) ⊎ ((t.event_loop ≡ ended) × (t.canceled ≡ true))

pub resubmit_round-quiet : (t : Transfer) → Unwoken t → resubmit_round t ≡ t
unfolding resubmit_round resubmit_in stopped
resubmit_round-quiet t (inl h) =
    if-same t.canceled _ _ t (ap (λ l. record t { event_loop = l }) (ap stopped h ∙ sym h))
      (ap (λ l. resubmit_in l t) h)
resubmit_round-quiet t (inr (h, e)) =
    if-same t.canceled _ _ t (ap (λ l. record t { event_loop = l }) (ap stopped h ∙ sym h))
      (ap (λ l. resubmit_in l t) h)

visit_chunk_full :
    (t : Transfer) (k : Text) (c : ChunkState)
    → lookup k t.chunks ≡ some c
    → c.acked ≡ Status.init
    → queue_buffer_size ≤ length t.queue
    → visit_chunk false [] k t ≡ (t.queue, false)
unfolding visit_chunk visit is_due
visit_chunk_full t k c l i f = ap (visit false [] k t.queue) l ∙ ground (arith, i, f)

pub submit_round_full :
    (t : Transfer) (k : Text) (ks : List Text) (c : ChunkState)
    → t.canceled ≡ false
    → t.submitting ≡ k ∷ ks
    → lookup k t.chunks ≡ some c
    → c.acked ≡ Status.init
    → queue_buffer_size ≤ length t.queue
    → submit_round t ≡ record t { submitting = [] }
unfolding submit_round first_round
submit_round_full t k ks c a b l i f =
    ap (λ b. if b then record t { submitting = [] } else first_round t.submitting t) a
    ∙ ap (λ js. first_round js t) b
    ∙ ap (λ r. record t { queue = r.0; submitting = if r.1 then ks else [] })
        (visit_chunk_full t k c l i f)
