-- ===== src/Transfer/Collects.antt =====
-- What the timeout checker finds, against an independent description.
use sky_flow.Base.{
  ℕ, suc, ltb, ◌+◌, ◌<◌, ap, ◌≡◌, refl, sym, ap₂, ◌∙◌, inl, inr, Bool, true, false, ◌&&◌, ◌||◌, not,
  List, [], ◌∷◌, ◌++◌, append-nil, append_assoc, map, filterb, arith, ◌==◌, if◌then◌else◌,
  Bool-cases,
}
use sky_flow.Base.Text.{Text}
use sky_flow.Chunk.Split.{ChunkState}
use sky_flow.Transfer.Status
use sky_flow.Base.Word.{two63}
use sky_flow.Transfer.{Transfer, chunk_expire_time}
use sky_flow.Transfer.Checker.{
  values, check_chunks, send_event, Collected, collect_from, collect_expired_chunks, in_transfer,
  is_expired,
}

abbrev pub any : (ChunkState → Bool) → List ChunkState → Bool
any p [] = false
any p (c ∷ cs) = p c || any p cs

abbrev pub unsent : ChunkState → Bool
unsent c = c.acked == Status.init

abbrev pub under_way : ChunkState → Bool
under_way c = c.acked == Status.transferring || c.acked == Status.transfer_failed

-- Started, and before `now` by more than `expire`.
abbrev pub overdue : ℕ → ℕ → ChunkState → Bool
overdue now expire c = under_way c && (ltb 0 c.last_send && ltb (c.last_send + expire) now)

is_expired-overdue :
    (now expire : ℕ) (c : ChunkState)
    → suc expire < two63
    → is_expired now expire c ≡ (ltb 0 c.last_send && ltb (c.last_send + expire) now)
unfolding is_expired
is_expired-overdue now expire c h = ground arith

-- As the checker tests it.
abbrev late : ℕ → ℕ → ChunkState → Bool
late now expire c = in_transfer c && is_expired now expire c

late-overdue :
    (now expire : ℕ) (cs : List ChunkState)
    → suc expire < two63
    → filterb (late now expire) cs ≡ filterb (overdue now expire) cs
late-overdue now expire [] h = refl
late-overdue now expire (c ∷ cs) h =
    rw (is_expired-overdue now expire c h, late-overdue now expire cs h) refl

and-true : (b : Bool) → (b && true) ≡ b
and-true b = ground arith

and-false : (b : Bool) → (b && false) ≡ false
and-false b = ground arith

-- Where every chunk has been sent, the answer.
abbrev answer : List Text → Bool → Collected
answer found so_far = record { expired = found; finished = so_far; has_init = false }

collect_from-sent :
    (now expire : ℕ) (found : List Text) (so_far : Bool) (cs : List ChunkState)
    → any unsent cs ≡ false
    → collect_from now expire found so_far cs ≡ record {
      expired = found ++ map (λ c. c.index) (filterb (late now expire) cs);
      finished = so_far && not (any in_transfer cs);
      has_init = false;
    }
unfolding collect_from
collect_from-sent now expire found so_far [] h =
    ap₂ answer (sym (append-nil found)) (sym (and-true so_far))
collect_from-sent now expire found so_far (c ∷ cs) h =
    let sent : unsent c ≡ false = ground (arith, h) in
    let later : any unsent cs ≡ false = ground (arith, h) in
    elim (Bool-cases (in_transfer c)) [
      | inr a ↦ rw (sent, a) (collect_from-sent now expire found so_far cs later)
      | inl a ↦ elim (Bool-cases (is_expired now expire c)) [
        | inl b ↦
            rw (sent, a, b)
              (collect_from-sent now expire (found ++ c.index ∷ []) false cs later
                ∙ ap₂ answer
                    (append_assoc found (c.index ∷ [])
                      (map (λ c. c.index) (filterb (late now expire) cs)))
                    (sym (and-false so_far)))
        | inr b ↦
            rw (sent, a, b)
              (collect_from-sent now expire found false cs later
                ∙ ap₂ answer refl (sym (and-false so_far)))
      ]
    ]

abbrev Blocked : Collected → Type 0
Blocked r = (r.has_init ≡ true) × (r.finished ≡ false)

one_of :
    (r s t : Collected) (a b : Bool)
    → Blocked r
    → Blocked s
    → Blocked t
    → Blocked (if a then (if b then r else s) else t)
one_of r s t true true p q k = p
one_of r s t true false p q k = q
one_of r s t false b p q k = k

collect_from-unsent :
    (now expire : ℕ) (found : List Text) (so_far : Bool) (cs : List ChunkState)
    → any unsent cs ≡ true
    → ((collect_from now expire found so_far cs).has_init ≡ true)
      × ((collect_from now expire found so_far cs).finished ≡ false)
unfolding collect_from
collect_from-unsent now expire found so_far [] h = cc
collect_from-unsent now expire found so_far (c ∷ cs) h = elim (Bool-cases (unsent c)) [
  | inl e ↦ rw e (refl, refl)
  | inr e ↦
      let later : any unsent cs ≡ true = ground (arith, h, e) in
      rw e (
        one_of _ _ _ (in_transfer c) (is_expired now expire c)
          (collect_from-unsent now expire (found ++ c.index ∷ []) false cs later)
          (collect_from-unsent now expire found false cs later)
          (collect_from-unsent now expire found so_far cs later))
]

-- While a chunk is still to be sent the checker says so and does not finish, and its tick sends no
-- event. Otherwise the transfer is finished exactly if no chunk is in transfer or failed, and the chunks
-- to be sent again are, in order, those of them that were started longer ago than the limit, which is
-- below the largest duration.
pub collect_expired_chunks_rule :
    (now expire : ℕ) (cs : List ChunkState)
    → suc expire < two63
    → (any unsent cs ≡ true
        → ((collect_expired_chunks now expire cs).has_init ≡ true)
          × ((collect_expired_chunks now expire cs).finished ≡ false)
          × ((t : Transfer) → values t.chunks ≡ cs → check_chunks now t ≡ t))
      × (any unsent cs ≡ false
          → collect_expired_chunks now expire cs ≡ record {
            expired = map (λ c. c.index) (filterb (overdue now expire) cs);
            finished = not (any under_way cs);
            has_init = false;
          })
unfolding collect_expired_chunks check_chunks send_event
collect_expired_chunks_rule now expire cs h = (
  (λ u.
      let (init, unfinished) = collect_from-unsent now expire [] true cs u in
      (
        init,
        unfinished,
        λ t e.
            let (here, _) = collect_from-unsent now chunk_expire_time [] true cs u in
            rw (e, here) refl,
      )),
  (λ s.
      collect_from-sent now expire [] true cs s
      ∙ ap (λ l. answer (map (λ c. c.index) l) (not (any in_transfer cs)))
          (late-overdue now expire cs h)),
)
