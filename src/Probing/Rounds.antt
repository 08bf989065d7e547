-- ===== src/Probing/Rounds.antt =====
-- A round of probes, however its workers interleave.
use sky_flow.Base.{ℕ, ◌<◌, ◌≡◌, refl, subst, ap, ◌⊎◌, inl, inr, List, [], ◌∷◌, ◌++◌, Member}
use sky_flow.Base.Floats.{FloatOps}
use sky_flow.Telemetry.{ProbeTask}
use sky_flow.Probing.{
  ProbeConfig, attempts_of, Dial, ProbeResult, probe, Round, start_round, RoundStep, takes,
  finishes, RoundRun, here, then_step,
}

Member-left : {A : Type 0} (x : A) (us vs : List A) → Member x us → Member x (us ++ vs)
Member-left x [] vs m = absurd m
Member-left x (u ∷ us) vs (inl q) = inl q
Member-left x (u ∷ us) vs (inr m) = inr (Member-left x us vs m)

Member-right : {A : Type 0} (x : A) (us vs : List A) → Member x vs → Member x (us ++ vs)
Member-right x [] vs m = m
Member-right x (u ∷ us) vs m = inr (Member-right x us vs m)

Member-parts :
    {A : Type 0} (x : A) (us vs : List A) → Member x (us ++ vs) → Member x us ⊎ Member x vs
Member-parts x [] vs m = inr m
Member-parts x (u ∷ us) vs (inl q) = inl (inl q)
Member-parts x (u ∷ us) vs (inr m) = elim (Member-parts x us vs m) [
  | inl k ↦ inl (inr k)
  | inr k ↦ inr k
]

-- One element more does not take another away.
Member-without :
    {A : Type 0} (x y : A) (us vs : List A)
    → Member x (us ++ y ∷ vs)
    → (x ≡ y) ⊎ Member x (us ++ vs)
Member-without x y us vs m = elim (Member-parts x us (y ∷ vs) m) [
  | inl k ↦ inr (Member-left x us vs k)
  | inr (inl q) ↦ inl q
  | inr (inr k) ↦ inr (Member-right x us vs k)
]

Member-with :
    {A : Type 0} (x y : A) (us vs : List A) → Member x (us ++ vs) → Member x (us ++ y ∷ vs)
Member-with x y us vs m = elim (Member-parts x us vs m) [
  | inl k ↦ Member-left x us (y ∷ vs) k
  | inr k ↦ Member-right x us (y ∷ vs) (inr k)
]

module _ {R : Type 0} (ops : FloatOps R) (cfg : ProbeConfig) (dial : ProbeTask → ℕ → Dial) where
  -- Each target waits, is with a worker or has its result, and nothing else is there.
  pub record IsRound (targets : List ProbeTask) (s : Round ops) : Type 0 where
    pub each :
        (t : ProbeTask)
        → Member t targets
        → Member t s.jobs ⊎ (Member t s.busy ⊎ Member (probe ops cfg dial t) s.round_results)
    pub of_jobs : (t : ProbeTask) → Member t s.jobs → Member t targets
    pub of_busy : (t : ProbeTask) → Member t s.busy → Member t targets
    pub of_results :
        (r : ProbeResult R)
        → Member r s.round_results
        → (t : ProbeTask) × Member t targets × (r ≡ probe ops cfg dial t)

  start_round-IsRound : (targets : List ProbeTask) → IsRound targets (start_round ops targets)
  start_round-IsRound targets = record {
    each = λ t m. inl m;
    of_jobs = λ t m. m;
    of_busy = λ t m. absurd m;
    of_results = λ r m. absurd m;
  }

  step-IsRound :
      (targets : List ProbeTask) (s u : Round ops)
      → RoundStep ops cfg dial s u
      → IsRound targets s
      → IsRound targets u
  step-IsRound targets _ _ (takes t ts ws rs l) h = record {
    each = λ x m. elim (h.each x m) [
      | inl (inl q) ↦ inr (inl (inl q))
      | inl (inr k) ↦ inl k
      | inr (inl k) ↦ inr (inl (inr k))
      | inr (inr k) ↦ inr (inr k)
    ];
    of_jobs = λ x m. h.of_jobs x (inr m);
    of_busy = λ x m. elim m [ inl q ↦ h.of_jobs x (inl q) | inr k ↦ h.of_busy x k ];
    of_results = h.of_results;
  }
  step-IsRound targets _ _ (finishes t ts us vs rs) h = record {
    each = λ x m. elim (h.each x m) [
      | inl k ↦ inl k
      | inr (inl k) ↦ elim (Member-without x t us vs k) [
        | inl q ↦ inr (
            inr (
              Member-right (probe ops cfg dial x) rs (probe ops cfg dial t ∷ [])
                (inl (ap (probe ops cfg dial) q))))
        | inr j ↦ inr (inl j)
      ]
      | inr (inr k) ↦
          inr (inr (Member-left (probe ops cfg dial x) rs (probe ops cfg dial t ∷ []) k))
    ];
    of_jobs = h.of_jobs;
    of_busy = λ x m. h.of_busy x (Member-with x t us vs m);
    of_results = λ r m. elim (Member-parts r rs (probe ops cfg dial t ∷ []) m) [
      | inl k ↦ h.of_results r k
      | inr (inl q) ↦ (t, h.of_busy t (Member-right t us (t ∷ vs) (inl refl)), q)
      | inr (inr k) ↦ absurd k
    ];
  }

  pub run-IsRound :
      (targets : List ProbeTask) (s : Round ops)
      → RoundRun ops cfg dial (start_round ops targets) s
      → IsRound targets s
  run-IsRound targets _ here = start_round-IsRound targets
  run-IsRound targets s (then_step {t} run step) =
      step-IsRound targets t s step (run-IsRound targets t run)

  -- As long as something is to be done, a worker can go on.
  pub stuck-done :
      (s : Round ops)
      → 0 < attempts_of cfg.concurrency
      → ((u : Round ops) → RoundStep ops cfg dial s u → ⊥)
      → (s.jobs ≡ []) × (s.busy ≡ [])
  stuck-done s c stuck = by_lists s.jobs s.busy s.round_results c stuck
    where
      by_lists :
          (ts ws : List ProbeTask) (rs : List (ProbeResult R))
          → 0 < attempts_of cfg.concurrency
          → ((u : Round ops)
              → RoundStep ops cfg dial (record { jobs = ts; busy = ws; round_results = rs }) u
              → ⊥)
          → (ts ≡ []) × (ws ≡ [])
      by_lists ts (w ∷ ws) rs c stuck = absurd (stuck _ (finishes w ts [] ws rs))
      by_lists [] [] rs c stuck = (refl, refl)
      by_lists (t ∷ ts) [] rs c stuck = absurd (stuck _ (takes t ts [] rs c))

  pub done_with :
      (s : Round ops) (t : ProbeTask)
      → (s.jobs ≡ []) × (s.busy ≡ [])
      → Member t s.jobs ⊎ (Member t s.busy ⊎ Member (probe ops cfg dial t) s.round_results)
      → Member (probe ops cfg dial t) s.round_results
  done_with s t (j, b) (inl k) = absurd (subst (Member t) j k)
  done_with s t (j, b) (inr (inl k)) = absurd (subst (Member t) b k)
  done_with s t (j, b) (inr (inr k)) = k
