-- ===== src/Probing/Latest.antt =====
-- The latest results after a round of probes.
use sky_flow.Base.{
  ℕ, true, ◌<◌, ◌≡◌, ◌≢◌, refl, sym, subst, ap, ◌∙◌, inl, inr, Bool-cases, List, [], ◌∷◌, map, some,
  arith, All, Member, if◌then◌else◌,
}
use sky_flow.Base.Int.{ℤ, pos, negsuc, ltb_ℤ}
use sky_flow.Base.Text.{Distinct, Text, ◌≟◌, ≟→≡, ≟-refl, ne→≟}
use sky_flow.Base.Dict.{Dict, lookup, insert, lookup-insert}
use sky_flow.Base.Floats.{FloatOps}
use sky_flow.Telemetry.{ProbeTask}
use sky_flow.Probing.{
  ProbeConfig, with_defaults, attempts_of, Dial, ProbeResult, probe, Round, start_round, RoundStep,
  RoundRun, update_latest_results,
}
use sky_flow.Probing.Rounds.{run-IsRound, stuck-done, done_with}

All-at :
    {A B : Type 0} (P : B → Type 0) (f : A → B) (x : A) (xs : List A)
    → All P (map f xs)
    → Member x xs
    → P (f x)
All-at P f x [] h m = absurd m
All-at P f x (y ∷ ys) h (inl q) = subst (λ z. P (f z)) (sym q) h.0
All-at P f x (y ∷ ys) h (inr m) = All-at P f x ys h.1 m

-- Targets with different addresses are told apart by them.
Distinct-same :
    (t u : ProbeTask) (ts : List ProbeTask)
    → Distinct (map (λ x. x.ip) ts)
    → Member t ts
    → Member u ts
    → t.ip ≡ u.ip
    → t ≡ u
Distinct-same t u [] d m k q = absurd m
Distinct-same t u (x ∷ xs) d (inl r) (inl s) q = r ∙ sym s
Distinct-same t u (x ∷ xs) d (inl r) (inr k) q =
    absurd (All-at (λ n. n ≢ x.ip) (λ y. y.ip) u xs d.0 k (sym q ∙ ap (λ y. y.ip) r))
Distinct-same t u (x ∷ xs) d (inr m) (inl s) q =
    absurd (All-at (λ n. n ≢ x.ip) (λ y. y.ip) t xs d.0 m (q ∙ ap (λ y. y.ip) s))
Distinct-same t u (x ∷ xs) d (inr m) (inr k) q = Distinct-same t u xs d.1 m k q

module _ {R : Type 0} where
  -- A result stays if no other one has its address.
  lookup-update_kept :
      (k : Text) (r : ProbeResult R) (rs : List (ProbeResult R)) (m : Dict (ProbeResult R))
      → ((x : ProbeResult R) → Member x rs → x.target.ip ≡ k → x ≡ r)
      → lookup k m ≡ some r
      → lookup k (update_latest_results rs m) ≡ some r
  unfolding update_latest_results
  lookup-update_kept k r [] m h q = q
  lookup-update_kept k r (x ∷ xs) m h q =
      lookup-update_kept k r xs (insert x.target.ip x m) (λ y j. h y (inr j))
        (lookup-insert x.target.ip k x m ∙ (elim (Bool-cases (x.target.ip ≟ k)) [
          | inl e ↦ rw e (ap some (h x (inl refl) (≟→≡ x.target.ip k e)))
          | inr e ↦ rw e q
        ]))

  lookup-update :
      (k : Text) (r : ProbeResult R) (rs : List (ProbeResult R)) (m : Dict (ProbeResult R))
      → ((x : ProbeResult R) → Member x rs → x.target.ip ≡ k → x ≡ r)
      → r.target.ip ≡ k
      → Member r rs
      → lookup k (update_latest_results rs m) ≡ some r
  unfolding update_latest_results
  lookup-update k r [] m h q i = absurd i
  lookup-update k r (x ∷ xs) m h q (inl s) =
      let same : x.target.ip ≡ k = ap (λ y. y.target.ip) (sym s) ∙ q in
      let here_now : (x.target.ip ≟ k) ≡ true =
        subst (λ j. (x.target.ip ≟ j) ≡ true) same (≟-refl x.target.ip) in
      lookup-update_kept k r xs (insert x.target.ip x m) (λ y j. h y (inr j))
        (lookup-insert x.target.ip k x m ∙ rw here_now (ap some (sym s)))
  lookup-update k r (x ∷ xs) m h q (inr i) =
      lookup-update k r xs (insert x.target.ip x m) (λ y j. h y (inr j)) q i

  lookup-update_other :
      (k : Text) (rs : List (ProbeResult R)) (m : Dict (ProbeResult R))
      → ((x : ProbeResult R) → Member x rs → x.target.ip ≢ k)
      → lookup k (update_latest_results rs m) ≡ lookup k m
  unfolding update_latest_results
  lookup-update_other k [] m h = refl
  lookup-update_other k (x ∷ xs) m h =
      lookup-update_other k xs (insert x.target.ip x m) (λ y j. h y (inr j))
      ∙ lookup-insert x.target.ip k x m
      ∙ rw (ne→≟ x.target.ip k (h x (inl refl))) refl

probe-target :
    {R : Type 0} (ops : FloatOps R) (cfg : ProbeConfig) (dial : ProbeTask → ℕ → Dial)
    (t : ProbeTask)
    → (probe ops cfg dial t).target ≡ t
unfolding probe
probe-target ops cfg dial t = refl

with_defaults-concurrency : (cfg : ProbeConfig) → 0 < attempts_of (with_defaults cfg).concurrency
with_defaults-concurrency cfg = positive cfg.concurrency
  where
    positive : (z : ℤ) → 0 < attempts_of (if ltb_ℤ z (pos 1) then pos 4 else z)
    positive (pos n) = ground arith
    positive (negsuc n) = ground arith

-- However the workers of a round interleave: when none of them can go on, the latest result of each
-- target is the one that probing it gave, and other addresses keep theirs. The targets have
-- different addresses; settings that are missing, with no worker at all, get their defaults.
pub round-latest :
    {R : Type 0} (ops : FloatOps R) (config : ProbeConfig) (dial : ProbeTask → ℕ → Dial)
    (targets : List ProbeTask) (s : Round ops) (m : Dict (ProbeResult R))
    → Distinct (map (λ x. x.ip) targets)
    → RoundRun ops (with_defaults config) dial (start_round ops targets) s
    → ((u : Round ops) → RoundStep ops (with_defaults config) dial s u → ⊥)
    → ((t : ProbeTask)
        → Member t targets
        → lookup t.ip (update_latest_results s.round_results m)
          ≡ some (probe ops (with_defaults config) dial t))
      × ((k : Text)
          → ((t : ProbeTask) → Member t targets → t.ip ≢ k)
          → lookup k (update_latest_results s.round_results m) ≡ lookup k m)
round-latest ops config dial targets s m d run stuck =
    let cfg = with_defaults config in
    let h = run-IsRound ops cfg dial targets s run in
    let ended = stuck-done ops cfg dial s (with_defaults-concurrency config) stuck in
    let same : (t : ProbeTask) → (probe ops cfg dial t).target ≡ t = probe-target ops cfg dial in
    (
      (λ t i.
          lookup-update t.ip (probe ops cfg dial t) s.round_results m
            (λ x j q.
              let (y, of_y, is_y) = h.of_results x j in
              let alike =
                Distinct-same y t targets d of_y i
                  (ap (λ z. z.ip) (sym (same y)) ∙ ap (λ z. z.target.ip) (sym is_y) ∙ q) in
              is_y ∙ ap (probe ops cfg dial) alike)
            (ap (λ z. z.ip) (same t)) (done_with ops cfg dial s t ended (h.each t i))),
      (λ k out. lookup-update_other k s.round_results m (λ x j q.
          let (y, of_y, is_y) = h.of_results x j in
          out y of_y (ap (λ z. z.ip) (sym (same y)) ∙ ap (λ z. z.target.ip) (sym is_y) ∙ q))),
    )
