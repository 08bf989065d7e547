-- ===== src/Scaling/Auto/Runs.antt =====
-- What any number of ticks does, as long as nothing overrides the state: the machine starts at most
-- one VM and never gives it back.
use sky_flow.Base.{
  ◌≤◌, Bool, true, false, List, [], ◌∷◌, ◌++◌, Option, none, ◌≡◌, refl, ◌∙◌, ◌≢◌, ◌⊎◌, inl, inr,
  arith, length, append-nil, append_assoc,
}
use sky_flow.Base.Text.{Text}
use sky_flow.Base.Floats.{FloatOps}
use sky_flow.Queue.{FixedQueue}
use sky_flow.Telemetry.{NetworkTelemetry}
use sky_flow.Scaling.{
  NodeStatus, inactive, dormant, triggered, scaling_up, releasing, ScaleConfig, Scaler, new_scaler,
}
use sky_flow.Scaling.Calls.{World, Effect}
use sky_flow.Scaling.Auto.{measure, scale_from_inactive, tick, auto_scaling, with_node}
use sky_flow.Scaling.Auto.Quiet.{is_busy, rest, rest-busy, rest-inactive, tick-rest, tick-end}
use sky_flow.Scaling.Auto.Requests.{
  creations, deletions, creations-append, deletions-append, start_facts, start-busy,
}
use sky_flow.Scaling.Auto.Edges.{check_state_cases}

module _ {R : Type 0} (ops : FloatOps R) where
  -- What is known of a scaler and the requests it has made since it was new.
  pub record Calm (r : Scaler R × List Effect) : Type 0 where
    pub plain : r.0.override ≡ none
    pub one_creation : creations r.1 ≤ 1
    pub no_deletion : deletions r.1 ≡ 0
    pub one_vm : length r.0.node.scaled_vms ≤ 1
    pub phase :
        ((r.0.node.state ≡ inactive) × (creations r.1 ≡ 0) × (length r.0.node.scaled_vms ≡ 0))
        ⊎ (is_busy r.0.node.state ≡ true)

  measure-Calm :
      (s : Scaler R) (trace : List Effect) → Calm (s, trace) → Calm (measure ops s, trace)
  unfolding measure
  measure-Calm s trace c = record {
    plain = c.plain;
    one_creation = c.one_creation;
    no_deletion = c.no_deletion;
    one_vm = c.one_vm;
    phase = c.phase;
  }

  start-Calm :
      (s : Scaler R) (w : World) (trace : List Effect)
      → s.override ≡ none
      → creations trace ≡ 0
      → deletions trace ≡ 0
      → length s.node.scaled_vms ≡ 0
      → let (s', effects) = scale_from_inactive ops s w in Calm (s', trace ++ effects)
  start-Calm s w trace o c d v =
      let effects = (scale_from_inactive ops s w).1 in
      let (o', v', c', d') = start_facts ops s w in
      record {
        plain = o' ∙ o;
        one_creation = omega (arith, creations-append trace effects, c, c');
        no_deletion = omega (arith, deletions-append trace effects, d, d');
        one_vm = omega (arith, v', v);
        phase = inr (start-busy ops s w);
      }

  rest-Calm :
      (s : Scaler R) (w : World) (trace : List Effect)
      → Calm (s, trace)
      → Calm ((rest ops s w).0, trace ++ (rest ops s w).1)
  unfolding measure
  rest-Calm s w trace c = elim c.phase [
    | inr busy ↦ rw (rest-busy ops s w c.plain busy, append-nil) (measure-Calm s trace c)
    | inl (h, n, v) ↦ elim (rest-inactive ops s w c.plain h) [
      | inl e ↦ rw (e, append-nil) (measure-Calm s trace c)
      | inr e ↦ rw e (start-Calm (measure ops s) w trace c.plain n c.no_deletion v)
    ]
  ]

  tick-Calm :
      (s : Scaler R) (w : World) (trace : List Effect)
      → Calm (s, trace)
      → Calm ((tick ops s w).0, trace ++ (tick ops s w).1)
  tick-Calm s w trace c = elim (check_state_cases ops s w c.plain) [
    | inl e ↦ rw (tick-end ops s w e, append-nil) c
    | inr (inl e) ↦ rw (tick-rest ops s w s.node e) (rest-Calm s w trace c)
    | inr (inr (h, e)) ↦
        let n = record s.node { state = releasing } in
        rw (tick-rest ops s w n e) (
          rest-Calm (with_node s n) w trace (record {
            plain = c.plain;
            one_creation = c.one_creation;
            no_deletion = c.no_deletion;
            one_vm = c.one_vm;
            phase = inr refl;
          }))
  ]

  -- Ticks in a row, with all their requests; each may find the lock taken.
  pub run : Scaler R → List (Bool × World) → Scaler R × List Effect
  run s [] = (s, [])
  run s ((locked, w) ∷ ws) =
      let (s', effects) = auto_scaling ops locked s w in
      let (s'', more) = run s' ws in (s'', effects ++ more)

  run-Calm :
      (s : Scaler R) (ws : List (Bool × World)) (trace : List Effect)
      → Calm (s, trace)
      → Calm ((run s ws).0, trace ++ (run s ws).1)
  unfolding run auto_scaling
  run-Calm s [] trace c = rw append-nil c
  run-Calm s ((true, w) ∷ ws) trace c = run-Calm s ws trace c
  run-Calm s ((false, w) ∷ ws) trace c =
      let (s', effects) = tick ops s w in
      rw (← append_assoc) (run-Calm s' ws (trace ++ effects) (tick-Calm s w trace c))

  -- However long a new scaler runs, and whatever the outside answers, without an override it asks for
  -- one VM at most, keeps one at most, deletes none, and never gets dormant: what it started it does
  -- not give back.
  pub new-run_keeps :
      (id : Text) (config : Option (ScaleConfig R)) (queue : FixedQueue (NetworkTelemetry R))
      (ws : List (Bool × World))
      → let (s, effects) = run (new_scaler ops id config queue) ws in
        (creations effects ≤ 1)
        × (deletions effects ≡ 0)
        × (length s.node.scaled_vms ≤ 1)
        × (s.node.state ≢ dormant)
  unfolding new_scaler
  new-run_keeps id config queue ws =
      let c = run-Calm (new_scaler ops id config queue) ws [] (record {
        plain = refl;
        one_creation = omega arith;
        no_deletion = refl;
        one_vm = omega arith;
        phase = inl (refl, refl, refl);
      }) in
      (c.one_creation, c.no_deletion, c.one_vm, ground (arith, c.phase))

  -- The states that nothing leads out of.
  abbrev IsStuck : NodeStatus → Type 0
  IsStuck t = (t ≡ triggered) ⊎ (t ≡ scaling_up) ⊎ (t ≡ releasing)

  tick_stuck :
      (s : Scaler R) (w : World)
      → s.override ≡ none
      → IsStuck s.node.state
      → let (s', effects) = tick ops s w in
        (s'.override ≡ none) × (s'.node.state ≡ s.node.state) × (effects ≡ [])
  unfolding measure
  tick_stuck s w o h = elim (check_state_cases ops s w o) [
    | inl e ↦ rw (tick-end ops s w e) (o, refl, refl)
    | inr (inl e) ↦
        rw (tick-rest ops s w s.node e, rest-busy ops s w o (ground (arith, h))) (o, refl, refl)
    | inr (inr (d, e)) ↦ ground (arith, h, d)
  ]

  -- Without an override a node that is triggered, scaling up or releasing stays so for ever and asks
  -- for nothing: a failed start is not tried again, a retention time that runs out has no effect, and
  -- a release is never carried out.
  pub run_stuck :
      (s : Scaler R) (ws : List (Bool × World))
      → s.override ≡ none
      → IsStuck s.node.state
      → let (s', effects) = run s ws in (s'.node.state ≡ s.node.state) × (effects ≡ [])
  unfolding run auto_scaling
  run_stuck s [] o h = (refl, refl)
  run_stuck s ((true, w) ∷ ws) o h = run_stuck s ws o h
  run_stuck s ((false, w) ∷ ws) o h =
      let (o', e, n) = tick_stuck s w o h in
      let (e', n') = run_stuck (tick ops s w).0 ws o' (rw e h) in (e' ∙ e, rw (n, n'))
