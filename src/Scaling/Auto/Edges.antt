-- ===== src/Scaling/Auto/Edges.antt =====
-- The transition diagram of a tick that no override disturbs.
use sky_flow.Base.{
  Bool, true, false, List, none, some, ◌≡◌, refl, ◌∙◌, ◌⊎◌, inl, inr, arith, Bool-cases,
}
use sky_flow.Base.Floats.{FloatOps}
use sky_flow.Scaling.{
  NodeStatus, inactive, dormant, triggered, scaling_up, releasing, permanent, end, Vm, no_vm,
  NodeState, Scaler, now, get_retain_time, get_state,
}
use sky_flow.Base.Int.{ℤ, ltb_ℤ}
use sky_flow.Scaling.Retention.{calculate_retention}
use sky_flow.Scaling.Volatility.{calculate_delta}
use sky_flow.Scaling.Trigger.{trigger_scaling_from_init, trigger_scaling_from_dormant}
use sky_flow.Scaling.Calls.{World, Effect}
use sky_flow.Scaling.Auto.{
  check_state, measure, retain, scaled, scale_from_inactive, scale_from_dormant, scale, after_start,
  after_wake, add_vm, check_in, settle_in, scale_in, settle, tick, is_permanent, is_settled,
  with_node,
}

infix 40 ◌⟶◌
pub data ◌⟶◌ : NodeStatus → NodeStatus → Type 0 where
  stay : {s : NodeStatus} → s ⟶ s
  start_failed : inactive ⟶ scaling_up
  started : inactive ⟶ triggered
  started_for_good : inactive ⟶ permanent
  woken : dormant ⟶ triggered
  woken_for_good : dormant ⟶ permanent
  released : dormant ⟶ inactive
  dormancy_over : dormant ⟶ releasing
  permanence_over : permanent ⟶ releasing

-- What the last step of a tick does to the state.
abbrev rested : NodeStatus → NodeStatus
rested dormant = inactive
rested t = t

settled-rested : (t : NodeStatus) → is_settled t ≡ true → t ≡ rested t
settled-rested dormant h = cc
settled-rested triggered h = refl
settled-rested _ h = refl

rested-⟶ : {t u : NodeStatus} → t ⟶ u → t ⟶ rested u
rested-⟶ (stay {s = dormant}) = released
rested-⟶ (stay {s = triggered}) = stay
rested-⟶ (stay {s = inactive}) = stay
rested-⟶ (stay {s = scaling_up}) = stay
rested-⟶ (stay {s = releasing}) = stay
rested-⟶ (stay {s = permanent}) = stay
rested-⟶ (stay {s = end}) = stay
rested-⟶ start_failed = start_failed
rested-⟶ started = started
rested-⟶ started_for_good = started_for_good
rested-⟶ woken = woken
rested-⟶ woken_for_good = woken_for_good
rested-⟶ released = released
rested-⟶ dormancy_over = dormancy_over
rested-⟶ permanence_over = permanence_over

-- From `releasing` no edge leads elsewhere.
leave_releasing : {t u : NodeStatus} → t ⟶ u → t ≡ releasing → u ≡ releasing
leave_releasing stay e = e
leave_releasing start_failed e = cc
leave_releasing started e = cc
leave_releasing started_for_good e = cc
leave_releasing woken e = cc
leave_releasing woken_for_good e = cc
leave_releasing released e = cc
leave_releasing dormancy_over e = refl
leave_releasing permanence_over e = refl

module _ {R : Type 0} where
  check_cases :
      (t : NodeStatus) (retained : Bool) (n : NodeState R)
      → (check_in t retained n ≡ none)
        ⊎ (check_in t retained n ≡ some n)
        ⊎ (((t ≡ dormant) ⊎ (t ≡ permanent))
            × (check_in t retained n ≡ some (record n { state = releasing })))
  unfolding check_in
  check_cases t retained n = ground arith

  pub get_state_plain : (s : Scaler R) → s.override ≡ none → get_state s ≡ s.node.state
  unfolding get_state
  get_state_plain s o = rw o

module _ {R : Type 0} (ops : FloatOps R) where
  kept-state : (s : Scaler R) (clock : ℤ) → (calculate_retention ops s clock).0.state ≡ s.node.state
  unfolding calculate_retention
  kept-state s clock = refl

  retain_cases :
      (s : Scaler R) (w : World)
      → ((retain ops s w).node.state ≡ permanent) ⊎ ((retain ops s w).node.state ≡ s.node.state)
  unfolding retain
  retain_cases s w = elim (Bool-cases (is_permanent (calculate_retention ops s w.clock_retain).2)) [
    | inl e ↦ inl (rw e)
    | inr e ↦ inr (rw (e, kept-state s w.clock_retain))
  ]

  scaled_cases :
      (s : Scaler R) (w : World) (vm : Vm)
      → ((scaled ops s w vm).node.state ≡ triggered) ⊎ ((scaled ops s w vm).node.state ≡ permanent)
  unfolding scaled
  scaled_cases s w vm = elim (retain_cases _ w) [ inl e ↦ inr e | inr e ↦ inl e ]

  started_cases :
      (s : Scaler R) (w : World) (r : Bool × Vm × List Effect)
      → let t = (after_start ops s w r).0.node.state in
        (t ≡ scaling_up) ⊎ (t ≡ triggered) ⊎ (t ≡ permanent)
  unfolding after_start add_vm
  started_cases s w (true, vm, effects) = inr (scaled_cases (add_vm s vm) w vm)
  started_cases s w (false, vm, effects) = inl refl

  woken_cases :
      (s : Scaler R) (w : World) (r : Bool × List Effect)
      → s.node.state ≡ triggered
      → let t = (after_wake ops s w r).0.node.state in (t ≡ triggered) ⊎ (t ≡ permanent)
  unfolding after_wake
  woken_cases s w (true, effects) e = scaled_cases s w no_vm
  woken_cases s w (false, effects) e = inl e

  pub inactive_cases :
      (s : Scaler R) (w : World)
      → let t = (scale_from_inactive ops s w).0.node.state in
        (t ≡ scaling_up) ⊎ (t ≡ triggered) ⊎ (t ≡ permanent)
  unfolding scale_from_inactive
  inactive_cases s w =
      let s' = with_node s (record s.node { state = scaling_up }) in
      started_cases s' w (trigger_scaling_from_init s' w no_vm)

  dormant_cases :
      (s : Scaler R) (w : World)
      → let t = (scale_from_dormant ops s w).0.node.state in (t ≡ triggered) ⊎ (t ≡ permanent)
  unfolding scale_from_dormant
  dormant_cases s w =
      let s' = with_node s (record s.node { state = triggered }) in
      woken_cases s' w (trigger_scaling_from_dormant s' w no_vm) refl

  scale_in_⟶ :
      (t : NodeStatus) (s : Scaler R) (w : World)
      → s.node.state ≡ t
      → t ⟶ (scale_in ops t s w).0.node.state
  unfolding scale_in
  scale_in_⟶ inactive s w e = elim (inactive_cases s w) [
    | inl p ↦ rw p start_failed
    | inr (inl p) ↦ rw p started
    | inr (inr p) ↦ rw p started_for_good
  ]
  scale_in_⟶ dormant s w e = elim (dormant_cases s w) [
    | inl p ↦ rw p woken
    | inr p ↦ rw p woken_for_good
  ]
  scale_in_⟶ triggered s w e = rw e stay
  scale_in_⟶ _ s w e = rw e stay

  scale-⟶ :
      (s : Scaler R) (w : World) → s.override ≡ none → s.node.state ⟶ (scale ops s w).0.node.state
  unfolding scale
  scale-⟶ s w o =
      rw (get_state_plain s o)
        (elim (Bool-cases (ops.lt (calculate_delta ops s s.node) (ops.ratio 0 1))) [
          | inl e ↦ rw e (scale_in_⟶ s.node.state s w refl)
          | inr e ↦ rw e stay
        ])

  settle_in-rested :
      (t : NodeStatus) (s : Scaler R) (w : World)
      → s.node.state ≡ t
      → is_settled t ≡ false
      → (settle_in ops t s w).0.node.state ≡ rested t
  unfolding settle_in
  settle_in-rested dormant s w e h = refl
  settle_in-rested triggered s w e h = cc
  settle_in-rested scaling_up s w e h = cc
  settle_in-rested permanent s w e h = cc
  settle_in-rested inactive s w e h = e
  settle_in-rested releasing s w e h = e
  settle_in-rested end s w e h = e

  settle-rested :
      (s : Scaler R) (w : World)
      → s.override ≡ none
      → (settle ops s w).0.node.state ≡ rested s.node.state
  unfolding settle
  settle-rested s w o = rw (get_state_plain s o) (elim (Bool-cases (is_settled s.node.state)) [
    | inl h ↦ rw h (settled-rested s.node.state h)
    | inr h ↦ rw h (settle_in-rested s.node.state s w refl h)
  ])

  started-override :
      (s : Scaler R) (w : World) (r : Bool × Vm × List Effect)
      → (after_start ops s w r).0.override ≡ s.override
  unfolding after_start scaled retain add_vm
  started-override s w (true, vm, effects) = refl
  started-override s w (false, vm, effects) = refl

  woken-override :
      (s : Scaler R) (w : World) (r : Bool × List Effect)
      → (after_wake ops s w r).0.override ≡ s.override
  unfolding after_wake scaled retain
  woken-override s w (true, effects) = refl
  woken-override s w (false, effects) = refl

  scale_in-override :
      (t : NodeStatus) (s : Scaler R) (w : World) → (scale_in ops t s w).0.override ≡ s.override
  unfolding scale_in scale_from_inactive scale_from_dormant
  scale_in-override inactive s w =
      let s' = with_node s (record s.node { state = scaling_up }) in
      started-override s' w (trigger_scaling_from_init s' w no_vm)
  scale_in-override dormant s w =
      let s' = with_node s (record s.node { state = triggered }) in
      woken-override s' w (trigger_scaling_from_dormant s' w no_vm)
  scale_in-override triggered s w = refl
  scale_in-override _ s w = refl

  pub scale-override : (s : Scaler R) (w : World) → (scale ops s w).0.override ≡ s.override
  unfolding scale
  scale-override s w = elim (Bool-cases (ops.lt (calculate_delta ops s s.node) (ops.ratio 0 1))) [
    | inl e ↦ rw e (scale_in-override (get_state s) s w)
    | inr e ↦ rw e
  ]

  -- Steps 2 to 4.
  rest-⟶ :
      (s : Scaler R) (w : World)
      → s.override ≡ none
      → s.node.state ⟶ (settle ops (scale ops (measure ops s) w).0 w).0.node.state
  unfolding measure
  rest-⟶ s w o =
      let s' = measure ops s in
      rw (settle-rested (scale ops s' w).0 w (scale-override s' w ∙ o)) (rested-⟶ (scale-⟶ s' w o))

  pub check_state_cases :
      (s : Scaler R) (w : World)
      → s.override ≡ none
      → (check_state s w ≡ none)
        ⊎ (check_state s w ≡ some s.node)
        ⊎ (((s.node.state ≡ dormant) ⊎ (s.node.state ≡ permanent))
            × (check_state s w ≡ some (record s.node { state = releasing })))
  unfolding check_state
  check_state_cases s w o =
      rw (get_state_plain s o)
        (check_cases s.node.state (ltb_ℤ (now s w.clock_check) (get_retain_time s)) s.node)

  expiry-⟶ : {t u : NodeStatus} → (t ≡ dormant) ⊎ (t ≡ permanent) → releasing ⟶ u → t ⟶ u
  expiry-⟶ (inl e) r = rw (e, leave_releasing r refl) dormancy_over
  expiry-⟶ (inr e) r = rw (e, leave_releasing r refl) permanence_over

  -- A tick without an override follows an edge of the diagram.
  pub tick-⟶ :
      (s : Scaler R) (w : World) → s.override ≡ none → s.node.state ⟶ (tick ops s w).0.node.state
  unfolding tick
  tick-⟶ s w o = elim (check_state_cases s w o) [
    | inl e ↦ rw (e, tick) stay
    | inr (inl e) ↦ rw (e, tick) (rest-⟶ s w o)
    | inr (inr (h, e)) ↦
        rw (e, tick) (expiry-⟶ h (rest-⟶ (with_node s (record s.node { state = releasing })) w o))
  ]
