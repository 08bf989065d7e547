-- ===== src/Scaling/Auto.antt =====
-- One tick of the scaler's state machine (control-plane/scaling/auto-fsm.go, lines 98 to 209).
-- A tick reads the clock and the outside through a `World` and returns the scaler and the requests
-- that it made.
pub mod Edges
pub mod Quiet
pub mod Requests
pub mod Runs
pub mod Override
use sky_flow.Base.{Bool, true, false, not, List, [], ◌∷◌, ◌++◌, Option, none, some, if◌then◌else◌}
use sky_flow.Base.Int.{ltb_ℤ}
use sky_flow.Base.Text.{Text, ◌≟◌}
use sky_flow.Base.Floats.{FloatOps}
use sky_flow.Scaling.{
  NodeStatus, inactive, dormant, triggered, scaling_up, releasing, permanent, end, Vm, no_vm,
  ScaleEvent, NodeState, Scaler, now, get_retain_time, get_state,
}
use sky_flow.Scaling.Volatility.{
  calculate_perturbation, calculate_volatility_accumulation, calculate_delta,
}
use sky_flow.Scaling.Retention.{calculate_retention}
use sky_flow.Scaling.Calls.{World, Effect}
use sky_flow.Scaling.Trigger.{
  trigger_scaling_from_init, trigger_scaling_from_dormant, trigger_dormant, trigger_release,
}

abbrev pub is_permanent : NodeStatus → Bool
is_permanent permanent = true
is_permanent _ = false

-- The states in which a tick ends once the scaling step is done.
abbrev pub is_settled : NodeStatus → Bool
is_settled scaling_up = true
is_settled triggered = true
is_settled permanent = true
is_settled _ = false

module _ {R : Type 0} where
  abbrev pub with_node : Scaler R → NodeState R → Scaler R
  with_node s n = record s { node = n }

  -- `retained` says that the retention time is not over.
  check_in : NodeStatus → Bool → NodeState R → Option (NodeState R)
  check_in scaling_up retained n = none
  check_in releasing retained n = none
  check_in triggered retained n = if retained then none else some n
  check_in dormant retained n = some (if retained then n else record n { state = releasing })
  check_in permanent retained n = some (if retained then n else record n { state = releasing })
  check_in inactive retained n = some n
  check_in end retained n = some n

  -- Step 1; `none` ends the tick.
  unfoldable pub check_state : Scaler R → World → Option (NodeState R)
  unfolding check_in now get_state get_retain_time
  check_state s w = check_in (get_state s) (ltb_ℤ (now s w.clock_check) (get_retain_time s)) s.node

  -- A machine that has an address is recorded, whether or not it could be deployed.
  unfoldable pub add_vm : Scaler R → Vm → Scaler R
  add_vm s vm = with_node s (record n {
    state = scaling_up;
    scaled_vms = if not (vm.public_ip ≟ []) then n.scaled_vms ++ vm ∷ [] else n.scaled_vms;
  })
    where
      open s use {node as n}

module _ {R : Type 0} (ops : FloatOps R) where
  -- Step 2: the accumulation reads the new perturbation.
  unfoldable pub measure : Scaler R → Scaler R
  measure s =
      let s' = with_node s (record n { perturbation = calculate_perturbation ops s }) in
      with_node s' (record n {
        perturbation = calculate_perturbation ops s;
        accumulation = calculate_volatility_accumulation ops s';
      })
    where
      open s use {node as n}

  -- The retention time after a scaling event, and `permanent` if it is long enough.
  unfoldable pub retain : Scaler R → World → Scaler R
  retain s w =
      let (n, until, status) = calculate_retention ops s w.clock_retain in
      with_node s (record n {
        retain_time = until;
        state = if is_permanent status then permanent else n.state;
      })

  unfoldable pub scaled : Scaler R → World → Vm → Scaler R
  unfolding retain now
  scaled s w vm =
      let event : ScaleEvent = record { time = now s w.clock_event; amount = 1; scaled_vm = vm } in
      retain
        (with_node s
          (record n { state = triggered; scale_history = n.scale_history ++ event ∷ [] }))
        w
    where
      open s use {node as n}

  unfoldable pub after_start : Scaler R → World → Bool × Vm × List Effect → Scaler R × List Effect
  unfolding scaled add_vm
  after_start s w (true, vm, effects) = (scaled (add_vm s vm) w vm, effects)
  after_start s w (false, vm, effects) = (add_vm s vm, effects)

  unfoldable pub scale_from_inactive : Scaler R → World → Scaler R × List Effect
  unfolding after_start
  scale_from_inactive s w =
      let s' = with_node s (record n { state = scaling_up }) in
      after_start s' w (trigger_scaling_from_init s' w no_vm)
    where
      open s use {node as n}

  unfoldable pub after_wake : Scaler R → World → Bool × List Effect → Scaler R × List Effect
  unfolding scaled
  after_wake s w (true, effects) = (scaled s w no_vm, effects)
  after_wake s w (false, effects) = (s, effects)

  unfoldable pub scale_from_dormant : Scaler R → World → Scaler R × List Effect
  unfolding after_wake
  scale_from_dormant s w =
      let s' = with_node s (record n { state = triggered }) in
      after_wake s' w (trigger_scaling_from_dormant s' w no_vm)
    where
      open s use {node as n}

  scale_in : NodeStatus → Scaler R → World → Scaler R × List Effect
  unfolding scale_from_inactive scale_from_dormant
  scale_in inactive s w = scale_from_inactive s w
  scale_in dormant s w = scale_from_dormant s w
  scale_in _ s w = (s, [])

  -- Step 3, only if the drift-plus-penalty value is negative.
  unfoldable pub scale : Scaler R → World → Scaler R × List Effect
  unfolding scale_in
  scale s w =
      let (s', effects) = scale_in (get_state s) s w in
      if ops.lt (calculate_delta ops s s.node) (ops.ratio 0 1) then (s', effects) else (s, [])

  unfoldable pub release : Scaler R → World → Scaler R × List Effect
  release s w =
      let s' = with_node s (record n { state = releasing }) in
      (with_node s (record n { state = inactive }), (trigger_release s' w no_vm).1)
    where
      open s use {node as n}

  unfoldable pub put_to_sleep : Scaler R → World → Scaler R × List Effect
  put_to_sleep s w =
      let (n, until, status) = calculate_retention ops s w.clock_retain in
      let s' = with_node s (record n { retain_time = until; state = dormant }) in
      (s', (trigger_dormant s' w no_vm).1)

  settle_in : NodeStatus → Scaler R → World → Scaler R × List Effect
  unfolding release put_to_sleep
  settle_in dormant s w = release s w
  settle_in permanent s w = release s w
  settle_in scaling_up s w = put_to_sleep s w
  settle_in _ s w = (s, [])

  -- Step 4.
  unfoldable pub settle : Scaler R → World → Scaler R × List Effect
  unfolding settle_in
  settle s w =
      let (s', effects) = settle_in (get_state s) s w in
      if is_settled s.node.state then (s, []) else (s', effects)

  unfoldable pub tick : Scaler R → World → Scaler R × List Effect
  unfolding check_state measure scale settle
  tick s w = elim (check_state s w) [
    | none ↦ (s, [])
    | some n ↦
        let (s', effects) = scale (measure (with_node s n)) w in
        let (s'', more) = settle s' w in (s'', effects ++ more)
  ]

  -- `AutoScaling`: a tick, unless another holder of the lock makes `TryLock` fail.
  unfoldable pub auto_scaling : Bool → Scaler R → World → Scaler R × List Effect
  unfolding tick
  auto_scaling locked s w = if locked then (s, []) else tick s w
