-- ===== src/Scaling/Volatility.antt =====
-- The perturbation, the accumulated volatility and the drift-plus-penalty value that decides on
-- scaling (control-plane/scaling/auto-fsm.go, lines 43 to 96).
use sky_flow.Base.{◌&&◌, ◌||◌, List, [], ◌∷◌, none, some, if◌then◌else◌}
use sky_flow.Base.Floats.{FloatOps}
use sky_flow.Queue.{snapshot_latest_first}
use sky_flow.Telemetry.{NetworkTelemetry}
use sky_flow.Scaling.{NodeStatus, NodeState, Scaler}

module _ {R : Type 0} (ops : FloatOps R) where
  open ops use {add, sub, mul, neg, abs_of, lt, le, ratio}

  -- The two newest samples are compared; they count only if they lie on the two sides of the
  -- threshold.
  unfoldable pub perturbation_of : R → List (NetworkTelemetry R) → R
  perturbation_of threshold [] = ratio 0 1
  perturbation_of threshold (t ∷ []) = ratio 0 1
  perturbation_of threshold (t ∷ (t' ∷ rest)) =
      let avg_cache = t.node_congestion.avg_weighted_cache in
      let avg_cache' = t'.node_congestion.avg_weighted_cache in
      if (le avg_cache threshold && le avg_cache' threshold)
        || (le threshold avg_cache && le threshold avg_cache')
      then ratio 0 1
      else abs_of (sub avg_cache avg_cache')

  unfoldable pub calculate_perturbation : Scaler R → R
  unfolding perturbation_of
  calculate_perturbation s =
      perturbation_of s.config.volatility_threshold (snapshot_latest_first s.node.volatility_queue)

  unfoldable pub calculate_volatility_accumulation : Scaler R → R
  calculate_volatility_accumulation s =
      let a : R =
        add (mul s.node.perturbation s.config.volatility_weight)
          (mul s.node.accumulation s.config.decay_factor) in
      if lt a (ratio 0 1) then ratio 0 1 else a

  cost_in : NodeStatus → Scaler R → NodeState R → R
  cost_in NodeStatus.inactive s node =
      add s.config.scaling_cost_fixed (mul s.config.scaling_cost_variable node.perturbation)
  cost_in NodeStatus.dormant s node = mul s.config.scaling_cost_variable node.perturbation
  cost_in _ s node = ratio 0 1

  -- The cost of scaling from the node's own state, whatever the override says.
  unfoldable pub calculate_cost : Scaler R → NodeState R → R
  unfolding cost_in
  calculate_cost s node = cost_in node.state s node

  unfoldable pub computed_delta : Scaler R → NodeState R → R
  unfolding calculate_cost
  computed_delta s node =
      let cost = calculate_cost s node in
      let a = mul (mul (neg c.decay_factor) c.volatility_weight) c.queue_weight in
      add (mul (mul a node.accumulation) node.perturbation) (mul c.cost_weight cost)
    where
      open s use {config as c}

  unfoldable pub calculate_delta : Scaler R → NodeState R → R
  unfolding computed_delta
  calculate_delta s node = elim s.override [
    | none ↦ computed_delta s node
    | some o ↦ elim o.delta [ none ↦ computed_delta s node | some d ↦ d ]
  ]
