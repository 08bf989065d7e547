-- ===== src/Routing/Risk.antt =====
-- The risk of an edge (control-plane/routing/update-graph.go, EdgeRisk) and the rate that a path admits
-- (flow-control.go, ComputeAdmissionRate), on the operations of float64.
use sky_flow.Base.{if◌then◌else◌}
use sky_flow.Base.Floats.{FloatOps}

module _ {R : Type 0} (ops : FloatOps R) where
  abbrev zero_of : R
  zero_of = ops.ratio 0 1

  abbrev one_of : R
  one_of = ops.ratio 1 1

  unfoldable pub cache_risk : R → R
  cache_risk util =
      if ops.lt (ops.ratio 6 10) util
      then ops.pow (ops.div (ops.sub util (ops.ratio 6 10)) (ops.ratio 4 10)) (ops.ratio 15 10)
      else zero_of

  unfoldable pub cost_risk : R → R
  cost_risk cost =
      let risk = ops.div cost (ops.ratio 15 100) in
      if ops.lt zero_of cost then (if ops.lt one_of risk then one_of else risk) else zero_of

  -- For a loss below 1.
  unfoldable pub loss_risk : R → R
  loss_risk loss =
      let x = ops.mul (ops.ratio 40 1) (ops.sub loss (ops.ratio 5 100)) in
      if ops.lt zero_of loss then ops.div one_of (ops.add one_of (ops.exp (ops.neg x))) else zero_of

  unfoldable pub core_risk : R → R → R
  unfolding cache_risk loss_risk
  core_risk util loss = ops.sub one_of (
      ops.mul (ops.sub one_of (ops.mul (ops.ratio 5 10) (cache_risk util)))
        (ops.sub one_of (ops.mul (ops.ratio 5 10) (loss_risk loss))))

  unfoldable pub cost_weight : R → R
  cost_weight core =
      if ops.le core (ops.ratio 2 10)
      then ops.add (ops.ratio 4 10)
          (ops.mul (ops.ratio 2 10) (ops.sub one_of (ops.div core (ops.ratio 2 10))))
      else ops.ratio 4 10

  unfoldable pub edge_risk : R → R → R → R
  unfolding core_risk cost_weight cost_risk
  edge_risk util cost loss =
      let core = core_risk util loss in
      let total =
        ops.add core
          (ops.mul (ops.mul (ops.sub one_of core) (cost_weight core)) (cost_risk cost)) in
      if ops.lt zero_of loss
      then (if ops.le one_of loss then one_of else if ops.lt one_of total then one_of else total)
      else if ops.lt one_of total
      then one_of
      else total

  abbrev raw_rate : R → R → R → R → R
  raw_rate weight_u cost alpha v =
      ops.pow (ops.div (ops.mul v weight_u) cost) (ops.div one_of alpha)

  -- `weight_u`, `min_rate` and `max_rate` are those of the task.
  unfoldable pub compute_admission_rate : R → R → R → R → R → R → R
  compute_admission_rate weight_u min_rate max_rate cost alpha v =
      let raw = raw_rate weight_u cost alpha v in
      if ops.le cost zero_of
      then zero_of
      else if ops.lt raw min_rate
      then min_rate
      else if ops.lt max_rate raw
      then max_rate
      else raw
