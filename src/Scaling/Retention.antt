-- ===== src/Scaling/Retention.antt =====
-- How long a scaled node is kept (control-plane/scaling/auto-fsm.go, lines 294 to 337).
pub mod Laws
use sky_flow.Base.{Bool, List, [], ◌∷◌, if◌then◌else◌}
use sky_flow.Base.Int.{ℤ, pos, ◌+ℤ◌, ◌-ℤ◌, ◌*ℤ◌, ltb_ℤ}
use sky_flow.Base.Word.{add64, mul64, quot}
use sky_flow.Base.Floats.{FloatOps}
use sky_flow.Scaling.{NodeStatus, permanent, end, NodeState, ScaleEvent, Scaler, now}

-- `now.Sub(evt.Time) > retDecay`
unfoldable pub is_stale : ℤ → ℤ → ScaleEvent → Bool
is_stale now_ ret_decay evt = ltb_ℤ ret_decay (now_ -ℤ evt.time)

module _ {R : Type 0} (ops : FloatOps R) where
  open ops use {add, mul, div, neg, exp, of_int, to_int, ratio}

  -- `Seconds()` of a duration in nanoseconds: the whole seconds, and the rest over a billion.
  unfoldable pub seconds : ℤ → R
  unfolding quot
  seconds d =
      let whole = quot d (pos 1_000_000_000) in
      let rest = d -ℤ whole *ℤ pos 1_000_000_000 in
      add (of_int whole) (div (of_int rest) (of_int (pos 1_000_000_000)))

  unfoldable pub exp_decay : ℤ → ℤ → R
  unfolding seconds
  exp_decay delta tau = exp (div (neg (seconds delta)) (seconds tau))

  -- `activePotent += float64(evt.Amount) * weight`
  unfoldable pub add_weight : ℤ → ℤ → R → ScaleEvent → R
  unfolding exp_decay
  add_weight now_ ret_decay acc evt =
      let weight : R = exp_decay (now_ -ℤ evt.time) ret_decay in
      add acc (mul (of_int (pos evt.amount)) weight)

  -- The loop: the sum of the weights, and the events that are not stale, in order.
  unfoldable pub potential : ℤ → ℤ → R → List ScaleEvent → R × List ScaleEvent
  potential now_ ret_decay acc [] = (acc, [])
  potential now_ ret_decay acc (evt ∷ rest) =
      let stale = is_stale now_ ret_decay evt in
      let (sum, kept) =
        potential now_ ret_decay (if stale then acc else add_weight now_ ret_decay acc evt) rest in
      (sum, (if stale then kept else evt ∷ kept))

  unfoldable pub total_retention : Scaler R → R → ℤ
  total_retention s active_potent =
      add64 s.config.base_retention_time
        (mul64 (to_int (mul s.config.retention_amplifier active_potent)) (pos 1_000_000_000))

  -- The new node, the time up to which it is kept, and `permanent` or `end`.
  unfoldable pub calculate_retention : Scaler R → ℤ → NodeState R × ℤ × NodeStatus
  unfolding now potential add_weight is_stale total_retention
  calculate_retention s clock =
      let now_ = now s clock in
      let (sum, kept) = potential now_ s.config.retention_decay (ratio 0 1) s.node.scale_history in
      let total = total_retention s sum in
      (
        record n { scale_history = kept },
        (if ltb_ℤ total s.config.permanent_threshold
            then now_ +ℤ total
            else now_ +ℤ s.config.permanent_duration),
        (if ltb_ℤ total s.config.permanent_threshold then end else permanent),
      )
    where
      open s use {node as n}
