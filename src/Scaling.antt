-- ===== src/Scaling.antt =====
-- The elastic scaler of the control plane (control-plane/scaling): its state and configuration
-- (scaling.go, lines 15 to 197). Times are nanoseconds on the integers.
pub mod Volatility
pub mod Retention
pub mod Calls
pub mod Trigger
pub mod Auto
pub mod Manual
pub mod Lock
mod Tests
use sky_flow.Base.{ℕ, ◌*◌, Bool, true, false, List, [], Option, none, some}
use sky_flow.Base.Int.{ℤ, pos}
use sky_flow.Base.Text.{Text, codes}
use sky_flow.Base.Floats.{FloatOps}
use sky_flow.Queue.{FixedQueue}
use sky_flow.Telemetry.{NetworkTelemetry}

pub data NodeStatus : Type 0 where
  inactive dormant triggered scaling_up releasing permanent end : NodeStatus

pub record ScaleConfig (R : Type 0) : Type 0 where
  pub volatility_weight : R
  pub queue_weight : R
  pub decay_factor : R
  pub volatility_threshold : R
  pub cost_weight : R
  pub scaling_cost_fixed : R
  pub scaling_cost_variable : R
  pub scaling_ratio : R
  pub retention_amplifier : R
  pub base_retention_time : ℤ
  pub retention_decay : ℤ
  pub permanent_threshold : ℤ
  pub permanent_duration : ℤ
  pub ticker_interval : ℤ

pub record Vm : Type 0 where
  pub public_ip : Text
  pub vm_name : Text
  pub start_time : ℤ
  pub password : Text

-- `VM{}`; its time stamp is Go's zero time.
abbrev pub no_vm : Vm
no_vm = record { public_ip = []; vm_name = []; start_time = pos 0; password = [] }

pub record ScaleEvent : Type 0 where
  pub time : ℤ
  pub amount : ℕ
  pub scaled_vm : Vm

pub record NodeState (R : Type 0) : Type 0 where
  pub id : Text
  pub state : NodeStatus
  pub perturbation : R
  pub accumulation : R
  pub retain_time : ℤ
  pub scaled_vms : List Vm
  pub scale_history : List ScaleEvent
  pub volatility_queue : FixedQueue (NetworkTelemetry R)

pub record ScalerOverride (R : Type 0) : Type 0 where
  pub now : Option ℤ
  pub delta : Option R
  pub state : Option NodeStatus
  pub retain_time : Option ℤ

pub record Scaler (R : Type 0) : Type 0 where
  pub config : ScaleConfig R
  pub node : NodeState R
  pub override : Option (ScalerOverride R)
  pub manual_action : Text

module _ {R : Type 0} (ops : FloatOps R) where
  open ops use {ratio}

  unfoldable pub new_default_scale_config : ScaleConfig R
  new_default_scale_config = record {
    volatility_weight = ratio 1 1;
    queue_weight = ratio 1 1;
    decay_factor = ratio 8 10;
    volatility_threshold = ratio 6 10;
    cost_weight = ratio 1 10;
    scaling_cost_fixed = ratio 1 1;
    scaling_cost_variable = ratio 1 1;
    scaling_ratio = ratio 1 10;
    retention_amplifier = ratio 400 1;
    base_retention_time = pos (10 * minute);
    retention_decay = pos (10 * minute);
    permanent_threshold = pos (40 * minute);
    permanent_duration = pos (120 * minute);
    ticker_interval = pos (30 * second);
  }
    where
      second : ℕ
      second = 1_000_000_000

      minute : ℕ
      minute = 60_000_000_000

  unfoldable pub new_node_state : Text → FixedQueue (NetworkTelemetry R) → NodeState R
  new_node_state id queue = record {
    id = id;
    state = inactive;
    perturbation = ratio 0 1;
    accumulation = ratio 0 1;
    retain_time = pos 0;
    scaled_vms = [];
    scale_history = [];
    volatility_queue = queue;
  }

  -- A missing configuration is replaced by the default.
  unfoldable pub new_scaler :
      Text → Option (ScaleConfig R) → FixedQueue (NetworkTelemetry R) → Scaler R
  unfolding new_node_state
  new_scaler node_id config queue = record {
    config = elim config [ none ↦ new_default_scale_config | some c ↦ c ];
    node = new_node_state node_id queue;
    override = none;
    manual_action = codes "init";
  }

module _ {R : Type 0} where
  -- `now()`, given the reading of the clock.
  unfoldable pub now : Scaler R → ℤ → ℤ
  now s clock = elim s.override [ none ↦ clock | some o ↦ elim o.now [ none ↦ clock | some t ↦ t ] ]

  unfoldable pub get_retain_time : Scaler R → ℤ
  get_retain_time s = elim s.override [
    | none ↦ s.node.retain_time
    | some o ↦ elim o.retain_time [ none ↦ s.node.retain_time | some t ↦ t ]
  ]

  unfoldable pub get_state : Scaler R → NodeStatus
  get_state s = elim s.override [
    | none ↦ s.node.state
    | some o ↦ elim o.state [ none ↦ s.node.state | some t ↦ t ]
  ]
