-- ===== src/Telemetry.antt =====
-- The telemetry of a node (control-plane/storage/vm-agg-diff.go, receive-info/receive-info.go).
use sky_flow.Base.{ℕ}
use sky_flow.Base.Int.{ℤ}
use sky_flow.Base.Text.{Text}
use sky_flow.Base.Dict.{Dict}

pub record ProbeTask : Type 0 where
  pub target_type : Text
  pub provider : Text
  pub ip : Text
  pub port : ℕ
  pub region : Text
  pub id : Text

pub record NodeCongestionInfo (R : Type 0) : Type 0 where
  pub avg_weighted_cache : R
  pub total_weighted_cache : R
  pub total_active_conn : R
  pub vm_count : ℕ
  pub calculate_time : ℤ

pub record LinkCongestionInfo (R : Type 0) : Type 0 where
  pub target_ip : Text
  pub target : ProbeTask
  pub packet_loss : R
  pub weighted_cache : R
  pub average_latency : R
  pub bandwidth_usage : R

pub record NetworkTelemetry (R : Type 0) : Type 0 where
  pub node_congestion : NodeCongestionInfo R
  pub public_ip : Text
  pub provider : Text
  pub continent : Text
  pub links_congestion : Dict (LinkCongestionInfo R)
