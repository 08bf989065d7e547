-- ===== src/Storage/Averages.antt =====
-- The averages over all reports that are stored (CalcClusterWeightedAvg of
-- control-plane/storage/vm-agg-diff.go), one tick at a time. The configuration, the clock and whether
-- encoding succeeds are arguments; etcd receives the same result as the queue.
use sky_flow.Base.{
  Bool, ◌&&◌, not, List, [], ◌∷◌, ◌++◌, Option, none, some, length, ltb, if◌then◌else◌,
}
use sky_flow.Base.Int.{ℤ, pos}
use sky_flow.Base.Text.{Text}
use sky_flow.Base.Dict.{Dict, lookup, insert}
use sky_flow.Base.Floats.{FloatOps}
use sky_flow.Queue.{FixedQueue, push}
use sky_flow.Telemetry.{ProbeTask, NodeCongestionInfo, LinkCongestionInfo, NetworkTelemetry}
use sky_flow.Storage.{VmReport}

-- `linksCongestion`, all measurements of a target.
pub record LinkSamples (R : Type 0) : Type 0 where
  pub target_ip : Text
  pub packet_losses : List R
  pub average_latencies : List R
  pub probe_task : ProbeTask

pub record NodeConfig : Type 0 where
  pub public_ip : Text
  pub provider : Text
  pub continent : Text

abbrev pub no_task : ProbeTask
no_task = record { target_type = []; provider = []; ip = []; port = 0; region = []; id = [] }

module _ {R : Type 0} where
  -- What a map answers for a key that it does not have.
  abbrev pub or_no_samples : Option (LinkSamples R) → LinkSamples R
  or_no_samples none = record {
    target_ip = [];
    packet_losses = [];
    average_latencies = [];
    probe_task = no_task;
  }
  or_no_samples (some t) = t

  abbrev pub first_samples : LinkCongestionInfo R → LinkSamples R
  first_samples v = record {
    target_ip = v.target_ip;
    packet_losses = [];
    average_latencies = [];
    probe_task = v.target;
  }

  abbrev pub add_sample : LinkSamples R → LinkCongestionInfo R → LinkSamples R
  add_sample t v = record t {
    packet_losses = t.packet_losses ++ v.packet_loss ∷ [];
    average_latencies = t.average_latencies ++ v.average_latency ∷ [];
  }

  -- The first loop over the links of a report: new targets get an entry.
  unfoldable pub add_targets :
      List (LinkCongestionInfo R) → Dict (LinkSamples R) → Dict (LinkSamples R)
  add_targets [] m = m
  add_targets (v ∷ vs) m = elim (lookup v.target_ip m) [
    | none ↦ add_targets vs (insert v.target_ip (first_samples v) m)
    | some t ↦ add_targets vs m
  ]

  -- The second loop: every link adds its measurements.
  unfoldable pub add_links :
      List (LinkCongestionInfo R) → Dict (LinkSamples R) → Dict (LinkSamples R)
  add_links [] m = m
  add_links (v ∷ vs) m =
      add_links vs (insert v.target_ip (add_sample (or_no_samples (lookup v.target_ip m)) v) m)

  unfoldable pub total_links : List (VmReport R) → Dict (LinkSamples R) → Dict (LinkSamples R)
  unfolding add_targets add_links
  total_links [] m = m
  total_links (r ∷ rs) m =
      total_links rs (add_links r.links_congestion (add_targets r.links_congestion m))

module _ {R : Type 0} (ops : FloatOps R) where
  abbrev pub zero_of : R
  zero_of = ops.of_int (pos 0)

  unfoldable pub sum_from : R → List R → R
  sum_from acc [] = acc
  sum_from acc (x ∷ xs) = sum_from (ops.add acc x) xs

  -- A sum of 0 is not divided.
  unfoldable pub average : List R → R
  unfolding sum_from
  average xs =
      let sum = sum_from zero_of xs in
      let is_zero = ops.le sum zero_of && ops.le zero_of sum in
      if not is_zero && ltb 0 (length xs) then ops.div sum (ops.of_int (pos (length xs))) else sum

  -- The total weighted cache and the total of the active connections.
  unfoldable pub totals_from : R → R → List (VmReport R) → R × R
  totals_from cache conns [] = (cache, conns)
  totals_from cache conns (r ∷ rs) =
      let active_conn = ops.of_int r.congestion.active_connections in
      totals_from (ops.add cache (ops.mul active_conn r.congestion.avg_cache_per_conn))
        (ops.add conns active_conn) rs

  abbrev pub average_link : Text → LinkSamples R → LinkCongestionInfo R
  average_link k vs = record {
    target_ip = k;
    target = vs.probe_task;
    packet_loss = average vs.packet_losses;
    weighted_cache = zero_of;
    average_latency = average vs.average_latencies;
    bandwidth_usage = zero_of;
  }

  unfoldable pub link_map : Dict (LinkSamples R) → Dict (LinkCongestionInfo R)
  link_map [] = []
  link_map ((k, vs) ∷ m) = (k, average_link k vs) ∷ link_map m

  unfoldable pub node_congestion_of : List (VmReport R) → ℤ → NodeCongestionInfo R
  unfolding totals_from
  node_congestion_of reports now =
      let (cache, conns) = totals_from zero_of zero_of reports in
      let idle = ops.le conns zero_of in
      record {
        avg_weighted_cache = (if idle then zero_of else ops.div cache conns);
        total_weighted_cache = (if idle then zero_of else cache);
        total_active_conn = conns;
        vm_count = length reports;
        calculate_time = now;
      }

  unfoldable pub calculate : List (VmReport R) → NodeConfig → ℤ → NetworkTelemetry R
  unfolding total_links link_map node_congestion_of
  calculate reports config now = record {
    node_congestion = node_congestion_of reports now;
    public_ip = config.public_ip;
    provider = config.provider;
    continent = config.continent;
    links_congestion = link_map (total_links reports []);
  }

  -- A tick of CalcClusterWeightedAvg; `none` is a directory that cannot be read.
  unfoldable pub calc_tick :
      NodeConfig
      → ℤ
      → Bool
      → Option (List (VmReport R))
      → FixedQueue (NetworkTelemetry R)
      → FixedQueue (NetworkTelemetry R)
  unfolding calculate
  calc_tick config now marshals none queue = queue
  calc_tick config now marshals (some reports) queue =
      if marshals then push queue (calculate reports config now) else queue
