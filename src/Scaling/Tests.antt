-- ===== src/Scaling/Tests.antt =====
-- The scaler on concrete input. Floats are integers here.
use sky_flow.Base.{
  ℕ, ◌≤◌, Bool, true, false, List, [], ◌∷◌, none, some, ◌≡◌, refl, ap, inl, arith, length, ◌≢◌,
}
use sky_flow.Base.Int.{ℤ, pos, ◌+ℤ◌, ◌*ℤ◌, ◌-ℤ◌, abs}
use sky_flow.Base.Word.{add64, mul64}
use sky_flow.Base.Text.{codes, ◌≟◌}
use sky_flow.Base.Floats.{hundredths}
use sky_flow.Queue.{FixedQueue, snapshot_latest_first}
use sky_flow.Telemetry.{NetworkTelemetry}
use sky_flow.Scaling.{
  inactive, dormant, triggered, permanent, Vm, no_vm, Scaler, new_scaler, now,
  new_default_scale_config,
}
use sky_flow.Scaling.Volatility.{
  calculate_delta, calculate_volatility_accumulation, calculate_perturbation,
}
use sky_flow.Scaling.Trigger.{trigger_scaling_from_init}
use sky_flow.Scaling.Retention.{calculate_retention}
use sky_flow.Scaling.Retention.Laws.{within, calculate_retention_rule}
use sky_flow.Scaling.Calls.{World, Effect, created, ticked, delete_requested, targets_sent}
use sky_flow.Scaling.Auto.{tick, release}
use sky_flow.Scaling.Auto.Edges.{◌⟶◌, tick-⟶}
use sky_flow.Scaling.Auto.Requests.{creations, deletions}
use sky_flow.Scaling.Auto.Runs.{run, new-run_keeps, run_stuck}
use sky_flow.Scaling.Auto.Override.{start-release}
use sky_flow.Scaling.Manual.{manual_scaling, manual-forgets, scale_up_action, release_action}
use sky_flow.Scaling.Lock.{
  TryMutex, Place, Reach, here, next, try_lock_claims, fresh, lock-excludes, try_lock_enters, moved,
  has_flag,
}

sample : ℕ → NetworkTelemetry ℤ
sample cache = record {
  node_congestion = record {
    avg_weighted_cache = pos cache;
    total_weighted_cache = pos 0;
    total_active_conn = pos 0;
    vm_count = 1;
    calculate_time = pos 0;
  };
  public_ip = codes "10.0.0.1";
  provider = codes "gcp";
  continent = codes "Asia";
  links_congestion = [];
}

-- The cache crosses the threshold, 600 here, from one sample to the next.
samples : FixedQueue (NetworkTelemetry ℤ)
samples = record { list = sample 300 ∷ sample 900 ∷ []; size = 20 }

new_node : Scaler ℤ
new_node = new_scaler hundredths (codes "n") none samples

-- Everything that the scaler asks for succeeds.
smooth : World
smooth = record {
  clock_check = pos 10;
  clock_start = pos 11;
  clock_event = pos 12;
  clock_retain = pos 13;
  fresh_name = codes "gcp-abcde";
  create_reply = created none;
  polls = ticked none ∷ ticked (some (codes "0.0.0.0")) ∷ ticked (some (codes "10.0.0.9")) ∷ [];
  deploys = λ ip binary. true;
  targets_reply = λ ip action. true;
  health_reply = λ ip state. some 200;
}

-- A tick with everything open that it computes with.
step : Scaler ℤ → World → Scaler ℤ × List Effect
unfolding tick new_node new_scaler smooth samples sample calculate_delta ◌+ℤ◌ ◌*ℤ◌ ◌-ℤ◌
    new_default_scale_config calculate_volatility_accumulation calculate_perturbation
    snapshot_latest_first abs trigger_scaling_from_init ◌≟◌ calculate_retention add64 mul64
step s w = tick hundredths s w

starts : (step new_node smooth).0.node.state ≡ permanent
unfolding step
starts = refl

snapshot_test : snapshot_latest_first samples ≡ sample 900 ∷ sample 300 ∷ []
unfolding step
snapshot_test = refl

tick-⟶_example : inactive ⟶ permanent
unfolding step
tick-⟶_example = tick-⟶ hundredths new_node smooth refl

abbrev ticks : List (Bool × World)
ticks = (true, smooth) ∷ (false, smooth) ∷ (false, smooth) ∷ []

new-run_keeps_example :
    let (s, effects) = run hundredths new_node ticks in
    (creations effects ≤ 1)
    × (deletions effects ≡ 0)
    × (length s.node.scaled_vms ≤ 1)
    × (s.node.state ≢ dormant)
unfolding new_node
new-run_keeps_example = new-run_keeps hundredths (codes "n") none samples ticks

abbrev stuck : Scaler ℤ
stuck = record new_node { node = record new_node.node { state = triggered } }

run_stuck_example : (run hundredths stuck ticks).1 ≡ []
unfolding new_node new_scaler
run_stuck_example = (run_stuck hundredths stuck ticks refl (inl refl)).1

-- Two events, one of them stale.
abbrev seasoned : Scaler ℤ
seasoned = record new_node {
  node = record new_node.node {
    scale_history =
        record { time = pos 0; amount = 1; scaled_vm = no_vm }
        ∷ record { time = pos 900_000_000_000; amount = 1; scaled_vm = no_vm }
        ∷ [];
  };
}

calculate_retention_rule_example :
    length (calculate_retention hundredths seasoned (pos 1_000_000_000_000)).0.scale_history ≡ 1
unfolding step within now
calculate_retention_rule_example =
    ap length (calculate_retention_rule hundredths seasoned (pos 1_000_000_000_000)).0

abbrev machine : Vm
machine = record no_vm { public_ip = codes "10.0.0.9"; vm_name = codes "gcp-abcde" }

abbrev asleep : Scaler ℤ
asleep = record new_node {
  node = record new_node.node { state = dormant; scaled_vms = machine ∷ [] };
}

start-release_example :
    (release hundredths asleep smooth).1
    ≡ delete_requested (codes "gcp-abcde") ∷ targets_sent (codes "10.0.0.9") (codes "del") ∷ []
start-release_example = (start-release hundredths asleep smooth smooth machine [] refl).0

manual-forgets_example :
    (manual_scaling false
      (manual_scaling false new_node smooth scale_up_action [] []).0
      smooth
      release_action
      []
      []).1
    ≡ []
unfolding new_node new_scaler ◌≟◌
manual-forgets_example =
    (manual-forgets new_node smooth smooth scale_up_action release_action [] [] false refl refl).1

abbrev held : TryMutex
held = record {
  locked = 1;
  mu = some 4;
  place = moved (moved fresh.place 4 Place.claimed) 4 Place.inside;
}

held-Reach : Reach fresh held
unfolding fresh
held-Reach = next (next here (try_lock_claims fresh 4 refl refl)) (
    try_lock_enters (record fresh { locked = 1; place = moved fresh.place 4 Place.claimed }) 4 refl
      refl)

lock-excludes_example : has_flag (held.place 5) ≡ false
unfolding fresh
lock-excludes_example = (lock-excludes 4 5 held-Reach (λ e. absurd (omega arith))).0 refl
