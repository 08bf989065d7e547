-- ===== src/Scaling/Trigger.antt =====
-- The four scaling actions (control-plane/scaling/auto-fsm.go, lines 211 to 292 and 505 to 539).
-- Each works on the VM that is given, or else on the first that was scaled.
use sky_flow.Base.{Bool, true, false, not, List, [], ◌∷◌, ◌++◌, Option, none, some, if◌then◌else◌}
use sky_flow.Base.Text.{Text, codes, ◌≟◌}
use sky_flow.Scaling.{Vm, no_vm, Scaler}
use sky_flow.Scaling.Calls.{
  World, Effect, delete_requested, set_health_state, send_target, create_vm, deploy_and_attach_vm,
}

unfoldable pub first_vm : List Vm → Option Vm
first_vm [] = none
first_vm (vm ∷ rest) = some vm

unfoldable pub deploy : World → Vm → List Effect → Bool × Vm × List Effect
unfolding deploy_and_attach_vm
deploy w vm before =
    let (done, effects) = deploy_and_attach_vm w vm in (done, vm, before ++ effects)

unfoldable pub from_creation : World → Option Vm × List Effect → Bool × Vm × List Effect
unfolding deploy
from_creation w (none, effects) = (false, no_vm, effects)
from_creation w (some vm, effects) = deploy w vm effects

module _ {R : Type 0} where
  -- The VM to act on.
  unfoldable pub chosen_vm : Scaler R → Vm → Option Vm
  unfolding first_vm
  chosen_vm s vm = if not (vm.public_ip ≟ []) then some vm else first_vm s.node.scaled_vms

  unfoldable pub switch_health : Text → Scaler R → World → Vm → Bool × List Effect
  unfolding chosen_vm set_health_state
  switch_health state s w vm = elim (chosen_vm s vm) [
    | none ↦ (false, [])
    | some v ↦ set_health_state w v.public_ip state
  ]

  unfoldable pub trigger_scaling_from_dormant : Scaler R → World → Vm → Bool × List Effect
  unfolding switch_health
  trigger_scaling_from_dormant = switch_health (codes "on")

  unfoldable pub trigger_dormant : Scaler R → World → Vm → Bool × List Effect
  unfolding switch_health
  trigger_dormant = switch_health (codes "off")

  -- A failed deletion or a failed update of the targets is only logged.
  unfoldable pub trigger_release : Scaler R → World → Vm → Bool × List Effect
  unfolding chosen_vm send_target
  trigger_release s w vm = elim (chosen_vm s vm) [
    | none ↦ (false, [])
    | some v ↦ (true, delete_requested v.vm_name ∷ (send_target w v.public_ip (codes "del")).1)
  ]

  unfoldable pub trigger_scaling_from_init : Scaler R → World → Vm → Bool × Vm × List Effect
  unfolding chosen_vm create_vm deploy from_creation
  trigger_scaling_from_init s w vm = elim (chosen_vm s vm) [
    | none ↦ from_creation w (create_vm s w)
    | some v ↦ deploy w v []
  ]
