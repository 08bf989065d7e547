-- ===== src/Scaling/Auto/Override.antt =====
-- The branches of a tick that only an override of the state reaches (`ScalerOverride.State`).
use sky_flow.Base.{List, [], ◌∷◌, ◌≡◌, refl, ◌∙◌}
use sky_flow.Base.Text.{codes, ◌≟◌}
use sky_flow.Base.Floats.{FloatOps}
use sky_flow.Scaling.{inactive, scaling_up, Vm, no_vm, Scaler}
use sky_flow.Scaling.Calls.{
  World, delete_requested, targets_sent, deploy_and_attach_vm, send_target,
}
use sky_flow.Scaling.Trigger.{trigger_scaling_from_init, trigger_release, chosen_vm, deploy}
use sky_flow.Scaling.Auto.{scale_from_inactive, with_node, release}
use sky_flow.Scaling.Auto.Requests.{creations, after_start-facts, attach-counts}

module _ {R : Type 0} (ops : FloatOps R) where
  release-vms : (s : Scaler R) (w : World) → (release ops s w).0.node.scaled_vms ≡ s.node.scaled_vms
  unfolding release
  release-vms s w = refl

  release-requests :
      (s : Scaler R) (w : World) (vm : Vm) (vms : List Vm)
      → s.node.scaled_vms ≡ vm ∷ vms
      → (release ops s w).1
        ≡ delete_requested vm.vm_name ∷ targets_sent vm.public_ip (codes "del") ∷ []
  unfolding release trigger_release chosen_vm send_target ◌≟◌
  release-requests s w vm vms h = rw h

  start-requests :
      (s : Scaler R) (w : World) (vm : Vm) (vms : List Vm)
      → s.node.scaled_vms ≡ vm ∷ vms
      → (scale_from_inactive ops s w).1 ≡ (deploy_and_attach_vm w vm).1
  unfolding scale_from_inactive trigger_scaling_from_init chosen_vm ◌≟◌ deploy
  start-requests s w vm vms h =
      let s' = with_node s (record s.node { state = scaling_up }) in
      (after_start-facts ops s' w (trigger_scaling_from_init s' w no_vm)).0
      ∙ rw (h, trigger_scaling_from_init, deploy)

  -- A release does not forget the machine that it deletes: the next start from the inactive state
  -- creates none, and deploys to the deleted machine.
  pub start-release :
      (s : Scaler R) (w w' : World) (vm : Vm) (vms : List Vm)
      → s.node.scaled_vms ≡ vm ∷ vms
      → let (s', requests) = release ops s w in
        (requests ≡ delete_requested vm.vm_name ∷ targets_sent vm.public_ip (codes "del") ∷ [])
        × (s'.node.state ≡ inactive)
        × ((scale_from_inactive ops s' w').1 ≡ (deploy_and_attach_vm w' vm).1)
        × (creations (scale_from_inactive ops s' w').1 ≡ 0)
  unfolding release
  start-release s w w' vm vms h =
      let e = start-requests (release ops s w).0 w' vm vms h in
      (release-requests s w vm vms h, refl, e, rw e (attach-counts w' vm).0)
