-- ===== src/Scaling/Auto/Requests.antt =====
-- How many VMs the requests of a scaling step create and delete.
use sky_flow.Base.{
  ℕ, suc, ◌+◌, ◌≤◌, Bool, true, false, List, [], ◌∷◌, ◌++◌, Option, none, some, ◌≡◌, refl, inl, inr,
  arith, Option-cases, length, if◌then◌else◌, length-append, not,
}
use sky_flow.Base.Text.{◌≟◌}
use sky_flow.Base.Floats.{FloatOps}
use sky_flow.Scaling.{scaling_up, Vm, no_vm, Scaler}
use sky_flow.Scaling.Retention.{calculate_retention}
use sky_flow.Scaling.Calls.{
  World, Effect, create_requested, delete_requested, deployed, targets_sent, health_sent, create_vm,
  deploy_and_attach_vm,
}
use sky_flow.Scaling.Trigger.{trigger_scaling_from_init, chosen_vm, deploy, from_creation}
use sky_flow.Scaling.Auto.{scale_from_inactive, with_node, after_start, add_vm, scaled, retain}
use sky_flow.Scaling.Auto.Quiet.{is_busy}
use sky_flow.Scaling.Auto.Edges.{inactive_cases}

-- How many VMs a list of requests creates and deletes.
abbrev pub creations : List Effect → ℕ
creations [] = 0
creations (create_requested name ∷ rest) = suc (creations rest)
creations (_ ∷ rest) = creations rest

abbrev pub deletions : List Effect → ℕ
deletions [] = 0
deletions (delete_requested name ∷ rest) = suc (deletions rest)
deletions (_ ∷ rest) = deletions rest

pub creations-append : (a b : List Effect) → creations (a ++ b) ≡ creations a + creations b
creations-append [] b = omega arith
creations-append (create_requested n ∷ a) b = omega (arith, creations-append a b)
creations-append (delete_requested n ∷ a) b = creations-append a b
creations-append (deployed i n ∷ a) b = creations-append a b
creations-append (targets_sent i n ∷ a) b = creations-append a b
creations-append (health_sent i n ∷ a) b = creations-append a b

pub deletions-append : (a b : List Effect) → deletions (a ++ b) ≡ deletions a + deletions b
deletions-append [] b = omega arith
deletions-append (delete_requested n ∷ a) b = omega (arith, deletions-append a b)
deletions-append (create_requested n ∷ a) b = deletions-append a b
deletions-append (deployed i n ∷ a) b = deletions-append a b
deletions-append (targets_sent i n ∷ a) b = deletions-append a b
deletions-append (health_sent i n ∷ a) b = deletions-append a b

pub attach-counts :
    (w : World) (vm : Vm)
    → let effects = (deploy_and_attach_vm w vm).1 in
      (creations effects ≡ 0) × (deletions effects ≡ 0)
unfolding deploy_and_attach_vm
attach-counts w vm = ground arith

deploy-counts :
    (w : World) (vm : Vm) (before : List Effect)
    → let effects = (deploy w vm before).2 in
      (creations effects ≡ creations before) × (deletions effects ≡ deletions before)
unfolding deploy
deploy-counts w vm before =
    let after = (deploy_and_attach_vm w vm).1 in
    let (c, d) = attach-counts w vm in
    (
      omega (arith, creations-append before after, c),
      omega (arith, deletions-append before after, d),
    )

from_creation-counts :
    (w : World) (r : Option Vm × List Effect)
    → let effects = (from_creation w r).2 in
      (creations effects ≡ creations r.1) × (deletions effects ≡ deletions r.1)
unfolding from_creation
from_creation-counts w (none, effects) = (refl, refl)
from_creation-counts w (some vm, effects) = deploy-counts w vm effects

length-add :
    (b : Bool) (vms : List Vm) (vm : Vm)
    → length (if b then vms ++ vm ∷ [] else vms) ≤ length vms + 1
length-add true vms vm = omega (arith, length-append vms (vm ∷ []))
length-add false vms vm = omega arith

module _ {R : Type 0} where
  -- Starting a VM asks for one creation at most and for no deletion.
  start-counts :
      (s : Scaler R) (w : World)
      → let effects = (trigger_scaling_from_init s w no_vm).2 in
        (creations effects ≤ 1) × (deletions effects ≡ 0)
  unfolding trigger_scaling_from_init create_vm
  start-counts s w = elim (Option-cases (chosen_vm s no_vm)) [
    | inl e ↦
        let (c, d) = from_creation-counts w (create_vm s w) in
        rw (e, trigger_scaling_from_init) (omega (arith, c), d)
    | inr (vm, e) ↦
        let (c, d) = deploy-counts w vm [] in
        rw (e, trigger_scaling_from_init) (omega (arith, c), d)
  ]

module _ {R : Type 0} (ops : FloatOps R) where
  pub after_start-facts :
      (s : Scaler R) (w : World) (r : Bool × Vm × List Effect)
      → let (s', effects) = after_start ops s w r in
        (effects ≡ r.2)
        × (s'.override ≡ s.override)
        × (length s'.node.scaled_vms ≤ length s.node.scaled_vms + 1)
  unfolding after_start scaled retain add_vm calculate_retention
  after_start-facts s w (true, vm, effects) =
      (refl, refl, length-add (not (vm.public_ip ≟ [])) s.node.scaled_vms vm)
  after_start-facts s w (false, vm, effects) =
      (refl, refl, length-add (not (vm.public_ip ≟ [])) s.node.scaled_vms vm)

  pub start_facts :
      (s : Scaler R) (w : World)
      → let (s', effects) = scale_from_inactive ops s w in
        (s'.override ≡ s.override)
        × (length s'.node.scaled_vms ≤ length s.node.scaled_vms + 1)
        × (creations effects ≤ 1)
        × (deletions effects ≡ 0)
  unfolding scale_from_inactive
  start_facts s w =
      let s' = with_node s (record s.node { state = scaling_up }) in
      let (e, o, v) = after_start-facts s' w (trigger_scaling_from_init s' w no_vm) in
      let (c, d) = start-counts s' w in (o, v, rw e c, rw e d)

  pub start-busy :
      (s : Scaler R) (w : World) → is_busy (scale_from_inactive ops s w).0.node.state ≡ true
  start-busy s w = elim (inactive_cases ops s w) [
    | inl e ↦ rw e
    | inr (inl e) ↦ rw e
    | inr (inr e) ↦ rw e
  ]
