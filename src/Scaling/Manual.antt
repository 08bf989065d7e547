-- ===== src/Scaling/Manual.antt =====
-- Scaling by hand (control-plane/scaling/manual-fsm.go): an action by name, on the machine that is
-- given or else on the first that was scaled.
use sky_flow.Base.{Bool, true, false, ◌&&◌, not, List, [], ◌≡◌, refl, if◌then◌else◌, arith, none}
use sky_flow.Base.Text.{Text, codes, ◌≟◌}
use sky_flow.Scaling.{Vm, no_vm, Scaler}
use sky_flow.Scaling.Calls.{World, Effect}
use sky_flow.Scaling.Trigger.{
  trigger_scaling_from_init, trigger_scaling_from_dormant, trigger_dormant, trigger_release,
  chosen_vm, switch_health,
}

abbrev pub scale_up_action : Text
scale_up_action = codes "scale_up"

abbrev pub sleep_action : Text
sleep_action = codes "sleep"

abbrev pub restart_action : Text
restart_action = codes "restart"

abbrev pub release_action : Text
release_action = codes "release"

-- Both the address and the name must be given for a machine to count as given.
unfoldable pub named_vm : Text → Text → Vm
named_vm ip vm_name =
    if not (ip ≟ []) && not (vm_name ≟ [])
    then record no_vm { public_ip = ip; vm_name = vm_name }
    else no_vm

module _ {R : Type 0} where
  -- The `switch`; an unknown action makes no request.
  unfoldable pub act : Scaler R → World → Text → Vm → List Effect
  act s w action vm =
      if action ≟ scale_up_action
      then (trigger_scaling_from_init s w vm).2
      else if action ≟ sleep_action
      then (trigger_dormant s w vm).1
      else if action ≟ restart_action
      then (trigger_scaling_from_dormant s w vm).1
      else if action ≟ release_action
      then (trigger_release s w vm).1
      else []

  -- `locked` says that `TryLock` fails.
  unfoldable pub manual_scaling :
      Bool → Scaler R → World → Text → Text → Text → Scaler R × List Effect
  unfolding act
  manual_scaling locked s w action ip vm_name =
      if locked
      then (s, [])
      else (record s { manual_action = action }, act s w action (named_vm ip vm_name))

  none_chosen : (s : Scaler R) → s.node.scaled_vms ≡ [] → chosen_vm s (named_vm [] []) ≡ none
  unfolding chosen_vm named_vm ◌≟◌
  none_chosen s h = rw h

  switch_without_vm :
      (s : Scaler R) (w : World) (state : Text)
      → s.node.scaled_vms ≡ []
      → (switch_health state s w (named_vm [] [])).1 ≡ []
  unfolding switch_health
  switch_without_vm s w state h = rw (none_chosen s h, switch_health)

  release_without_vm :
      (s : Scaler R) (w : World)
      → s.node.scaled_vms ≡ []
      → (trigger_release s w (named_vm [] [])).1 ≡ []
  unfolding trigger_release
  release_without_vm s w h = rw (none_chosen s h, trigger_release)

  act_without_vm :
      (s : Scaler R) (w : World) (action : Text)
      → s.node.scaled_vms ≡ []
      → (action ≟ scale_up_action) ≡ false
      → act s w action (named_vm [] []) ≡ []
  unfolding act trigger_dormant trigger_scaling_from_dormant
  act_without_vm s w action h n = ground (
    arith,
    switch_without_vm s w (codes "on") h,
    switch_without_vm s w (codes "off") h,
    release_without_vm s w h,
  )

  -- A machine started by hand is not recorded: an unlocked call leaves the node as it was, so if no
  -- machine is recorded, a release, a sleep or a restart that names none makes no request, whatever
  -- was started by hand before.
  pub manual-forgets :
      (s : Scaler R) (w w' : World) (action later ip vm_name : Text) (locked : Bool)
      → s.node.scaled_vms ≡ []
      → (later ≟ scale_up_action) ≡ false
      → let s' = (manual_scaling locked s w action ip vm_name).0 in
        (s'.node ≡ s.node) × ((manual_scaling false s' w' later [] []).1 ≡ [])
  unfolding manual_scaling
  manual-forgets s w w' action later ip vm_name true h n = (refl, act_without_vm s w' later h n)
  manual-forgets s w w' action later ip vm_name false h n =
      (refl, act_without_vm (record s { manual_action = action }) w' later h n)
