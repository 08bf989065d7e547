-- ===== src/Scaling/Calls.antt =====
-- What the scaler asks of the outside (control-plane/scaling/auto-fsm.go, lines 339 to 503): the
-- cloud provider's API, the SSH deployment, the health switch of a VM and the local Envoy API. Each
-- answer is an input of the model; each request is recorded as an effect, oldest first.
use sky_flow.Base.{
  ℕ, Bool, false, ◌&&◌, List, [], ◌∷◌, ◌++◌, Option, none, some, ◌==◌, if◌then◌else◌, not,
}
use sky_flow.Base.Int.{ℤ}
use sky_flow.Base.Text.{Text, codes, ◌≟◌}
use sky_flow.Scaling.{Vm, Scaler, now}

pub data Binary : Type 0 where
  proxy plane : Binary

pub data Effect : Type 0 where
  create_requested : Text → Effect
  delete_requested : Text → Effect
  deployed : Text → Binary → Effect
  targets_sent : Text → Text → Effect
  health_sent : Text → Text → Effect

-- `CreateVM` fails, or succeeds with no instance (GCP), or with the identifier and password of one
-- (Vultr). The answer of AWS, a text, is outside the model: the type assertion on it panics.
pub data CreateReply : Type 0 where
  refused : CreateReply
  created : Option (Text × Text) → CreateReply

-- One round of the loop that waits for the public IP.
pub data Poll : Type 0 where
  cancelled timed_out : Poll
  ticked : Option Text → Poll

pub record World : Type 0 where
  pub clock_check : ℤ
  pub clock_start : ℤ
  pub clock_event : ℤ
  pub clock_retain : ℤ
  -- provider and random letters
  pub fresh_name : Text
  pub create_reply : CreateReply
  pub polls : List Poll
  pub deploys : Text → Binary → Bool
  pub targets_reply : Text → Text → Bool
  -- the status code of the answer, if there is one
  pub health_reply : Text → Text → Option ℕ

unfoldable pub is_ok : Option ℕ → Bool
is_ok none = false
is_ok (some status) = status == 200

unfoldable pub set_health_state : World → Text → Text → Bool × List Effect
unfolding is_ok
set_health_state w ip set_state =
    (is_ok (w.health_reply ip set_state), health_sent ip set_state ∷ [])

unfoldable pub send_target : World → Text → Text → Bool × List Effect
send_target w ip action = (w.targets_reply ip action, targets_sent ip action ∷ [])

-- The rounds end when the context does.
unfoldable pub wait_for_ip : List Poll → Option Text
wait_for_ip [] = none
wait_for_ip (cancelled ∷ rest) = none
wait_for_ip (timed_out ∷ rest) = none
wait_for_ip (ticked none ∷ rest) = wait_for_ip rest
wait_for_ip (ticked (some ip) ∷ rest) =
    let more = wait_for_ip rest in
    if not (ip ≟ []) && not (ip ≟ codes "0.0.0.0") then some ip else more

-- The name and password of the created machine.
unfoldable pub instance_name : Text → CreateReply → Option (Text × Text)
instance_name name refused = none
instance_name name (created none) = some (name, [])
instance_name name (created (some (id, password))) = some (id, password)

module _ {R : Type 0} where
  unfoldable pub create_vm : Scaler R → World → Option Vm × List Effect
  unfolding instance_name wait_for_ip now
  create_vm s w = (vm, create_requested w.fresh_name ∷ [])
    where
      named : Text × Text → Option Vm
      named (name, password) = elim (wait_for_ip w.polls) [
        | none ↦ none
        | some ip ↦ some (record {
          public_ip = ip;
          vm_name = name;
          start_time = now s w.clock_start;
          password = password;
        })
      ]

      vm : Option Vm
      vm = elim (instance_name w.fresh_name w.create_reply) [ none ↦ none | some n ↦ named n ]

-- The two binaries in turn, then the Envoy target; the first failure ends it.
unfoldable pub deploy_and_attach_vm : World → Vm → Bool × List Effect
unfolding send_target
deploy_and_attach_vm w vm =
    let ip = vm.public_ip in
    let first = deployed ip proxy ∷ [] in
    let second = first ++ deployed ip plane ∷ [] in
    let (attached, sent) = send_target w ip (codes "add") in
    if w.deploys ip proxy
    then (if w.deploys ip plane then (attached, second ++ sent) else (false, second))
    else (false, first)
