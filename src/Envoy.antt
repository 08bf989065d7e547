-- ===== src/Envoy.antt =====
-- The configuration of the proxy (control-plane/pkg/envoy-manager, config-types.go and
-- envoy-operate.go): its ports and the addresses that it forwards to. Rendering the file and the
-- processes are outside; each of their answers is an argument. The operations on ports are modelled for
-- a configuration that is there: the code panics on a nil one.
pub mod Laws
mod Tests
use sky_flow.Base.{
  ℕ, Bool, true, false, not, List, [], ◌∷◌, ◌++◌, Option, none, some, ◌==◌, if◌then◌else◌,
}
use sky_flow.Base.Text.{Text, codes, ◌≟◌}
use sky_flow.Base.Dict.{Dict, insert, has}

pub record EnvoyTargetAddr : Type 0 where
  pub ip : Text
  pub port : ℕ

pub record EnvoyPortConfig : Type 0 where
  pub number : ℕ
  pub enabled : Bool
  pub bandwidth : ℕ

pub record EnvoyGlobalConfig : Type 0 where
  pub admin_port : ℕ
  pub path_base : Text
  pub ports : List EnvoyPortConfig
  pub target_addrs : List EnvoyTargetAddr

pub data EnvoyResult : Type 0 where
  ok : EnvoyResult
  port_not_configured : EnvoyResult
  not_initialized : EnvoyResult
  no_targets : EnvoyResult
  render_failed : EnvoyResult
  start_failed : EnvoyResult
  reload_failed : EnvoyResult

pub record Outside : Type 0 where
  pub renders : Bool
  pub running : Bool
  pub starts : Bool
  pub reloads : Bool

unfoldable pub hot_reload : Outside → EnvoyResult
hot_reload o = if o.running then (if o.reloads then ok else reload_failed) else reload_failed

unfoldable pub start_or_reload : Outside → EnvoyResult
unfolding hot_reload
start_or_reload o = if not o.running then (if o.starts then ok else start_failed) else hot_reload o

-- The first entry of the port is replaced, or a new one is appended.
unfoldable pub put_port : EnvoyPortConfig → List EnvoyPortConfig → List EnvoyPortConfig
put_port c [] = c ∷ []
put_port c (p ∷ ps) = let rest = put_port c ps in if p.number == c.number then c ∷ ps else p ∷ rest

unfoldable pub create_or_update_envoy_port :
    ℕ → Outside → EnvoyGlobalConfig → EnvoyGlobalConfig × EnvoyResult
unfolding put_port start_or_reload
create_or_update_envoy_port port o cfg = (
  record cfg {
    ports = put_port (record { number = port; enabled = true; bandwidth = 0 }) cfg.ports;
  },
  (if o.renders then start_or_reload o else render_failed),
)

unfoldable pub has_port : ℕ → List EnvoyPortConfig → Bool
has_port n [] = false
has_port n (p ∷ ps) = if p.number == n then true else has_port n ps

unfoldable pub disable_port : ℕ → List EnvoyPortConfig → List EnvoyPortConfig
disable_port n [] = []
disable_port n (p ∷ ps) =
    let rest = disable_port n ps in
    if p.number == n then record p { enabled = false } ∷ ps else p ∷ rest

unfoldable pub disable_envoy_port :
    ℕ → Outside → EnvoyGlobalConfig → EnvoyGlobalConfig × EnvoyResult
unfolding has_port disable_port hot_reload
disable_envoy_port port o cfg =
    if has_port port cfg.ports
    then (
      record cfg { ports = disable_port port cfg.ports },
      (if o.renders then hot_reload o else render_failed),
    )
    else (cfg, port_not_configured)

-- A map from addresses to entries; of two entries of an address the later one stays.
unfoldable pub by_ip : List EnvoyTargetAddr → Dict EnvoyTargetAddr → Dict EnvoyTargetAddr
by_ip [] m = m
by_ip (t ∷ ts) m = by_ip ts (insert t.ip t m)

-- The entries whose address is not in the map.
unfoldable pub not_in : Dict EnvoyTargetAddr → List EnvoyTargetAddr → List EnvoyTargetAddr
not_in m [] = []
not_in m (t ∷ ts) = let rest = not_in m ts in if has t.ip m then rest else t ∷ rest

abbrev pub entries : Dict EnvoyTargetAddr → List EnvoyTargetAddr
entries [] = []
entries ((k, t) ∷ m) = t ∷ entries m

-- Another action changes nothing.
unfoldable pub changed_targets :
    Text → List EnvoyTargetAddr → List EnvoyTargetAddr → List EnvoyTargetAddr
unfolding by_ip not_in
changed_targets action targets old =
    if action ≟ codes "add"
    then old ++ not_in (by_ip old []) targets
    else if action ≟ codes "del"
    then not_in (by_ip targets []) (entries (by_ip old []))
    else old

-- `none` is a configuration that is not initialized.
unfoldable pub update_global_target_addrs :
    List EnvoyTargetAddr
    → Text
    → Outside
    → Option EnvoyGlobalConfig
    → Option EnvoyGlobalConfig × EnvoyResult
unfolding changed_targets hot_reload
update_global_target_addrs targets action o none = (none, not_initialized)
update_global_target_addrs [] action o (some cfg) = (some cfg, no_targets)
update_global_target_addrs (t ∷ ts) action o (some cfg) = (
  some (record cfg { target_addrs = changed_targets action (t ∷ ts) cfg.target_addrs }),
  (if o.renders then hot_reload o else render_failed),
)
