-- ===== src/Envoy/Tests.antt =====
-- A proxy with one port and two addresses.
use sky_flow.Base.{◌≡◌, refl, true, false, not, ◌&&◌, ◌||◌, [], ◌∷◌, some, ◌==◌, if◌then◌else◌}
use sky_flow.Base.Text.{Text, codes, ◌≟◌}
use sky_flow.Base.Dict.{insert, has}
use sky_flow.Envoy.{
  EnvoyTargetAddr, EnvoyGlobalConfig, Outside, create_or_update_envoy_port, disable_envoy_port,
  changed_targets,
}
use sky_flow.Envoy.Laws.{port_of, new_port, disable-create, listed, listed-changed_targets}

abbrev target : Text → EnvoyTargetAddr
target address = record { ip = address; port = 8095 }

abbrev config : EnvoyGlobalConfig
config = record {
  admin_port = 9901;
  path_base = [];
  ports = record { number = 8090; enabled = true; bandwidth = 0 } ∷ [];
  target_addrs = target (codes "10.0.0.1") ∷ target (codes "10.0.0.2") ∷ [];
}

abbrev broken : Outside
broken = record { renders = false; running = false; starts = false; reloads = false }

abbrev fine : Outside
fine = record { renders = true; running = true; starts = true; reloads = true }

abbrev made : EnvoyGlobalConfig
made = (create_or_update_envoy_port 8091 broken config).0

disable-create_example :
    (port_of 8090 made.ports
      ≡ (if 8091 == 8090 then some (new_port 8091 true) else port_of 8090 config.ports))
    × (port_of 8090 (disable_envoy_port 8091 fine made).0.ports
        ≡ (if 8091 == 8090 then some (new_port 8091 false) else port_of 8090 config.ports))
    × (record made { ports = config.ports } ≡ config)
    × (record (disable_envoy_port 8091 fine made).0 { ports = config.ports } ≡ config)
disable-create_example = disable-create 8091 8090 broken fine config

-- An address that a request repeats is added as often as it comes.
added_twice :
    changed_targets
      (codes "add")
      (target (codes "10.0.0.3") ∷ target (codes "10.0.0.3") ∷ [])
      config.target_addrs
    ≡ target (codes "10.0.0.1")
      ∷ target (codes "10.0.0.2")
      ∷ target (codes "10.0.0.3")
      ∷ target (codes "10.0.0.3")
      ∷ []
unfolding changed_targets insert has ◌≟◌
added_twice = refl

listed-changed_targets_example :
    (listed
        (codes "10.0.0.1")
        (changed_targets (codes "add") (target (codes "10.0.0.1") ∷ []) config.target_addrs)
      ≡ (listed (codes "10.0.0.1") config.target_addrs
          || listed (codes "10.0.0.1") (target (codes "10.0.0.1") ∷ [])))
    × (listed
          (codes "10.0.0.1")
          (changed_targets (codes "del") (target (codes "10.0.0.1") ∷ []) config.target_addrs)
        ≡ (listed (codes "10.0.0.1") config.target_addrs
            && not (listed (codes "10.0.0.1") (target (codes "10.0.0.1") ∷ []))))
listed-changed_targets_example =
    listed-changed_targets (codes "10.0.0.1") (target (codes "10.0.0.1") ∷ []) config.target_addrs
