-- ===== src/Envoy/Laws.antt =====
-- The ports after a change, and the addresses after adding and deleting.
use sky_flow.Base.{
  ℕ, ◌≡◌, refl, sym, ap, ◌∙◌, inl, inr, Bool, true, false, not, ◌&&◌, ◌||◌, List, [], ◌∷◌, ◌++◌,
  Option, none, some, All, arith, ◌==◌, if◌then◌else◌, Bool-cases,
}
use sky_flow.Base.Text.{Text, codes, ◌≟◌, ≟→≡}
use sky_flow.Base.Dict.{Dict, insert, has, has-insert}
use sky_flow.Envoy.{
  EnvoyTargetAddr, EnvoyPortConfig, EnvoyGlobalConfig, Outside, put_port,
  create_or_update_envoy_port, has_port, disable_port, disable_envoy_port, by_ip, not_in, entries,
  changed_targets,
}

-- The configuration of a port.
unfoldable pub port_of : ℕ → List EnvoyPortConfig → Option EnvoyPortConfig
port_of n [] = none
port_of n (p ∷ ps) = if p.number == n then some p else port_of n ps

-- A port that has just been created, enabled or disabled again.
abbrev pub new_port : ℕ → Bool → EnvoyPortConfig
new_port port enabled = record { number = port; enabled = enabled; bandwidth = 0 }

abbrev disabled : Option EnvoyPortConfig → Option EnvoyPortConfig
disabled none = none
disabled (some p) = some (record p { enabled = false })

port_of-put_port :
    (c : EnvoyPortConfig) (n : ℕ) (ps : List EnvoyPortConfig)
    → port_of n (put_port c ps) ≡ (if c.number == n then some c else port_of n ps)
unfolding port_of put_port
port_of-put_port c n [] = refl
port_of-put_port c n (p ∷ ps) = ground (arith, port_of-put_port c n ps)

port_of-disable_port :
    (m n : ℕ) (ps : List EnvoyPortConfig)
    → has_port m ps ≡ true
    → port_of n (disable_port m ps) ≡ (if m == n then disabled (port_of m ps) else port_of n ps)
unfolding port_of disable_port has_port
port_of-disable_port m n [] h = cc
port_of-disable_port m n (p ∷ ps) h = ground (arith, port_of-disable_port m n ps)

has_port-put_port :
    (c : EnvoyPortConfig) (ps : List EnvoyPortConfig) → has_port c.number (put_port c ps) ≡ true
unfolding has_port put_port
has_port-put_port c [] = ground arith
has_port-put_port c (p ∷ ps) = ground (arith, has_port-put_port c ps)

-- Creating a port configures it anew, enabled and without a bandwidth, and disabling it then only
-- disables it, whatever the outside answers, also when it returns an error. Each call leaves the
-- configuration of every other port, the target addresses and the rest as they are.
pub disable-create :
    (port n : ℕ) (o o' : Outside) (cfg : EnvoyGlobalConfig)
    → let made = (create_or_update_envoy_port port o cfg).0 in
      let shut = (disable_envoy_port port o' made).0 in
      (port_of n made.ports
        ≡ (if port == n then some (new_port port true) else port_of n cfg.ports))
      × (port_of n shut.ports
          ≡ (if port == n then some (new_port port false) else port_of n cfg.ports))
      × (record made { ports = cfg.ports } ≡ cfg)
      × (record shut { ports = cfg.ports } ≡ cfg)
unfolding create_or_update_envoy_port disable_envoy_port
disable-create port n o o' cfg =
    let new = new_port port true in
    let made = port_of-put_port new n cfg.ports in
    let has = has_port-put_port new cfg.ports in
    let here : port_of port (put_port new cfg.ports) ≡ some new =
      port_of-put_port new port cfg.ports ∙ own port (port_of port cfg.ports) in
    (
      made,
      rw has (
          port_of-disable_port port n (put_port new cfg.ports) has
          ∙ ap (λ e. if port == n then disabled e else port_of n (put_port new cfg.ports)) here
          ∙ ap (λ e. if port == n then some (new_port port false) else e) made
          ∙ twice (port == n) (port_of n cfg.ports)),
      refl,
      rw has refl,
    )
  where
    own :
        (port : ℕ) (e : Option EnvoyPortConfig)
        → (if port == port then some (new_port port true) else e) ≡ some (new_port port true)
    own port e = ground arith

    twice :
        (b : Bool) (e : Option EnvoyPortConfig)
        → (if b then some (new_port port false) else (if b then some (new_port port true) else e))
          ≡ (if b then some (new_port port false) else e)
    twice true e = refl
    twice false e = refl

-- Whether an address is among the entries.
unfoldable pub listed : Text → List EnvoyTargetAddr → Bool
listed ip [] = false
listed ip (t ∷ ts) = t.ip ≟ ip || listed ip ts

abbrev Keyed : Dict EnvoyTargetAddr → Type 0
Keyed = All (λ entry. entry.0 ≡ entry.1.ip)

Keyed-insert : (t : EnvoyTargetAddr) (m : Dict EnvoyTargetAddr) → Keyed m → Keyed (insert t.ip t m)
unfolding insert
Keyed-insert t [] h = (refl, tt)
Keyed-insert t ((k, u) ∷ m) h = elim (Bool-cases (k ≟ t.ip)) [
  | inl e ↦ rw e (refl, h.1)
  | inr e ↦ rw e (h.0, Keyed-insert t m h.1)
]

Keyed-by_ip : (ts : List EnvoyTargetAddr) (m : Dict EnvoyTargetAddr) → Keyed m → Keyed (by_ip ts m)
unfolding by_ip
Keyed-by_ip [] m h = h
Keyed-by_ip (t ∷ ts) m h = Keyed-by_ip ts (insert t.ip t m) (Keyed-insert t m h)

has-by_ip :
    (ip : Text) (ts : List EnvoyTargetAddr) (m : Dict EnvoyTargetAddr)
    → has ip (by_ip ts m) ≡ (listed ip ts || has ip m)
unfolding by_ip listed
has-by_ip ip [] m = refl
has-by_ip ip (t ∷ ts) m =
    has-by_ip ip ts (insert t.ip t m)
    ∙ ap (λ b. listed ip ts || b) (has-insert t.ip ip t m)
    ∙ ground arith

listed-entries : (ip : Text) (m : Dict EnvoyTargetAddr) → Keyed m → listed ip (entries m) ≡ has ip m
unfolding listed has
listed-entries ip [] h = refl
listed-entries ip ((k, t) ∷ m) h = rw (listed-entries ip m h.1, sym h.0) (ground arith)

known_ip : (ip : Text) (ts : List EnvoyTargetAddr) → has ip (by_ip ts []) ≡ listed ip ts
unfolding has
known_ip ip ts = has-by_ip ip ts [] ∙ last_false (listed ip ts)
  where
    last_false : (b : Bool) → (b || false) ≡ b
    last_false b = ground arith

listed-append :
    (ip : Text) (ts us : List EnvoyTargetAddr)
    → listed ip (ts ++ us) ≡ (listed ip ts || listed ip us)
unfolding listed
listed-append ip [] us = refl
listed-append ip (t ∷ ts) us = ground (arith, listed-append ip ts us)

listed-not_in :
    (ip : Text) (m : Dict EnvoyTargetAddr) (ts : List EnvoyTargetAddr)
    → listed ip (not_in m ts) ≡ (listed ip ts && not (has ip m))
unfolding listed not_in
listed-not_in ip m [] = refl
listed-not_in ip m (t ∷ ts) = elim (Bool-cases (t.ip ≟ ip)) [
  | inl e ↦
      let same : has t.ip m ≡ has ip m = ap (λ k. has k m) (≟→≡ t.ip ip e) in
      ground (arith, e, same, listed-not_in ip m ts)
  | inr e ↦ ground (arith, e, listed-not_in ip m ts)
]

-- As sets of addresses, adding is the union and deleting the difference, whatever entries either list
-- repeats.
pub listed-changed_targets :
    (ip : Text) (targets old : List EnvoyTargetAddr)
    → (listed ip (changed_targets (codes "add") targets old) ≡ (listed ip old || listed ip targets))
      × (listed ip (changed_targets (codes "del") targets old)
          ≡ (listed ip old && not (listed ip targets)))
unfolding changed_targets ◌≟◌
listed-changed_targets ip targets old =
    let known = known_ip ip old in
    let gone = known_ip ip targets in
    (
      listed-append ip old (not_in (by_ip old []) targets)
          ∙ rw (listed-not_in ip (by_ip old []) targets, known)
              (union (listed ip old) (listed ip targets)),
      rw
          (
            listed-not_in ip (by_ip targets []) (entries (by_ip old [])),
            listed-entries ip (by_ip old []) (Keyed-by_ip old [] tt),
            known,
            gone,
          )
          refl,
    )
  where
    union : (a b : Bool) → (a || (b && not a)) ≡ (a || b)
    union a b = ground arith
