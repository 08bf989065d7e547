-- ===== src/Routing/Choice.antt =====
-- The choice of the path (control-plane/routing/routing.go, Routing).
pub mod Least
use sky_flow.Base.{
  ℕ, zero, suc, ◌+◌, ◌≤◌, ◌<◌, ◌≡◌, ◌≢◌, refl, sym, ap, ◌∙◌, subst, inl, inr, ◌⊎◌, Bool, true,
  false, ◌&&◌, List, [], ◌∷◌, ◌++◌, Option, none, some, All, arith, length, ltb, if◌then◌else◌,
  Bool-cases,
}
use sky_flow.Base.Int.{ℤ, pos}
use sky_flow.Base.Text.{Text, codes, ◌≟◌, mem}
use sky_flow.Base.Dict.{Dict, lookup}
use sky_flow.Base.Floats.{FloatOps}
use sky_flow.Telemetry.{NetworkTelemetry}
use sky_flow.Routing.{Edge, GraphManager, in_node}
use sky_flow.Routing.Risk.{compute_admission_rate}
use sky_flow.Routing.Shortest.{
  Shortest, found, unreachable, out_of_fuel, dijkstra, search, Search, trace, previous, visit_least,
  round, is_stale, relax_all, edges_from, is_node, start_search,
}
use sky_flow.Routing.Shortest.Walks.{In, first, later, Walk}
use sky_flow.Routing.Shortest.Frontier.{CostLaws, Le}
use sky_flow.Routing.Shortest.Optimal.{NonNegative, clash}
use sky_flow.Routing.Shortest.Rounds.{Correct}
use sky_flow.Routing.Shortest.Ends.{dijkstra-Correct}

pub record EndPoint : Type 0 where
  pub address : Text
  pub provider : Text
  pub region : Text
  pub id : Text

pub record PathInfo : Type 0 where
  pub hops : Text
  pub rate : ℤ

unfoldable pub server_name : EndPoint → Text
server_name e = e.provider ++ (codes "_" ++ (e.region ++ (codes "_" ++ e.id)))

-- The part before the first "-".
unfoldable pub before_dash : Text → Text
before_dash [] = []
before_dash (c ∷ cs) =
    let rest = before_dash cs in if ltb c 45 then c ∷ rest else if ltb 45 c then c ∷ rest else []

-- Each address once, in the order of the path.
unfoldable pub hop_list : List Text → List Text → List Text
unfolding before_dash mem
hop_list seen [] = []
hop_list seen (h ∷ hs) =
    let known = hop_list seen hs in
    let fresh = hop_list (before_dash h ∷ seen) hs in
    if mem (before_dash h) seen then known else before_dash h ∷ fresh

-- All hops but the last, with the port of the gateway, and then the destination.
unfoldable pub merged : List Text → Text → Text
merged [] destination = codes "," ++ destination
merged (h ∷ []) destination = codes "," ++ destination
merged (h ∷ h' ∷ []) destination = h ++ (codes ":8090" ++ (codes "," ++ destination))
merged (h ∷ h' ∷ h'' ∷ hs) destination =
    h ++ (codes ":8090" ++ (codes "," ++ merged (h' ∷ h'' ∷ hs) destination))

module _ {R : Type 0} (ops : FloatOps R) (inf : R) where
  -- The nodes of the region, up to the node that is the client itself.
  unfoldable pub start_nodes : EndPoint → List (NetworkTelemetry R) → List (NetworkTelemetry R)
  start_nodes source [] = []
  start_nodes source (n ∷ ns) =
      let rest = start_nodes source ns in
      if n.public_ip ≟ source.address
      then n ∷ []
      else if n.continent ≟ source.region
      then n ∷ rest
      else rest

  -- A path that is cheaper than the best one so far takes its place.
  unfoldable pub better : List Text × R → Shortest R → List Text × R
  better best (found path c) = if ltb 0 (length path) && ops.lt c best.1 then (path, c) else best
  better best unreachable = best
  better best out_of_fuel = best

  unfoldable pub best_path :
      List (Edge R) → Text → List Text × R → List (NetworkTelemetry R) → List Text × R
  unfolding better dijkstra in_node
  best_path edges server best [] = best
  best_path edges server best (n ∷ ns) =
      best_path edges server (better best (dijkstra ops inf edges (in_node n.public_ip) server)) ns

  abbrev pub edge_list : Dict (Edge R) → List (Edge R)
  edge_list [] = []
  edge_list ((k, e) ∷ m) = e ∷ edge_list m

  abbrev pub node_list : Dict (NetworkTelemetry R) → List (NetworkTelemetry R)
  node_list [] = []
  node_list ((k, n) ∷ m) = n ∷ node_list m

  answer_of : EndPoint → List Text × R → List PathInfo
  unfolding hop_list merged compute_admission_rate
  answer_of dest ([], cost) = []
  answer_of dest ((h ∷ hs), cost) =
      record {
        hops = merged (hop_list [] (h ∷ hs)) dest.address;
        rate = ops.to_int (
            compute_admission_rate ops (ops.ratio 1 1) (ops.ratio 10 1) (ops.ratio 20 1) cost
              (ops.ratio 1 1) (ops.ratio 100 1));
      }
      ∷ []

  -- Without a start node or a path there is no answer.
  unfoldable pub routing : GraphManager R → EndPoint → EndPoint → List PathInfo
  unfolding answer_of best_path start_nodes server_name
  routing g source dest = answer_of dest (
      best_path (edge_list g.edges) (server_name dest) ([], inf)
        (start_nodes source (node_list g.nodes)))
