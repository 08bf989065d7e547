-- ===== src/Routing.antt =====
-- The graph of the routing (control-plane/routing/update-graph.go): nodes and weighted edges, which
-- telemetry adds and a lost node removes.
pub mod Price
pub mod Risk
pub mod Graph
pub mod Connect
pub mod Linked
pub mod Shortest
pub mod Choice
mod Tests
use sky_flow.Base.{Bool, true, false, ◌||◌, List, [], ◌∷◌, ◌++◌, Option, none, some, if◌then◌else◌}
use sky_flow.Base.Text.{Text, codes, ◌≟◌}
use sky_flow.Base.Dict.{Dict, lookup, insert, delete}
use sky_flow.Base.Floats.{FloatOps}
use sky_flow.Telemetry.{ProbeTask, LinkCongestionInfo, NetworkTelemetry}
use sky_flow.Routing.Price.{arrow, get_bandwidth_price}
use sky_flow.Routing.Risk.{edge_risk}

-- The provider and the continent of the destination are never set.
pub record Edge (R : Type 0) : Type 0 where
  pub source_ip : Text
  pub destination_ip : Text
  pub source_provider : Text
  pub source_continent : Text
  pub edge_weight : R

-- Edges are keyed by "source->destination".
pub record GraphManager (R : Type 0) : Type 0 where
  pub edges : Dict (Edge R)
  pub nodes : Dict (NetworkTelemetry R)

unfoldable pub new_graph_manager : {R : Type 0} → GraphManager R
new_graph_manager = record { edges = []; nodes = [] }

unfoldable pub in_node : Text → Text
in_node n = n ++ codes "-1"

unfoldable pub out_node : Text → Text
out_node n = n ++ codes "-2"

unfoldable pub cloud_name : ProbeTask → Text
cloud_name t = t.provider ++ (codes "_" ++ (t.region ++ (codes "_" ++ t.id)))

module _ {R : Type 0} where
  -- An edge that is there only gets the new weight.
  unfoldable pub put_edge_in : Text → Edge R → Dict (Edge R) → Option (Edge R) → Dict (Edge R)
  put_edge_in key e m none = insert key e m
  put_edge_in key e m (some old) = insert key (record old { edge_weight = e.edge_weight }) m

  unfoldable pub put_edge : Text → Edge R → Dict (Edge R) → Dict (Edge R)
  unfolding put_edge_in
  put_edge key e m = put_edge_in key e m (lookup key m)

  unfoldable pub touches : Text → Edge R → Bool
  touches id e = e.source_ip ≟ id || e.destination_ip ≟ id

  unfoldable pub drop_edges : Text → Dict (Edge R) → Dict (Edge R)
  unfolding touches
  drop_edges id [] = []
  drop_edges id ((k, e) ∷ m) =
      let rest = drop_edges id m in if touches id e then rest else (k, e) ∷ rest

  unfoldable pub remove_node : Text → GraphManager R → GraphManager R
  unfolding drop_edges
  remove_node id g = record { edges = drop_edges id g.edges; nodes = delete id g.nodes }

module _ {R : Type 0} (ops : FloatOps R) (prices : Option (Dict (Dict R))) where
  abbrev pub edge_of : Text → Text → NetworkTelemetry R → R → Edge R
  edge_of source destination node weight = record {
    source_ip = source;
    destination_ip = destination;
    source_provider = node.provider;
    source_continent = node.continent;
    edge_weight = weight;
  }

  abbrev pub zero_risk : R
  zero_risk = ops.ratio 0 1

  price_to : NetworkTelemetry R → Text → R
  unfolding get_bandwidth_price
  price_to node region = (get_bandwidth_price ops prices node.provider node.continent region).0

  -- The edges to the storage servers that the node probes.
  unfoldable pub add_cloud :
      NetworkTelemetry R → Dict (LinkCongestionInfo R) → Dict (Edge R) → Dict (Edge R)
  unfolding put_edge out_node cloud_name edge_risk price_to
  add_cloud node [] m = m
  add_cloud node ((ip, link) ∷ links) m =
      let risk = edge_risk ops zero_risk (price_to node link.target.region) link.packet_loss in
      let out = out_node node.public_ip in
      let server = cloud_name link.target in
      let added = put_edge (arrow out server) (edge_of out server node risk) m in
      add_cloud node links (if link.target.target_type ≟ codes "cloud_storage" then added else m)

  loss_in : Option (LinkCongestionInfo R) → R
  loss_in none = zero_risk
  loss_in (some link) = if ops.lt zero_risk link.packet_loss then link.packet_loss else zero_risk

  -- The edges to another node and back, both with the loss that the new node measured.
  unfoldable pub add_peer :
      NetworkTelemetry R → Text → NetworkTelemetry R → Dict (Edge R) → Dict (Edge R)
  unfolding put_edge in_node out_node edge_risk price_to loss_in
  add_peer node id other m =
      let loss = loss_in (lookup id node.links_congestion) in
      let there = edge_risk ops zero_risk (price_to node other.continent) loss in
      let back = edge_risk ops zero_risk (price_to other node.continent) loss in
      put_edge (arrow (out_node id) (in_node node.public_ip))
        (edge_of (out_node id) (in_node node.public_ip) other back)
        (put_edge (arrow (out_node node.public_ip) (in_node id))
          (edge_of (out_node node.public_ip) (in_node id) node there) m)

  unfoldable pub add_peers :
      NetworkTelemetry R → Dict (NetworkTelemetry R) → Dict (Edge R) → Dict (Edge R)
  unfolding add_peer
  add_peers node [] m = m
  add_peers node ((id, other) ∷ others) m =
      add_peers node others (if id ≟ node.public_ip then m else add_peer node id other m)

  unfoldable pub add_inner : NetworkTelemetry R → Dict (Edge R) → Dict (Edge R)
  unfolding put_edge in_node out_node edge_risk
  add_inner node m =
      put_edge (arrow (in_node node.public_ip) (out_node node.public_ip))
        (edge_of (in_node node.public_ip) (out_node node.public_ip) node
          (edge_risk ops node.node_congestion.avg_weighted_cache zero_risk zero_risk))
        m

  unfoldable pub add_node : NetworkTelemetry R → GraphManager R → GraphManager R
  unfolding add_inner add_cloud add_peers
  add_node node g =
      let nodes = insert node.public_ip node g.nodes in
      let links = add_cloud node node.links_congestion (add_inner node g.edges) in
      record { edges = add_peers node nodes links; nodes = nodes }
