-- ===== src/Routing/Tests.antt =====
-- Prices, risks and a small graph. Floats are integers that count hundredths.
use sky_flow.Base.{◌⊎◌, ◌<◌, ◌≡◌, refl, true, false, List, [], ◌∷◌, Option, none, some, All, length}
use sky_flow.Base.Int.{ℤ, pos}
use sky_flow.Base.Text.{Text, codes, ◌≟◌}
use sky_flow.Base.Dict.{Dict, lookup, insert, delete}
use sky_flow.Base.Floats.{hundredths}
use sky_flow.Telemetry.{NetworkTelemetry}
use sky_flow.Routing.Price.{arrow, get_bandwidth_price}
use sky_flow.Routing.{GraphManager, new_graph_manager, in_node, out_node, add_node, remove_node}
use sky_flow.Routing.{Edge}
use sky_flow.Routing.Shortest.Walks.{In, Walk}
use sky_flow.Routing.Shortest.{dijkstra, found}
use sky_flow.Routing.Shortest.Tests.{hundredths-CostLaws}
use sky_flow.Routing.Choice.{best_path, hop_list, merged}
use sky_flow.Routing.Choice.Least.{IsLeast, best_path_lem}
use sky_flow.Routing.Graph.{GraphCall, adds, call, calls, remove_node-calls}
use sky_flow.Routing.Linked.{HasEdge, IsKeyed, Linked, ArePlain, add_node-Linked}

abbrev prices : Option (Dict (Dict ℤ))
prices = some (
    (codes "gcp", (codes "Any->Asia", pos 8) ∷ (codes "Any->Any", pos 12) ∷ [])
    ∷ (codes "aws", (codes "Any->Any", pos 9) ∷ [])
    ∷ (codes "oci", (codes "Any->Any", pos 1) ∷ [])
    ∷ [])

-- From the most to the least special key.
to_asia :
    get_bandwidth_price hundredths prices (codes "gcp") (codes "Europe") (codes "Asia")
    ≡ (pos 8, true)
unfolding get_bandwidth_price lookup ◌≟◌
to_asia = refl

to_europe :
    get_bandwidth_price hundredths prices (codes "gcp") (codes "Asia") (codes "Europe")
    ≡ (pos 12, true)
unfolding get_bandwidth_price lookup ◌≟◌
to_europe = refl

-- A provider that the file names and the code does not know costs nothing.
unknown_provider :
    get_bandwidth_price hundredths prices (codes "oci") (codes "Asia") (codes "Asia")
    ≡ (pos 0, false)
unfolding get_bandwidth_price lookup ◌≟◌
unknown_provider = refl

abbrev node : Text → NetworkTelemetry ℤ
node ip = record {
  node_congestion = record {
    avg_weighted_cache = pos 30;
    total_weighted_cache = pos 0;
    total_active_conn = pos 0;
    vm_count = 1;
    calculate_time = pos 0;
  };
  public_ip = ip;
  provider = codes "gcp";
  continent = codes "Asia";
  links_congestion = [];
}

abbrev history : List (GraphCall ℤ)
history = adds (node (codes "10.0.0.1")) ∷ adds (node (codes "10.0.0.2")) ∷ []

abbrev graph : GraphManager ℤ
graph = calls hundredths prices history new_graph_manager

-- Two inner edges and one each way, which the removal keeps.
four_edges : length (remove_node (codes "10.0.0.2") graph).edges ≡ 4
unfolding calls remove_node add_node insert delete lookup ◌≟◌ new_graph_manager call
four_edges = refl

remove_node-calls_example :
    ((remove_node (codes "10.0.0.2") graph).edges ≡ graph.edges)
    × (lookup (codes "10.0.0.2") (remove_node (codes "10.0.0.2") graph).nodes ≡ none)
remove_node-calls_example = remove_node-calls hundredths prices history (codes "10.0.0.2") refl

abbrev grown : GraphManager ℤ
grown = add_node hundredths prices (node (codes "10.0.0.3")) graph

add_node-Linked_example :
    HasEdge grown.edges (in_node (codes "10.0.0.3")) (out_node (codes "10.0.0.3"))
    × All
        (λ entry.
          (entry.0 ≟ codes "10.0.0.3") ≡ false → Linked grown.edges (codes "10.0.0.3") entry.0)
        grown.nodes
    × ((e : Edge ℤ)
        → lookup (arrow e.source_ip e.destination_ip) graph.edges ≡ some e
        → HasEdge grown.edges e.source_ip e.destination_ip)
    × All IsKeyed grown.edges
    × ArePlain grown.nodes
unfolding calls call new_graph_manager add_node insert lookup in_node out_node ◌≟◌
add_node-Linked_example =
    add_node-Linked hundredths prices (node (codes "10.0.0.3")) graph refl (refl, (refl, tt))
      ((refl, refl), ((refl, refl), ((refl, refl), ((refl, refl), tt))))

-- A hop for each address of the path, the last one replaced by the destination.
two_hops :
    merged
      (hop_list [] (
        codes "10.0.0.1-1"
        ∷ codes "10.0.0.1-2"
        ∷ codes "10.0.0.2-1"
        ∷ codes "10.0.0.2-2"
        ∷ codes "gcp_us-east1_b"
        ∷ []))
      (codes "1.2.3.4:80")
    ≡ codes "10.0.0.1:8090,10.0.0.2:8090,1.2.3.4:80"
unfolding hop_list merged ◌≟◌
two_hops = refl

abbrev link : Text → Text → Edge ℤ
link from to = record {
  source_ip = from;
  destination_ip = to;
  source_provider = [];
  source_continent = [];
  edge_weight = pos 5;
}

abbrev links : List (Edge ℤ)
links =
    link (codes "10.0.0.1-1") (codes "10.0.0.1-2")
    ∷ link (codes "10.0.0.1-2") (codes "gcp_asia_b")
    ∷ []

named : (codes "gcp_asia_b" ≟ []) ≡ false
unfolding ◌≟◌
named = refl

apart : (in_node (codes "10.0.0.1") ≟ codes "gcp_asia_b") ≡ false
unfolding in_node ◌≟◌
apart = refl

abbrev chosen : List Text × ℤ
chosen =
    best_path hundredths (pos 1_000_000) links (codes "gcp_asia_b") ([], pos 1_000_000)
      (node (codes "10.0.0.1") ∷ [])

best_path_lem_example :
    ((n : NetworkTelemetry ℤ) × In n (node (codes "10.0.0.1") ∷ [])
      × (dijkstra hundredths (pos 1_000_000) links (in_node n.public_ip) (codes "gcp_asia_b")
          ≡ found chosen.0 chosen.1)
      × Walk hundredths links (in_node n.public_ip) (codes "gcp_asia_b") chosen.1
      × (0 < length chosen.0)
      × IsLeast hundredths hundredths-CostLaws
          (pos 1_000_000)
          links
          (codes "gcp_asia_b")
          (node (codes "10.0.0.1") ∷ [])
          chosen.1)
    ⊎ ((chosen.0 ≡ [])
        × All
            (λ n.
              (d : ℤ)
              → Walk hundredths links (in_node n.public_ip) (codes "gcp_asia_b") d
              → hundredths.lt d (pos 1_000_000) ≡ false)
            (node (codes "10.0.0.1") ∷ []))
best_path_lem_example =
    best_path_lem hundredths hundredths-CostLaws (pos 1_000_000) links (codes "gcp_asia_b")
      (node (codes "10.0.0.1") ∷ []) (refl, (refl, tt)) named (apart, tt)
