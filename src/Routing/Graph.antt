-- ===== src/Routing/Graph.antt =====
-- What adding and removing nodes does to the edges (control-plane/routing/update-graph.go).
use sky_flow.Base.{
  ◌≡◌, refl, ap, ◌∙◌, inl, inr, Bool, true, false, ◌||◌, List, [], ◌∷◌, ◌++◌, Option, none, All,
  arith, ◌==◌, Bool-cases, Option-cases,
}
use sky_flow.Base.Text.{Text, codes, ◌≟◌, ≟→≡, ≟-refl}
use sky_flow.Base.Dict.{Dict, lookup, insert, lookup-delete, All-insert, All-lookup}
use sky_flow.Base.Floats.{FloatOps}
use sky_flow.Telemetry.{ProbeTask, LinkCongestionInfo, NetworkTelemetry}
use sky_flow.Routing.{
  Edge, GraphManager, new_graph_manager, in_node, out_node, put_edge, put_edge_in, touches,
  drop_edges, remove_node, cloud_name, add_cloud, add_peer, add_peers, add_inner, add_node,
}

-- A text with a `-` or a `_`, as no IP address has.
abbrev pub has_mark : Text → Bool
has_mark [] = false
has_mark (c ∷ cs) = c == 45 || (c == 95 || has_mark cs)

has_mark-append : (s t : Text) → has_mark t ≡ true → has_mark (s ++ t) ≡ true
has_mark-append [] t h = h
has_mark-append (c ∷ cs) t h = ground (arith, has_mark-append cs t h)

in_node-mark : (n : Text) → has_mark (in_node n) ≡ true
unfolding in_node
in_node-mark n = has_mark-append n (codes "-1") refl

out_node-mark : (n : Text) → has_mark (out_node n) ≡ true
unfolding out_node
out_node-mark n = has_mark-append n (codes "-2") refl

differs : (s id : Text) → has_mark s ≡ true → has_mark id ≡ false → (s ≟ id) ≡ false
differs s id p q = elim (Bool-cases (s ≟ id)) [
  | inr e ↦ e
  | inl e ↦ let same = ≟→≡ s id e in absurd (clash (has_mark s) p (ap has_mark same ∙ q))
]
  where
    clash : (b : Bool) → b ≡ true → b ≡ false → ⊥
    clash b p q = cc

cloud_name-mark : (t : ProbeTask) → has_mark (cloud_name t) ≡ true
unfolding cloud_name
cloud_name-mark t = has_mark-append t.provider (95 ∷ (t.region ++ 95 ∷ t.id)) refl

module _ {R : Type 0} where
  -- Both ends of an edge are marked.
  abbrev pub Marked : Text × Edge R → Type 0
  Marked (k, e) = (has_mark e.source_ip ≡ true) × (has_mark e.destination_ip ≡ true)

  Marked-put_edge :
      (key : Text) (e : Edge R) (m : Dict (Edge R))
      → has_mark e.source_ip ≡ true
      → has_mark e.destination_ip ≡ true
      → All Marked m
      → All Marked (put_edge key e m)
  unfolding put_edge put_edge_in
  Marked-put_edge key e m p q h = elim (Option-cases (lookup key m)) [
    | inl l ↦ rw l (All-insert Marked key e m (p, q) h)
    | inr (old, l) ↦ rw l (
        All-insert Marked key (record old { edge_weight = e.edge_weight }) m
          (All-lookup Marked key old m l h) h)
  ]

  Marked-drop_edges : (id : Text) (m : Dict (Edge R)) → All Marked m → All Marked (drop_edges id m)
  unfolding drop_edges
  Marked-drop_edges id [] h = tt
  Marked-drop_edges id ((k, e) ∷ m) h = elim (Bool-cases (touches id e)) [
    | inl t ↦ rw t (Marked-drop_edges id m h.1)
    | inr t ↦ rw t (h.0, Marked-drop_edges id m h.1)
  ]

  drop_edges-Marked :
      (id : Text) (m : Dict (Edge R)) → has_mark id ≡ false → All Marked m → drop_edges id m ≡ m
  unfolding drop_edges touches
  drop_edges-Marked id [] q h = refl
  drop_edges-Marked id ((k, e) ∷ m) q h =
      rw (differs e.source_ip id h.0.0 q, differs e.destination_ip id h.0.1 q)
        (ap (λ r. (k, e) ∷ r) (drop_edges-Marked id m q h.1))

-- A call that changes the graph.
pub data GraphCall (R : Type 0) : Type 0 where
  adds : NetworkTelemetry R → GraphCall R
  removes : Text → GraphCall R

module _ {R : Type 0} (ops : FloatOps R) (prices : Option (Dict (Dict R))) where
  Marked-add_inner :
      (node : NetworkTelemetry R) (m : Dict (Edge R))
      → All Marked m
      → All Marked (add_inner ops prices node m)
  unfolding add_inner
  Marked-add_inner node m h =
      Marked-put_edge _ _ m (in_node-mark node.public_ip) (out_node-mark node.public_ip) h

  Marked-add_cloud :
      (node : NetworkTelemetry R) (links : Dict (LinkCongestionInfo R)) (m : Dict (Edge R))
      → All Marked m
      → All Marked (add_cloud ops prices node links m)
  unfolding add_cloud
  Marked-add_cloud node [] m h = h
  Marked-add_cloud node ((ip, link) ∷ links) m h =
      elim (Bool-cases (link.target.target_type ≟ codes "cloud_storage")) [
        | inl e ↦ rw e (
            Marked-add_cloud node links _ (
              Marked-put_edge _ _ m (out_node-mark node.public_ip) (cloud_name-mark link.target) h))
        | inr e ↦ rw e (Marked-add_cloud node links m h)
      ]

  Marked-add_peer :
      (node : NetworkTelemetry R) (id : Text) (other : NetworkTelemetry R) (m : Dict (Edge R))
      → All Marked m
      → All Marked (add_peer ops prices node id other m)
  unfolding add_peer
  Marked-add_peer node id other m h =
      Marked-put_edge _ _ _ (out_node-mark id) (in_node-mark node.public_ip)
        (Marked-put_edge _ _ m (out_node-mark node.public_ip) (in_node-mark id) h)

  Marked-add_peers :
      (node : NetworkTelemetry R) (others : Dict (NetworkTelemetry R)) (m : Dict (Edge R))
      → All Marked m
      → All Marked (add_peers ops prices node others m)
  unfolding add_peers
  Marked-add_peers node [] m h = h
  Marked-add_peers node ((id, other) ∷ others) m h = elim (Bool-cases (id ≟ node.public_ip)) [
    | inl e ↦ rw e (Marked-add_peers node others m h)
    | inr e ↦ rw e (
        Marked-add_peers node others (add_peer ops prices node id other m)
          (Marked-add_peer node id other m h))
  ]

  unfoldable pub call : GraphCall R → GraphManager R → GraphManager R
  call (adds node) g = add_node ops prices node g
  call (removes id) g = remove_node id g

  unfoldable pub calls : List (GraphCall R) → GraphManager R → GraphManager R
  calls [] g = g
  calls (c ∷ cs) g = calls cs (call c g)

  Marked-call :
      (c : GraphCall R) (g : GraphManager R) → All Marked g.edges → All Marked (call c g).edges
  unfolding call add_node remove_node
  Marked-call (adds node) g h =
      Marked-add_peers node (insert node.public_ip node g.nodes) _
        (Marked-add_cloud node node.links_congestion _ (Marked-add_inner node g.edges h))
  Marked-call (removes id) g h = Marked-drop_edges id g.edges h

  Marked-calls :
      (cs : List (GraphCall R)) (g : GraphManager R)
      → All Marked g.edges
      → All Marked (calls cs g).edges
  unfolding calls
  Marked-calls [] g h = h
  Marked-calls (c ∷ cs) g h = Marked-calls cs (call c g) (Marked-call c g h)

  start-Marked : All (Marked {R = R}) new_graph_manager.edges
  unfolding new_graph_manager
  start-Marked = tt

  -- Whatever was added and removed before, removing a node whose identifier is an IP address, without
  -- `-` and `_`, forgets the node but removes no edge.
  pub remove_node-calls :
      (cs : List (GraphCall R)) (id : Text)
      → has_mark id ≡ false
      → ((remove_node id (calls cs new_graph_manager)).edges ≡ (calls cs new_graph_manager).edges)
        × (lookup id (remove_node id (calls cs new_graph_manager)).nodes ≡ none)
  unfolding remove_node
  remove_node-calls cs id h = (
    drop_edges-Marked id (calls cs new_graph_manager).edges h
        (Marked-calls cs new_graph_manager start-Marked),
    lookup-delete id id (calls cs new_graph_manager).nodes ∙ rw (≟-refl id) refl,
  )
