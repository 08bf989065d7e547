-- ===== src/Routing/Connect.antt =====
-- The keys of the edges after adding a node (control-plane/routing/update-graph.go, AddNode).
use sky_flow.Base.{
  ◌≡◌, refl, sym, subst, ◌∙◌, inl, inr, true, false, [], ◌∷◌, Option, All, if◌then◌else◌,
  Bool-cases, Option-cases,
}
use sky_flow.Base.Text.{Text, codes, ◌≟◌, ≟-refl}
use sky_flow.Base.Dict.{Dict, lookup, insert, has, has-insert}
use sky_flow.Base.Floats.{FloatOps}
use sky_flow.Telemetry.{LinkCongestionInfo, NetworkTelemetry}
use sky_flow.Routing.Price.{arrow}
use sky_flow.Routing.{
  Edge, GraphManager, in_node, out_node, put_edge, put_edge_in, add_cloud, add_peer, add_peers,
  add_inner, add_node,
}

module _ {R : Type 0} where
  has-put_edge :
      (key : Text) (e : Edge R) (k : Text) (m : Dict (Edge R))
      → has k (put_edge key e m) ≡ (if key ≟ k then true else has k m)
  unfolding put_edge put_edge_in
  has-put_edge key e k m = elim (Option-cases (lookup key m)) [
    | inl l ↦ rw l (has-insert key k e m)
    | inr (old, l) ↦ rw l (has-insert key k (record old { edge_weight = e.edge_weight }) m)
  ]

  put_edge-here : (key : Text) (e : Edge R) (m : Dict (Edge R)) → has key (put_edge key e m) ≡ true
  put_edge-here key e m = has-put_edge key e key m ∙ rw (≟-refl key) refl

  put_edge-keeps :
      (key : Text) (e : Edge R) (k : Text) (m : Dict (Edge R))
      → has k m ≡ true
      → has k (put_edge key e m) ≡ true
  put_edge-keeps key e k m h =
      has-put_edge key e k m ∙ elim (Bool-cases (key ≟ k)) [ inl p ↦ rw p refl | inr p ↦ rw p h ]

  -- The keys of an edge each way between the two nodes.
  abbrev pub HasKeys : Dict (Edge R) → Text → Text → Type 0
  HasKeys m ip id =
      (has (arrow (out_node ip) (in_node id)) m ≡ true)
      × (has (arrow (out_node id) (in_node ip)) m ≡ true)

module _ {R : Type 0} (ops : FloatOps R) (prices : Option (Dict (Dict R))) where
  add_cloud-keeps :
      (node : NetworkTelemetry R) (links : Dict (LinkCongestionInfo R)) (k : Text)
      (m : Dict (Edge R))
      → has k m ≡ true
      → has k (add_cloud ops prices node links m) ≡ true
  unfolding add_cloud
  add_cloud-keeps node [] k m h = h
  add_cloud-keeps node ((ip, link) ∷ links) k m h =
      elim (Bool-cases (link.target.target_type ≟ codes "cloud_storage")) [
        | inl e ↦ rw e (add_cloud-keeps node links k _ (put_edge-keeps _ _ k m h))
        | inr e ↦ rw e (add_cloud-keeps node links k m h)
      ]

  add_peer-keeps :
      (node : NetworkTelemetry R) (id : Text) (other : NetworkTelemetry R) (k : Text)
      → (m : Dict (Edge R)) → has k m ≡ true
      → has k (add_peer ops prices node id other m) ≡ true
  unfolding add_peer
  add_peer-keeps node id other k m h = put_edge-keeps _ _ k _ (put_edge-keeps _ _ k m h)

  add_peers-keeps :
      (node : NetworkTelemetry R) (others : Dict (NetworkTelemetry R)) (k : Text)
      → (m : Dict (Edge R)) → has k m ≡ true
      → has k (add_peers ops prices node others m) ≡ true
  unfolding add_peers
  add_peers-keeps node [] k m h = h
  add_peers-keeps node ((id, other) ∷ others) k m h = elim (Bool-cases (id ≟ node.public_ip)) [
    | inl e ↦ rw e (add_peers-keeps node others k m h)
    | inr e ↦ rw e (add_peers-keeps node others k _ (add_peer-keeps node id other k m h))
  ]

  add_peer-HasKeys :
      (node : NetworkTelemetry R) (id : Text) (other : NetworkTelemetry R) (m : Dict (Edge R))
      → HasKeys (add_peer ops prices node id other m) node.public_ip id
  unfolding add_peer
  add_peer-HasKeys node id other m =
      (put_edge-keeps _ _ _ _ (put_edge-here _ _ m), put_edge-here _ _ _)

  -- `f` is the map at the end.
  add_peers-HasKeys :
      (node : NetworkTelemetry R) (others : Dict (NetworkTelemetry R)) (m f : Dict (Edge R))
      → f ≡ add_peers ops prices node others m
      → All (λ entry. (entry.0 ≟ node.public_ip) ≡ false → HasKeys f node.public_ip entry.0) others
  unfolding add_peers
  add_peers-HasKeys node [] m f e = tt
  add_peers-HasKeys node ((id, other) ∷ others) m f e = (
    (λ n.
        let (there, back) = add_peer-HasKeys node id other m in
        subst (λ x. HasKeys x node.public_ip id) (sym e)
          (rw n (add_peers-keeps node others _ _ there, add_peers-keeps node others _ _ back))),
    add_peers-HasKeys node others
        (if id ≟ node.public_ip then m else add_peer ops prices node id other m) f e,
  )

  -- The keys of the inner edge and of the edges to and from each other node are there, and no key goes.
  pub add_node-HasKeys :
      (node : NetworkTelemetry R) (g : GraphManager R)
      → (has
            (arrow (in_node node.public_ip) (out_node node.public_ip))
            (add_node ops prices node g).edges
          ≡ true)
        × All
            (λ entry.
              (entry.0 ≟ node.public_ip) ≡ false
              → HasKeys (add_node ops prices node g).edges node.public_ip entry.0)
            (add_node ops prices node g).nodes
        × ((k : Text) → has k g.edges ≡ true → has k (add_node ops prices node g).edges ≡ true)
  unfolding add_node add_inner
  add_node-HasKeys node g =
      let links =
        add_cloud ops prices node node.links_congestion (add_inner ops prices node g.edges) in
      let nodes = insert node.public_ip node g.nodes in
      (
        add_peers-keeps node nodes _ links
            (add_cloud-keeps node node.links_congestion _ _ (put_edge-here _ _ g.edges)),
        add_peers-HasKeys node nodes links _ refl,
        (λ k h.
            add_peers-keeps node nodes k links
              (add_cloud-keeps node node.links_congestion k _ (put_edge-keeps _ _ k g.edges h))),
      )
