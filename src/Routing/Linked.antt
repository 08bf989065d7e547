-- ===== src/Routing/Linked.antt =====
-- Adding a node connects it (control-plane/routing/update-graph.go, AddNode): not the keys of the edges
-- only, but the ends that the search reads.
use sky_flow.Base.{
  ℕ, ◌≡◌, refl, sym, ap, inl, inr, Bool, true, false, ◌||◌, [], ◌∷◌, ◌++◌, Option, some, All, arith,
  ◌==◌, Bool-cases, Option-cases,
}
use sky_flow.Base.Text.{Text, codes, ◌≟◌}
use sky_flow.Base.Dict.{Dict, lookup, insert, has, All-insert, All-lookup, has-lookup, lookup-has}
use sky_flow.Base.Floats.{FloatOps}
use sky_flow.Telemetry.{LinkCongestionInfo, NetworkTelemetry}
use sky_flow.Routing.Price.{arrow}
use sky_flow.Routing.{
  Edge, GraphManager, in_node, out_node, put_edge, put_edge_in, add_cloud, add_peer, add_peers,
  add_inner, add_node,
}
use sky_flow.Routing.Connect.{HasKeys, add_node-HasKeys}

-- A text with a `>`, as no IP address has.
abbrev pub has_gt : Text → Bool
has_gt [] = false
has_gt (c ∷ cs) = c == 62 || has_gt cs

has_gt-append : (s t : Text) → has_gt s ≡ false → has_gt t ≡ false → has_gt (s ++ t) ≡ false
has_gt-append [] t p q = q
has_gt-append (c ∷ s) t p q = ground (arith, p, q, has_gt-append s t)

in_node-gt : (n : Text) → has_gt n ≡ false → has_gt (in_node n) ≡ false
unfolding in_node
in_node-gt n h = has_gt-append n (codes "-1") h refl

out_node-gt : (n : Text) → has_gt n ≡ false → has_gt (out_node n) ≡ false
unfolding out_node
out_node-gt n h = has_gt-append n (codes "-2") h refl

abbrev second_of : Text → ℕ
second_of [] = 0
second_of (c ∷ []) = 0
second_of (c ∷ d ∷ cs) = d

-- A name without `>` is read back from a key.
arrow_injective :
    (a b x y : Text)
    → has_gt a ≡ false
    → has_gt b ≡ false
    → arrow a x ≡ arrow b y
    → (a ≡ b) × (x ≡ y)
arrow_injective [] [] x y p q h = (refl, cc h)
arrow_injective (c ∷ a) (d ∷ b) x y p q h =
    let heads : c ≡ d = cc h in
    let tails : arrow a x ≡ arrow b y = cc h in
    let (s, t) = arrow_injective a b x y (ground (arith, p)) (ground (arith, q)) tails in
    (cc (heads, s), t)
arrow_injective [] (d ∷ []) x y p q h =
    let z : 62 ≡ 45 = ap second_of h in absurd (omega (arith, z))
arrow_injective [] (d ∷ e ∷ b) x y p q h =
    let z : 62 ≡ e = ap second_of h in absurd (ground (arith, q, z))
arrow_injective (c ∷ []) [] x y p q h =
    let z : 45 ≡ 62 = ap second_of h in absurd (omega (arith, z))
arrow_injective (c ∷ e ∷ a) [] x y p q h =
    let z : e ≡ 62 = ap second_of h in absurd (ground (arith, p, z))

module _ {R : Type 0} where
  -- The key of an edge is made of its ends, and the name of its source has no `>`.
  abbrev pub IsKeyed : Text × Edge R → Type 0
  IsKeyed (k, e) = (k ≡ arrow e.source_ip e.destination_ip) × (has_gt e.source_ip ≡ false)

  put_edge-IsKeyed :
      (a b : Text) (e : Edge R) (m : Dict (Edge R))
      → has_gt a ≡ false
      → e.source_ip ≡ a
      → e.destination_ip ≡ b
      → All IsKeyed m
      → All IsKeyed (put_edge (arrow a b) e m)
  unfolding put_edge put_edge_in
  put_edge-IsKeyed a b e m p s d h = elim (Option-cases (lookup (arrow a b) m)) [
    | inl l ↦ rw l (All-insert IsKeyed (arrow a b) e m (rw (s, d) refl, rw s p) h)
    | inr (old, l) ↦ rw l (
        All-insert IsKeyed (arrow a b) (record old { edge_weight = e.edge_weight }) m
          (All-lookup IsKeyed (arrow a b) old m l h) h)
  ]

  -- The search finds an edge from `a` to `b`.
  abbrev pub HasEdge : Dict (Edge R) → Text → Text → Type 0
  HasEdge m a b =
      (e : Edge R) × (lookup (arrow a b) m ≡ some e) × (e.source_ip ≡ a) × (e.destination_ip ≡ b)

  has-HasEdge :
      (a b : Text) (m : Dict (Edge R))
      → has_gt a ≡ false
      → All IsKeyed m
      → has (arrow a b) m ≡ true
      → HasEdge m a b
  has-HasEdge a b m p h k =
      let (e, l) = has-lookup (arrow a b) m k in
      let (key, q) = All-lookup IsKeyed (arrow a b) e m l h in
      let (s, d) = arrow_injective a e.source_ip b e.destination_ip p q key in (e, l, sym s, sym d)

  -- An edge each way between the two nodes.
  abbrev pub Linked : Dict (Edge R) → Text → Text → Type 0
  Linked m ip id = HasEdge m (out_node ip) (in_node id) × HasEdge m (out_node id) (in_node ip)

  -- The addresses of the nodes are without `>`.
  abbrev pub ArePlain : Dict (NetworkTelemetry R) → Type 0
  ArePlain = All (λ entry. has_gt entry.0 ≡ false)

module _ {R : Type 0} (ops : FloatOps R) (prices : Option (Dict (Dict R))) where
  add_inner-IsKeyed :
      (node : NetworkTelemetry R) (m : Dict (Edge R))
      → has_gt node.public_ip ≡ false
      → All IsKeyed m
      → All IsKeyed (add_inner ops prices node m)
  unfolding add_inner
  add_inner-IsKeyed node m p h = put_edge-IsKeyed _ _ _ m (in_node-gt node.public_ip p) refl refl h

  add_cloud-IsKeyed :
      (node : NetworkTelemetry R) (links : Dict (LinkCongestionInfo R)) (m : Dict (Edge R))
      → has_gt node.public_ip ≡ false
      → All IsKeyed m
      → All IsKeyed (add_cloud ops prices node links m)
  unfolding add_cloud
  add_cloud-IsKeyed node [] m p h = h
  add_cloud-IsKeyed node ((ip, link) ∷ links) m p h =
      elim (Bool-cases (link.target.target_type ≟ codes "cloud_storage")) [
        | inl e ↦ rw e (
            add_cloud-IsKeyed node links _ p
              (put_edge-IsKeyed _ _ _ m (out_node-gt node.public_ip p) refl refl h))
        | inr e ↦ rw e (add_cloud-IsKeyed node links m p h)
      ]

  add_peers-IsKeyed :
      (node : NetworkTelemetry R) (others : Dict (NetworkTelemetry R)) (m : Dict (Edge R))
      → has_gt node.public_ip ≡ false
      → ArePlain others
      → All IsKeyed m
      → All IsKeyed (add_peers ops prices node others m)
  unfolding add_peers add_peer
  add_peers-IsKeyed node [] m p o h = h
  add_peers-IsKeyed node ((id, other) ∷ others) m p o h = elim (Bool-cases (id ≟ node.public_ip)) [
    | inl e ↦ rw e (add_peers-IsKeyed node others m p o.1 h)
    | inr e ↦ rw e (
        add_peers-IsKeyed node others _ p o.1 (
          put_edge-IsKeyed _ _ _ _ (out_node-gt id o.0) refl refl
            (put_edge-IsKeyed _ _ _ m (out_node-gt node.public_ip p) refl refl h)))
  ]

  add_node-IsKeyed :
      (node : NetworkTelemetry R) (g : GraphManager R)
      → has_gt node.public_ip ≡ false
      → ArePlain g.nodes
      → All IsKeyed g.edges
      → All IsKeyed (add_node ops prices node g).edges × ArePlain (add_node ops prices node g).nodes
  unfolding add_node
  add_node-IsKeyed node g p o h =
      let plain = All-insert (λ entry. has_gt entry.0 ≡ false) node.public_ip node g.nodes p o in
      (
        add_peers-IsKeyed node (insert node.public_ip node g.nodes) _ p plain
            (add_cloud-IsKeyed node node.links_congestion _ p (add_inner-IsKeyed node g.edges p h)),
        plain,
      )

  peers-Linked :
      (f : Dict (Edge R)) (ip : Text) (others : Dict (NetworkTelemetry R))
      → has_gt ip ≡ false
      → ArePlain others
      → All IsKeyed f
      → All (λ entry. (entry.0 ≟ ip) ≡ false → HasKeys f ip entry.0) others
      → All (λ entry. (entry.0 ≟ ip) ≡ false → Linked f ip entry.0) others
  peers-Linked f ip [] p o h k = tt
  peers-Linked f ip ((id, other) ∷ others) p o h k = (
    (λ n.
        let (there, back) = k.0 n in
        (
          has-HasEdge (out_node ip) (in_node id) f (out_node-gt ip p) h there,
          has-HasEdge (out_node id) (in_node ip) f (out_node-gt id o.0) h back,
        )),
    peers-Linked f ip others p o.1 h k.1,
  )

  -- Adding a node gives it its inner edge and an edge to and from each other node of the graph: each
  -- under its key and with these two ends. An edge that was there stays, between the same two ends.
  -- This holds if no address has a `>` and every key is made of the ends of its edge, as the theorem
  -- shows again of the graph with the node.
  pub add_node-Linked :
      (node : NetworkTelemetry R) (g : GraphManager R)
      → has_gt node.public_ip ≡ false
      → ArePlain g.nodes
      → All IsKeyed g.edges
      → let h = add_node ops prices node g in
        HasEdge h.edges (in_node node.public_ip) (out_node node.public_ip)
        × All
            (λ entry. (entry.0 ≟ node.public_ip) ≡ false → Linked h.edges node.public_ip entry.0)
            h.nodes
        × ((e : Edge R)
            → lookup (arrow e.source_ip e.destination_ip) g.edges ≡ some e
            → HasEdge h.edges e.source_ip e.destination_ip)
        × All IsKeyed h.edges
        × ArePlain h.nodes
  add_node-Linked node g p o k =
      let h = add_node ops prices node g in
      let (keyed, plain) = add_node-IsKeyed node g p o k in
      let (inner, peers, kept) = add_node-HasKeys ops prices node g in
      (
        has-HasEdge (in_node node.public_ip) (out_node node.public_ip) h.edges
            (in_node-gt node.public_ip p) keyed inner,
        peers-Linked h.edges node.public_ip h.nodes p plain keyed peers,
        (λ e l.
            let at = arrow e.source_ip e.destination_ip in
            has-HasEdge e.source_ip e.destination_ip h.edges (All-lookup IsKeyed at e g.edges l k).1
              keyed (kept at (lookup-has at e g.edges l))),
        keyed,
        plain,
      )
