-- ===== src/Routing/Choice/Least.antt =====
-- The path that is chosen is one that the search found, and none costs less.
use sky_flow.Base.{
  ℕ, zero, suc, ◌≤◌, ◌<◌, ◌≡◌, ◌≢◌, refl, sym, subst, ap, ◌∙◌, inl, inr, ◌⊎◌, Bool, true, false,
  ◌&&◌, List, [], ◌∷◌, All, arith, length, ltb, if◌then◌else◌, Bool-cases,
}
use sky_flow.Base.Text.{Text, ◌≟◌}
use sky_flow.Base.Dict.{Dict, lookup}
use sky_flow.Base.Floats.{FloatOps}
use sky_flow.Telemetry.{NetworkTelemetry}
use sky_flow.Routing.{Edge, in_node}
use sky_flow.Routing.Shortest.{
  Shortest, found, unreachable, out_of_fuel, dijkstra, search, Search, trace, previous, visit_least,
  round, is_stale, relax_all, edges_from, is_node, start_search,
}
use sky_flow.Routing.Shortest.Walks.{In, All-In, first, later, Walk}
use sky_flow.Routing.Shortest.Frontier.{CostLaws, Le}
use sky_flow.Routing.Shortest.Optimal.{NonNegative, clash}
use sky_flow.Routing.Shortest.Rounds.{Correct}
use sky_flow.Routing.Shortest.Ends.{dijkstra-Correct}
use sky_flow.Routing.Choice.{better, best_path}

module _ {R : Type 0} (ops : FloatOps R) (laws : CostLaws ops) (inf : R) (edges : List (Edge R))
    (server : Text) where
  better-lower :
      (best : List Text × R) (r : Shortest R) → Le ops laws inf (better ops inf best r).1 best.1
  unfolding better
  better-lower best (found path c) = lower (ltb 0 (length path)) (ops.lt c best.1) refl
    where
      lower :
          (a b : Bool)
          → ops.lt c best.1 ≡ b
          → Le ops laws inf (if a && b then (path, c) else best).1 best.1
      lower true true e = laws.asym c best.1 e
      lower true false e = laws.irrefl best.1
      lower false b e = laws.irrefl best.1
  better-lower best unreachable = laws.irrefl best.1
  better-lower best out_of_fuel = laws.irrefl best.1

  better-here :
      (best : List Text × R) (path : List Text) (c : R)
      → 0 < length path
      → Le ops laws inf (better ops inf best (found path c)).1 c
  unfolding better
  better-here best path c h = lower (ops.lt c best.1) refl (ltb 0 (length path)) (ground arith)
    where
      lower :
          (b : Bool)
          → ops.lt c best.1 ≡ b
          → (a : Bool) → a ≡ true
          → Le ops laws inf (if a && b then (path, c) else best).1 c
      lower true e true h = laws.irrefl c
      lower false e true h = e
      lower b e false h = absurd (clash false h refl)

  best_path-lower :
      (best : List Text × R) (ns : List (NetworkTelemetry R))
      → Le ops laws inf (best_path ops inf edges server best ns).1 best.1
  unfolding best_path
  best_path-lower best [] = laws.irrefl best.1
  best_path-lower best (n ∷ ns) =
      laws.le_trans _ _ _
        (best_path-lower (better ops inf best (dijkstra ops inf edges (in_node n.public_ip) server))
          ns)
        (better-lower best (dijkstra ops inf edges (in_node n.public_ip) server))

  length-trace :
      (fuel : ℕ) (prev : Dict Text) (n : Text) (path : List Text)
      → length path ≤ length (trace fuel prev n path)
  unfolding trace
  length-trace zero prev n path = omega arith
  length-trace (suc fuel) prev n path = elim (Bool-cases (n ≟ [])) [
    | inl e ↦ rw e (omega arith)
    | inr e ↦ rw e (omega (arith, length-trace fuel prev (previous (lookup n prev)) (n ∷ path)))
  ]

  -- A path that is found has a node.
  abbrev NonEmpty : Shortest R → Type 0
  NonEmpty (found path c) = 0 < length path
  NonEmpty unreachable = Unit
  NonEmpty out_of_fuel = Unit

  abbrev Turn : Shortest R ⊎ Search R → Type 0
  Turn (inl r) = NonEmpty r
  Turn (inr s) = Unit

  traced :
      (fuel : ℕ) (prev : Dict Text)
      → (server ≟ []) ≡ false
      → 0 < length (trace (suc fuel) prev server [])
  unfolding trace
  traced fuel prev h =
      rw h (omega (arith, length-trace fuel prev (previous (lookup server prev)) (server ∷ [])))

  visited :
      (n : Text) (c : R) (s : Search R)
      → (server ≟ []) ≡ false
      → Turn (visit_least ops inf edges server n c s)
  unfolding visit_least
  visited n c s h = turns (is_stale ops inf n c s) (n ≟ server) (traced (length s.prev) s.prev h)
    where
      turns :
          (a b : Bool)
          → 0 < length (trace (suc (length s.prev)) s.prev server [])
          → Turn (
              if a
              then inr s
              else if b
              then inl (found (trace (suc (length s.prev)) s.prev server []) c)
              else inr (relax_all ops inf n c (edges_from n edges) s))
      turns true b p = tt
      turns false true p = p
      turns false false p = tt

  round-Turn :
      (s : Search R) (q : List (Text × R))
      → (server ≟ []) ≡ false
      → Turn (round ops inf edges server s q)
  unfolding round
  round-Turn s [] h = tt
  round-Turn s (x ∷ q) h = visited _ _ _ h

  search-NonEmpty :
      (fuel : ℕ) (s : Search R)
      → (server ≟ []) ≡ false
      → NonEmpty (search ops inf edges server fuel s)
  unfolding search
  search-NonEmpty zero s h = tt
  search-NonEmpty (suc fuel) s h =
      continued (round ops inf edges server s s.queue) (round-Turn s s.queue h)
        (λ s'. search-NonEmpty fuel s' h)
    where
      continued :
          (o : Shortest R ⊎ Search R)
          → Turn o
          → ((s' : Search R) → NonEmpty (search ops inf edges server fuel s'))
          → NonEmpty (elim o [ inl r ↦ r | inr s' ↦ search ops inf edges server fuel s' ])
      continued (inl r) t f = t
      continued (inr s') t f = f s'

  dijkstra-NonEmpty :
      (start : Text) → (server ≟ []) ≡ false → NonEmpty (dijkstra ops inf edges start server)
  unfolding dijkstra
  dijkstra-NonEmpty start h = either (is_node start edges && is_node server edges)
    where
      either :
          (b : Bool)
          → NonEmpty (
              if b
              then search ops inf edges server
                  (suc (suc (length edges)))
                  (start_search ops inf start)
              else unreachable)
      either true = search-NonEmpty (suc (suc (length edges))) (start_search ops inf start) h
      either false = tt

  better-least :
      (best : List Text × R) (start : Text) (r : Shortest R) (d : R)
      → NonEmpty r
      → r ≢ out_of_fuel
      → Correct ops laws inf edges start server r
      → Walk ops edges start server d
      → ops.lt d inf ≡ true
      → Le ops laws inf (better ops inf best r).1 d
  better-least best start (found path c) d n h k w f =
      laws.le_trans _ _ _ (better-here best path c n) (k.1 d w f)
  better-least best start unreachable d n h k w f = absurd (clash (ops.lt d inf) f (k d w))
  better-least best start out_of_fuel d n h k w f = absurd (h refl)

  -- `best` is what the search found from one of the nodes, path and cost.
  abbrev IsFrom : List (NetworkTelemetry R) → List Text × R → Type 0
  IsFrom ns best =
      (n : NetworkTelemetry R) × In n ns
      × (dijkstra ops inf edges (in_node n.public_ip) server ≡ found best.0 best.1)

  better-cases :
      (best : List Text × R) (r : Shortest R)
      → (better ops inf best r ≡ best)
        ⊎ (r ≡ found (better ops inf best r).0 (better ops inf best r).1)
  unfolding better
  better-cases best (found path c) = either (ltb 0 (length path) && ops.lt c best.1)
    where
      either :
          (b : Bool)
          → ((if b then (path, c) else best) ≡ best)
            ⊎ (found path c
                ≡ found (if b then (path, c) else best).0 (if b then (path, c) else best).1)
      either true = inr refl
      either false = inl refl
  better-cases best unreachable = inl refl
  better-cases best out_of_fuel = inl refl

  best_path-IsFrom :
      (best : List Text × R) (ns : List (NetworkTelemetry R))
      → (best_path ops inf edges server best ns ≡ best)
        ⊎ IsFrom ns (best_path ops inf edges server best ns)
  unfolding best_path
  best_path-IsFrom best [] = inl refl
  best_path-IsFrom best (n ∷ ns) =
      let r = dijkstra ops inf edges (in_node n.public_ip) server in
      elim (best_path-IsFrom (better ops inf best r) ns) [
        | inr (m, i, e) ↦ inr (m, later i, e)
        | inl e ↦ elim (better-cases best r) [
          | inl k ↦ inl (e ∙ k)
          | inr k ↦ inr (n, first, k ∙ ap (λ b. found b.0 b.1) (sym e))
        ]
      ]

  -- No walk of finite cost from any of the nodes costs less.
  abbrev pub IsLeast : List (NetworkTelemetry R) → R → Type 0
  IsLeast ns c =
      All
        (λ n.
          (d : R)
          → Walk ops edges (in_node n.public_ip) server d
          → ops.lt d inf ≡ true
          → Le ops laws inf c d)
        ns

  best_path-IsLeast :
      (best : List Text × R) (ns : List (NetworkTelemetry R))
      → All (NonNegative ops) edges
      → (server ≟ []) ≡ false
      → All (λ n. (in_node n.public_ip ≟ server) ≡ false) ns
      → IsLeast ns (best_path ops inf edges server best ns).1
  unfolding best_path
  best_path-IsLeast best [] p h a = tt
  best_path-IsLeast best (n ∷ ns) p h a =
      let start = in_node n.public_ip in
      let (ends, right) = dijkstra-Correct ops laws inf edges server start p a.0 in
      let next = better ops inf best (dijkstra ops inf edges start server) in
      (
        (λ d w f. laws.le_trans _ _ _ (best_path-lower next ns) (
            better-least best start (dijkstra ops inf edges start server) d
              (dijkstra-NonEmpty start h) ends right w f)),
        best_path-IsLeast next ns p h a.1,
      )

  none_finite :
      (ns : List (NetworkTelemetry R))
      → IsLeast ns inf
      → All (λ n. (d : R) → Walk ops edges (in_node n.public_ip) server d → ops.lt d inf ≡ false) ns
  none_finite [] h = tt
  none_finite (n ∷ ns) h = (
    (λ d w. elim (Bool-cases (ops.lt d inf)) [ inl e ↦ h.0 d w e | inr e ↦ e ]),
    none_finite ns h.1,
  )

  -- The answer for all start nodes: the path and the cost that the search found from one of them, and
  -- that cost is the cost of a walk and no more than that of any walk of finite cost from any of them to
  -- the server; or no path, and then no walk of finite cost leads there from any of them. Costs and
  -- weights are as for the shortest path; the server has a name, and it is none of the start nodes'.
  pub best_path_lem :
      (ns : List (NetworkTelemetry R))
      → All (NonNegative ops) edges
      → (server ≟ []) ≡ false
      → All (λ n. (in_node n.public_ip ≟ server) ≡ false) ns
      → let (path, cost) = best_path ops inf edges server ([], inf) ns in
        ((n : NetworkTelemetry R) × In n ns
          × (dijkstra ops inf edges (in_node n.public_ip) server ≡ found path cost)
          × Walk ops edges (in_node n.public_ip) server cost
          × (0 < length path)
          × IsLeast ns cost)
        ⊎ ((path ≡ [])
            × All
                (λ n.
                  (d : R) → Walk ops edges (in_node n.public_ip) server d → ops.lt d inf ≡ false)
                ns)
  best_path_lem ns p h a =
      let best = best_path ops inf edges server ([], inf) ns in
      let least = best_path-IsLeast ([], inf) ns p h a in
      elim (best_path-IsFrom ([], inf) ns) [
        | inl e ↦ inr (ap (λ b. b.0) e, none_finite ns (subst (λ b. IsLeast ns b.1) e least))
        | inr (n, i, e) ↦
            let start = in_node n.public_ip in
            let (_, right) =
              dijkstra-Correct ops laws inf edges server start p
                (All-In (λ n. (in_node n.public_ip ≟ server) ≡ false) n ns a i) in
            inl (
              n,
              i,
              e,
              (subst (Correct ops laws inf edges start server) e right).0,
              subst NonEmpty e (dijkstra-NonEmpty start h),
              least,
            )
      ]
