-- ===== src/Routing/Shortest/Ends.antt =====
-- The fuel of the search is enough, and its result is right.
use sky_flow.Base.{
  ℕ, zero, suc, ◌≡◌, refl, sym, ap, ◌∙◌, subst, inl, inr, ◌⊎◌, Bool, true, false, ◌&&◌, List, [],
  ◌∷◌, some, All, length, arith, Bool-cases,
}
use sky_flow.Base.Text.{Text, ◌≟◌, ≟→≡, ≟-refl}
use sky_flow.Base.Dict.{Dict, lookup}
use sky_flow.Base.Floats.{FloatOps}
use sky_flow.Routing.{Edge}
use sky_flow.Routing.Shortest.{
  Search, Shortest, found, unreachable, out_of_fuel, min_of, edges_from, dist_at, is_stale, is_node,
  trace, visit_least, round, search, start_search, dijkstra,
}
use sky_flow.Routing.Shortest.Walks.{In, first, later, Walk, begin, go}
use sky_flow.Routing.Shortest.Frontier.{CostLaws}
use sky_flow.Routing.Shortest.Optimal.{clash, dist_at-some, Searching, NonNegative}
use sky_flow.Base.{◌+◌, ◌<◌, ◌≢◌, not, length-filterb-le}
use sky_flow.Base.Text.{mem}
use sky_flow.Routing.Shortest.Fuel.{Apart, length-min_of, open_edges, length-open_edges}
use sky_flow.Routing.Shortest.Bounds.{
  Under, Bounded, taken-Bounded, closing, relax_all-Bounded, NonNegative-edges_from,
}
use sky_flow.Routing.Shortest.Rounds.{Correct, search-Correct}

module _ {R : Type 0} (ops : FloatOps R) (laws : CostLaws ops) (inf : R) (edges : List (Edge R))
    (end : Text) where
  -- The queue and the edges that are still to be relaxed.
  abbrev size : List Text → Search R → ℕ
  size closed s = length s.queue + length (open_edges closed edges)

  -- A round gives a result, or makes the sum smaller.
  abbrev Falls : ℕ → Shortest R ⊎ Search R → Type 0
  Falls before (inl r) = r ≢ out_of_fuel
  Falls before (inr s) =
      (closed : List Text) × (b : R) × Bounded ops laws inf edges end closed b s
      × (size closed s < before)

  visited-Falls :
      (closed : List Text) (n : Text) (c : R) (s : Search R)
      → All (NonNegative ops) edges
      → Bounded ops laws inf edges end closed c s
      → All (Apart ops (n, c)) s.queue
      → Under ops laws inf edges end (dist_at inf n s.dist) c
      → (mem n closed ≡ true → ops.lt (dist_at inf n s.dist) c ≡ true)
      → Falls (suc (size closed s)) (visit_least ops inf edges end n c s)
  unfolding visit_least is_stale
  visited-Falls closed n c s p i a u t = elim (Bool-cases (ops.lt (dist_at inf n s.dist) c)) [
    | inl e ↦ rw e (closed, c, i, omega arith)
    | inr e ↦ elim (Bool-cases (n ≟ end)) [
      | inl g ↦ rw (e, g) (found-ends c (trace (suc (length s.prev)) s.prev end []))
      | inr g ↦
          let unclosed : mem n closed ≡ false = open_node (mem n closed) t e in
          let (b, l) =
            relax_all-Bounded ops laws inf edges end (n ∷ closed) n c (edges_from n edges) s
              (NonNegative-edges_from ops laws inf edges end n edges p)
              (closing ops laws inf edges end closed n c s i a u) in
          rw (e, g) (n ∷ closed, c, b, omega (arith, l, length-open_edges n closed edges unclosed))
    ]
  ]
    where
      found-ends : (c : R) (path : List Text) → found path c ≢ out_of_fuel
      found-ends c path h = cc

      open_node :
          (m : Bool)
          → (m ≡ true → ops.lt (dist_at inf n s.dist) c ≡ true)
          → ops.lt (dist_at inf n s.dist) c ≡ false
          → m ≡ false
      open_node true t e = absurd (clash _ (t refl) e)
      open_node false t e = refl

  round-Falls :
      (closed : List Text) (b : R) (s : Search R) (q : List (Text × R))
      → All (NonNegative ops) edges
      → s.queue ≡ q
      → Bounded ops laws inf edges end closed b s
      → Falls (size closed s) (round ops inf edges end s q)
  unfolding round
  round-Falls closed b s [] p h i = none_left unreachable refl
    where
      none_left : (r : Shortest R) → r ≡ unreachable → r ≢ out_of_fuel
      none_left r e h = cc
  round-Falls closed b s (x ∷ q) p h i =
      let (i', a, u, t) = taken-Bounded ops laws inf edges end closed b s x q h i in
      let smaller : suc (size closed (record s { queue = (min_of ops x q).1 })) ≡ size closed s =
        omega (arith, length-min_of ops x q, ap length h) in
      subst
        (λ k. Falls k (
          visit_least ops inf edges end (min_of ops x q).0.0 (min_of ops x q).0.1
            (record s { queue = (min_of ops x q).1 })))
        smaller
        (visited-Falls closed (min_of ops x q).0.0 (min_of ops x q).0.1
          (record s { queue = (min_of ops x q).1 }) p i' a u t)

  search-ends :
      (fuel : ℕ) (closed : List Text) (b : R) (s : Search R)
      → All (NonNegative ops) edges
      → Bounded ops laws inf edges end closed b s
      → size closed s < fuel
      → search ops inf edges end fuel s ≢ out_of_fuel
  unfolding search
  search-ends zero closed b s p i h = absurd (omega arith)
  search-ends (suc fuel) closed b s p i h =
      continued (round ops inf edges end s s.queue)
        (λ closed' b' s' i' l. search-ends fuel closed' b' s' p i' (omega (arith, l)))
        (round-Falls closed b s s.queue p refl i)
    where
      continued :
          (o : Shortest R ⊎ Search R)
          → ((closed' : List Text) (b' : R) (s' : Search R)
              → Bounded ops laws inf edges end closed' b' s'
              → size closed' s' < size closed s
              → search ops inf edges end fuel s' ≢ out_of_fuel)
          → Falls (size closed s) o
          → elim o [ inl r ↦ r | inr s' ↦ search ops inf edges end fuel s' ] ≢ out_of_fuel
      continued (inl r) f h = h
      continued (inr s') f (closed', b', i', l) = f closed' b' s' i' l

  abbrev origin : Text → Dict R
  origin start = (start, ops.ratio 0 1) ∷ []

  lookup-origin : (start : Text) → lookup start (origin start) ≡ some (ops.ratio 0 1)
  unfolding lookup
  lookup-origin start = rw (≟-refl start) refl

  origin-only :
      (start n : Text) (d : R)
      → lookup n (origin start) ≡ some d
      → (n ≡ start) × (d ≡ ops.ratio 0 1)
  unfolding lookup
  origin-only start n d h = elim (Bool-cases (start ≟ n)) [
    | inl e ↦ let same : ops.ratio 0 1 ≡ d = ground (arith, e, h) in (sym (≟→≡ start n e), sym same)
    | inr e ↦ absurd (ground (arith, e, h))
  ]

  dist_at-origin :
      (start : Text)
      → Under ops laws inf edges end (dist_at inf start (origin start)) (ops.ratio 0 1)
  dist_at-origin start =
      subst (λ x. Under ops laws inf edges end x (ops.ratio 0 1))
        (sym (dist_at-some inf start (ops.ratio 0 1) (origin start) (lookup-origin start)))
        (laws.irrefl (ops.ratio 0 1))

  start-Bounded :
      (start : Text)
      → Bounded ops laws inf edges end [] (ops.ratio 0 1) (start_search ops inf start)
  unfolding start_search mem
  start-Bounded start = record {
    low = (laws.irrefl (ops.ratio 0 1), tt);
    above = (dist_at-origin start, tt);
    pairs = (tt, tt);
    shut_dist = tt;
    shut = (λ h. absurd (clash false h refl), tt);
  }

  start-Searching :
      (start : Text) → Searching ops laws inf edges start end (start_search ops inf start)
  unfolding start_search
  start-Searching start = record {
    walked = (begin, tt);
    begun = ((ops.ratio 0 1, lookup-origin start), dist_at-origin start);
    front = λ n d l.
        let (p, q) = origin-only start n d l in
        inl (
          subst (λ m. In (m, d) (origin start)) (sym p)
            (subst (λ c. In (start, c) (origin start)) (sym q) first));
  }

  end_points :
      (e : Edge R) (es : List (Edge R))
      → In e es
      → (is_node e.source_ip es ≡ true) × (is_node e.destination_ip es ≡ true)
  unfolding is_node
  end_points e _ (first {xs}) =
      (ground (arith, ≟-refl e.source_ip), ground (arith, ≟-refl e.destination_ip))
  end_points e _ (later {y} {xs} i) =
      let (s, d) = end_points e xs i in (ground (arith, s), ground (arith, d))

  start_size : (start : Text) → size [] (start_search ops inf start) < suc (suc (length edges))
  unfolding start_search
  start_size start = omega (arith, length-filterb-le (λ e. not (mem e.source_ip [])) edges)

  Walk-is_node :
      (start n : Text) (c : R)
      → Walk ops edges start n c
      → (n ≡ start) ⊎ ((is_node start edges && is_node n edges) ≡ true)
  Walk-is_node start _ _ begin = inl refl
  Walk-is_node start _ _ (go {n} {c} e w i h) =
      let (source, destination) = end_points e edges i in
      elim (Walk-is_node start n c w) [
        | inl same ↦
            inr (both _ _ (subst (λ k. is_node k edges ≡ true) (h ∙ same) source) destination)
        | inr nodes ↦ inr (both _ _ (left_of _ _ nodes) destination)
      ]
    where
      both : (a b : Bool) → a ≡ true → b ≡ true → (a && b) ≡ true
      both a b p q = rw (p, q) refl

      left_of : (a b : Bool) → (a && b) ≡ true → a ≡ true
      left_of a b h = ground arith

  -- The search ends with a result. A path is found with the cost of a walk from the start to the end,
  -- and no walk of finite cost there costs less; or there is no walk of finite cost. The costs are
  -- ordered, adding respects the order, no edge has a negative weight, and the two nodes differ.
  pub dijkstra-Correct :
      (start : Text)
      → All (NonNegative ops) edges
      → (start ≟ end) ≡ false
      → (dijkstra ops inf edges start end ≢ out_of_fuel)
        × Correct ops laws inf edges start end (dijkstra ops inf edges start end)
  unfolding dijkstra
  dijkstra-Correct start p d = elim (Bool-cases (is_node start edges && is_node end edges)) [
    | inl e ↦ rw e (
      search-ends (suc (suc (length edges))) [] (ops.ratio 0 1) (start_search ops inf start) p
          (start-Bounded start) (start_size start),
      search-Correct ops laws inf edges start end (suc (suc (length edges)))
          (start_search ops inf start) p (start-Searching start),
    )
    | inr e ↦ rw e (
      not_found unreachable refl,
      (λ c w. elim (Walk-is_node start end c w) [
        | inl same ↦
            absurd
              (clash (start ≟ end) (subst (λ k. (start ≟ k) ≡ true) (sym same) (≟-refl start)) d)
        | inr nodes ↦ absurd (clash _ nodes e)
      ]),
    )
  ]
    where
      not_found : (r : Shortest R) → r ≡ unreachable → r ≢ out_of_fuel
      not_found r e h = cc
