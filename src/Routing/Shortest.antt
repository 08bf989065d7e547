-- ===== src/Routing/Shortest.antt =====
-- The shortest path (control-plane/routing/shortest-algorithm.go, Dijkstra). The queue is a list of
-- which the first least entry is taken: container/heap promises a least one, and no order among equal
-- costs. A distance that is not recorded is `inf`.
pub mod Walks
pub mod Frontier
pub mod Optimal
pub mod Rounds
pub mod Fuel
pub mod Bounds
pub mod Ends
pub mod Tests
use sky_flow.Base.{
  ℕ, zero, suc, ◌+◌, Bool, true, false, ◌&&◌, ◌||◌, ◌⊎◌, inl, inr, List, [], ◌∷◌, ◌++◌, Option,
  none, some, length, filterb, if◌then◌else◌,
}
use sky_flow.Base.Text.{Text, ◌≟◌}
use sky_flow.Base.Dict.{Dict, lookup, insert}
use sky_flow.Base.Floats.{FloatOps}
use sky_flow.Routing.{Edge}

pub record Search (R : Type 0) : Type 0 where
  pub dist : Dict R
  pub prev : Dict Text
  pub queue : List (Text × R)

pub data Shortest (R : Type 0) : Type 0 where
  found : List Text → R → Shortest R
  unreachable : Shortest R
  out_of_fuel : Shortest R

-- A missing key reads as the empty string.
unfoldable pub previous : Option Text → Text
previous none = []
previous (some n) = n

-- `for node := end; node != ""; node = prev[node]`
unfoldable pub trace : ℕ → Dict Text → Text → List Text → List Text
unfolding previous
trace zero prev node path = path
trace (suc fuel) prev node path =
    let further = trace fuel prev (previous (lookup node prev)) (node ∷ path) in
    if node ≟ [] then path else further

unfoldable pub is_node : {R : Type 0} → Text → List (Edge R) → Bool
is_node n [] = false
is_node n (e ∷ es) = e.source_ip ≟ n || (e.destination_ip ≟ n || is_node n es)

unfoldable pub edges_from : {R : Type 0} → Text → List (Edge R) → List (Edge R)
edges_from n es = filterb (λ e. e.source_ip ≟ n) es

module _ {R : Type 0} (ops : FloatOps R) where
  -- The least entry of `x` and a list, and the other entries.
  unfoldable pub min_of : Text × R → List (Text × R) → (Text × R) × List (Text × R)
  min_of x [] = (x, [])
  min_of x (y ∷ ys) =
      let (m, rest) = min_of (if ops.lt y.1 x.1 then y else x) ys in
      (m, (if ops.lt y.1 x.1 then x else y) ∷ rest)

  -- `currCost + e.EdgeWeight*alpha`
  unfoldable pub step_cost : R → Edge R → R
  step_cost c e = ops.add c (ops.mul e.edge_weight (ops.ratio 12 10))

module _ {R : Type 0} (inf : R) where
  unfoldable pub or_inf : Option R → R
  or_inf none = inf
  or_inf (some d) = d

  unfoldable pub dist_at : Text → Dict R → R
  unfolding or_inf
  dist_at n m = or_inf (lookup n m)

module _ {R : Type 0} (ops : FloatOps R) (inf : R) where
  unfoldable pub relax : Text → R → Edge R → Search R → Search R
  unfolding step_cost dist_at
  relax n c e s =
      if ops.lt (step_cost ops c e) (dist_at inf e.destination_ip s.dist)
      then record {
        dist = insert e.destination_ip (step_cost ops c e) s.dist;
        prev = insert e.destination_ip n s.prev;
        queue = s.queue ++ (e.destination_ip, step_cost ops c e) ∷ [];
      }
      else s

  unfoldable pub relax_all : Text → R → List (Edge R) → Search R → Search R
  unfolding relax
  relax_all n c [] s = s
  relax_all n c (e ∷ es) s = relax_all n c es (relax n c e s)

  unfoldable pub is_stale : Text → R → Search R → Bool
  unfolding dist_at
  is_stale n c s = ops.lt (dist_at inf n s.dist) c

  -- A round of `for pq.Len() > 0` at the least entry: the result, or the state to go on with.
  unfoldable pub visit_least : List (Edge R) → Text → Text → R → Search R → Shortest R ⊎ Search R
  unfolding is_stale relax_all edges_from trace
  visit_least edges end n c s =
      if is_stale n c s
      then inr s
      else if n ≟ end
      then inl (found (trace (suc (length s.prev)) s.prev end []) c)
      else inr (relax_all n c (edges_from n edges) s)

  unfoldable pub round : List (Edge R) → Text → Search R → List (Text × R) → Shortest R ⊎ Search R
  unfolding visit_least min_of
  round edges end s [] = inl unreachable
  round edges end s (x ∷ q) =
      let ((n, c), rest) = min_of ops x q in visit_least edges end n c (record s { queue = rest })

  unfoldable pub search : List (Edge R) → Text → ℕ → Search R → Shortest R
  unfolding round
  search edges end zero s = out_of_fuel
  search edges end (suc fuel) s = elim (round edges end s s.queue) [
    | inl r ↦ r
    | inr s' ↦ search edges end fuel s'
  ]

  unfoldable pub start_search : Text → Search R
  start_search start = record {
    dist = (start, ops.ratio 0 1) ∷ [];
    prev = [];
    queue = (start, ops.ratio 0 1) ∷ [];
  }

  -- Each node is expanded once at most, so each edge is queued once at most.
  unfoldable pub dijkstra : List (Edge R) → Text → Text → Shortest R
  unfolding is_node search start_search
  dijkstra edges start end =
      if is_node start edges && is_node end edges
      then search edges end (suc (suc (length edges))) (start_search start)
      else unreachable
