-- ===== src/Routing/Shortest/Walks.antt =====
-- Walks through the graph, with their costs as the search adds them up.
use sky_flow.Base.{◌≡◌, refl, inl, inr, ◌⊎◌, List, [], ◌∷◌, ◌++◌, All, Bool-cases}
use sky_flow.Base.Text.{Text, ◌≟◌, ≟→≡}
use sky_flow.Base.Floats.{FloatOps}
use sky_flow.Routing.{Edge}
use sky_flow.Routing.Shortest.{Search, step_cost, min_of, relax, relax_all, edges_from, dist_at}

pub data In {A : Type 0} (x : A) : List A → Type 0 where
  first : {xs : List A} → In x (x ∷ xs)
  later : {y : A} {xs : List A} → In x xs → In x (y ∷ xs)

pub In-append : {A : Type 0} (x : A) (xs ys : List A) → In x xs → In x (xs ++ ys)
In-append x _ ys (first {xs}) = first
In-append x _ ys (later {y} {xs} p) = later (In-append x xs ys p)

pub In-last : {A : Type 0} (x : A) (xs : List A) → In x (xs ++ x ∷ [])
In-last x [] = first
In-last x (y ∷ ys) = later (In-last x ys)

pub All-In : {A : Type 0} (P : A → Type 0) (x : A) (xs : List A) → All P xs → In x xs → P x
All-In P x _ h (first {xs}) = h.0
All-In P x _ h (later {y} {xs} p) = All-In P x xs h.1 p

pub All-append-one :
    {A : Type 0} (P : A → Type 0) (x : A) (xs : List A) → All P xs → P x → All P (xs ++ x ∷ [])
All-append-one P x [] h p = (p, tt)
All-append-one P x (y ∷ ys) h p = (h.0, All-append-one P x ys h.1 p)

pub swapped : {A : Type 0} (z x y : A) (ys : List A) → In z (x ∷ y ∷ ys) → In z (y ∷ x ∷ ys)
swapped z _ y ys first = later first
swapped z x _ ys (later first) = first
swapped z x y ys (later (later i)) = later (later i)

module _ {R : Type 0} (ops : FloatOps R) (edges : List (Edge R)) (start : Text) where
  -- A walk from the start, extended edge by edge.
  pub data Walk : Text → R → Type 0 where
    begin : Walk start (ops.ratio 0 1)
    go :
        {n : Text} {c : R} (e : Edge R)
        → Walk n c
        → In e edges
        → e.source_ip ≡ n
        → Walk e.destination_ip (step_cost ops c e)

  abbrev pub Walked : List (Text × R) → Type 0
  Walked = All (λ entry. Walk entry.0 entry.1)

  -- The parts of a queue keep what holds of all its entries.
  pub min_of-All :
      (P : Text × R → Type 0) (x : Text × R) (q : List (Text × R))
      → P x
      → All P q
      → P (min_of ops x q).0 × All P (min_of ops x q).1
  unfolding min_of
  min_of-All P x [] p h = (p, tt)
  min_of-All P x (y ∷ ys) p h = elim (Bool-cases (ops.lt y.1 x.1)) [
    | inl e ↦ let (a, b) = min_of-All P y ys h.0 h.1 in rw e (a, (p, b))
    | inr e ↦ let (a, b) = min_of-All P x ys p h.1 in rw e (a, (h.0, b))
  ]

  pub min_of-In :
      (x : Text × R) (q : List (Text × R)) (z : Text × R)
      → In z (x ∷ q)
      → (z ≡ (min_of ops x q).0) ⊎ In z (min_of ops x q).1
  unfolding min_of
  min_of-In x [] z first = inl refl
  min_of-In x [] z (later i) = inr i
  min_of-In x (y ∷ ys) z i = elim (Bool-cases (ops.lt y.1 x.1)) [
    | inl e ↦ rw e (sorted_out y x ys z (swapped z x y ys i) (min_of-In y ys z))
    | inr e ↦ rw e (sorted_out x y ys z i (min_of-In x ys z))
  ]
    where
      sorted_out :
          (x y : Text × R) (ys : List (Text × R)) (z : Text × R)
          → In z (x ∷ y ∷ ys)
          → (In z (x ∷ ys) → (z ≡ (min_of ops x ys).0) ⊎ In z (min_of ops x ys).1)
          → (z ≡ (min_of ops x ys).0) ⊎ In z (y ∷ (min_of ops x ys).1)
      sorted_out _ y ys z first f = elim (f first) [ inl e ↦ inl e | inr i ↦ inr (later i) ]
      sorted_out x _ ys z (later first) f = inr first
      sorted_out x y ys z (later (later i)) f = elim (f (later i)) [
        | inl e ↦ inl e
        | inr j ↦ inr (later j)
      ]

  relax-Walked :
      (inf : R) (n : Text) (c : R) (e : Edge R) (s : Search R)
      → Walk n c
      → In e edges
      → e.source_ip ≡ n
      → Walked s.queue
      → Walked (relax ops inf n c e s).queue
  unfolding relax
  relax-Walked inf n c e s w i h q =
      elim (Bool-cases (ops.lt (step_cost ops c e) (dist_at inf e.destination_ip s.dist))) [
        | inl b ↦ rw b (
            All-append-one (λ entry. Walk entry.0 entry.1) (e.destination_ip, step_cost ops c e)
              s.queue q (go e w i h))
        | inr b ↦ rw b q
      ]

  pub relax_all-Walked :
      (inf : R) (n : Text) (c : R) (es : List (Edge R)) (s : Search R)
      → Walk n c
      → All (λ e. In e edges × (e.source_ip ≡ n)) es
      → Walked s.queue
      → Walked (relax_all ops inf n c es s).queue
  unfolding relax_all
  relax_all-Walked inf n c [] s w h q = q
  relax_all-Walked inf n c (e ∷ es) s w h q =
      relax_all-Walked inf n c es (relax ops inf n c e s) w h.1
        (relax-Walked inf n c e s w h.0.0 h.0.1 q)

pub edges_from-In :
    {R : Type 0} (n : Text) (es edges : List (Edge R))
    → ((e : Edge R) → In e es → In e edges)
    → All (λ e. In e edges × (e.source_ip ≡ n)) (edges_from n es)
unfolding edges_from
edges_from-In n [] edges f = tt
edges_from-In n (e ∷ es) edges f = elim (Bool-cases (e.source_ip ≟ n)) [
  | inl b ↦ rw b ((f e first, ≟→≡ e.source_ip n b), edges_from-In n es edges (λ x i. f x (later i)))
  | inr b ↦ rw b (edges_from-In n es edges (λ x i. f x (later i)))
]
