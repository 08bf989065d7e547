-- ===== src/Routing/Shortest/Rounds.antt =====
-- A round of the search keeps what is known, and a result is right.
use sky_flow.Base.{
  ℕ, zero, suc, ◌≡◌, refl, sym, ap, subst, inl, inr, ◌⊎◌, Bool, true, false, List, [], ◌∷◌, some,
  All, length, if◌then◌else◌, Bool-cases,
}
use sky_flow.Base.Text.{Text, ◌≟◌, ≟→≡, ≟-refl}
use sky_flow.Base.Dict.{lookup}
use sky_flow.Base.Floats.{FloatOps}
use sky_flow.Routing.{Edge}
use sky_flow.Routing.Shortest.{
  Search, Shortest, found, unreachable, out_of_fuel, min_of, relax_all, edges_from, dist_at,
  is_stale, trace, visit_least, round, search,
}
use sky_flow.Routing.Shortest.Walks.{
  In, first, later, swapped, Walk, Walked, min_of-All, min_of-In, relax_all-Walked, edges_from-In,
}
use sky_flow.Routing.Shortest.Frontier.{
  CostLaws, Le, Relaxed, Front, relax_all-covers, relax_all-Front,
}
use sky_flow.Routing.Shortest.Optimal.{
  clash, dist_at-some, Begun, relax_all-Begun, Searching, NonNegative, Walk-Ahead,
}

module _ {R : Type 0} (ops : FloatOps R) (laws : CostLaws ops) (inf : R) (edges : List (Edge R))
    (start end : Text) where
  abbrev pub At : R → R → Type 0
  At = Le ops laws inf

  below :
      (m : R) (w o : Text × R) (ys : List (Text × R))
      → ((z : Text × R) → In z (w ∷ ys) → At m z.1)
      → At w.1 o.1
      → (z : Text × R) → In z (o ∷ w ∷ ys)
      → At m z.1
  below m w _ ys f h z first = laws.le_trans _ _ _ (f w first) h
  below m w o ys f h z (later i) = f z i

  pub min_of-least :
      (x : Text × R) (q : List (Text × R)) (z : Text × R)
      → In z (x ∷ q)
      → At (min_of ops x q).0.1 z.1
  unfolding min_of
  min_of-least x [] _ first = laws.irrefl x.1
  min_of-least x [] z (later i) = elim i [ ]
  min_of-least x (y ∷ ys) z i = elim (Bool-cases (ops.lt y.1 x.1)) [
    | inl e ↦ rw e (below _ y x ys (min_of-least y ys) (laws.asym y.1 x.1 e) z i)
    | inr e ↦ rw e (below _ x y ys (min_of-least x ys) e z (swapped z x y ys i))
  ]

  -- What a result promises: the cost of a walk to the end, which no walk of finite cost undercuts; or
  -- that there is no such walk.
  abbrev pub Correct : Shortest R → Type 0
  Correct (found path c) =
      Walk ops edges start end c
      × ((d : R) → Walk ops edges start end d → ops.lt d inf ≡ true → At c d)
  Correct unreachable = (d : R) → Walk ops edges start end d → ops.lt d inf ≡ false
  Correct out_of_fuel = Unit

  abbrev Outcome : Shortest R ⊎ Search R → Type 0
  Outcome (inl r) = Correct r
  Outcome (inr s) = Searching ops laws inf edges start end s

  -- Taken from the queue, and not yet relaxed.
  abbrev Taken : Text → R → Text → R → Type 0
  Taken n c m d = (m ≡ n) × (d ≡ c)

  Taken-Front :
      (s : Search R) (x : Text × R) (q : List (Text × R))
      → s.queue ≡ x ∷ q
      → Searching ops laws inf edges start end s
      → Front ops laws inf edges end
          (Taken (min_of ops x q).0.0 (min_of ops x q).0.1)
          (record s { queue = (min_of ops x q).1 })
  Taken-Front s x q h i m d l = elim (i.front m d l) [
    | inl j ↦ elim (min_of-In ops edges start x q (m, d) (subst (In (m, d)) h j)) [
      | inl e ↦ inr (inr (ap (λ z. z.0) e, ap (λ z. z.1) e))
      | inr k ↦ inl k
    ]
    | inr (inl r) ↦ inr (inl r)
    | inr (inr r) ↦ absurd r
  ]

  stale-Searching :
      (s : Search R) (n : Text) (c : R)
      → ops.lt (dist_at inf n s.dist) c ≡ true
      → Walked ops edges start s.queue
      → Begun ops laws inf edges start end s
      → Front ops laws inf edges end (Taken n c) s
      → Searching ops laws inf edges start end s
  stale-Searching s n c h w b f = record {
    walked = w;
    begun = b;
    front = λ m d l. elim (f m d l) [
      | inl j ↦ inl j
      | inr (inl r) ↦ inr (inl r)
      | inr (inr (p, q)) ↦ absurd (
          clash (ops.lt c c)
            (subst (λ y. ops.lt y c ≡ true)
              (dist_at-some inf n c s.dist (
                subst (λ k. lookup k s.dist ≡ some c) p
                  (subst (λ e. lookup m s.dist ≡ some e) q l)))
              h)
            (laws.irrefl c))
    ];
  }

  from_filter :
      (P : Edge R → Type 0) (n : Text) (es : List (Edge R))
      → All P (edges_from n es)
      → All (λ e. (e.source_ip ≟ n) ≡ true → P e) es
  unfolding edges_from
  from_filter P n [] h = tt
  from_filter P n (e ∷ es) h = split (e.source_ip ≟ n) h (from_filter P n es)
    where
      split :
          (b : Bool)
          → All P (if b then e ∷ edges_from n es else edges_from n es)
          → (All P (edges_from n es) → All (λ e. (e.source_ip ≟ n) ≡ true → P e) es)
          → (b ≡ true → P e) × All (λ e. (e.source_ip ≟ n) ≡ true → P e) es
      split true k f = (λ t. k.0, f k.1)
      split false k f = (λ t. absurd (clash false t refl), f k)

  relaxed-Taken :
      (s : Search R) (n m : Text) (c d : R)
      → (n ≟ end) ≡ false
      → Taken n c m d
      → ((m ≟ end) ≡ false)
        × Relaxed ops laws inf edges end (relax_all ops inf n c (edges_from n edges) s).dist m d
  relaxed-Taken s n m c d h (p, q) = (
    subst (λ k. (k ≟ end) ≡ false) (sym p) h,
    subst
        (λ k.
          Relaxed ops laws inf edges end (relax_all ops inf n c (edges_from n edges) s).dist k d)
        (sym p)
        (subst
          (λ x.
            Relaxed ops laws inf edges end (relax_all ops inf n c (edges_from n edges) s).dist n x)
          (sym q)
          (from_filter _ n edges (relax_all-covers ops laws inf n c (edges_from n edges) s))),
  )

  expanded-Searching :
      (s : Search R) (n : Text) (c : R)
      → (n ≟ end) ≡ false
      → Walk ops edges start n c
      → Walked ops edges start s.queue
      → Begun ops laws inf edges start end s
      → Front ops laws inf edges end (Taken n c) s
      → Searching ops laws inf edges start end (relax_all ops inf n c (edges_from n edges) s)
  expanded-Searching s n c h w q b f = record {
    walked =
        relax_all-Walked ops edges start inf n c (edges_from n edges) s w
          (edges_from-In n edges edges (λ e i. i)) q;
    begun = relax_all-Begun ops laws inf edges start end n c (edges_from n edges) s b;
    front = λ m d l.
        elim (relax_all-Front ops laws inf edges end (Taken n c) n c (edges_from n edges) s f m d
          l) [
            | inl j ↦ inl j
            | inr (inl r) ↦ inr (inl r)
            | inr (inr t) ↦ inr (inl (relaxed-Taken s n m c d h t))
          ];
  }

  found-Correct :
      (s : Search R) (n : Text) (c : R) (path : List Text)
      → All (NonNegative ops) edges
      → Searching ops laws inf edges start end s
      → (n ≟ end) ≡ true
      → Walk ops edges start n c
      → ((z : Text × R) → In z s.queue → At c z.1)
      → Correct (found path c)
  found-Correct s n c path p i h w least = (
    subst (λ k. Walk ops edges start k c) (≟→≡ n end h) w,
    (λ d v f. elim (Walk-Ahead ops laws inf edges start end s end d p i v f) [
      | inl (m, e, j, k) ↦ laws.le_trans _ _ _ (least (m, e) j) k
      | inr (no_end, _) ↦ absurd (clash (end ≟ end) (≟-refl end) no_end)
    ]),
  )

  taken :
      (s : Search R) (x : Text × R) (q : List (Text × R))
      → All (NonNegative ops) edges
      → Searching ops laws inf edges start end s
      → s.queue ≡ x ∷ q
      → Outcome (
          visit_least ops inf edges end
            (min_of ops x q).0.0
            (min_of ops x q).0.1
            (record s { queue = (min_of ops x q).1 }))
  unfolding visit_least is_stale
  taken s x q p i h =
      let w = subst (λ r. Walked ops edges start r) h i.walked in
      let (here, rest) =
        min_of-All ops edges start (λ z. Walk ops edges start z.0 z.1) x q w.0 w.1 in
      let n = (min_of ops x q).0.0 in
      let c = (min_of ops x q).0.1 in
      let f = Taken-Front s x q h i in
      elim (Bool-cases (ops.lt (dist_at inf (min_of ops x q).0.0 s.dist) (min_of ops x q).0.1)) [
        | inl e ↦ rw e (stale-Searching _ n c e rest i.begun f)
        | inr e ↦ elim (Bool-cases ((min_of ops x q).0.0 ≟ end)) [
          | inl g ↦
              rw (e, g)
                (found-Correct s n c (trace (suc (length s.prev)) s.prev end []) p i g here
                  (λ z j. min_of-least x q z (subst (In z) h j)))
          | inr g ↦ rw (e, g) (expanded-Searching _ n c g here rest i.begun f)
        ]
      ]

  unreached :
      (s : Search R)
      → All (NonNegative ops) edges
      → Searching ops laws inf edges start end s
      → s.queue ≡ []
      → (d : R) → Walk ops edges start end d
      → ops.lt d inf ≡ false
  unreached s p i h d w = elim (Bool-cases (ops.lt d inf)) [
    | inr e ↦ e
    | inl e ↦ elim (Walk-Ahead ops laws inf edges start end s end d p i w e) [
      | inl (m, c, j, k) ↦ absurd (nothing (m, c) (subst (In (m, c)) h j))
      | inr (no_end, _) ↦ absurd (clash (end ≟ end) (≟-refl end) no_end)
    ]
  ]
    where
      nothing : (z : Text × R) → In z [] → ⊥
      nothing z i = elim i [ ]

  round-Outcome :
      (s : Search R) (q : List (Text × R))
      → All (NonNegative ops) edges
      → Searching ops laws inf edges start end s
      → s.queue ≡ q
      → Outcome (round ops inf edges end s q)
  unfolding round
  round-Outcome s [] p i h = λ d w. unreached s p i h d w
  round-Outcome s (x ∷ q) p i h = taken s x q p i h

  pub search-Correct :
      (fuel : ℕ) (s : Search R)
      → All (NonNegative ops) edges
      → Searching ops laws inf edges start end s
      → Correct (search ops inf edges end fuel s)
  unfolding search
  search-Correct zero s p i = tt
  search-Correct (suc fuel) s p i =
      continued (round ops inf edges end s s.queue) (λ s' h. search-Correct fuel s' p h)
        (round-Outcome s s.queue p i refl)
    where
      continued :
          (o : Shortest R ⊎ Search R)
          → ((s' : Search R)
              → Searching ops laws inf edges start end s'
              → Correct (search ops inf edges end fuel s'))
          → Outcome o
          → Correct (elim o [ inl r ↦ r | inr s' ↦ search ops inf edges end fuel s' ])
      continued (inl r) f h = h
      continued (inr s') f h = f s' h
