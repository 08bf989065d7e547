-- ===== src/Routing/Shortest/Bounds.antt =====
-- The bounds that the search keeps.
use sky_flow.Base.{
  ◌≡◌, refl, sym, ap, ◌∙◌, subst, inl, inr, ◌⊎◌, true, false, List, [], ◌∷◌, ◌++◌, All, length,
  arith, if◌then◌else◌, Bool-cases,
}
use sky_flow.Base.Text.{Text, ◌≟◌, ≟→≡}
use sky_flow.Base.Floats.{FloatOps}
use sky_flow.Routing.{Edge}
use sky_flow.Routing.Shortest.{Search, step_cost, min_of, relax, relax_all, edges_from, dist_at}
use sky_flow.Routing.Shortest.Walks.{In, first, later, All-append-one, min_of-All}
use sky_flow.Routing.Shortest.Frontier.{CostLaws, All-map, Le, relax-lower, improved}
use sky_flow.Routing.Shortest.Optimal.{clash, NonNegative}
use sky_flow.Base.{◌+◌, ◌≤◌, length-append}
use sky_flow.Base.Text.{mem}
use sky_flow.Routing.Shortest.Frontier.{relax-here}
use sky_flow.Routing.Shortest.Rounds.{min_of-least}
use sky_flow.Routing.Shortest.Fuel.{Apart, Pairs, min_of-Pairs}

module _ {R : Type 0} (ops : FloatOps R) (laws : CostLaws ops) (inf : R) (edges : List (Edge R))
    (end : Text) where
  abbrev pub Under : R → R → Type 0
  Under = Le ops laws inf

  -- `b` is the cost of the last entry that was taken, `closed` the nodes that were expanded.
  pub record Bounded (closed : List Text) (b : R) (s : Search R) : Type 0 where
    pub low : All (λ z. Under b z.1) s.queue
    pub above : All (λ z. Under (dist_at inf z.0 s.dist) z.1) s.queue
    pub pairs : Pairs ops s.queue
    pub shut_dist : All (λ m. Under (dist_at inf m s.dist) b) closed
    pub shut : All (λ z. mem z.0 closed ≡ true → ops.lt (dist_at inf z.0 s.dist) z.1 ≡ true) s.queue

  relax_improves :
      (n : Text) (c : R) (e : Edge R) (s : Search R)
      → ((relax ops inf n c e s ≡ improved ops laws inf edges end n c e s)
          × (ops.lt (step_cost ops c e) (dist_at inf e.destination_ip s.dist) ≡ true))
        ⊎ (relax ops inf n c e s ≡ s)
  unfolding relax
  relax_improves n c e s =
      elim (Bool-cases (ops.lt (step_cost ops c e) (dist_at inf e.destination_ip s.dist))) [
        | inl b ↦ inl (ap (λ t. if t then improved ops laws inf edges end n c e s else s) b, b)
        | inr b ↦ inr (ap (λ t. if t then improved ops laws inf edges end n c e s else s) b)
      ]

  Pairs-append :
      (z : Text × R) (q : List (Text × R))
      → All (λ y. Apart ops y z) q
      → Pairs ops q
      → Pairs ops (q ++ z ∷ [])
  Pairs-append z [] a p = (tt, tt)
  Pairs-append z (y ∷ ys) a p =
      (All-append-one (Apart ops y) z ys p.0 a.0, Pairs-append z ys a.1 p.1)

  mem-later :
      (m k : Text) (ks : List Text) → (k ≟ m) ≡ false → mem m (k ∷ ks) ≡ true → mem m ks ≡ true
  unfolding mem
  mem-later m k ks e h = ap (λ b. if b then true else mem m ks) (sym e) ∙ h

  mem-dist :
      (m : Text) (closed : List Text) (P : Text → Type 0) → mem m closed ≡ true → All P closed → P m
  unfolding mem
  mem-dist m [] P h a = absurd (clash false h refl)
  mem-dist m (k ∷ ks) P h a = elim (Bool-cases (k ≟ m)) [
    | inl e ↦ subst P (≟→≡ k m e) a.0
    | inr e ↦ mem-dist m ks P (mem-later m k ks e h) a.1
  ]

  improved-Bounded :
      (closed : List Text) (n : Text) (c : R) (e : Edge R) (s : Search R)
      → ops.lt (step_cost ops c e) (dist_at inf e.destination_ip s.dist) ≡ true
      → Under c (step_cost ops c e)
      → ((m : Text)
          → Under
              (dist_at inf m (improved ops laws inf edges end n c e s).dist)
              (dist_at inf m s.dist))
      → Under
          (dist_at inf e.destination_ip (improved ops laws inf edges end n c e s).dist)
          (step_cost ops c e)
      → Bounded closed c s
      → Bounded closed c (improved ops laws inf edges end n c e s)
  improved-Bounded closed n c e s t g l r b = record {
    low = All-append-one _ (e.destination_ip, step_cost ops c e) s.queue b.low g;
    above =
        All-append-one _ (e.destination_ip, step_cost ops c e) s.queue
          (All-map _ _ s.queue (λ z u. laws.le_trans _ _ _ (l z.0) u) b.above) r;
    pairs =
        Pairs-append (e.destination_ip, step_cost ops c e) s.queue
          (All-map _ _ s.queue
            (λ z u h. inr (
              laws.lt_le_trans _ _ _ t
                (subst (λ k. Under (dist_at inf k s.dist) z.1) (≟→≡ z.0 e.destination_ip h) u)))
            b.above)
          b.pairs;
    shut_dist = All-map _ _ closed (λ m u. laws.le_trans _ _ _ (l m) u) b.shut_dist;
    shut =
        All-append-one _ (e.destination_ip, step_cost ops c e) s.queue
          (All-map _ _ s.queue (λ z u h. laws.le_lt_trans _ _ _ (l z.0) (u h)) b.shut)
          (λ h. absurd (
            clash (ops.lt (step_cost ops c e) (dist_at inf e.destination_ip s.dist)) t (
              laws.le_trans _ _ _
                (mem-dist e.destination_ip closed (λ m. Under (dist_at inf m s.dist) c) h
                  b.shut_dist)
                g)));
  }

  grows : (c : R) (e : Edge R) → NonNegative ops e → Under c (step_cost ops c e)
  unfolding step_cost
  grows c e h = laws.add_grows c e.edge_weight h

  relax-Bounded :
      (closed : List Text) (n : Text) (c : R) (e : Edge R) (s : Search R)
      → NonNegative ops e
      → Bounded closed c s
      → Bounded closed c (relax ops inf n c e s)
        × (length (relax ops inf n c e s).queue ≤ length s.queue + 1)
  relax-Bounded closed n c e s p b = elim (relax_improves n c e s) [
    | inr eq ↦
        subst (λ r. Bounded closed c r × (length r.queue ≤ length s.queue + 1)) (sym eq)
          (b, omega arith)
    | inl (eq, t) ↦
        subst (λ r. Bounded closed c r × (length r.queue ≤ length s.queue + 1)) (sym eq)
          (
            improved-Bounded closed n c e s t (grows c e p)
                (λ m.
                  subst (λ r. Under (dist_at inf m r.dist) (dist_at inf m s.dist)) eq
                    (relax-lower ops laws inf m n c e s))
                (subst (λ r. Under (dist_at inf e.destination_ip r.dist) (step_cost ops c e)) eq
                  (relax-here ops laws inf n c e s))
                b,
            omega (arith, length-append s.queue ((e.destination_ip, step_cost ops c e) ∷ [])),
          )
  ]

  pub relax_all-Bounded :
      (closed : List Text) (n : Text) (c : R) (es : List (Edge R)) (s : Search R)
      → All (NonNegative ops) es
      → Bounded closed c s
      → Bounded closed c (relax_all ops inf n c es s)
        × (length (relax_all ops inf n c es s).queue ≤ length s.queue + length es)
  unfolding relax_all
  relax_all-Bounded closed n c [] s p b = (b, omega arith)
  relax_all-Bounded closed n c (e ∷ es) s p b =
      let (b', l) = relax-Bounded closed n c e s p.0 b in
      let (b'', k) = relax_all-Bounded closed n c es (relax ops inf n c e s) p.1 b' in
      (b'', omega (arith, l, k))

  pub NonNegative-edges_from :
      (n : Text) (es : List (Edge R))
      → All (NonNegative ops) es
      → All (NonNegative ops) (edges_from n es)
  unfolding edges_from
  NonNegative-edges_from n [] h = tt
  NonNegative-edges_from n (e ∷ es) h = elim (Bool-cases (e.source_ip ≟ n)) [
    | inl b ↦ rw b (h.0, NonNegative-edges_from n es h.1)
    | inr b ↦ rw b (NonNegative-edges_from n es h.1)
  ]

  -- The state once the least entry is taken.
  pub taken-Bounded :
      (closed : List Text) (b : R) (s : Search R) (x : Text × R) (q : List (Text × R))
      → s.queue ≡ x ∷ q
      → Bounded closed b s
      → Bounded closed (min_of ops x q).0.1 (record s { queue = (min_of ops x q).1 })
        × All (Apart ops (min_of ops x q).0) (min_of ops x q).1
        × Under (dist_at inf (min_of ops x q).0.0 s.dist) (min_of ops x q).0.1
        × (mem (min_of ops x q).0.0 closed ≡ true
            → ops.lt (dist_at inf (min_of ops x q).0.0 s.dist) (min_of ops x q).0.1 ≡ true)
  taken-Bounded closed b s x q h i =
      let parts = min_of-Pairs ops x q (paired.0) (paired.1) in
      let (low_top, low) = kept (λ z. Under b z.1) i.low in
      let (above_top, above) = kept (λ z. Under (dist_at inf z.0 s.dist) z.1) i.above in
      let (shut_top, shut) =
        kept (λ z. mem z.0 closed ≡ true → ops.lt (dist_at inf z.0 s.dist) z.1 ≡ true) i.shut in
      let (_, inside) = min_of-All ops [] [] (λ z. In z (x ∷ q)) x q first (All-self x q) in
      (
        record {
          low =
              All-map _ _ (min_of ops x q).1 (λ z j. min_of-least ops laws inf [] [] [] x q z j)
                inside;
          above = above;
          pairs = parts.1;
          shut_dist = All-map _ _ closed (λ m u. laws.le_trans _ _ _ u low_top) i.shut_dist;
          shut = shut;
        },
        parts.0,
        above_top,
        shut_top,
      )
    where
      kept :
          (P : Text × R → Type 0) → All P s.queue → P (min_of ops x q).0 × All P (min_of ops x q).1
      kept P a = let w = subst (All P) h a in min_of-All ops [] [] P x q w.0 w.1

      paired : All (Apart ops x) q × Pairs ops q
      paired = subst (Pairs ops) h i.pairs

      All-later :
          (z : Text × R) (ys zs : List (Text × R))
          → All (λ y. In y zs) ys
          → All (λ y. In y (z ∷ zs)) ys
      All-later z ys zs a = All-map _ _ ys (λ y j. later j) a

      All-self : (x : Text × R) (q : List (Text × R)) → All (λ z. In z (x ∷ q)) q
      All-self x [] = tt
      All-self x (y ∷ ys) = (later first, All-later x ys (y ∷ ys) (All-self y ys))

  -- Closing the node of the entry, which was open.
  pub closing :
      (closed : List Text) (n : Text) (c : R) (s : Search R)
      → Bounded closed c s
      → All (Apart ops (n, c)) s.queue
      → Under (dist_at inf n s.dist) c
      → Bounded (n ∷ closed) c s
  closing closed n c s i a u = record {
    low = i.low;
    above = i.above;
    pairs = i.pairs;
    shut_dist = (u, i.shut_dist);
    shut = later_entries s.queue a i.low i.shut;
  }
    where
      entry :
          (z : Text × R)
          → Apart ops (n, c) z
          → Under c z.1
          → (mem z.0 closed ≡ true → ops.lt (dist_at inf z.0 s.dist) z.1 ≡ true)
          → mem z.0 (n ∷ closed) ≡ true
          → ops.lt (dist_at inf z.0 s.dist) z.1 ≡ true
      entry z f g k h = elim (Bool-cases (n ≟ z.0)) [
        | inr e ↦ k (mem-later z.0 n closed e h)
        | inl e ↦
            subst (λ m. ops.lt (dist_at inf m s.dist) z.1 ≡ true) (≟→≡ n z.0 e)
              (elim (f e) [
                | inl t ↦ laws.le_lt_trans _ _ _ u t
                | inr t ↦ absurd (clash (ops.lt z.1 c) t g)
              ])
      ]

      later_entries :
          (q : List (Text × R))
          → All (Apart ops (n, c)) q
          → All (λ z. Under c z.1) q
          → All (λ z. mem z.0 closed ≡ true → ops.lt (dist_at inf z.0 s.dist) z.1 ≡ true) q
          → All (λ z. mem z.0 (n ∷ closed) ≡ true → ops.lt (dist_at inf z.0 s.dist) z.1 ≡ true) q
      later_entries [] a l k = tt
      later_entries (z ∷ q) a l k = (entry z a.0 l.0 k.0, later_entries q a.1 l.1 k.1)
