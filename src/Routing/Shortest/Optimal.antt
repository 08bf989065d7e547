-- ===== src/Routing/Shortest/Optimal.antt =====
-- The cost that the search finds is that of a walk, and no walk to the end costs less.
use sky_flow.Base.{
  ◌≡◌, refl, sym, ap, ◌∙◌, subst, inl, inr, ◌⊎◌, Bool, true, false, List, [], ◌∷◌, none, some, All,
  Bool-cases, Option-cases,
}
use sky_flow.Base.Text.{Text, ◌≟◌, ≟-refl}
use sky_flow.Base.Dict.{Dict, lookup, lookup-insert}
use sky_flow.Base.Floats.{FloatOps}
use sky_flow.Routing.{Edge}
use sky_flow.Routing.Shortest.{Search, step_cost, relax, relax_all, dist_at, or_inf}
use sky_flow.Routing.Shortest.Walks.{In, All-In, Walk, begin, go, Walked}
use sky_flow.Routing.Shortest.Frontier.{CostLaws, Le, Relaxed, Front, relax-lower, relax_cases}

pub clash : (b : Bool) → b ≡ true → b ≡ false → ⊥
clash b p q = cc

abbrev pub NonNegative : {R : Type 0} → FloatOps R → Edge R → Type 0
NonNegative ops e = ops.lt e.edge_weight (ops.ratio 0 1) ≡ false

module _ {R : Type 0} (inf : R) where
  pub dist_at-none : (n : Text) (m : Dict R) → lookup n m ≡ none → dist_at inf n m ≡ inf
  unfolding dist_at or_inf
  dist_at-none n m l = ap (or_inf inf) l

  pub dist_at-some : (n : Text) (d : R) (m : Dict R) → lookup n m ≡ some d → dist_at inf n m ≡ d
  unfolding dist_at or_inf
  dist_at-some n d m l = ap (or_inf inf) l

module _ {R : Type 0} (ops : FloatOps R) (laws : CostLaws ops) (inf : R) (edges : List (Edge R))
    (start end : Text) where
  abbrev pub Nobody : Text → R → Type 0
  Nobody n d = ⊥

  abbrev pub Begun : Search R → Type 0
  Begun s =
      ((d : R) × (lookup start s.dist ≡ some d))
      × Le ops laws inf (dist_at inf start s.dist) (ops.ratio 0 1)

  relax-Begun :
      (u : Text) (c : R) (e : Edge R) (s : Search R) → Begun s → Begun (relax ops inf u c e s)
  relax-Begun u c e s ((d, l), b) = (
    elim (relax_cases ops laws inf edges end u c e s) [
      | inr eq ↦ (d, subst (λ r. lookup start r.dist ≡ some d) (sym eq) l)
      | inl eq ↦ elim (Bool-cases (e.destination_ip ≟ start)) [
        | inl p ↦ (
          step_cost ops c e,
          subst (λ r. lookup start r.dist ≡ some (step_cost ops c e)) (sym eq)
              (lookup-insert e.destination_ip start (step_cost ops c e) s.dist ∙ rw p refl),
        )
        | inr p ↦ (
          d,
          subst (λ r. lookup start r.dist ≡ some d) (sym eq)
              (lookup-insert e.destination_ip start (step_cost ops c e) s.dist ∙ rw p l),
        )
      ]
    ],
    laws.le_trans _ _ _ (relax-lower ops laws inf start u c e s) b,
  )

  pub relax_all-Begun :
      (u : Text) (c : R) (es : List (Edge R)) (s : Search R)
      → Begun s
      → Begun (relax_all ops inf u c es s)
  unfolding relax_all
  relax_all-Begun u c [] s b = b
  relax_all-Begun u c (e ∷ es) s b =
      relax_all-Begun u c es (relax ops inf u c e s) (relax-Begun u c e s b)

  pub record Searching (s : Search R) : Type 0 where
    pub walked : Walked ops edges start s.queue
    pub begun : Begun s
    pub front : Front ops laws inf edges end Nobody s

  -- No queued entry costs more than `c`, or the node has been relaxed.
  abbrev pub Ahead : Search R → Text → R → Type 0
  Ahead s n c =
      ((m : Text) × (d : R) × In (m, d) s.queue × Le ops laws inf d c)
      ⊎ (((n ≟ end) ≡ false)
          × ((d : R) × (lookup n s.dist ≡ some d)
              × Le ops laws inf d c
              × Relaxed ops laws inf edges end s.dist n d))

  known-Ahead :
      (s : Search R) (n : Text) (d c : R)
      → Searching s
      → lookup n s.dist ≡ some d
      → Le ops laws inf d c
      → Ahead s n c
  known-Ahead s n d c i l h = elim (i.front n d l) [
    | inl q ↦ inl (n, d, q, h)
    | inr (inl (e, r)) ↦ inr (e, (d, l, h, r))
    | inr (inr x) ↦ absurd x
  ]

  grows : (c : R) (e : Edge R) → NonNegative ops e → Le ops laws inf c (step_cost ops c e)
  unfolding step_cost
  grows c e h = laws.add_grows c e.edge_weight h

  pub mono :
      (c d : R) (e : Edge R)
      → Le ops laws inf c d
      → Le ops laws inf (step_cost ops c e) (step_cost ops d e)
  unfolding step_cost
  mono c d e h = laws.add_mono c d _ h

  finite_before : (c d : R) → Le ops laws inf c d → ops.lt d inf ≡ true → ops.lt c inf ≡ true
  finite_before c d h f = elim (Bool-cases (ops.lt c inf)) [
    | inl e ↦ e
    | inr e ↦ absurd (clash (ops.lt d inf) f (laws.le_trans inf c d e h))
  ]

  step-Ahead :
      (s : Search R) (n : Text) (c : R) (e : Edge R)
      → Searching s
      → NonNegative ops e
      → In e edges
      → e.source_ip ≡ n
      → ops.lt (step_cost ops c e) inf ≡ true
      → Ahead s n c
      → Ahead s e.destination_ip (step_cost ops c e)
  step-Ahead s n c e i p q h f (inl (m, d, j, k)) =
      inl (m, d, j, laws.le_trans _ _ _ k (grows c e p))
  step-Ahead s n c e i p q h f (inr (x, (d, l, k, r))) =
      let reach =
        All-In _ e edges r q (subst (λ k. (e.source_ip ≟ k) ≡ true) h (≟-refl e.source_ip)) in
      let below = laws.le_trans _ _ _ reach (mono d c e k) in
      elim (Option-cases (lookup e.destination_ip s.dist)) [
        | inl o ↦ absurd (
            clash (ops.lt (step_cost ops c e) inf) f (
              subst (λ x. Le ops laws inf x (step_cost ops c e))
                (dist_at-none inf e.destination_ip s.dist o) below))
        | inr (d', o) ↦ known-Ahead s e.destination_ip d' (step_cost ops c e) i o (
            subst (λ x. Le ops laws inf x (step_cost ops c e))
              (dist_at-some inf e.destination_ip d' s.dist o) below)
      ]

  pub Walk-Ahead :
      (s : Search R) (n : Text) (c : R)
      → All (NonNegative ops) edges
      → Searching s
      → Walk ops edges start n c
      → ops.lt c inf ≡ true
      → Ahead s n c
  Walk-Ahead s _ _ p i begin f =
      let ((d, l), b) = i.begun in
      known-Ahead s start d (ops.ratio 0 1) i l
        (subst (λ x. Le ops laws inf x (ops.ratio 0 1)) (dist_at-some inf start d s.dist l) b)
  Walk-Ahead s _ _ p i (go {n} {c} e w q h) f =
      let positive = All-In (NonNegative ops) e edges p q in
      step-Ahead s n c e i positive q h f
        (Walk-Ahead s n c p i w (finite_before c (step_cost ops c e) (grows c e positive) f))
