-- ===== src/Routing/Shortest/Frontier.antt =====
-- The distances of the search only fall, and every node that has one is queued or has been relaxed.
use sky_flow.Base.{
  ◌≡◌, refl, sym, ap, ◌∙◌, subst, inl, inr, ◌⊎◌, Bool, true, false, List, [], ◌∷◌, ◌++◌, Option,
  some, All, if◌then◌else◌, Bool-cases,
}
use sky_flow.Base.Text.{Text, ◌≟◌, ≟→≡, ≟-refl}
use sky_flow.Base.Dict.{Dict, lookup, insert, lookup-insert}
use sky_flow.Base.Floats.{FloatOps}
use sky_flow.Routing.{Edge}
use sky_flow.Routing.Shortest.{Search, step_cost, relax, relax_all, dist_at, or_inf}
use sky_flow.Routing.Shortest.Walks.{In, In-append, In-last}

-- The order of the costs, `lt b a ≡ false` for a ≤ b, and what adding an edge does to them.
pub record CostLaws {R : Type 0} (ops : FloatOps R) : Type 0 where
  pub irrefl : (a : R) → ops.lt a a ≡ false
  pub asym : (a b : R) → ops.lt a b ≡ true → ops.lt b a ≡ false
  pub le_trans : (a b c : R) → ops.lt b a ≡ false → ops.lt c b ≡ false → ops.lt c a ≡ false
  pub lt_le_trans : (a b c : R) → ops.lt a b ≡ true → ops.lt c b ≡ false → ops.lt a c ≡ true
  pub le_lt_trans : (a b c : R) → ops.lt b a ≡ false → ops.lt b c ≡ true → ops.lt a c ≡ true
  pub add_mono : (a b w : R) → ops.lt b a ≡ false → ops.lt (ops.add b w) (ops.add a w) ≡ false
  pub add_grows :
      (a w : R)
      → ops.lt w (ops.ratio 0 1) ≡ false
      → ops.lt (ops.add a (ops.mul w (ops.ratio 12 10))) a ≡ false

pub All-map :
    {A : Type 0} (P Q : A → Type 0) (xs : List A) → ((x : A) → P x → Q x) → All P xs → All Q xs
All-map P Q [] f h = tt
All-map P Q (x ∷ xs) f h = (f x h.0, All-map P Q xs f h.1)

module _ {R : Type 0} (ops : FloatOps R) (laws : CostLaws ops) (inf : R) where
  abbrev pub Le : R → R → Type 0
  Le a b = ops.lt b a ≡ false

  dist_at-insert :
      (m k : Text) (v : R) (d : Dict R)
      → dist_at inf m (insert k v d) ≡ (if k ≟ m then v else dist_at inf m d)
  unfolding dist_at or_inf
  dist_at-insert m k v d = ap (or_inf inf) (lookup-insert k m v d) ∙ pushed (k ≟ m) (lookup m d)
    where
      pushed :
          (b : Bool) (o : Option R)
          → or_inf inf (if b then some v else o) ≡ (if b then v else or_inf inf o)
      pushed true o = refl
      pushed false o = refl

  pub relax-lower :
      (m n : Text) (c : R) (e : Edge R) (s : Search R)
      → Le (dist_at inf m (relax ops inf n c e s).dist) (dist_at inf m s.dist)
  unfolding relax
  relax-lower m n c e s =
      elim (Bool-cases (ops.lt (step_cost ops c e) (dist_at inf e.destination_ip s.dist))) [
        | inr b ↦ rw b (laws.irrefl (dist_at inf m s.dist))
        | inl b ↦
            rw (b, dist_at-insert m e.destination_ip (step_cost ops c e) s.dist)
              (elim (Bool-cases (e.destination_ip ≟ m)) [
                | inr p ↦ rw p (laws.irrefl (dist_at inf m s.dist))
                | inl p ↦ rw p (
                    subst (λ k. Le (step_cost ops c e) (dist_at inf k s.dist))
                      (≟→≡ e.destination_ip m p)
                      (laws.asym (step_cost ops c e) (dist_at inf e.destination_ip s.dist) b))
              ])
      ]

  pub relax-here :
      (n : Text) (c : R) (e : Edge R) (s : Search R)
      → Le (dist_at inf e.destination_ip (relax ops inf n c e s).dist) (step_cost ops c e)
  unfolding relax
  relax-here n c e s =
      elim (Bool-cases (ops.lt (step_cost ops c e) (dist_at inf e.destination_ip s.dist))) [
        | inr b ↦ rw b b
        | inl b ↦
            rw
              (
                b,
                dist_at-insert e.destination_ip e.destination_ip (step_cost ops c e) s.dist,
                ≟-refl e.destination_ip,
              )
              (laws.irrefl (step_cost ops c e))
      ]

  pub relax_all-lower :
      (m n : Text) (c : R) (es : List (Edge R)) (s : Search R)
      → Le (dist_at inf m (relax_all ops inf n c es s).dist) (dist_at inf m s.dist)
  unfolding relax_all
  relax_all-lower m n c [] s = laws.irrefl (dist_at inf m s.dist)
  relax_all-lower m n c (e ∷ es) s =
      laws.le_trans _ _ _ (relax_all-lower m n c es (relax ops inf n c e s)) (relax-lower m n c e s)

  pub relax_all-covers :
      (n : Text) (c : R) (es : List (Edge R)) (s : Search R)
      → All
          (λ e.
            Le (dist_at inf e.destination_ip (relax_all ops inf n c es s).dist) (step_cost ops c e))
          es
  unfolding relax_all
  relax_all-covers n c [] s = tt
  relax_all-covers n c (e ∷ es) s = (
    laws.le_trans _ _ _ (relax_all-lower e.destination_ip n c es (relax ops inf n c e s))
        (relax-here n c e s),
    relax_all-covers n c es (relax ops inf n c e s),
  )

  module _ (edges : List (Edge R)) (end : Text) where
    -- No edge from `n` improves a distance, if `n` has distance `d`.
    abbrev pub Relaxed : Dict R → Text → R → Type 0
    Relaxed dist n d =
        All
          (λ e.
            (e.source_ip ≟ n) ≡ true → Le (dist_at inf e.destination_ip dist) (step_cost ops d e))
          edges

    -- `X` is for the node that is being expanded.
    abbrev pub Front : (Text → R → Type 0) → Search R → Type 0
    Front X s =
        (n : Text) (d : R)
        → lookup n s.dist ≡ some d
        → In (n, d) s.queue ⊎ ((((n ≟ end) ≡ false) × Relaxed s.dist n d) ⊎ X n d)

    kept :
        (X : Text → R → Type 0) (n : Text) (d : R) (s : Search R) (dist : Dict R)
        (q : List (Text × R))
        → ((m : Text) → Le (dist_at inf m dist) (dist_at inf m s.dist))
        → In (n, d) s.queue ⊎ ((((n ≟ end) ≡ false) × Relaxed s.dist n d) ⊎ X n d)
        → In (n, d) (s.queue ++ q) ⊎ ((((n ≟ end) ≡ false) × Relaxed dist n d) ⊎ X n d)
    kept X n d s dist q l (inl i) = inl (In-append (n, d) s.queue q i)
    kept X n d s dist q l (inr (inr x)) = inr (inr x)
    kept X n d s dist q l (inr (inl (h, r))) =
        inr (inl (h, All-map _ _ edges (λ f g p. laws.le_trans _ _ _ (l f.destination_ip) (g p)) r))

    queued :
        (X : Text → R → Type 0) (n u : Text) (d c : R) (e : Edge R) (s : Search R)
        → ((e.destination_ip ≟ n) ≡ true)
        → some (step_cost ops c e) ≡ some d
        → In (n, d) (s.queue ++ (e.destination_ip, step_cost ops c e) ∷ [])
    queued X n u d c e s p h =
        let same : step_cost ops c e ≡ d = cc in
        subst (λ k. In (k, d) (s.queue ++ (e.destination_ip, step_cost ops c e) ∷ []))
          (≟→≡ e.destination_ip n p)
          (subst
            (λ x. In (e.destination_ip, x) (s.queue ++ (e.destination_ip, step_cost ops c e) ∷ []))
            same (In-last (e.destination_ip, step_cost ops c e) s.queue))

    abbrev pub improved : Text → R → Edge R → Search R → Search R
    improved u c e s = record {
      dist = insert e.destination_ip (step_cost ops c e) s.dist;
      prev = insert e.destination_ip u s.prev;
      queue = s.queue ++ (e.destination_ip, step_cost ops c e) ∷ [];
    }

    improved-Front :
        (X : Text → R → Type 0) (u : Text) (c : R) (e : Edge R) (s : Search R)
        → relax ops inf u c e s ≡ improved u c e s
        → Front X s
        → Front X (improved u c e s)
    improved-Front X u c e s eq f n d h =
        let g = sym (lookup-insert e.destination_ip n (step_cost ops c e) s.dist) ∙ h in
        elim (Bool-cases (e.destination_ip ≟ n)) [
          | inl p ↦ inl (
              queued X n u d c e s p
                (ap (λ b. if b then some (step_cost ops c e) else lookup n s.dist) (sym p) ∙ g))
          | inr p ↦
              kept X n d s _ _
                (λ m.
                  subst (λ r. Le (dist_at inf m r.dist) (dist_at inf m s.dist)) eq
                    (relax-lower m u c e s))
                (f n d
                  (ap (λ b. if b then some (step_cost ops c e) else lookup n s.dist) (sym p) ∙ g))
        ]

    pub relax_cases :
        (u : Text) (c : R) (e : Edge R) (s : Search R)
        → (relax ops inf u c e s ≡ improved u c e s) ⊎ (relax ops inf u c e s ≡ s)
    unfolding relax
    relax_cases u c e s =
        either (ops.lt (step_cost ops c e) (dist_at inf e.destination_ip s.dist)) (improved u c e s)
          s
      where
        either :
            (b : Bool) (x y : Search R) → ((if b then x else y) ≡ x) ⊎ ((if b then x else y) ≡ y)
        either true x y = inl refl
        either false x y = inr refl

    relax-Front :
        (X : Text → R → Type 0) (u : Text) (c : R) (e : Edge R) (s : Search R)
        → Front X s
        → Front X (relax ops inf u c e s)
    relax-Front X u c e s f = elim (relax_cases u c e s) [
      | inl eq ↦ subst (Front X) (sym eq) (improved-Front X u c e s eq f)
      | inr eq ↦ subst (Front X) (sym eq) f
    ]

    pub relax_all-Front :
        (X : Text → R → Type 0) (u : Text) (c : R) (es : List (Edge R)) (s : Search R)
        → Front X s
        → Front X (relax_all ops inf u c es s)
    unfolding relax_all
    relax_all-Front X u c [] s f = f
    relax_all-Front X u c (e ∷ es) s f =
        relax_all-Front X u c es (relax ops inf u c e s) (relax-Front X u c e s f)
