-- ===== src/Routing/Shortest/Fuel.antt =====
-- The search ends: each node is expanded once at most, so each edge is queued once at most.
use sky_flow.Base.{
  suc, ◌≡◌, refl, sym, ap, subst, inl, inr, ◌⊎◌, true, false, List, [], ◌∷◌, All, length, filterb,
  arith, if◌then◌else◌, Bool-cases,
}
use sky_flow.Base.Text.{Text, ◌≟◌, ≟→≡, ≟-refl}
use sky_flow.Base.Floats.{FloatOps}
use sky_flow.Routing.{Edge}
use sky_flow.Routing.Shortest.{min_of, edges_from}
use sky_flow.Routing.Shortest.Walks.{min_of-All}
use sky_flow.Routing.Shortest.Optimal.{clash}
use sky_flow.Base.{◌+◌, not}
use sky_flow.Base.Text.{mem}

module _ {R : Type 0} (ops : FloatOps R) where
  -- Two entries of a node never cost the same.
  abbrev pub Apart : Text × R → Text × R → Type 0
  Apart x y = (x.0 ≟ y.0) ≡ true → (ops.lt x.1 y.1 ≡ true) ⊎ (ops.lt y.1 x.1 ≡ true)

  abbrev pub Pairs : List (Text × R) → Type 0
  Pairs [] = Unit
  Pairs (x ∷ xs) = All (Apart x) xs × Pairs xs

  Apart-sym : (x y : Text × R) → Apart x y → Apart y x
  Apart-sym x y f e = elim (f (subst (λ k. (x.0 ≟ k) ≡ true) (sym (≟→≡ y.0 x.0 e)) (≟-refl x.0))) [
    | inl h ↦ inr h
    | inr h ↦ inl h
  ]

  min_of-swap :
      (x y : Text × R) (ys : List (Text × R))
      → ops.lt y.1 x.1 ≡ true
      → min_of ops x (y ∷ ys) ≡ ((min_of ops y ys).0, x ∷ (min_of ops y ys).1)
  unfolding min_of
  min_of-swap x y ys e =
      ap
        (λ b. (
          (min_of ops (if b then y else x) ys).0,
          (if b then x else y) ∷ (min_of ops (if b then y else x) ys).1,
        ))
        e

  min_of-keep :
      (x y : Text × R) (ys : List (Text × R))
      → ops.lt y.1 x.1 ≡ false
      → min_of ops x (y ∷ ys) ≡ ((min_of ops x ys).0, y ∷ (min_of ops x ys).1)
  unfolding min_of
  min_of-keep x y ys e =
      ap
        (λ b. (
          (min_of ops (if b then y else x) ys).0,
          (if b then x else y) ∷ (min_of ops (if b then y else x) ys).1,
        ))
        e

  abbrev pub Split : (Text × R) × List (Text × R) → Type 0
  Split (m, rest) = All (Apart m) rest × Pairs rest

  joined :
      (o w : Text × R) (ys : List (Text × R))
      → Apart o w
      → All (Apart o) ys
      → Split (min_of ops w ys)
      → Split ((min_of ops w ys).0, o ∷ (min_of ops w ys).1)
  joined o w ys h a (b, p) =
      let (c, d) = min_of-All ops [] [] (Apart o) w ys h a in
      ((Apart-sym o (min_of ops w ys).0 c, b), (d, p))

  pub min_of-Pairs :
      (x : Text × R) (q : List (Text × R)) → All (Apart x) q → Pairs q → Split (min_of ops x q)
  unfolding min_of
  min_of-Pairs x [] a p = (tt, tt)
  min_of-Pairs x (y ∷ ys) a p = elim (Bool-cases (ops.lt y.1 x.1)) [
    | inl e ↦
        subst Split (sym (min_of-swap x y ys e)) (joined x y ys a.0 a.1 (min_of-Pairs y ys p.0 p.1))
    | inr e ↦
        subst Split (sym (min_of-keep x y ys e))
          (joined y x ys (Apart-sym x y a.0) p.0 (min_of-Pairs x ys a.1 p.1))
  ]

  pub length-min_of : (x : Text × R) (q : List (Text × R)) → length (min_of ops x q).1 ≡ length q
  unfolding min_of
  length-min_of x [] = refl
  length-min_of x (y ∷ ys) = ap suc (length-min_of (if ops.lt y.1 x.1 then y else x) ys)

-- The edges that are still to be relaxed.
abbrev pub open_edges : {R : Type 0} → List Text → List (Edge R) → List (Edge R)
open_edges closed es = filterb (λ e. not (mem e.source_ip closed)) es

flipped : (a b : Text) → (a ≟ b) ≡ false → (b ≟ a) ≡ false
flipped a b h = elim (Bool-cases (b ≟ a)) [
  | inr e ↦ e
  | inl e ↦ absurd (clash (a ≟ a) (≟-refl a) (subst (λ k. (a ≟ k) ≡ false) (≟→≡ b a e) h))
]

pub length-open_edges :
    {R : Type 0} (n : Text) (closed : List Text) (es : List (Edge R))
    → mem n closed ≡ false
    → length (open_edges (n ∷ closed) es) + length (edges_from n es) ≡ length (open_edges closed es)
unfolding edges_from mem
length-open_edges n closed [] h = refl
length-open_edges n closed (e ∷ es) h = elim (Bool-cases (e.source_ip ≟ n)) [
  | inl p ↦
      let same = ≟→≡ e.source_ip n p in
      let there : (n ≟ e.source_ip) ≡ true = subst (λ k. (n ≟ k) ≡ true) (sym same) (≟-refl n) in
      let unclosed : mem e.source_ip closed ≡ false =
        subst (λ k. mem k closed ≡ false) (sym same) h in
      rw (p, there, unclosed) (omega (arith, length-open_edges n closed es h))
  | inr p ↦
      let apart = flipped e.source_ip n p in
      ground (arith, p, apart, length-open_edges n closed es h)
]
