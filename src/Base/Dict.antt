-- ===== src/Base/Dict.antt =====
-- A Go `map[string]V` as an association list: reading, writing and deleting a key.
use sky_flow.Base.{
  All, Bool-cases, inl, inr, subst, ◌≡◌, refl, Bool, true, false, List, [], ◌∷◌, Option, none, some,
  arith, if◌then◌else◌,
}
use sky_flow.Base.Text.{Text, ◌≟◌, ≟_iff, ≟→≡}

abbrev pub Dict {ℓ} : Type ℓ → Type ℓ
Dict V = List (Text × V)

module _ {ℓ} {V : Type ℓ} where
  unfoldable pub lookup : Text → Dict V → Option V
  lookup k [] = none
  lookup k ((j, v) ∷ m) = if j ≟ k then some v else lookup k m

  unfoldable pub insert : Text → V → Dict V → Dict V
  insert k v [] = (k, v) ∷ []
  insert k v ((j, w) ∷ m) = if j ≟ k then (k, v) ∷ m else (j, w) ∷ insert k v m

  unfoldable pub delete : Text → Dict V → Dict V
  delete k [] = []
  delete k ((j, v) ∷ m) = let rest = delete k m in if j ≟ k then rest else (j, v) ∷ rest

  unfoldable pub has : Text → Dict V → Bool
  has k [] = false
  has k ((j, v) ∷ m) = if j ≟ k then true else has k m

  pub lookup-insert :
      (k j : Text) (v : V) (m : Dict V)
      → lookup j (insert k v m) ≡ (if k ≟ j then some v else lookup j m)
  unfolding lookup insert
  lookup-insert k j v [] = refl
  lookup-insert k j v ((i, w) ∷ m) =
      ground (arith, ≟_iff k j, ≟_iff i k, ≟_iff i j, lookup-insert k j v m)

  pub lookup-delete :
      (k j : Text) (m : Dict V) → lookup j (delete k m) ≡ (if k ≟ j then none else lookup j m)
  unfolding lookup delete
  lookup-delete k j [] = ground arith
  lookup-delete k j ((i, w) ∷ m) =
      ground (arith, ≟_iff k j, ≟_iff i k, ≟_iff i j, lookup-delete k j m)

  pub has-insert :
      (k j : Text) (v : V) (m : Dict V) → has j (insert k v m) ≡ (if k ≟ j then true else has j m)
  unfolding has insert
  has-insert k j v [] = refl
  has-insert k j v ((i, w) ∷ m) =
      ground (arith, ≟_iff k j, ≟_iff i k, ≟_iff i j, has-insert k j v m)

pub All-insert :
    {V : Type 0} (P : Text × V → Type 0) (k : Text) (v : V) (m : Dict V)
    → P (k, v)
    → All P m
    → All P (insert k v m)
unfolding insert
All-insert P k v [] p h = (p, tt)
All-insert P k v ((j, w) ∷ m) p h = elim (Bool-cases (j ≟ k)) [
  | inl e ↦ rw e (p, h.1)
  | inr e ↦ rw e (h.0, All-insert P k v m p h.1)
]

pub All-lookup :
    {V : Type 0} (P : Text × V → Type 0) (k : Text) (v : V) (m : Dict V)
    → lookup k m ≡ some v
    → All P m
    → P (k, v)
unfolding lookup
All-lookup P k v [] l h = cc
All-lookup P k v ((j, w) ∷ m) l h = elim (Bool-cases (j ≟ k)) [
  | inl e ↦
      let same : w ≡ v = ground (arith, e, l) in
      subst (λ x. P (k, x)) same (subst (λ i. P (i, w)) (≟→≡ j k e) h.0)
  | inr e ↦ let tail : lookup k m ≡ some v = ground (arith, e, l) in All-lookup P k v m tail h.1
]

pub has-lookup :
    {V : Type 0} (k : Text) (m : Dict V) → has k m ≡ true → (v : V) × (lookup k m ≡ some v)
unfolding has lookup
has-lookup k [] h = cc
has-lookup k ((j, w) ∷ m) h = elim (Bool-cases (j ≟ k)) [
  | inl e ↦ rw e (w, refl)
  | inr e ↦ let tail : has k m ≡ true = ground (arith, e, h) in rw e (has-lookup k m tail)
]

pub lookup-has : {V : Type 0} (k : Text) (v : V) (m : Dict V) → lookup k m ≡ some v → has k m ≡ true
unfolding has lookup
lookup-has k v [] h = cc
lookup-has k v ((j, w) ∷ m) h = elim (Bool-cases (j ≟ k)) [
  | inl e ↦ rw e refl
  | inr e ↦ let tail : lookup k m ≡ some v = ground (arith, e, h) in rw e (lookup-has k v m tail)
]
