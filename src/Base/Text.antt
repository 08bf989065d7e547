-- ===== src/Base/Text.antt =====
-- Go strings as the list of their bytes, with `==`.
use Prim.Native.Char.{code}
use Prim.Native.String.{String}
use sky_flow.Base.{
  ℕ, ◌≡◌, refl, subst, ◌↔◌, Bool, true, false, ◌&&◌, ◌≢◌, inl, inr, Bool-cases, List, [], All, ◌∷◌,
  arith, ◌==◌, ℕ_discrete, if◌then◌else◌,
}

abbrev pub Text : Type 0
Text = List ℕ

abbrev pub codes : String → Text
codes String.[] = []
codes (String.◌∷◌ c s) = code c ∷ codes s

infix 50 ◌≟◌
unfoldable pub ◌≟◌ : Text → Text → Bool
[] ≟ [] = true
[] ≟ (y ∷ ys) = false
(x ∷ xs) ≟ [] = false
(x ∷ xs) ≟ (y ∷ ys) = x == y && xs ≟ ys

pub ≟→≡ : (s t : Text) → (s ≟ t) ≡ true → s ≡ t
unfolding ◌≟◌
≟→≡ [] [] h = refl
≟→≡ [] (y ∷ ys) h = cc
≟→≡ (x ∷ xs) [] h = cc
≟→≡ (x ∷ xs) (y ∷ ys) h = ground (arith, ≟→≡ xs ys)

pub ≟-refl : (s : Text) → (s ≟ s) ≡ true
unfolding ◌≟◌
≟-refl [] = refl
≟-refl (x ∷ xs) = ground (arith, ≟-refl xs)

pub ≟→≢ : (s t : Text) → (s ≟ t) ≡ false → s ≢ t
≟→≢ s t e q = cc (subst (λ x. (s ≟ x) ≡ true) q (≟-refl s), e)

pub ne→≟ : (s t : Text) → s ≢ t → (s ≟ t) ≡ false
ne→≟ s t d = elim (Bool-cases (s ≟ t)) [ inl e ↦ absurd (d (≟→≡ s t e)) | inr e ↦ e ]

pub ≟_iff : (s t : Text) → ((s ≟ t) ≡ true) ↔ (s ≡ t)
≟_iff s t = (≟→≡ s t, λ e. rw e (≟-refl t))

pub Text-discrete : Discrete Text
Text-discrete = hlevel ℕ_discrete

-- No two names are the same.
abbrev pub Distinct : List Text → Type 0
Distinct [] = Unit
Distinct (n ∷ ns) = All (λ m. m ≢ n) ns × Distinct ns

unfoldable pub mem : Text → List Text → Bool
mem k [] = false
mem k (j ∷ js) = let rest = mem k js in if j ≟ k then true else rest
