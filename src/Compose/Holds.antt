-- ===== src/Compose/Holds.antt =====
-- Contents of a list of objects: parts of it, and states that agree on it.
use sky_flow.Base.{
  inl, inr, subst, ℕ, zero, suc, ◌-◌, ◌≤◌, ◌≡◌, refl, sym, ap, ◌∙◌, List, [], ◌∷◌, ◌++◌, some,
  append_assoc, append-nil, arith, length, take, drop, All, Member,
}
use sky_flow.Base.Text.{Text}
use sky_flow.Compose.{ObjectStore, Holds}

pub All-map :
    {A : Type 0} (P Q : A → Type 0) (xs : List A) → ((x : A) → P x → Q x) → All P xs → All Q xs
All-map P Q [] f h = tt
All-map P Q (x ∷ xs) f h = (f x h.0, All-map P Q xs f h.1)

pub All-both :
    {A : Type 0} (P Q R : A → Type 0) (xs : List A)
    → ((x : A) → P x → Q x → R x)
    → All P xs
    → All Q xs
    → All R xs
All-both P Q R [] f h k = tt
All-both P Q R (x ∷ xs) f h k = (f x h.0 k.0, All-both P Q R xs f h.1 k.1)

pub All-always : {A : Type 0} (P : A → Type 0) (xs : List A) → ((x : A) → P x) → All P xs
All-always P [] f = tt
All-always P (x ∷ xs) f = (f x, All-always P xs f)

pub All-take : {A : Type 0} (P : A → Type 0) (n : ℕ) (xs : List A) → All P xs → All P (take n xs)
All-take P zero xs h = tt
All-take P (suc n) [] h = tt
All-take P (suc n) (x ∷ xs) h = (h.0, All-take P n xs h.1)

pub All-drop : {A : Type 0} (P : A → Type 0) (n : ℕ) (xs : List A) → All P xs → All P (drop n xs)
All-drop P zero xs h = h
All-drop P (suc n) [] h = tt
All-drop P (suc n) (x ∷ xs) h = All-drop P n xs h.1

pub All-append :
    {A : Type 0} (P : A → Type 0) (xs ys : List A) → All P xs → All P ys → All P (xs ++ ys)
All-append P [] ys h k = k
All-append P (x ∷ xs) ys h k = (h.0, All-append P xs ys h.1 k)

pub All-split :
    {A : Type 0} (P : A → Type 0) (xs ys : List A) → All P (xs ++ ys) → All P xs × All P ys
All-split P [] ys h = (tt, h)
All-split P (x ∷ xs) ys h = let (a, b) = All-split P xs ys h.1 in ((h.0, a), b)

pub take-append-drop : {A : Type 0} (n : ℕ) (xs : List A) → take n xs ++ drop n xs ≡ xs
take-append-drop zero xs = refl
take-append-drop (suc n) [] = refl
take-append-drop (suc n) (x ∷ xs) = ap (λ ys. x ∷ ys) (take-append-drop n xs)

pub length-drop : {A : Type 0} (n : ℕ) (xs : List A) → length (drop n xs) ≡ length xs - n
length-drop zero xs = omega arith
length-drop (suc n) [] = omega arith
length-drop (suc n) (x ∷ xs) = omega (arith, length-drop n xs)

pub length-take-le : {A : Type 0} (n : ℕ) (xs : List A) → length (take n xs) ≤ n
length-take-le zero xs = omega arith
length-take-le (suc n) [] = omega arith
length-take-le (suc n) (x ∷ xs) = omega (arith, length-take-le n xs)

pub All-member : (P : Text → Type 0) (j : Text) (ns : List Text) → All P ns → Member j ns → P j
All-member P j [] h m = absurd m
All-member P j (n ∷ ns) h (inl e) = subst P (sym e) h.0
All-member P j (n ∷ ns) h (inr m) = All-member P j ns h.1 m

module _ (S : ObjectStore) where
  pub Holds-append :
      (s : S.State) (xs ys : List Text) (a b : Text)
      → Holds S s xs a
      → Holds S s ys b
      → Holds S s (xs ++ ys) (a ++ b)
  Holds-append s [] ys a b h k = rw h k
  Holds-append s (x ∷ xs) ys a b (c, d, r, hs, e) k =
      (c, d ++ b, r, Holds-append s xs ys d b hs k, rw e (append_assoc c d b))

  pub Holds-split :
      (s : S.State) (n : ℕ) (xs : List Text) (c : Text)
      → Holds S s xs c
      → (a : Text) × (b : Text) × Holds S s (take n xs) a × Holds S s (drop n xs) b × (c ≡ a ++ b)
  Holds-split s zero xs c h = ([], c, refl, h, refl)
  Holds-split s (suc n) [] c h = ([], [], refl, refl, h)
  Holds-split s (suc n) (x ∷ xs) c (a, b, r, hs, e) =
      let (p, q, hp, hq, e') = Holds-split s n xs b hs in
      (a ++ p, q, (a, p, r, hp, refl), hq, e ∙ ap (λ t. a ++ t) e' ∙ sym (append_assoc a p q))

  -- Only the objects of the list matter.
  pub Holds-frame :
      (s t : S.State) (xs : List Text) (c : Text)
      → All (λ n. S.read t n ≡ S.read s n) xs
      → Holds S s xs c
      → Holds S t xs c
  Holds-frame s t [] c f h = h
  Holds-frame s t (x ∷ xs) c f (a, b, r, hs, e) = (a, b, f.0 ∙ r, Holds-frame s t xs b f.1 hs, e)

  pub Holds-back :
      (s t : S.State) (xs : List Text) (c : Text)
      → All (λ n. S.read t n ≡ S.read s n) xs
      → Holds S t xs c
      → Holds S s xs c
  Holds-back s t xs c f h =
      Holds-frame t s xs c (All-map _ _ xs (λ n (e : S.read t n ≡ S.read s n). sym e) f) h

  pub Holds-unique :
      (s : S.State) (xs : List Text) (c d : Text) → Holds S s xs c → Holds S s xs d → c ≡ d
  Holds-unique s [] c d h k = h ∙ sym k
  Holds-unique s (x ∷ xs) c d (a, b, r, hs, e) (a', b', r', hs', e') =
      let same = Holds-unique s xs b b' hs hs' in cc

  pub Holds-one : (s : S.State) (n c : Text) → Holds S s (n ∷ []) c → S.read s n ≡ some c
  Holds-one s n c (a, b, r, hs, e) =
      r ∙ ap (λ t. some t) (sym (append-nil a) ∙ ap (λ t. a ++ t) (sym hs) ∙ sym e)
