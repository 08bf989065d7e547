-- ===== src/Chunk/Order.antt =====
-- The parts of a file are sorted into the order of their chunks (client-plugin/util/util.go,
-- SortPartStrings).
use mathlib.Core.List.{Permᴰ}
use mathlib.Core.List.Permᴰ.{symm}
use sky_flow.Base.{
  ℕ, zero, suc, ◌+◌, ◌<◌, ◌≤◌, ◌≡◌, refl, sym, ap, ap₂, ◌∙◌, subst, inl, inr, ◌⊎◌, true, false,
  List, [], ◌∷◌, All, arith, if◌then◌else◌, ℕ_discrete, dec_lt,
}
use sky_flow.Base.Int.{ℤ, pos, ltb_ℤ, ltb_ℤ-yes, ltb_ℤ-no, ◌≤ℤ◌, ◌<ℤ◌}
use sky_flow.Base.Word.{two63}
use sky_flow.Base.Text.{Text}
use sky_flow.Chunk.Parts.{part_name, extract_part_number, insert_part, sort_part_strings}
use sky_flow.Chunk.Names.{extract_part_number-part_name}

-- A part of the file.
abbrev Named : Text → Text → Type 0
Named file p = (k : ℕ) × (k < two63) × (p ≡ part_name file k)

number_of : (file p : Text) (n : Named file p) → extract_part_number p ≡ pos n.0
number_of file p (k, b, e) = ap extract_part_number e ∙ extract_part_number-part_name file k b

-- A part with a smaller number is passed by.
insert-past :
    (p q : Text) (qs : List Text)
    → ltb_ℤ (extract_part_number q) (extract_part_number p) ≡ true
    → insert_part p (q ∷ qs) ≡ q ∷ insert_part p qs
unfolding insert_part
insert-past p q qs h = ap (λ b. if b then q ∷ insert_part p qs else p ∷ q ∷ qs) h

insert-here :
    (p q : Text) (qs : List Text)
    → ltb_ℤ (extract_part_number q) (extract_part_number p) ≡ false
    → insert_part p (q ∷ qs) ≡ p ∷ q ∷ qs
unfolding insert_part
insert-here p q qs h = ap (λ b. if b then q ∷ insert_part p qs else p ∷ q ∷ qs) h

before_or_not : (a b : ℤ) → (a <ℤ b) ⊎ (b ≤ℤ a)
before_or_not a b = omega arith

insert_single : (p : Text) → insert_part p [] ≡ p ∷ []
unfolding insert_part
insert_single p = refl

insert_pair :
    (p q : Text)
    → extract_part_number p <ℤ extract_part_number q
    → insert_part p (insert_part q []) ≡ p ∷ q ∷ []
unfolding insert_part
insert_pair p q h =
    insert-here p q [] (ltb_ℤ-no (extract_part_number q) (extract_part_number p) (omega (arith, h)))

-- `p` comes before `q`.
insert_ordered :
    (p q : Text) (l : List Text)
    → extract_part_number p <ℤ extract_part_number q
    → insert_part p (insert_part q l) ≡ insert_part q (insert_part p l)
insert_ordered p q [] h =
    insert_pair p q h
    ∙ sym (
        ap (insert_part q) (insert_single p)
        ∙ insert-past q p [] (ltb_ℤ-yes (extract_part_number p) (extract_part_number q) h)
        ∙ ap (λ t. p ∷ t) (insert_single q))
insert_ordered p q (r ∷ l) h =
    elim (before_or_not (extract_part_number r) (extract_part_number p)) [
      | inl rp ↦
          let qr =
            ltb_ℤ-yes (extract_part_number r) (extract_part_number q) (omega (arith, rp, h)) in
          let pr = ltb_ℤ-yes (extract_part_number r) (extract_part_number p) rp in
          ap (insert_part p) (insert-past q r l qr)
          ∙ insert-past p r (insert_part q l) pr
          ∙ ap (λ t. r ∷ t) (insert_ordered p q l h)
          ∙ sym (ap (insert_part q) (insert-past p r l pr) ∙ insert-past q r (insert_part p l) qr)
      | inr pr ↦
          let front =
            insert-here p r l (ltb_ℤ-no (extract_part_number r) (extract_part_number p) pr) in
          elim (before_or_not (extract_part_number r) (extract_part_number q)) [
            | inl rq ↦
                let qr = ltb_ℤ-yes (extract_part_number r) (extract_part_number q) rq in
                ap (insert_part p) (insert-past q r l qr)
                ∙ insert-here p r (insert_part q l)
                    (ltb_ℤ-no (extract_part_number r) (extract_part_number p) pr)
                ∙ ap (λ t. p ∷ t) (sym (insert-past q r l qr))
                ∙ sym (
                    ap (insert_part q) front
                    ∙ insert-past q p (r ∷ l)
                        (ltb_ℤ-yes (extract_part_number p) (extract_part_number q) h))
            | inr qr ↦
                let top =
                  insert-here q r l (ltb_ℤ-no (extract_part_number r) (extract_part_number q) qr) in
                ap (insert_part p) top
                ∙ insert-here p q (r ∷ l)
                    (ltb_ℤ-no (extract_part_number q) (extract_part_number p) (omega (arith, h)))
                ∙ ap (λ t. p ∷ t) (sym top)
                ∙ sym (
                    ap (insert_part q) front
                    ∙ insert-past q p (r ∷ l)
                        (ltb_ℤ-yes (extract_part_number p) (extract_part_number q) h))
          ]
    ]

insert_comm :
    (file p q : Text) (l : List Text)
    → Named file p
    → Named file q
    → insert_part p (insert_part q l) ≡ insert_part q (insert_part p l)
insert_comm file p q l (j, a, e) (k, b, f) = elim (ℕ_discrete j k) [
  | yes s ↦
      let same = e ∙ ap (part_name file) s ∙ sym f in
      subst (λ x. insert_part p (insert_part x l) ≡ insert_part x (insert_part p l)) same refl
  | no n ↦ elim (dec_lt j k) [
    | yes u ↦
        insert_ordered p q l
          (rw (number_of file p (j, a, e), number_of file q (k, b, f)) (omega arith))
    | no u ↦ sym (
        insert_ordered q p l
          (rw (number_of file p (j, a, e), number_of file q (k, b, f)) (omega arith)))
  ]
]

All-Perm : {A : Type 0} (P : A → Type 0) (l m : List A) → Permᴰ l m → All P l → All P m
All-Perm P _ _ Permᴰ.nil h = tt
All-Perm P _ _ (Permᴰ.cons e d) h = (subst P e h.0, All-Perm P _ _ d h.1)
All-Perm P _ _ (Permᴰ.swap e f) h = (subst P f h.1.0, (subst P e h.0, h.1.1))
All-Perm P _ _ (Permᴰ.trans d e) h = All-Perm P _ _ e (All-Perm P _ _ d h)

sort-Perm :
    (file : Text) (l m : List Text)
    → Permᴰ l m
    → All (Named file) l
    → sort_part_strings l ≡ sort_part_strings m
unfolding sort_part_strings
sort-Perm file _ _ Permᴰ.nil h = refl
sort-Perm file _ _ (Permᴰ.cons e d) h = ap₂ insert_part e (sort-Perm file _ _ d h.1)
sort-Perm file _ _ (Permᴰ.swap {a} {b} {l = l} e f) h =
    insert_comm file a b (sort_part_strings l) h.0 h.1.0
    ∙ ap₂ (λ x y. insert_part x (insert_part y (sort_part_strings l))) f e
sort-Perm file _ _ (Permᴰ.trans d e) h =
    sort-Perm file _ _ d h ∙ sort-Perm file _ _ e (All-Perm (Named file) _ _ d h)

-- The names of `n` parts from number `i`.
unfoldable pub part_names : Text → ℕ → ℕ → List Text
part_names file i zero = []
part_names file i (suc n) = part_name file i ∷ part_names file (suc i) n

Named-part_names : (file : Text) (i n : ℕ) → i + n ≤ two63 → All (Named file) (part_names file i n)
unfolding part_names
Named-part_names file i zero h = tt
Named-part_names file i (suc n) h =
    ((i, omega arith, refl), Named-part_names file (suc i) n (omega arith))

sort-part_names :
    (file : Text) (i n : ℕ)
    → i + n ≤ two63
    → sort_part_strings (part_names file i n) ≡ part_names file i n
unfolding part_names sort_part_strings
sort-part_names file i zero h = refl
sort-part_names file i (suc zero) h = single (part_name file i)
  where
    single : (p : Text) → insert_part p [] ≡ p ∷ []
    single p = refl
sort-part_names file i (suc (suc n)) h =
    ap (insert_part (part_name file i)) (sort-part_names file (suc i) (suc n) (omega arith))
    ∙ insert-here (part_name file i) (part_name file (suc i)) (part_names file (suc (suc i)) n) (
        rw
          (
            extract_part_number-part_name file i (omega arith),
            extract_part_number-part_name file (suc i) (omega arith),
          )
          (ground arith))

-- In whatever order the map yields the names of a file's `n` parts, sorting puts them into the order of
-- the chunks.
pub sort_part_strings_lem :
    (file : Text) (n : ℕ) (ps : List Text)
    → n ≤ two63
    → Permᴰ ps (part_names file 0 n)
    → sort_part_strings ps ≡ part_names file 0 n
sort_part_strings_lem file n ps h d =
    sym (sort-Perm file (part_names file 0 n) ps (symm d) (Named-part_names file 0 n (omega arith)))
    ∙ sort-part_names file 0 n (omega arith)
