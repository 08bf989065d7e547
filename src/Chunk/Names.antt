-- ===== src/Chunk/Names.antt =====
-- The number of a part is read back from its name.
use sky_flow.Base.{
  ℕ, zero, suc, ◌+◌, ◌-◌, ◌*◌, ◌/◌, ◌%◌, ◌^◌, ◌≤◌, ◌<◌, ◌≡◌, refl, inl, inr, sym, ap, ◌∙◌, true,
  false, List, [], ◌∷◌, ◌++◌, some, append_assoc, arith, length, length-append, All, ltb, ◌==◌,
  dec_lt, Bool-cases,
}
use sky_flow.Base.Int.{ℤ, pos}
use sky_flow.Base.Word.{two63}
use sky_flow.Base.Text.{Text, codes}
use sky_flow.Chunk.Parts.{
  digits_of, itoa, zeros, padded, part_name, is_digit, digits_value, parse_int, split_dots, last,
  prepend, extract_part_number,
}

abbrev pub Digits : Text → Type 0
Digits = All (λ c. is_digit c ≡ true)

Digits-append : (s : Text) (c : ℕ) → Digits s → is_digit c ≡ true → Digits (s ++ c ∷ [])
Digits-append [] c h d = (d, tt)
Digits-append (x ∷ xs) c h d = (h.0, Digits-append xs c h.1 d)

pub digits_of-Digits : (fuel n : ℕ) → Digits (digits_of fuel n)
unfolding digits_of
digits_of-Digits zero n = tt
digits_of-Digits (suc fuel) n =
    ground
      (arith, digits_of-Digits fuel (n / 10), Digits-append (digits_of fuel (n / 10)) (48 + n % 10))

-- A last digit multiplies by ten.
digits_value-append :
    (acc : ℕ) (s : Text) (v d : ℕ)
    → digits_value acc s ≡ some v
    → d < 10
    → digits_value acc (s ++ (48 + d) ∷ []) ≡ some (v * 10 + d)
unfolding digits_value
digits_value-append acc [] v d h b = ground arith
digits_value-append acc (c ∷ cs) v d h b =
    ground (arith, digits_value-append (acc * 10 + (c - 48)) cs v d)

one_digit : (n : ℕ) → n < 10 → digits_value 0 ((48 + n) ∷ []) ≡ some n
unfolding digits_value
one_digit n p = ground arith

pub digits_value-digits_of :
    (fuel n : ℕ) → n < 10 ^ fuel → digits_value 0 (digits_of fuel n) ≡ some n
unfolding digits_of digits_value
digits_value-digits_of zero n h = let e : n ≡ 0 = omega arith in rw e refl
digits_value-digits_of (suc fuel) n h = elim (dec_lt n 10) [
  | yes p ↦ ground (arith, one_digit n p)
  | no p ↦
      let ih = digits_value-digits_of fuel (n / 10) (omega arith) in
      ground
        (arith, digits_value-append 0 (digits_of fuel (n / 10)) (n / 10) (n % 10) ih (omega arith))
]

digits_value-zeros : (k : ℕ) (s : Text) → digits_value 0 (zeros k ++ s) ≡ digits_value 0 s
unfolding zeros digits_value
digits_value-zeros zero s = refl
digits_value-zeros (suc k) s = digits_value-zeros k s

prepend-append :
    (c : ℕ) (ps qs : List Text) → 0 < length ps → prepend c (ps ++ qs) ≡ prepend c ps ++ qs
unfolding prepend
prepend-append c [] qs h = absurd (omega arith)
prepend-append c (p ∷ ps) qs h = refl

length-split_dots : (s : Text) → 0 < length (split_dots s)
unfolding split_dots prepend
length-split_dots [] = omega arith
length-split_dots (c ∷ cs) = elim (Bool-cases (c == 46)) [
  | inl e ↦ rw e (omega arith)
  | inr e ↦ rw e (kept c (split_dots cs))
]
  where
    kept : (c : ℕ) (ps : List Text) → 0 < length (prepend c ps)
    kept c [] = omega arith
    kept c (p ∷ ps) = omega arith

pub split_dots-append : (s t : Text) → split_dots (s ++ 46 ∷ t) ≡ split_dots s ++ split_dots t
unfolding split_dots
split_dots-append [] t = refl
split_dots-append (c ∷ cs) t = elim (Bool-cases (c == 46)) [
  | inl e ↦ rw e (ap (λ ps. [] ∷ ps) (split_dots-append cs t))
  | inr e ↦
      rw (e, split_dots-append cs t)
        (prepend-append c (split_dots cs) (split_dots t) (length-split_dots cs))
]

pub split_dots-Digits : (s : Text) → Digits s → split_dots s ≡ s ∷ []
unfolding split_dots
split_dots-Digits [] h = refl
split_dots-Digits (c ∷ cs) h = rw (split_dots-Digits cs h.1) (ground arith)

pub last-append : (ps : List Text) (p : Text) → last (ps ++ p ∷ []) ≡ p
unfolding last
last-append [] p = refl
last-append (q ∷ []) p = refl
last-append (q ∷ r ∷ ps) p = last-append (r ∷ ps) p

zeros-Digits : (k : ℕ) (s : Text) → Digits s → Digits (zeros k ++ s)
unfolding zeros
zeros-Digits zero s h = h
zeros-Digits (suc k) s h = (refl, zeros-Digits k s h)

length-zeros : (k : ℕ) (s : Text) → length (zeros k ++ s) ≡ k + length s
unfolding zeros
length-zeros zero s = omega arith
length-zeros (suc k) s = omega (arith, length-zeros k s)

padded_lem :
    (n : ℕ)
    → n < two63
    → Digits (padded n) × (0 < length (padded n)) × (digits_value 0 (padded n) ≡ some n)
unfolding padded itoa
padded_lem n h =
    let k = 5 - length (digits_of 20 n) in
    (
      zeros-Digits k (digits_of 20 n) (digits_of-Digits 20 n),
      omega (arith, length-zeros k (digits_of 20 n)),
      digits_value-zeros k (digits_of 20 n) ∙ digits_value-digits_of 20 n (omega arith),
    )

-- `parse_int` on digits
pub parse_int-Digits :
    (s : Text) (n : ℕ)
    → Digits s
    → 0 < length s
    → digits_value 0 s ≡ some n
    → n < two63
    → parse_int s ≡ some (pos n)
unfolding parse_int
parse_int-Digits [] n h l v b = absurd (omega arith)
parse_int-Digits (c ∷ cs) n h l v b = let d = h.0 in rw v (ground arith)

split_dots-part : (s : Text) → split_dots (codes "part" ++ 46 ∷ s) ≡ codes "part" ∷ split_dots s
unfolding split_dots prepend
split_dots-part s = refl

extract_from :
    (s : Text) (ps : List Text) (p : Text) (z : ℤ)
    → split_dots s ≡ ps ++ p ∷ []
    → 2 ≤ length ps
    → parse_int p ≡ some z
    → extract_part_number s ≡ z
unfolding extract_part_number
extract_from s ps p z e l v = rw (e, last-append ps p, v, long_enough ps p l) refl
  where
    long_enough :
        (ps : List Text) (p : Text) → 2 ≤ length ps → ltb (length (ps ++ p ∷ [])) 3 ≡ false
    long_enough ps p l = ground (arith, length-append ps (p ∷ []))

part_name-dots :
    (file : Text) (n : ℕ) → part_name file n ≡ file ++ 46 ∷ (codes "part" ++ 46 ∷ padded n)
unfolding part_name
part_name-dots file n = append_assoc file (codes ".part.") (padded n)

split_dots-part_name :
    (file : Text) (n : ℕ)
    → n < two63
    → split_dots (part_name file n) ≡ (split_dots file ++ codes "part" ∷ []) ++ padded n ∷ []
split_dots-part_name file n h =
    let (d, _, _) = padded_lem n h in
    ap split_dots (part_name-dots file n)
    ∙ split_dots-append file (codes "part" ++ 46 ∷ padded n)
    ∙ ap (λ ps. split_dots file ++ ps)
        (split_dots-part (padded n) ∙ ap (λ ps. codes "part" ∷ ps) (split_dots-Digits (padded n) d))
    ∙ sym (append_assoc (split_dots file) (codes "part" ∷ []) (padded n ∷ []))

-- The number of a part is the one that its name was made of, whatever dots the file's name has.
pub extract_part_number-part_name :
    (file : Text) (n : ℕ) → n < two63 → extract_part_number (part_name file n) ≡ pos n
extract_part_number-part_name file n h =
    let (d, l, v) = padded_lem n h in
    extract_from (part_name file n) (split_dots file ++ codes "part" ∷ []) (padded n) (pos n)
      (split_dots-part_name file n h)
      (omega (arith, length-append (split_dots file) (codes "part" ∷ []), length-split_dots file))
      (parse_int-Digits (padded n) n d l v h)
