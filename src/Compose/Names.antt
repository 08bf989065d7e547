-- ===== src/Compose/Names.antt =====
-- Temporary names differ from each other, from the object and from its parts.
use sky_flow.Base.{
  ℕ, ◌<◌, ◌≡◌, ◌≢◌, refl, sym, ap, subst, ◌∙◌, [], ◌∷◌, ◌++◌, some, append_assoc, arith, length,
  length-append,
}
use sky_flow.Base.Word.{two63}
use sky_flow.Base.Text.{Text, codes}
use sky_flow.Chunk.Parts.{digits_of, itoa, digits_value, padded, part_name, split_dots, last}
use sky_flow.Chunk.Names.{
  digits_of-Digits, digits_value-digits_of, split_dots-append, split_dots-Digits, last-append,
}
use sky_flow.Compose.{temp_name}

pub itoa_injective : (n m : ℕ) → n < two63 → m < two63 → itoa n ≡ itoa m → n ≡ m
unfolding itoa
itoa_injective n m p q e =
    let a = digits_value-digits_of 20 n (omega arith) in
    let b = digits_value-digits_of 20 m (omega arith) in
    let c : some n ≡ some m = sym a ∙ ap (digits_value 0) e ∙ b in cc

-- The text after the last dot.
last_dot : (s : Text) (n : ℕ) → last (split_dots (s ++ 46 ∷ itoa n)) ≡ itoa n
unfolding itoa
last_dot s n =
    ap last (
      split_dots-append s (digits_of 20 n)
      ∙ ap (λ ps. split_dots s ++ ps) (split_dots-Digits (digits_of 20 n) (digits_of-Digits 20 n)))
    ∙ last-append (split_dots s) (digits_of 20 n)

pub append_cancel_left : (s t u : Text) → s ++ t ≡ s ++ u → t ≡ u
append_cancel_left [] t u e = e
append_cancel_left (c ∷ cs) t u e = append_cancel_left cs t u (cc)

append_cancel_right : (s t u : Text) → s ++ u ≡ t ++ u → s ≡ t
append_cancel_right [] [] u e = refl
append_cancel_right [] (x ∷ xs) u e = absurd (omega (arith, ap length e, length-append xs u))
append_cancel_right (x ∷ xs) [] u e = absurd (omega (arith, ap length e, length-append xs u))
append_cancel_right (x ∷ xs) (y ∷ ys) u e = let ih = append_cancel_right xs ys u (cc) in cc

abbrev stem : Text → ℕ → Text
stem object level = object ++ (codes ".compose." ++ itoa level)

temp_name-dots :
    (object : Text) (level i : ℕ) → temp_name object level i ≡ stem object level ++ 46 ∷ itoa i
unfolding temp_name
temp_name-dots object level i = simp append_assoc

-- The level and the offset can be read off a temporary name.
pub temp_name_injective :
    (object : Text) (l i m j : ℕ)
    → l < two63
    → i < two63
    → m < two63
    → j < two63
    → temp_name object l i ≡ temp_name object m j
    → (l ≡ m) × (i ≡ j)
temp_name_injective object l i m j p q r t e =
    let dots = sym (temp_name-dots object l i) ∙ e ∙ temp_name-dots object m j in
    let tails =
      sym (last_dot (stem object l) i)
      ∙ ap (λ s. last (split_dots s)) dots
      ∙ last_dot (stem object m) j in
    let same_i = itoa_injective i j q t tails in
    let stems =
      append_cancel_right (stem object l) (stem object m) (46 ∷ itoa j)
        (subst (λ k. stem object l ++ 46 ∷ itoa k ≡ stem object m ++ 46 ∷ itoa j) same_i dots) in
    let levels = append_cancel_left (codes ".compose.") (itoa l) (itoa m) (
      append_cancel_left object (codes ".compose." ++ itoa l) (codes ".compose." ++ itoa m)
        stems) in
    (itoa_injective l m p r levels, same_i)

longer-ne : (object : Text) (c : ℕ) (s : Text) → object ++ c ∷ s ≢ object
longer-ne object c s e =
    let n = length-append object (c ∷ s) in let m = ap length e in absurd (omega arith)

pub temp_name-ne-object : (object : Text) (l i : ℕ) → temp_name object l i ≢ object
unfolding temp_name
temp_name-ne-object object l i e = longer-ne object _ _ e

pub part_name-ne-object : (object : Text) (n : ℕ) → part_name object n ≢ object
unfolding part_name
part_name-ne-object object n e =
    longer-ne object _ _ (sym (append_assoc object (codes ".part.") (padded n)) ∙ e)

abbrev second : Text → ℕ
second (c ∷ d ∷ s) = d
second s = 0

pub part_name-ne-temp_name : (object : Text) (n l i : ℕ) → part_name object n ≢ temp_name object l i
unfolding temp_name part_name
part_name-ne-temp_name object n l i e =
    let tails =
      append_cancel_left object (codes ".part." ++ padded n)
        (codes ".compose." ++ (itoa l ++ (codes "." ++ itoa i)))
        (sym (append_assoc object (codes ".part.") (padded n)) ∙ e) in
    absurd (omega (arith, ap second tails))
