-- ===== src/Chunk/Bytes.antt =====
-- Block sizes as text (client-plugin/util/util.go, lines 81 to 109) on ASCII text; both errors are
-- `none`.
use sky_flow.Base.{
  ℕ, ◌+◌, ◌^◌, ◌≤◌, ◌≡◌, refl, ◌⊎◌, inl, inr, Bool, ◌&&◌, ◌||◌, [], ◌∷◌, reverse, Option, none,
  some, map, arith, leb, ◌==◌, if◌then◌else◌,
}
use sky_flow.Base.Int.{ℤ, pos, negsuc, ◌<ℤ◌, ltb_ℤ-no}
use sky_flow.Base.Word.{mul64}
use sky_flow.Base.Text.{Text, codes, ◌≟◌}
use sky_flow.Chunk.{auto_select_chunk_size, auto_select_bs, bs_name, bs_names}
use sky_flow.Chunk.Sizes.{auto_select_chunk_size_bounds}
use sky_flow.Chunk.Parts.{is_digit, parse_int}

abbrev lower : ℕ → ℕ
lower c = if leb 65 c && leb c 90 then c + 32 else c

-- `unicode.IsSpace` on ASCII
abbrev is_space : ℕ → Bool
is_space c = c == 32 || (leb 9 c && leb c 13)

unfoldable pub trim_left : Text → Text
trim_left [] = []
trim_left (c ∷ cs) = let rest = trim_left cs in if is_space c then rest else c ∷ cs

unfoldable pub trim_space : Text → Text
unfolding trim_left
trim_space s = reverse (trim_left (reverse (trim_left s)))

-- The leading digits and what follows them.
unfoldable pub digits_prefix : Text → Text × Text
digits_prefix [] = ([], [])
digits_prefix (c ∷ cs) =
    let (digits, rest) = digits_prefix cs in if is_digit c then (c ∷ digits, rest) else ([], c ∷ cs)

unfoldable pub shift_of : Text → ℕ
shift_of suffix =
    if suffix ≟ codes "k" || suffix ≟ codes "kb"
    then 10
    else if suffix ≟ codes "m" || suffix ≟ codes "mb"
    then 20
    else if suffix ≟ codes "g" || suffix ≟ codes "gb"
    then 30
    else if suffix ≟ codes "t" || suffix ≟ codes "tb"
    then 40
    else 0

times_unit : Text → Option ℤ → Option ℤ
unfolding mul64 shift_of
times_unit suffix none = none
times_unit suffix (some n) = some (mul64 n (pos (2 ^ shift_of suffix)))

-- Without digits the number is empty, which `ParseInt` refuses like the two checks before it.
unfoldable pub parse_bs_to_bytes : Text → Option ℤ
unfolding trim_space digits_prefix parse_int times_unit
parse_bs_to_bytes bs =
    let b = trim_space (map lower bs) in
    let (digits, suffix) = digits_prefix b in
    if b ≟ [] then none else if digits ≟ [] then none else times_unit suffix (parse_int digits)

exponents :
    (k : ℕ) → 26 ≤ k → k ≤ 31 → (k ≡ 26) ⊎ (k ≡ 27) ⊎ (k ≡ 28) ⊎ (k ≡ 29) ⊎ (k ≡ 30) ⊎ (k ≡ 31)
exponents k lo hi = omega arith

name_of_power :
    (k : ℕ)
    → 26 ≤ k
    → k ≤ 31
    → parse_bs_to_bytes (bs_name (pos (2 ^ k)) bs_names) ≡ some (pos (2 ^ k))
unfolding parse_bs_to_bytes bs_name ◌≟◌
name_of_power k lo hi = elim (exponents k lo hi) [
  | inl e ↦ rw e refl
  | inr (inl e) ↦ rw e refl
  | inr (inr (inl e)) ↦ rw e refl
  | inr (inr (inr (inl e))) ↦ rw e refl
  | inr (inr (inr (inr (inl e)))) ↦ rw e refl
  | inr (inr (inr (inr (inr e)))) ↦ rw e refl
]

named :
    (total : ℤ) (k : ℕ)
    → 26 ≤ k
    → k ≤ 31
    → auto_select_chunk_size total ≡ pos (2 ^ k)
    → parse_bs_to_bytes (auto_select_bs total) ≡ some (auto_select_chunk_size total)
unfolding auto_select_bs
named total k lo hi e = rw e (name_of_power k lo hi)

below_zero : (n : ℕ) → auto_select_chunk_size (negsuc n) ≡ pos (2 ^ 26)
unfolding auto_select_chunk_size
below_zero n = rw (ltb_ℤ-no (pos 0) (negsuc n) (omega arith)) refl

-- The name that is selected for a file, whose size rounding does not overflow, parses back to the selected chunk size.
pub parse_bs-auto_select_bs :
    (total : ℤ)
    → total <ℤ pos 9_223_372_036_854_775_803
    → parse_bs_to_bytes (auto_select_bs total) ≡ some (auto_select_chunk_size total)
parse_bs-auto_select_bs (pos n) h =
    let (k, lo, hi, e, _, _) = auto_select_chunk_size_bounds n (omega arith) in
    named (pos n) k lo hi e
parse_bs-auto_select_bs (negsuc n) h =
    named (negsuc n) 26 (omega arith) (omega arith) (below_zero n)
