-- ===== src/Chunk/Parts.antt =====
-- Part names and their numbers (client-plugin/util/util.go, lines 112 to 144, and the decimal
-- notation of strconv and fmt that they use).
use sky_flow.Base.{
  ℕ, zero, suc, ◌+◌, ◌-◌, ◌*◌, ◌/◌, ◌%◌, Bool, true, false, ◌&&◌, List, [], ◌∷◌, ◌++◌, Option, none,
  some, leb, ltb, ◌==◌, if◌then◌else◌, length,
}
use sky_flow.Base.Int.{ℤ, pos, negsuc, ltb_ℤ}
use sky_flow.Base.Word.{two63}
use sky_flow.Base.Text.{Text, codes}

-- `strconv.Itoa` of a number that is not negative; an int has at most 19 digits.
unfoldable pub digits_of : ℕ → ℕ → Text
digits_of zero n = []
digits_of (suc fuel) n =
    let rest = digits_of fuel (n / 10) in
    if ltb n 10 then (48 + n) ∷ [] else rest ++ (48 + n % 10) ∷ []

unfoldable pub itoa : ℕ → Text
unfolding digits_of
itoa n = digits_of 20 n

unfoldable pub zeros : ℕ → Text
zeros zero = []
zeros (suc n) = 48 ∷ zeros n

-- The verb `%05d`.
unfoldable pub padded : ℕ → Text
unfolding itoa zeros
padded n = zeros (5 - length (itoa n)) ++ itoa n

-- `fmt.Sprintf("%s.part.%05d", newFileName, index)`
unfoldable pub part_name : Text → ℕ → Text
unfolding padded
part_name file index = file ++ codes ".part." ++ padded index

abbrev pub is_digit : ℕ → Bool
is_digit c = leb 48 c && leb c 57

unfoldable pub digits_value : ℕ → Text → Option ℕ
digits_value acc [] = some acc
digits_value acc (c ∷ cs) =
    let rest = digits_value (acc * 10 + (c - 48)) cs in if is_digit c then rest else none

unfoldable pub parse_uint : Text → Option ℕ
unfolding digits_value
parse_uint [] = none
parse_uint (c ∷ cs) = digits_value 0 (c ∷ cs)

signed : Bool → Option ℕ → Option ℤ
signed negative none = none
signed false (some n) = if ltb n two63 then some (pos n) else none
signed true (some zero) = some (pos 0)
signed true (some (suc n)) = if ltb n two63 then some (negsuc n) else none

-- `strconv.ParseInt(s, 10, 64)`, which is also `Atoi`: `none` for its two errors.
unfoldable pub parse_int : Text → Option ℤ
unfolding parse_uint signed
parse_int [] = none
parse_int (c ∷ cs) =
    if c == 45
    then signed true (parse_uint cs)
    else if c == 43
    then signed false (parse_uint cs)
    else signed false (parse_uint (c ∷ cs))

-- The first part grows by a byte.
unfoldable pub prepend : ℕ → List Text → List Text
prepend c [] = (c ∷ []) ∷ []
prepend c (p ∷ ps) = (c ∷ p) ∷ ps

-- `strings.Split(s, ".")`
unfoldable pub split_dots : Text → List Text
unfolding prepend
split_dots [] = [] ∷ []
split_dots (c ∷ cs) = let rest = split_dots cs in if c == 46 then [] ∷ rest else prepend c rest

unfoldable pub last : List Text → Text
last [] = []
last (p ∷ []) = p
last (p ∷ q ∷ ps) = last (q ∷ ps)

or_zero : Option ℤ → ℤ
or_zero none = pos 0
or_zero (some z) = z

unfoldable pub extract_part_number : Text → ℤ
unfolding split_dots last parse_int or_zero
extract_part_number s =
    let parts = split_dots s in
    if ltb (length parts) 3 then pos 0 else or_zero (parse_int (last parts))

unfoldable pub insert_part : Text → List Text → List Text
unfolding extract_part_number
insert_part p [] = p ∷ []
insert_part p (q ∷ qs) =
    let rest = insert_part p qs in
    if ltb_ℤ (extract_part_number q) (extract_part_number p) then q ∷ rest else p ∷ q ∷ qs

-- `sort.Slice` by the numbers, on a copy. Parts with equal numbers come in no promised order.
unfoldable pub sort_part_strings : List Text → List Text
unfolding insert_part
sort_part_strings [] = []
sort_part_strings (p ∷ ps) = insert_part p (sort_part_strings ps)
