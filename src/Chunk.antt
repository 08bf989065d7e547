-- ===== src/Chunk.antt =====
-- Chunk sizes of the client plugin (client-plugin/util/util.go, lines 31 to 109). Sizes are int64.
pub mod Sizes
pub mod Parts
pub mod Split
pub mod Bytes
pub mod Names
pub mod Order
mod Tests
use sky_flow.Base.{
  ℕ, zero, suc, ◌+◌, ◌-◌, ◌*◌, ◌/◌, ◌^◌, Bool, true, false, ◌&&◌, ◌||◌, List, [], ◌∷◌, Option, none,
  some, leb, ltb, ◌==◌, if◌then◌else◌,
}
use sky_flow.Base.Int.{ℤ, pos, negsuc, ltb_ℤ}
use sky_flow.Base.Word.{two63, two64, add64, to_bits, of_bits, wrap64}
use sky_flow.Base.Text.{Text, codes, ◌≟◌}

abbrev pub min_chunk : ℕ
min_chunk = 67108864

abbrev pub max_chunk : ℕ
max_chunk = 2147483648

-- `bits.Len64`, on fuel: a word is halved until it is 0.
unfoldable pub len_from : ℕ → ℕ → ℕ
len_from zero x = 0
len_from (suc fuel) x = let rest = len_from fuel (x / 2) in if x == 0 then 0 else suc rest

unfoldable pub len64 : ℕ → ℕ
unfolding len_from
len64 x = len_from 64 x

-- Division of an int64 by 10 rounds towards zero.
unfoldable pub div10 : ℤ → ℤ
div10 (pos n) = pos (n / 10)
div10 (negsuc n) = negate (suc n / 10)
  where
    negate : ℕ → ℤ
    negate zero = pos 0
    negate (suc k) = negsuc k

-- `1 << bits.Len64(uint64(chunkSize)-1)` for a positive size; a shift by 63 gives the least int64 and
-- one by 64 gives 0.
unfoldable pub align : ℤ → ℤ
unfolding len64 wrap64
align (pos zero) = pos 0
align (pos (suc n)) = wrap64 (pos (2 ^ len64 n))
align (negsuc n) = negsuc n

unfoldable pub limited : ℤ → ℤ
limited size =
    if ltb_ℤ size (pos min_chunk)
    then pos min_chunk
    else if ltb_ℤ (pos max_chunk) size
    then pos max_chunk
    else size

unfoldable pub auto_select_chunk_size : ℤ → ℤ
unfolding div10 align limited add64
auto_select_chunk_size total_size =
    if ltb_ℤ (pos 0) total_size
    then limited (align (div10 (add64 total_size (pos 5))))
    else pos min_chunk

-- The constants of the `switch` with their names, in order.
abbrev pub bs_names : List (ℕ × Text)
bs_names =
    (2147483648, codes "2G")
    ∷ (1073741824, codes "1G")
    ∷ (536870912, codes "512M")
    ∷ (268435456, codes "256M")
    ∷ (134217728, codes "128M")
    ∷ (67108864, codes "64M")
    ∷ []

is_size : ℤ → ℕ → Bool
is_size (pos n) m = n == m
is_size (negsuc n) m = false

unfoldable pub bs_name : ℤ → List (ℕ × Text) → Text
unfolding is_size
bs_name size [] = codes "64M"
bs_name size ((m, name) ∷ rest) = if is_size size m then name else bs_name size rest

unfoldable pub auto_select_bs : ℤ → Text
unfolding bs_name
auto_select_bs total_size = bs_name (auto_select_chunk_size total_size) bs_names
