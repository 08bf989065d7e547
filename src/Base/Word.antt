-- ===== src/Base/Word.antt =====
-- Go's int64 on the integers: a result is taken modulo 2 ^ 64 into the signed range.
use sky_flow.Base.{ℕ, suc, ◌*◌, ◌/◌, ◌+◌, ◌-◌, ◌%◌, ◌≤◌, ◌<◌, ◌≡◌, arith, ltb, if◌then◌else◌}
use sky_flow.Base.Int.{sub_ℕ, ℤ, pos, negsuc, ◌+ℤ◌, ◌-ℤ◌, ◌*ℤ◌}

abbrev pub two63 : ℕ
two63 = 9223372036854775808

abbrev pub two64 : ℕ
two64 = 18446744073709551616

-- The 64 bits of an integer, in two's complement.
unfoldable pub to_bits : ℤ → ℕ
to_bits (pos n) = n % two64
to_bits (negsuc n) = two64 - 1 - n % two64

unfoldable pub of_bits : ℕ → ℤ
of_bits r = if ltb r two63 then pos r else negsuc (two64 - 1 - r)

unfoldable pub wrap64 : ℤ → ℤ
unfolding to_bits of_bits
wrap64 z = of_bits (to_bits z)

unfoldable pub add64 : ℤ → ℤ → ℤ
unfolding wrap64 ◌+ℤ◌
add64 a b = wrap64 (a +ℤ b)

unfoldable pub sub64 : ℤ → ℤ → ℤ
unfolding wrap64 ◌-ℤ◌
sub64 a b = wrap64 (a -ℤ b)

unfoldable pub mul64 : ℤ → ℤ → ℤ
unfolding wrap64 ◌*ℤ◌
mul64 a b = wrap64 (a *ℤ b)

-- Division of the language, towards zero.
unfoldable pub quot : ℤ → ℤ → ℤ
quot (pos a) (pos b) = pos (a / b)
quot (pos a) (negsuc b) = sub_ℕ 0 (a / suc b)
quot (negsuc a) (pos b) = sub_ℕ 0 (suc a / b)
quot (negsuc a) (negsuc b) = pos (suc a / suc b)

unfoldable pub div64 : ℤ → ℤ → ℤ
unfolding wrap64 quot
div64 a b = wrap64 (quot a b)

pub wrap64-pos : (n : ℕ) → n < two63 → wrap64 (pos n) ≡ pos n
unfolding wrap64
wrap64-pos n h = ground arith

pub wrap64-negsuc : (n : ℕ) → n < two63 → wrap64 (negsuc n) ≡ negsuc n
unfolding wrap64
wrap64-negsuc n h = ground arith

pub add64-pos : (a b : ℕ) → a + b < two63 → add64 (pos a) (pos b) ≡ pos (a + b)
unfolding add64
add64-pos a b h = ground arith

pub sub64-pos : (a b : ℕ) → b ≤ a → a < two63 → sub64 (pos a) (pos b) ≡ pos (a - b)
unfolding sub64
sub64-pos a b h k = ground arith

-- A sum of two non-negative values that leaves the range comes out negative.
pub add64_overflow :
    (a b : ℕ)
    → a < two63
    → b < two63
    → two63 ≤ a + b
    → add64 (pos a) (pos b) ≡ negsuc (two64 - 1 - (a + b))
unfolding add64
add64_overflow a b p q h = ground arith

-- Taking the first summand away again undoes the overflow.
pub sub64_overflow :
    (a b : ℕ)
    → a < two63
    → b < two63
    → two63 ≤ a + b
    → sub64 (negsuc (two64 - 1 - (a + b))) (pos a) ≡ pos b
unfolding sub64
sub64_overflow a b p q h = ground arith

pub mul64-pos : (a b : ℕ) → a * b < two63 → mul64 (pos a) (pos b) ≡ pos (a * b)
unfolding mul64
mul64-pos a b h = ground arith

pub div64-pos : (a b : ℕ) → a / b < two63 → div64 (pos a) (pos b) ≡ pos (a / b)
unfolding div64
div64-pos a b h = wrap64-pos (a / b) h
