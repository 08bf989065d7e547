-- ===== src/Chunk/Sizes.antt =====
-- The chunk size: its range, and how it relates to the size of the file.
use native.Mathlib.Nat.{pow-le-pow_right}
use sky_flow.Base.{
  ℕ, zero, suc, ◌+◌, ◌-◌, ◌*◌, ◌/◌, ◌^◌, ◌≤◌, ◌<◌, ◌≡◌, refl, ◌∙◌, ◌≢◌, ◌⊎◌, inl, inr, arith, ◌==◌,
  Bool-cases, ℕ_discrete, dec_lt,
}
use sky_flow.Base.Int.{ℤ, pos}
use sky_flow.Base.Word.{two63, add64-pos, wrap64-pos}
use sky_flow.Chunk.{len_from, len64, align, limited, auto_select_chunk_size, min_chunk, max_chunk}

len_from-zero : (fuel : ℕ) → len_from fuel 0 ≡ 0
unfolding len_from
len_from-zero zero = refl
len_from-zero (suc fuel) = refl

len_from-suc : (fuel x : ℕ) → x ≢ 0 → len_from (suc fuel) x ≡ suc (len_from fuel (x / 2))
unfolding len_from
len_from-suc fuel x h = elim (Bool-cases (x == 0)) [
  | inl e ↦ absurd (h (ground arith))
  | inr e ↦ rw e
]

-- The length of a word: the least power of two above it.
len_from_bounds :
    (fuel x : ℕ) → x < 2 ^ fuel → (x < 2 ^ len_from fuel x) × (x ≢ 0 → 2 ^ len_from fuel x ≤ 2 * x)
len_from_bounds zero x h =
    let e : x ≡ 0 = omega arith in rw (e, len_from-zero zero) (omega arith, λ n. absurd (n refl))
len_from_bounds (suc fuel) x h = elim (ℕ_discrete x 0) [
  | yes e ↦ rw (e, len_from-zero (suc fuel)) (omega arith, λ n. absurd (n refl))
  | no n ↦
      let (below, above) = len_from_bounds fuel (x / 2) (omega arith) in
      rw (len_from-suc fuel x n) (omega (arith, below), λ _. step fuel x n above)
]
  where
    step :
        (fuel x : ℕ)
        → x ≢ 0
        → (x / 2 ≢ 0 → 2 ^ len_from fuel (x / 2) ≤ 2 * (x / 2))
        → 2 ^ suc (len_from fuel (x / 2)) ≤ 2 * x
    step fuel x n above = elim (ℕ_discrete (x / 2) 0) [
      | yes e ↦ rw (e, len_from-zero fuel) (omega arith)
      | no m ↦ omega (arith, above m)
    ]

-- The aligned size is a power of two, at least the size and less than twice it.
align_bounds :
    (t : ℕ)
    → 0 < t
    → t < 1_000_000_000_000_000_000
    → (k : ℕ) × (align (pos t) ≡ pos (2 ^ k)) × (t ≤ 2 ^ k) × ((2 ^ k ≡ 1) ⊎ (2 ^ k ≤ 2 * (t - 1)))
unfolding align len64
align_bounds zero p h = absurd (omega arith)
align_bounds (suc n) p h =
    let (below, above) = len_from_bounds 64 n (omega arith) in
    (len_from 64 n, wrap64-pos (2 ^ len_from 64 n) (fits above), omega (arith, below), near above)
  where
    fits : (n ≢ 0 → 2 ^ len_from 64 n ≤ 2 * n) → 2 ^ len_from 64 n < two63
    fits above = elim (ℕ_discrete n 0) [
      | yes e ↦ rw e (omega arith)
      | no m ↦ omega (arith, above m)
    ]

    near :
        (n ≢ 0 → 2 ^ len_from 64 n ≤ 2 * n)
        → (2 ^ len_from 64 n ≡ 1) ⊎ (2 ^ len_from 64 n ≤ 2 * (suc n - 1))
    near above = elim (ℕ_discrete n 0) [
      | yes e ↦ inl (rw e refl)
      | no m ↦ inr (omega (arith, above m))
    ]

exponent_range : (k : ℕ) → min_chunk ≤ 2 ^ k → 2 ^ k ≤ max_chunk → (26 ≤ k) × (k ≤ 31)
exponent_range k lo hi = (low, high)
  where
    low : 26 ≤ k
    low = elim (dec_lt k 26) [
      | yes p ↦
          absurd
            (omega (arith, pow-le-pow_right {n = 2} (omega arith) {i = k} {j = 25} (omega arith)))
      | no p ↦ omega arith
    ]

    high : k ≤ 31
    high = elim (dec_lt 31 k) [
      | yes p ↦
          absurd
            (omega (arith, pow-le-pow_right {n = 2} (omega arith) {i = 32} {j = k} (omega arith)))
      | no p ↦ omega arith
    ]

limited_cases :
    (n : ℕ)
    → ((limited (pos n) ≡ pos min_chunk) × (n < min_chunk))
      ⊎ ((limited (pos n) ≡ pos max_chunk) × (max_chunk < n))
      ⊎ ((limited (pos n) ≡ pos n) × (min_chunk ≤ n) × (n ≤ max_chunk))
unfolding limited
limited_cases n = ground arith

sized :
    (total : ℕ)
    → 0 < total
    → total + 5 < two63
    → auto_select_chunk_size (pos total) ≡ limited (align (pos ((total + 5) / 10)))
unfolding auto_select_chunk_size
sized total p h = ground (arith, add64-pos total 5 h)

-- The size that is selected for a file, with its exponent.
abbrev pub SizeOf : ℕ → ℤ → Type 0
SizeOf total size =
    (k : ℕ) × (26 ≤ k)
    × (k ≤ 31)
    × (size ≡ pos (2 ^ k))
    × ((k ≡ 31) ⊎ (total ≤ 10 * 2 ^ k + 4))
    × ((k ≡ 26) ⊎ (5 * 2 ^ k < total))

limited-SizeOf :
    (total k : ℕ)
    → (total + 5) / 10 ≤ 2 ^ k
    → (2 ^ k ≡ 1) ⊎ (2 ^ k ≤ 2 * ((total + 5) / 10 - 1))
    → SizeOf total (limited (pos (2 ^ k)))
limited-SizeOf total k lo hi = elim (limited_cases (2 ^ k)) [
  | inl (e, small) ↦ rw e (26, omega arith, omega arith, refl, inr (omega arith), inl refl)
  | inr (inl (e, large)) ↦ rw e (31, omega arith, omega arith, refl, inl refl, inr (omega arith))
  | inr (inr (e, above, below)) ↦
      let r = exponent_range k above below in
      rw e (k, r.0, r.1, refl, inr (omega arith), inr (omega arith))
]

-- Below five bytes the tenth rounds to 0, which is not aligned.
tiny : (total : ℕ) → total < 5 → auto_select_chunk_size (pos total) ≡ pos min_chunk
unfolding auto_select_chunk_size align limited
tiny zero few = refl
tiny (suc n) few =
    let tenth : (suc n + 5) / 10 ≡ 0 = omega arith in
    sized (suc n) (omega arith) (omega arith) ∙ rw tenth refl

-- The chunk size of a file, whose size is at least six below 2^63 so that rounding does not overflow,
-- is a power of two between 64 MB and 2 GB. Unless it is the largest, ten chunks and four bytes hold
-- the file; unless it is the smallest, five chunks do not.
pub auto_select_chunk_size_bounds :
    (total : ℕ) → total + 5 < two63 → SizeOf total (auto_select_chunk_size (pos total))
auto_select_chunk_size_bounds total h = elim (dec_lt total 5) [
  | yes few ↦ rw (tiny total few) (26, omega arith, omega arith, refl, inr (omega arith), inl refl)
  | no many ↦
      let (k, e, lo, hi) = align_bounds ((total + 5) / 10) (omega arith) (omega arith) in
      rw (sized total (omega arith) h, e) (limited-SizeOf total k lo hi)
]

pub chunk_range :
    (total : ℕ)
    → total + 5 < two63
    → (k : ℕ) × (auto_select_chunk_size (pos total) ≡ pos k) × (min_chunk ≤ k) × (k ≤ max_chunk)
chunk_range total h =
    let (e, lo, hi, eq, _, _) = auto_select_chunk_size_bounds total h in
    (
      2 ^ e,
      eq,
      pow-le-pow_right {n = 2} (omega arith) {i = 26} {j = e} lo,
      pow-le-pow_right {n = 2} (omega arith) {i = e} {j = 31} hi,
    )
