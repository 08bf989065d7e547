-- ===== src/LargeFile/Shares.antt =====
-- The tasks of a large file lie one after the other.
use sky_flow.Base.{
  ℕ, suc, ◌+◌, ◌*◌, ◌/◌, ◌≤◌, ◌<◌, ◌≡◌, refl, sym, ap, subst, ◌∙◌, List, [], ◌∷◌, arith, length,
}
use sky_flow.Base.Int.{pos, ◌+ℤ◌}
use sky_flow.Base.Word.{two63, add64, sub64, add64-pos, mul64-pos, div64-pos}
use sky_flow.Base.Text.{Text}
use sky_flow.LargeFile.{WeightedVm, File, total_from, allocated, task, split_tasks}

-- Machines with weights that are not negative.
abbrev pub vms_of : List (Text × ℕ) → List WeightedVm
vms_of [] = []
vms_of ((a, w) ∷ ws) = record { ip = a; weight = pos w } ∷ vms_of ws

abbrev pub sum_of : List (Text × ℕ) → ℕ
sum_of [] = 0
sum_of ((a, w) ∷ ws) = w + sum_of ws

pub total_from-vms_of :
    (t : ℕ) (ws : List (Text × ℕ))
    → t + sum_of ws < two63
    → total_from (pos t) (vms_of ws) ≡ pos (t + sum_of ws)
unfolding total_from
total_from-vms_of t [] h = let e : t ≡ t + 0 = omega arith in ap pos e
total_from-vms_of t ((a, w) ∷ ws) h =
    let e : t + w + sum_of ws ≡ t + (w + sum_of ws) = omega arith in
    ap (λ z. total_from z (vms_of ws)) (add64-pos t w (omega arith))
    ∙ total_from-vms_of (t + w) ws (omega arith)
    ∙ ap pos e

-- Tasks that start at `from`, each where the one before ends, and end at `end`. All but the last have
-- the share of `l` bytes of their weight, to half a byte.
abbrev pub Shared : ℕ → ℕ → ℕ → ℕ → List (Text × ℕ) → List (Text × File) → Type 0
Shared l total end from [] ts = ts ≡ []
Shared l total end from (v ∷ vs) [] = ⊥
Shared l total end from (v ∷ []) (t ∷ ts) =
    (t.1.file_start ≡ pos from) × (pos from +ℤ t.1.file_length ≡ pos end) × (ts ≡ [])
Shared l total end from (v ∷ w ∷ vs) (t ∷ ts) =
    (t.1.file_start ≡ pos from)
    × ((a : ℕ) × (t.1.file_length ≡ pos a)
        × (2 * (total * a) ≤ 2 * (l * v.1) + total)
        × (2 * (l * v.1) ≤ 2 * (total * a) + total)
        × Shared l total end (from + a) (w ∷ vs) ts)

mul_bounds : (W n : ℕ) → 0 < W → (W * (n / W) ≤ n) × (n < W * (n / W) + W)
mul_bounds W n h = (grind arith, grind arith)

mul-add : (W a from : ℕ) → W * (from + a) ≡ W * from + W * a
mul-add W a from = grind arith

le_of_mul : (W a b : ℕ) → 0 < W → W * a ≤ W * b → a ≤ b
le_of_mul W a b h k = grind arith

mul-le : (l u W : ℕ) → u ≤ W → l * u ≤ l * W
mul-le l u W h = grind arith

mul_comm : (a b : ℕ) → a * b ≡ b * a
mul_comm a b = grind arith

mul-suc : (i W : ℕ) → suc i * W ≡ i * W + W
mul-suc i W = grind arith

-- The difference of two numbers is exact.
sub64_exact : (e f : ℕ) → e < two63 → f < two63 → pos f +ℤ sub64 (pos e) (pos f) ≡ pos e
unfolding sub64 ◌+ℤ◌
sub64_exact e f a b = ground arith

module _ (file : File) (s l total : ℕ) (positive : 0 < total) where
  module _ (starts : file.file_start ≡ pos s) (long : file.file_length ≡ pos l) where
    module _ (room : l * total + total < two63) where
      allocated_lem :
          (w : ℕ)
          → w ≤ total
          → allocated file (pos total) (pos w) ≡ pos ((l * w + total / 2) / total)
      unfolding allocated
      allocated_lem w h =
          let p = mul-le l w total h in
          let n = l * w + total / 2 in
          let q = mul_bounds total n positive in
          let small : n / total < two63 =
            omega (arith, le_of_mul 1 (n / total) n (omega arith) (grind arith)) in
          rw
            (
              long,
              mul64-pos l w (omega arith),
              div64-pos total 2 (omega arith),
              add64-pos (l * w) (total / 2) (omega arith),
            )
            (div64-pos n total small)

      -- Rounding moves the start of a task by a byte a task at most.
      drift :
          (i from used : ℕ)
          → used ≤ total
          → total * from ≤ total * s + l * used + i * total
          → from ≤ s + l + i
      drift i from used u d = le_of_mul total from (s + l + i) positive (
          omega (
            arith,
            mul-add total i (s + l),
            mul-add total l s,
            mul-le l used total u,
            mul_comm l total,
            mul_comm i total,
          ))

      tasks-Shared :
          (i from used : ℕ) (v : Text × ℕ) (vs : List (Text × ℕ))
          → used + sum_of (v ∷ vs) ≡ total
          → total * from ≤ total * s + l * used + i * total
          → s + l + i + length (v ∷ vs) < two63
          → Shared l total
              (s + l)
              from
              (v ∷ vs)
              (split_tasks file (pos total) i (pos from) (vms_of (v ∷ vs)))
      unfolding split_tasks task
      tasks-Shared i from used (a, w) [] u d b =
          let near = drift i from used (omega arith) d in
          (
            refl,
            rw (starts, long, add64-pos s l (omega arith))
                (sub64_exact (s + l) from (omega arith) (omega arith)),
            refl,
          )
      tasks-Shared i from used (a, w) ((a', w') ∷ vs) u d b =
          let share = (l * w + total / 2) / total in
          let given = allocated_lem w (omega arith) in
          let bounds = mul_bounds total (l * w + total / 2) positive in
          let more =
            drift (suc i) (from + share) (used + w) (omega arith) (
              omega (arith, bounds, mul-add total share from, mul-add l w used, mul-suc i total)) in
          let next : add64 (pos from) (allocated file (pos total) (pos w)) ≡ pos (from + share) =
            ap (λ z. add64 (pos from) z) given ∙ add64-pos from share (omega (arith, more)) in
          let rest =
            tasks-Shared (suc i) (from + share) (used + w) (a', w') vs (omega arith)
              (omega (arith, bounds, mul-add total share from, mul-add l w used, mul-suc i total))
              (omega arith) in
          (
            refl,
            (
              share,
              given,
              omega (arith, bounds),
              omega (arith, bounds),
              subst
                  (λ z.
                    Shared l total (s + l) (from + share) ((a', w') ∷ vs)
                      (split_tasks file (pos total) (suc i) z (vms_of ((a', w') ∷ vs))))
                  (sym next) rest,
            ),
          )

-- The parts that the machines get lie in the order of the list, each starting where the one before
-- ends, from the start of the range to its end, which the last one reaches. Every other one has, to
-- half a byte, the share of its weight. The weights are not negative and not all 0, the file has
-- its length set, and no product or sum leaves int64.
pub split_tasks-Shared :
    (file : File) (s l : ℕ) (v : Text × ℕ) (vs : List (Text × ℕ))
    → file.file_start ≡ pos s
    → file.file_length ≡ pos l
    → 0 < sum_of (v ∷ vs)
    → l * sum_of (v ∷ vs) + sum_of (v ∷ vs) < two63
    → s + l + length (v ∷ vs) < two63
    → let vms = vms_of (v ∷ vs) in
      Shared l
        (sum_of (v ∷ vs))
        (s + l)
        s
        (v ∷ vs)
        (split_tasks file (total_from (pos 0) vms) 0 file.file_start vms)
split_tasks-Shared file s l v vs starts long positive room b =
    let total = sum_of (v ∷ vs) in
    let none_before : 0 + total ≡ total = omega arith in
    let sum = total_from-vms_of 0 (v ∷ vs) (omega arith) ∙ ap pos none_before in
    let plain =
      tasks-Shared file s l total positive starts long room 0 s 0 v vs (omega arith) (omega arith)
        (omega arith) in
    subst
      (λ z.
        Shared l total (s + l) s (v ∷ vs) (split_tasks file z 0 file.file_start (vms_of (v ∷ vs))))
      (sym sum)
      (subst
        (λ z.
          Shared l total (s + l) s (v ∷ vs) (split_tasks file (pos total) 0 z (vms_of (v ∷ vs))))
        (sym starts) plain)
