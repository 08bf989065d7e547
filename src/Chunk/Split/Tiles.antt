-- ===== src/Chunk/Split/Tiles.antt =====
-- The chunks of a range lie side by side from its start to its end.
use sky_flow.Base.{
  ℕ, zero, suc, ◌+◌, ◌-◌, ◌*◌, ◌/◌, ◌≤◌, ◌<◌, min, ◌≡◌, refl, ◌∙◌, ◌⊎◌, inl, inr, Bool, true, false,
  List, [], ◌∷◌, arith, if◌then◌else◌, dec_lt,
}
use sky_flow.Base.Int.{ℤ, pos, negsuc, ltb_ℤ, pos_part, ltb_ℤ-yes, ltb_ℤ-no}
use sky_flow.Base.Word.{two63, two64, add64-pos, add64_overflow, sub64, sub64-pos, sub64_overflow}
use sky_flow.Base.Text.{Text}
use sky_flow.Chunk.{auto_select_chunk_size, min_chunk, max_chunk}
use sky_flow.Chunk.Sizes.{chunk_range}
use sky_flow.Chunk.Split.{
  ChunkState, SplitResult, split, chunk, part_size, split_loop, rounds, range_end_of, split_range,
  split_file_by_range,
}

module _ (file new_file : Text) where
  -- Chunks of `k` bytes, the last one of at most that many, from `from` to `end`.
  abbrev pub Tiles : ℕ → ℕ → ℕ → ℕ → List ChunkState → Type 0
  Tiles k end from i [] = from ≡ end
  Tiles k end from i (c ∷ cs) =
      (n : ℕ) × (c ≡ chunk file new_file i (pos from) (pos n))
      × (0 < n)
      × (n ≤ k)
      × ((n ≡ k) ⊎ (cs ≡ []))
      × Tiles k end (from + n) (suc i) cs

  part_size-inside :
      (k end from : ℕ)
      → from < end
      → end + k < two63
      → part_size file new_file (pos k) (pos end) (pos from) ≡ pos (min k (end - from))
  unfolding part_size
  part_size-inside k end from h b =
      ground (arith, add64-pos from k (omega arith), sub64-pos end from (omega arith) (omega arith))

  split_loop-zero : (k end from : ℤ) (i : ℕ) → split_loop file new_file 0 k end from i ≡ []
  unfolding split_loop
  split_loop-zero k end from i = refl

  split_loop-done :
      (fuel : ℕ) (k : ℤ) (end i : ℕ) → split_loop file new_file fuel k (pos end) (pos end) i ≡ []
  unfolding split_loop
  split_loop-done zero k end i = refl
  split_loop-done (suc fuel) k end i = ground arith

  split_loop-step :
      (fuel k end from i : ℕ)
      → from < end
      → end + k < two63
      → split_loop file new_file (suc fuel) (pos k) (pos end) (pos from) i
        ≡ chunk file new_file i (pos from) (pos (min k (end - from)))
          ∷ split_loop file new_file fuel
              (pos k)
              (pos end)
              (pos (from + min k (end - from)))
              (suc i)
  unfolding split_loop
  split_loop-step fuel k end from i h b =
      rw (part_size-inside k end from h b, add64-pos from (min k (end - from)) (omega arith))
        (ground arith)

  full_or_last :
      (fuel k end from i : ℕ)
      → from < end
      → (min k (end - from) ≡ k)
        ⊎ (split_loop file new_file fuel (pos k) (pos end) (pos (from + min k (end - from))) i ≡ [])
  full_or_last fuel k end from i h = elim (dec_lt (end - from) k) [
    | no p ↦ inl (omega arith)
    | yes p ↦
        let e : from + min k (end - from) ≡ end = omega arith in
        inr (rw e (split_loop-done fuel (pos k) end i))
  ]

  -- Each round takes `min_chunk` bytes or reaches the end.
  split_loop-Tiles :
      (fuel k end from i : ℕ)
      → from ≤ end
      → end + k < two63
      → min_chunk ≤ k
      → end - from ≤ fuel * min_chunk
      → Tiles k end from i (split_loop file new_file fuel (pos k) (pos end) (pos from) i)
  split_loop-Tiles zero k end from i h b c f =
      let e : from ≡ end = omega arith in rw (e, split_loop-zero (pos k) (pos end) (pos end) i) refl
  split_loop-Tiles (suc fuel) k end from i h b c f = elim (dec_lt from end) [
    | no p ↦
        let e : from ≡ end = omega arith in rw (e, split_loop-done (suc fuel) (pos k) end i) refl
    | yes p ↦ rw (split_loop-step fuel k end from i p b) (
      min k (end - from),
      refl,
      omega arith,
      omega arith,
      full_or_last fuel k end from (suc i) p,
      split_loop-Tiles fuel k end (from + min k (end - from)) (suc i) (omega arith) b c
          (omega arith),
    )
  ]

  abbrev pub end_of : ℕ → ℕ → ℤ → ℕ
  end_of total start (pos zero) = total
  end_of total start (pos (suc n)) = min total (start + suc n)
  end_of total start (negsuc n) = total

  truncated :
      (total start : ℕ) (len : ℤ)
      → start + pos_part len < two63
      → (if ltb_ℤ (pos total) (range_end_of file new_file (pos total) (pos start) len)
          then pos total
          else range_end_of file new_file (pos total) (pos start) len)
        ≡ pos (end_of total start len)
  unfolding range_end_of
  truncated total start (pos zero) o = ground arith
  truncated total start (pos (suc n)) o = rw (add64-pos start (suc n) o) (ground arith)
  truncated total start (negsuc n) o = ground arith

  in_range :
      (total start : ℕ) (len : ℤ) (no_split : Bool)
      → start < total
      → split_file_by_range file new_file (pos total) (pos start) len no_split
        ≡ split_range file new_file
            (pos start)
            (if ltb_ℤ (pos total) (range_end_of file new_file (pos total) (pos start) len)
              then pos total
              else range_end_of file new_file (pos total) (pos start) len)
            no_split
  unfolding split_file_by_range
  in_range total start len no_split h =
      rw
        (
          ltb_ℤ-no (pos start) (pos 0) (omega arith),
          ltb_ℤ-yes (pos start) (pos total) (omega arith),
        )
        refl

  end_of-bounds :
      (total start : ℕ) (len : ℤ)
      → start < total
      → (start < end_of total start len) × (end_of total start len ≤ total)
  end_of-bounds total start (pos zero) h = omega arith
  end_of-bounds total start (pos (suc n)) h = omega arith
  end_of-bounds total start (negsuc n) h = omega arith

  -- What a range is split into.
  abbrev pub Tiled : ℕ → ℕ → SplitResult → Type 0
  Tiled start end r =
      (k : ℕ) × (cs : List ChunkState) × (r ≡ split (pos k) cs)
      × (auto_select_chunk_size (pos (end - start)) ≡ pos k)
      × Tiles k end start 0 cs

  whole_range :
      (start end : ℕ)
      → start < end
      → end < two63
      → split_range file new_file (pos start) (pos end) false
        ≡ split (auto_select_chunk_size (pos (end - start))) (
            split_loop file new_file
              (suc ((end - start) / min_chunk))
              (auto_select_chunk_size (pos (end - start)))
              (pos end)
              (pos start)
              0)
  unfolding split_range rounds
  whole_range start end h b =
      rw (sub64-pos end start (omega arith) b, ltb_ℤ-yes (pos 0) (pos (end - start)) (omega arith))
        refl

  split_range-Tiled :
      (start end : ℕ)
      → start < end
      → end + max_chunk < two63
      → Tiled start end (split_range file new_file (pos start) (pos end) false)
  split_range-Tiled start end h b =
      let (k, e, lo, hi) = chunk_range (end - start) (omega arith) in
      (
        k,
        split_loop file new_file (suc ((end - start) / min_chunk)) (pos k) (pos end) (pos start) 0,
        whole_range start end h (omega arith) ∙ rw e refl,
        e,
        split_loop-Tiles (suc ((end - start) / min_chunk)) k end start 0 (omega arith) (omega arith)
            lo (omega arith),
      )

  -- A range inside the file is split into chunks of the selected size, the last one of the rest: the
  -- first starts at the start of the range, each next one where the one before ends, and the last
  -- ends at the end of the range, which a length past the end of the file or of 0 or less makes the
  -- end of the file. Sums in the loop stay within int64 if the file is 2 GB below its largest value.
  pub split_file_by_range-Tiled :
      (total start : ℕ) (len : ℤ)
      → start < total
      → total + max_chunk < two63
      → start + pos_part len < two63
      → Tiled start
          (end_of total start len)
          (split_file_by_range file new_file (pos total) (pos start) len false)
  split_file_by_range-Tiled total start len h b o =
      let (lo, hi) = end_of-bounds total start len h in
      rw (in_range total start len false h, truncated total start len o)
        (split_range-Tiled start (end_of total start len) lo (omega arith))

  wrapped :
      (total start len : ℕ) (no_split : Bool)
      → start < total
      → total < two63
      → len < two63
      → two63 ≤ start + len
      → split_file_by_range file new_file (pos total) (pos start) (pos len) no_split
        ≡ split_range file new_file (pos start) (negsuc (two64 - 1 - (start + len))) no_split
  unfolding range_end_of
  wrapped total start zero no_split h b l o = absurd (omega arith)
  wrapped total start (suc n) no_split h b l o =
      in_range total start (pos (suc n)) no_split h
      ∙ rw
          (
            add64_overflow start (suc n) (omega arith) l o,
            ltb_ℤ-yes (pos 0) (pos (suc n)) (omega arith),
            ltb_ℤ-no (pos total) (negsuc (two64 - 1 - (start + suc n))) (omega arith),
          )
          refl

  nothing :
      (start len e : ℕ)
      → 0 < len
      → sub64 (negsuc e) (pos start) ≡ pos len
      → split_range file new_file (pos start) (negsuc e) false
        ≡ split (auto_select_chunk_size (pos len)) []
  unfolding split_range rounds split_loop
  nothing start len e p d = rw (d, ltb_ℤ-yes (pos 0) (pos len) (omega arith)) (ground arith)

  one :
      (start len e : ℕ)
      → 0 < len
      → sub64 (negsuc e) (pos start) ≡ pos len
      → split_range file new_file (pos start) (negsuc e) true
        ≡ split (pos len) (chunk file new_file 0 (pos start) (pos len) ∷ [])
  unfolding split_range
  one start len e p d = rw (d, ltb_ℤ-yes (pos 0) (pos len) (omega arith)) refl

  -- A start and a length whose sum leaves int64 pass every check: no chunk is made, and without
  -- splitting a chunk of `len` bytes that ends past the file; both report success.
  pub split_file_by_range_overflow :
      (total start len : ℕ)
      → start < total
      → total < two63
      → len < two63
      → two63 ≤ start + len
      → (split_file_by_range file new_file (pos total) (pos start) (pos len) false
          ≡ split (auto_select_chunk_size (pos len)) [])
        × (split_file_by_range file new_file (pos total) (pos start) (pos len) true
            ≡ split (pos len) (chunk file new_file 0 (pos start) (pos len) ∷ []))
        × (total < start + len)
  split_file_by_range_overflow total start len h b l o = (
    wrapped total start len false h b l o
        ∙ nothing start len (two64 - 1 - (start + len)) (omega arith)
            (sub64_overflow start len (omega arith) l o),
    wrapped total start len true h b l o
        ∙ one start len (two64 - 1 - (start + len)) (omega arith)
            (sub64_overflow start len (omega arith) l o),
    omega arith,
  )
