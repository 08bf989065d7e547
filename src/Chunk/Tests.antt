-- ===== src/Chunk/Tests.antt =====
-- Chunks of concrete files.
use sky_flow.Base.{◌<◌, true, false, [], ◌∷◌, some, ◌≡◌, refl, arith}
use mathlib.Core.List.{Permᴰ}
use sky_flow.Base.Int.{pos}
use sky_flow.Base.Text.{codes, ◌≟◌}
use sky_flow.Chunk.{auto_select_chunk_size, auto_select_bs}
use sky_flow.Chunk.Parts.{extract_part_number, part_name, sort_part_strings}
use sky_flow.Chunk.Sizes.{SizeOf, auto_select_chunk_size_bounds}
use sky_flow.Chunk.Bytes.{parse_bs_to_bytes, parse_bs-auto_select_bs}
use sky_flow.Chunk.Names.{extract_part_number-part_name}
use sky_flow.Chunk.Order.{part_names, sort_part_strings_lem}
use sky_flow.Chunk.Split.{split, chunk, split_file_by_range}
use sky_flow.Chunk.Split.Tiles.{Tiled, split_file_by_range-Tiled, split_file_by_range_overflow}

three_gigabytes : auto_select_chunk_size (pos 3_000_000_000) ≡ pos 536_870_912
unfolding auto_select_chunk_size
three_gigabytes = refl

half_megabyte : parse_bs_to_bytes (codes " 512kB ") ≡ some (pos 524_288)
unfolding parse_bs_to_bytes ◌≟◌
half_megabyte = refl

-- By number, not as text.
in_order :
    sort_part_strings (codes "a.b.part.10" ∷ codes "a.b.part.00002" ∷ [])
    ≡ codes "a.b.part.00002" ∷ codes "a.b.part.10" ∷ []
unfolding sort_part_strings
in_order = refl

auto_select_chunk_size_bounds_example :
    SizeOf 3_000_000_000 (auto_select_chunk_size (pos 3_000_000_000))
auto_select_chunk_size_bounds_example = auto_select_chunk_size_bounds 3_000_000_000 (omega arith)

parse_bs-auto_select_bs_example :
    parse_bs_to_bytes (auto_select_bs (pos 3_000_000_000))
    ≡ some (auto_select_chunk_size (pos 3_000_000_000))
parse_bs-auto_select_bs_example = parse_bs-auto_select_bs (pos 3_000_000_000) (omega arith)

extract_part_number-part_name_example :
    extract_part_number (part_name (codes "data.tar.gz") 12) ≡ pos 12
extract_part_number-part_name_example =
    extract_part_number-part_name (codes "data.tar.gz") 12 (omega arith)

-- 150 megabytes from byte 10, in chunks of 64 MB.
split_file_by_range-Tiled_example : Tiled (codes "in") (codes "out") 10 150_000_010 (
    split_file_by_range
      (codes "in")
      (codes "out")
      (pos 900_000_000)
      (pos 10)
      (pos 150_000_000)
      false)
split_file_by_range-Tiled_example =
    split_file_by_range-Tiled (codes "in") (codes "out") 900_000_000 10 (pos 150_000_000)
      (omega arith) (omega arith) (omega arith)

split_file_by_range_overflow_example :
    (split_file_by_range
        (codes "in")
        (codes "out")
        (pos 900)
        (pos 100)
        (pos 9_223_372_036_854_775_807)
        false
      ≡ split (auto_select_chunk_size (pos 9_223_372_036_854_775_807)) [])
    × (split_file_by_range
          (codes "in")
          (codes "out")
          (pos 900)
          (pos 100)
          (pos 9_223_372_036_854_775_807)
          true
        ≡ split
            (pos 9_223_372_036_854_775_807)
            (chunk (codes "in") (codes "out") 0 (pos 100) (pos 9_223_372_036_854_775_807) ∷ []))
    × (900 < 9_223_372_036_854_775_907)
split_file_by_range_overflow_example =
    split_file_by_range_overflow (codes "in") (codes "out") 900 100 9_223_372_036_854_775_807
      (omega arith) (omega arith) (omega arith) (omega arith)

-- The map yields the second part first.
sort_part_strings_lem_example :
    sort_part_strings (part_name (codes "out") 1 ∷ part_name (codes "out") 0 ∷ [])
    ≡ part_names (codes "out") 0 2
unfolding part_names
sort_part_strings_lem_example =
    sort_part_strings_lem (codes "out") 2
      (part_name (codes "out") 1 ∷ part_name (codes "out") 0 ∷ []) (omega arith)
      (Permᴰ.swap refl refl)
