-- ===== src/Chunk/Split.antt =====
-- Splitting a range of a file into chunks (client-plugin/upload/split/split.go, lines 10 to 148).
-- The chunks come as a list, in the order in which the code puts them into the map.
pub mod Tiles
use sky_flow.Base.{ℕ, zero, suc, ◌+◌, ◌/◌, Bool, true, false, List, [], ◌∷◌, if◌then◌else◌}
use sky_flow.Base.Int.{ℤ, pos, negsuc, ltb_ℤ, pos_part}
use sky_flow.Base.Word.{add64, sub64}
use sky_flow.Base.Text.{Text}
use sky_flow.Base.Dict.{Dict, insert}
use sky_flow.Chunk.{auto_select_chunk_size, min_chunk}
use sky_flow.Chunk.Parts.{itoa, part_name}

-- `last_send` counts nanoseconds from Go's zero time.
pub record ChunkState : Type 0 where
  pub index : Text
  pub file_name : Text
  pub new_file_name : Text
  pub object_name : Text
  pub offset : ℤ
  pub size : ℤ
  pub last_send : ℕ
  pub acked : ℕ

pub data SplitError : Type 0 where
  negative_start : SplitError
  start_past_end : SplitError
  no_data : SplitError

-- The second result is what was put into the map.
pub data SplitResult : Type 0 where
  failed : SplitError → SplitResult
  split : ℤ → List ChunkState → SplitResult

module _ (file new_file : Text) where
  unfoldable pub chunk : ℕ → ℤ → ℤ → ChunkState
  unfolding itoa part_name
  chunk i from bytes = record {
    index = itoa i;
    file_name = file;
    new_file_name = new_file;
    object_name = part_name new_file i;
    offset = from;
    size = bytes;
    last_send = 0;
    acked = 0;
  }

  unfoldable pub part_size : ℤ → ℤ → ℤ → ℤ
  unfolding add64 sub64
  part_size chunk_size range_end from =
      if ltb_ℤ range_end (add64 from chunk_size) then sub64 range_end from else chunk_size

  -- `for offset < rangeEnd`
  unfoldable pub split_loop : ℕ → ℤ → ℤ → ℤ → ℕ → List ChunkState
  unfolding chunk part_size
  split_loop zero chunk_size range_end from i = []
  split_loop (suc fuel) chunk_size range_end from i =
      let bytes = part_size chunk_size range_end from in
      let rest = split_loop fuel chunk_size range_end (add64 from bytes) (suc i) in
      if ltb_ℤ from range_end then chunk i from bytes ∷ rest else []

  -- A chunk that is not the last has at least `min_chunk` bytes.
  unfoldable pub rounds : ℤ → ℕ
  rounds effective = suc (pos_part effective / min_chunk)

  unfoldable pub range_end_of : ℤ → ℤ → ℤ → ℤ
  unfolding add64
  range_end_of total start len = if ltb_ℤ (pos 0) len then add64 start len else total

  unfoldable pub split_range : ℤ → ℤ → Bool → SplitResult
  unfolding split_loop rounds sub64
  split_range start range_end no_split =
      let effective = sub64 range_end start in
      if ltb_ℤ (pos 0) effective
      then (if no_split
          then split effective (chunk 0 start effective ∷ [])
          else split (auto_select_chunk_size effective)
              (split_loop (rounds effective) (auto_select_chunk_size effective) range_end start 0))
      else failed no_data

  unfoldable pub split_file_by_range : ℤ → ℤ → ℤ → Bool → SplitResult
  unfolding range_end_of split_range
  split_file_by_range total start len no_split =
      let range_end = range_end_of total start len in
      if ltb_ℤ start (pos 0)
      then failed negative_start
      else if ltb_ℤ start total
      then split_range start (if ltb_ℤ total range_end then total else range_end) no_split
      else failed start_past_end

-- `chunks.Set` for each chunk.
unfoldable pub put_chunks : List ChunkState → Dict ChunkState → Dict ChunkState
put_chunks [] m = m
put_chunks (c ∷ cs) m = put_chunks cs (insert c.index c m)
