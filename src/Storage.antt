-- ===== src/Storage.antt =====
-- The reports of the machines as files (control-plane/storage/vm-receive-file.go, with the records of
-- receive-info/receive-info.go). A directory is the list of its entries as ReadDir yields it, by name;
-- the text of a report is modelled by the report, any other text by none. What the file system and
-- the clock answer is an argument.
pub mod Names
pub mod Saved
pub mod Loop
pub mod Latest
pub mod Receives
pub mod Posted
pub mod Averages
pub mod Samples
pub mod Links
mod Tests
use sky_flow.Base.{
  ℕ, zero, suc, ◌+◌, ◌-◌, Bool, true, false, not, ◌&&◌, List, [], ◌∷◌, ◌++◌, Option, none, some,
  length, take, drop, ltb, ◌==◌, if◌then◌else◌,
}
use sky_flow.Base.Int.{ℤ, pos, negsuc, ltb_ℤ}
use sky_flow.Base.Word.{sub64}
use sky_flow.Base.Text.{Text, codes, ◌≟◌}
use sky_flow.Chunk.Parts.{itoa, parse_int}
use sky_flow.Telemetry.{LinkCongestionInfo}

-- `ProxyStatus`, the two fields that the aggregation reads.
pub record Congestion (R : Type 0) : Type 0 where
  pub active_connections : ℤ
  pub avg_cache_per_conn : R

-- `VMReport`, the fields that the control plane reads, those of CPU, Memory and Network among them. A
-- time of `none` is Go's zero time.
pub record VmReport (R : Type 0) : Type 0 where
  pub vm_id : Text
  pub collect_time : Option ℤ
  pub report_id : Text
  pub physical_core : ℤ
  pub logical_core : ℤ
  pub memory_total : ℕ
  pub public_ip : Text
  pub port_count : ℤ
  pub congestion : Congestion R
  pub links_congestion : List (LinkCongestionInfo R)

pub record Entry (R : Type 0) : Type 0 where
  pub name : Text
  pub is_dir : Bool
  pub mod_time : ℤ
  pub body : Option (VmReport R)

pub data PutResult : Type 0 where
  saved : Text → PutResult
  no_vm_id : PutResult
  marshal_failed : PutResult
  write_failed : PutResult
  rename_failed : PutResult

pub data GetResult (R : Type 0) : Type 0 where
  report : VmReport R → GetResult R
  empty_id : GetResult R
  no_directory : GetResult R
  not_found : GetResult R
  read_failed : GetResult R
  decode_failed : GetResult R
  panics : GetResult R

-- The answers to `Put`. A write that fails may leave a file behind.
pub record Writing : Type 0 where
  pub marshals : Bool
  pub writes : Bool
  pub leaves_file : Bool
  pub renames : Bool
  pub removes : Bool
  pub millis : ℕ
  pub nanos : ℕ
  pub modified : ℤ

-- `fmt.Sprintf("%s_%s.json", report.VMID, timestamp)`
unfoldable pub file_name : Text → ℕ → Text
file_name vm millis = vm ++ (95 ∷ (itoa millis ++ codes ".json"))

unfoldable pub tmp_file_name : Text → ℕ → Text
tmp_file_name name nanos = name ++ (codes ".tmp_" ++ itoa nanos)

-- The order of ReadDir.
unfoldable pub before : Text → Text → Bool
before [] [] = false
before [] (d ∷ t) = true
before (c ∷ s) [] = false
before (c ∷ s) (d ∷ t) = let rest = before s t in if c == d then rest else ltb c d

module _ {R : Type 0} where
  -- A new file, or one in place of the file of its name.
  unfoldable pub put_entry : Entry R → List (Entry R) → List (Entry R)
  put_entry e [] = e ∷ []
  put_entry e (f ∷ fs) =
      let rest = put_entry e fs in
      if e.name ≟ f.name then e ∷ fs else if before e.name f.name then e ∷ f ∷ fs else f ∷ rest

  put_named : Writing → VmReport R → List (Entry R) → List (Entry R) × PutResult
  put_named w r dir =
      let name = file_name r.vm_id w.millis in
      let file : Entry R = record {
        name = name;
        is_dir = false;
        mod_time = w.modified;
        body = some r;
      } in
      let tmp : Entry R = record file { name = tmp_file_name name w.nanos } in
      if not w.marshals
      then (dir, marshal_failed)
      else if not w.writes
      then (
        (if w.leaves_file then put_entry (record tmp { body = none }) dir else dir),
        write_failed,
      )
      else if w.renames
      then (put_entry file dir, saved r.report_id)
      else ((if w.removes then dir else put_entry tmp dir), rename_failed)

  -- `none` is a nil report.
  unfoldable pub put : Writing → Option (VmReport R) → List (Entry R) → List (Entry R) × PutResult
  unfolding put_named
  put w none dir = (dir, no_vm_id)
  put w (some r) dir = if r.vm_id ≟ [] then (dir, no_vm_id) else put_named w r dir

unfoldable pub has_prefix : Text → Text → Bool
has_prefix [] s = true
has_prefix (c ∷ p) [] = false
has_prefix (c ∷ p) (d ∷ s) = c == d && has_prefix p s

-- What the loop of `Get` makes of a name.
pub data Stamp : Type 0 where
  skipped : Stamp
  crashes : Stamp
  stamp : ℤ → Stamp

abbrev pub parsed : Option ℤ → Stamp
parsed none = skipped
parsed (some z) = stamp z

-- `name[len(prefix) : len(name)-5]`, which panics if the bounds are crossed.
unfoldable pub stamp_of : Text → Text → Stamp
stamp_of prefix name =
    if has_prefix prefix name
    then if ltb (length name) (length prefix + 5)
      then crashes
      else parsed (parse_int (take (length name - 5 - length prefix) (drop (length prefix) name)))
    else skipped

module _ {R : Type 0} where
  -- The newest entry so far with its time; `none` is a panic.
  unfoldable pub get_loop : Text → List (Entry R) → ℤ → Option (Entry R) → Option (Option (Entry R))
  get_loop prefix [] best found = some found
  get_loop prefix (e ∷ es) best found =
      let keep = get_loop prefix es best found in
      if e.is_dir then keep else (elim (stamp_of prefix e.name) [
        | skipped ↦ keep
        | crashes ↦ none
        | stamp z ↦
            let take_it = get_loop prefix es z (some e) in if ltb_ℤ best z then take_it else keep
      ])

  unfoldable pub read_report : (Text → Bool) → Option (Option (Entry R)) → GetResult R
  read_report reads none = panics
  read_report reads (some none) = not_found
  read_report reads (some (some e)) = elim e.body [
    | none ↦ if reads e.name then decode_failed else read_failed
    | some r ↦ if reads e.name then report r else read_failed
  ]

  -- `none` is a directory that cannot be read.
  unfoldable pub get : (Text → Bool) → Text → Option (List (Entry R)) → GetResult R
  get reads vm none = if vm ≟ [] then empty_id else no_directory
  get reads vm (some dir) =
      if vm ≟ [] then empty_id else read_report reads (get_loop (vm ++ 95 ∷ []) dir (negsuc 0) none)

  -- All reports that can be read and decoded.
  unfoldable pub get_all : (Text → Bool) → List (Entry R) → List (VmReport R)
  get_all reads [] = []
  get_all reads (e ∷ es) =
      let rest = get_all reads es in
      if e.is_dir
      then rest
      else if reads e.name
      then elim e.body [ none ↦ rest | some r ↦ r ∷ rest ]
      else rest

  -- Files older than the limit go, unless their time is unknown or the deletion fails.
  unfoldable pub cleanup_expired_files :
      (Text → Bool) → (Text → Bool) → ℤ → ℤ → List (Entry R) → List (Entry R)
  cleanup_expired_files has_info removes now expire_duration [] = []
  cleanup_expired_files has_info removes now expire_duration (e ∷ es) =
      let rest = cleanup_expired_files has_info removes now expire_duration es in
      let old = ltb_ℤ e.mod_time (sub64 now expire_duration) in
      if not e.is_dir && has_info e.name && old && removes e.name then rest else e ∷ rest
