-- ===== src/LargeFile/Late.antt =====
-- The limit of the context that the composition gets.
use sky_flow.Base.{
  ℕ, ◌≤◌, ◌≡◌, refl, ap, ◌∙◌, Bool, true, false, List, ◌∷◌, Option, none, some, leb, arith,
}
use sky_flow.Base.Int.{ℤ, pos}
use sky_flow.Base.Text.{Text}
use sky_flow.Compose.{ObjectStore}
use sky_flow.Compose.Gcs.{compose_file}
use sky_flow.LargeFile.{
  WeightedVm, File, LargeFileResult, uploaded, no_vms, zero_weight, timed_out, nodes_failed,
  total_from, split_file_names, with_length, process_large_file_upload, context_timeout,
  compose_list, after_upload, process_upload_logic,
}
use sky_flow.LargeFile.Tasks.{step}
use sky_flow.LargeFile.Doubles.{parts_of, when_uploaded}

two_names :
    (v w : WeightedVm) (vs : List WeightedVm) (file : File) (size : ℤ)
    → (n : Text) × (m : Text) × (ns : List Text) × (split_file_names
          (parts_of (v ∷ w ∷ vs) file size)
        ≡ n ∷ m ∷ ns)
unfolding split_file_names
two_names v w vs file size =
    let sized = with_length file size in
    let total = total_from (pos 0) (v ∷ w ∷ vs) in
    let (t, next, e, named) = step sized total 0 (omega arith) 0 sized.file_start v (w ∷ vs) in
    let (u, after, f, named') = step sized total 0 (omega arith) 1 next w vs in
    (_, _, _, ap split_file_names e ∙ ap (λ r. t.new_file_name ∷ split_file_names r) f)

module _ (S : ObjectStore) where
  late_list :
      (connects : Bool) (elapsed : ℕ) (name n m : Text) (ns : List Text) (s : S.State)
      → context_timeout ≤ elapsed
      → compose_list S connects elapsed name (n ∷ m ∷ ns) s ≡ (s, false)
  unfolding compose_list compose_file
  late_list connects elapsed name n m ns s late =
      let passed : leb context_timeout elapsed ≡ true = ground arith in rw passed refl

  -- If sending a file from two machines or more takes ten seconds, the answer is an error and the
  -- bucket stays as the machines left it: the parts are never composed, although they all may have
  -- been sent, because the context of the composition started with the request and has ended by then.
  pub process_upload_logic-late :
      (sends : Text → File → Bool) (in_time connects : Bool) (elapsed : ℕ) (v w : WeightedVm)
      (vs : List WeightedVm) (file : File) (size : Option ℤ) (stored : S.State)
      → context_timeout ≤ elapsed
      → process_upload_logic S sends in_time connects elapsed (v ∷ w ∷ vs) file size stored
        ≡ (stored, false)
  unfolding process_upload_logic
  process_upload_logic-late sends in_time connects elapsed v w vs file none stored late = refl
  process_upload_logic-late sends in_time connects elapsed v w vs file (some size) stored late =
      cases (process_large_file_upload sends in_time (v ∷ w ∷ vs) file size).0 refl
    where
      cases :
          (r : LargeFileResult)
          → (process_large_file_upload sends in_time (v ∷ w ∷ vs) file size).0 ≡ r
          → after_upload S connects elapsed file.file_name r stored ≡ (stored, false)
      cases (uploaded list) e =
          let (names, tasks) = when_uploaded sends in_time (v ∷ w ∷ vs) file size list e in
          let (n, m, ns, two) = two_names v w vs file size in
          ap (λ l. compose_list S connects elapsed file.file_name l stored) (names ∙ two)
          ∙ late_list connects elapsed file.file_name n m ns stored late
      cases no_vms e = refl
      cases zero_weight e = refl
      cases timed_out e = refl
      cases nodes_failed e = refl
