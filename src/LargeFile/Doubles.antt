-- ===== src/LargeFile/Doubles.antt =====
-- Two machines with one address: the map of the tasks keeps the later one only.
use sky_flow.Base.{
  Member, ◌<◌, ◌≡◌, ◌≢◌, inl, inr, refl, sym, ap, subst, ◌∙◌, Bool, List, [], ◌∷◌, ◌++◌, some,
  arith, length, length-append, Bool-cases,
}
use sky_flow.Base.Int.{ℤ, pos}
use sky_flow.Base.Word.{two63}
use sky_flow.Base.Text.{Text}
use sky_flow.Base.Dict.{lookup}
use sky_flow.LargeFile.{
  WeightedVm, File, uploaded, is_zero, total_from, split_name, split_tasks, vm_tasks,
  split_file_names, all_succeed, with_length, process_large_file_upload,
}
use sky_flow.LargeFile.Tasks.{before_both, named_at}

none_sent : (ip : Text) (t : File) → lookup ip [] ≡ some t → ⊥
unfolding lookup
none_sent ip t f = cc

abbrev pub parts_of : List WeightedVm → File → ℤ → List (Text × File)
parts_of vms file size =
    let sized = with_length file size in
    split_tasks sized (total_from (pos 0) vms) 0 sized.file_start vms

pub when_uploaded :
    (sends : Text → File → Bool) (in_time : Bool) (vms : List WeightedVm) (file : File) (size : ℤ)
    (list : List Text)
    → (process_large_file_upload sends in_time vms file size).0 ≡ uploaded list
    → (list ≡ split_file_names (parts_of vms file size))
      × ((process_large_file_upload sends in_time vms file size).1
          ≡ vm_tasks (parts_of vms file size) [])
unfolding process_large_file_upload
when_uploaded sends in_time [] file size list e = cc
when_uploaded sends in_time (v ∷ vs) file size list e =
    let tasks = vm_tasks (parts_of (v ∷ vs) file size) [] in
    elim (Bool-cases (is_zero (total_from (pos 0) (v ∷ vs)))) [
      | inl zero_ ↦ let x = rw zero_ at e in cc
      | inr some_ ↦ elim (Bool-cases in_time) [
        | inr late ↦ let x = rw (some_, late) at e in cc
        | inl soon ↦ elim (Bool-cases (all_succeed sends tasks)) [
          | inr fails ↦ let x = rw (some_, soon, fails) at e in cc
          | inl fine ↦
              let x : uploaded (split_file_names (parts_of (v ∷ vs) file size)) ≡ uploaded list =
                rw (some_, soon, fine) at e in
              (cc, rw (some_, soon, fine) refl)
        ]
      ]
    ]

with_length-name :
    (file : File) (size : ℤ) → (with_length file size).new_file_name ≡ file.new_file_name
unfolding with_length
with_length-name file size = elim (Bool-cases (is_zero file.file_length)) [
  | inl e ↦ rw e refl
  | inr e ↦ rw e refl
]

-- If two machines have one address, the name of the earlier one's part stands in the list that is
-- composed at the end, but no task that was sent out makes it, whatever the weights are and however the
-- requests end, also if all of them succeed.
pub process_large_file_upload-doubles :
    (sends : Text → File → Bool) (in_time : Bool) (us : List WeightedVm) (v : WeightedVm)
    (vs : List WeightedVm) (w : WeightedVm) (ws : List WeightedVm) (file : File) (size : ℤ)
    (list : List Text)
    → v.ip ≡ w.ip
    → length (us ++ v ∷ (vs ++ w ∷ ws)) < two63
    → (process_large_file_upload sends in_time (us ++ v ∷ (vs ++ w ∷ ws)) file size).0
      ≡ uploaded list
    → let name = split_name file.new_file_name (length us) in
      let sent = (process_large_file_upload sends in_time (us ++ v ∷ (vs ++ w ∷ ws)) file size).1 in
      Member name list × ((ip : Text) (t : File) → lookup ip sent ≡ some t → t.new_file_name ≢ name)
process_large_file_upload-doubles sends in_time us v vs w ws file size list same b e =
    let vms = us ++ v ∷ (vs ++ w ∷ ws) in
    let sized = with_length file size in
    let total = total_from (pos 0) vms in
    let p = length us in
    let small : p < two63 = omega (arith, length-append us (v ∷ (vs ++ w ∷ ws))) in
    let (names, tasks) = when_uploaded sends in_time vms file size list e in
    let same_name = ap (λ n. split_name n p) (with_length-name file size) in
    let in_list =
      named_at sized total p small us v (vs ++ w ∷ ws) 0 sized.file_start (omega arith) in
    let not_sent =
      before_both sized total p small us v vs w ws 0 sized.file_start [] same (omega arith)
        (omega arith) (λ ip t f. absurd (none_sent ip t f)) in
    (
      subst (λ n. Member n list) same_name
          (subst (λ l. Member (split_name sized.new_file_name p) l) (sym names) in_list),
      λ ip t f g. not_sent ip t (ap (λ m. lookup ip m) (sym tasks) ∙ f) (g ∙ sym same_name),
    )
