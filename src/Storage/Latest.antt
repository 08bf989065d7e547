-- ===== src/Storage/Latest.antt =====
-- Get over the directory that any sequence of calls of Put makes.
use sky_flow.Base.{
  ℕ, ◌<◌, ◌≡◌, ◌≢◌, refl, sym, subst, ◌∙◌, ap, inl, inr, Bool, true, false, List, [], ◌∷◌, ◌++◌,
  Option, none, some, arith, All, Bool-cases, if◌then◌else◌,
}
use sky_flow.Base.Int.{ℤ, pos, negsuc, ◌≤ℤ◌}
use sky_flow.Base.Word.{two63}
use sky_flow.Base.Text.{Text, ◌≟◌, ≟→≡, ≟-refl, ne→≟}
use sky_flow.Storage.{
  VmReport, Entry, report, Writing, file_name, skipped, crashes, stamp, stamp_of, read_report, get,
}
use sky_flow.Storage.Names.{stamp_of-file_name}
use sky_flow.Storage.Saved.{put_all, history, IsTidy, IsNewest, IsFile, IsKept, put_all-IsKept}
use sky_flow.Storage.Loop.{stamp_injective, IsFound, IsPlain, get_loop_lem}

-- The machine and the time that a name with a time stands for.
by_machine :
    (vm v : Text) (t : ℕ) (z : ℤ)
    → (if v ≟ vm then stamp (pos t) else skipped) ≡ stamp z
    → (v ≡ vm) × (z ≡ pos t)
by_machine vm v t z h = elim (Bool-cases (v ≟ vm)) [
  | inl e ↦ (
    ≟→≡ v vm e,
    stamp_injective z (pos t)
        (sym (subst (λ b. (if b then stamp (pos t) else skipped) ≡ stamp z) e h)),
  )
  | inr e ↦ cc (subst (λ b. (if b then stamp (pos t) else skipped) ≡ stamp z) e h)
]

module _ {R : Type 0} where
  -- An entry for a saved report: its time, if it is one of the machine.
  IsFile-stamp :
      (vm : Text) (hs : List (ℕ × VmReport R)) (e : Entry R) (f : IsFile hs e)
      → stamp_of (vm ++ 95 ∷ []) e.name ≡ (if f.1.vm_id ≟ vm then stamp (pos f.0) else skipped)
  IsFile-stamp vm hs e (t, r, i, b, d, y, n) =
      ap (stamp_of (vm ++ 95 ∷ [])) n ∙ stamp_of-file_name vm r.vm_id t b

  IsFile-IsPlain :
      (vm : Text) (hs : List (ℕ × VmReport R)) (e : Entry R)
      → IsFile hs e
      → IsPlain (vm ++ 95 ∷ []) e
  IsFile-IsPlain vm hs e f =
      (f.4, λ q. no_crash (f.1.vm_id ≟ vm) (sym (IsFile-stamp vm hs e f) ∙ q))
    where
      no_crash : (b : Bool) → (if b then stamp (pos f.0) else skipped) ≡ crashes → ⊥
      no_crash true q = cc q
      no_crash false q = cc q

  read_report-body :
      (e : Entry R) (r : VmReport R)
      → e.body ≡ some r
      → read_report (λ name. true) (some (some e)) ≡ report r
  unfolding read_report
  read_report-body e r y = simp y

  stamp_of-kept :
      (vm : Text) (e : Entry R) (t : ℕ) (r : VmReport R)
      → t < two63
      → e.name ≡ file_name r.vm_id t
      → r.vm_id ≡ vm
      → stamp_of (vm ++ 95 ∷ []) e.name ≡ stamp (pos t)
  stamp_of-kept vm e t r b n q =
      ap (stamp_of (vm ++ 95 ∷ [])) n
      ∙ stamp_of-file_name vm r.vm_id t b
      ∙ rw (subst (λ v. (v ≟ vm) ≡ true) (sym q) (≟-refl vm)) refl

  read_report_lem :
      (vm : Text) (hs : List (ℕ × VmReport R)) (dir : List (Entry R)) (out : Option (Entry R))
      → IsKept hs dir
      → IsFound (vm ++ 95 ∷ []) dir (negsuc 0) none out
      → IsNewest vm hs (read_report (λ name. true) (some out))
  unfolding IsNewest read_report
  read_report_lem vm hs dir out (sound, full) (inl (q, all)) = rw q (λ t r i same.
      let (e, m, b, n) = full t r i in
      let low = all e (pos t) m (stamp_of-kept vm e t r b n same) in absurd (omega (arith, low)))
  read_report_lem vm hs dir out (sound, full) (inr (e, z, q, m, s, all, low)) =
      let (t, r, i, b, d, y, n) = sound e m in
      let (is_vm, time) =
        by_machine vm r.vm_id t z (sym (IsFile-stamp vm hs e (t, r, i, b, d, y, n)) ∙ s) in
      subst (IsNewest vm hs)
        (sym (ap (λ o. read_report (λ name. true) (some o)) q ∙ read_report-body e r y))
        (
          t,
          i,
          is_vm,
          λ t' r' i' same.
              let (e', m', b', n') = full t' r' i' in
              let most = all e' (pos t') m' (stamp_of-kept vm e' t' r' b' n' same) in
              let most' : pos t' ≤ℤ pos t = subst (λ x. pos t' ≤ℤ x) time most in
              omega (arith, most'),
        )

-- Whatever calls of Put have succeeded or failed, Get does not panic: it returns a report that was
-- saved for this very machine, none of whose saved reports has a later time, and the error that there
-- is no report exactly if none was saved for it. This holds for machines whose names extend each other,
-- if the clock fits an int64, failed writes leave no file behind and the files can be read.
pub get-IsNewest :
    {R : Type 0} (vm : Text) (calls : List (Writing × VmReport R))
    → vm ≢ []
    → All IsTidy calls
    → IsNewest vm (history calls) (get (λ name. true) vm (some (put_all calls)))
unfolding get
get-IsNewest vm calls ne tidy =
    let kept = put_all-IsKept calls tidy in
    let (out, q, found) =
      get_loop_lem (vm ++ 95 ∷ []) (put_all calls) (negsuc 0) none
        (λ e m. IsFile-IsPlain vm (history calls) e (kept.0 e m)) in
    rw (ne→≟ vm [] ne, q) (read_report_lem vm (history calls) (put_all calls) out kept found)
