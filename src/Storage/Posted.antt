-- ===== src/Storage/Posted.antt =====
-- From the requests of the machines to what Get finds.
use sky_flow.Base.{
  ◌<◌, ◌≡◌, ◌≢◌, refl, sym, subst, ap, ◌∙◌, true, false, List, [], ◌∷◌, ◌++◌, some, All,
}
use sky_flow.Base.Int.{ℤ}
use sky_flow.Base.Word.{two63}
use sky_flow.Base.Text.{Text}
use sky_flow.Base.Dict.{Dict}
use sky_flow.Storage.{
  VmReport, Entry, Writing, PutResult, saved, no_vm_id, marshal_failed, write_failed, rename_failed,
  put, get,
}
use sky_flow.Storage.Saved.{put_all, history, IsTidy, IsNewest}
use sky_flow.Storage.Latest.{get-IsNewest}
use sky_flow.Storage.Receives.{
  Body, accept, accept_valid, bad_request, bad_data, bad_report, decoded, Fault, Reply, invalid,
  Receiver, Post, validate_errors, filled, after_save, post_vm_receive, post_all, accepted,
}

module _ {R : Type 0} where
  abbrev pub no_reports : Receiver R
  no_reports = record { storage = []; activity_vm = [] }

  -- The clock is an int64, and a failed write leaves no file behind.
  abbrev pub IsTidyPost : Post R → Type 0
  IsTidyPost p =
      (p.writing.millis < two63) × (p.writing.leaves_file ≡ false) × (p.writing.removes ≡ true)

  after_save-storage :
      (r : VmReport R) (active : Dict (VmReport R)) (x : List (Entry R) × PutResult)
      → (after_save r active x).0.storage ≡ x.0
  unfolding after_save
  after_save-storage r active (dir, saved id) = refl
  after_save-storage r active (dir, no_vm_id) = refl
  after_save-storage r active (dir, marshal_failed) = refl
  after_save-storage r active (dir, write_failed) = refl
  after_save-storage r active (dir, rename_failed) = refl

  post-decoded :
      (w : Writing) (now : ℤ) (uuid : Text) (r : VmReport R) (s : Receiver R)
      (cs : List (Writing × VmReport R)) (faults : List Fault)
      → s.storage ≡ put_all cs
      → ((elim faults as (λ fs. Receiver R × Reply R) [
        | [] ↦
            after_save
              (filled now uuid r)
              s.activity_vm
              (put w (some (filled now uuid r)) s.storage)
        | e ∷ es ↦ (s, invalid (e ∷ es))
      ]).0
        ).storage
        ≡ put_all (accept_valid (w, filled now uuid r) faults ++ cs)
  unfolding put_all accept_valid
  post-decoded w now uuid r s cs [] q =
      after_save-storage (filled now uuid r) s.activity_vm
        (put w (some (filled now uuid r)) s.storage)
      ∙ ap (λ d. (put w (some (filled now uuid r)) d).0) q
  post-decoded w now uuid r s cs (e ∷ es) q = q

  post-accept :
      (w : Writing) (now : ℤ) (uuid : Text) (b : Body R) (s : Receiver R)
      (cs : List (Writing × VmReport R))
      → s.storage ≡ put_all cs
      → (post_vm_receive w now uuid b s).0.storage ≡ put_all (accept w now uuid b ++ cs)
  unfolding post_vm_receive accept
  post-accept w now uuid (decoded r) s cs q = post-decoded w now uuid r s cs (validate_errors r) q
  post-accept w now uuid bad_request s cs q = q
  post-accept w now uuid bad_data s cs q = q
  post-accept w now uuid bad_report s cs q = q

  -- What is stored are the reports that pass the checks.
  storage-post_all : (ps : List (Post R)) → (post_all ps no_reports).storage ≡ put_all (accepted ps)
  unfolding post_all accepted put_all
  storage-post_all [] = refl
  storage-post_all (p ∷ ps) =
      post-accept p.writing p.now p.uuid p.body (post_all ps no_reports) (accepted ps)
        (storage-post_all ps)

  accept_valid-IsTidy :
      (c : Writing × VmReport R) (faults : List Fault) (cs : List (Writing × VmReport R))
      → IsTidy c
      → All IsTidy cs
      → All IsTidy (accept_valid c faults ++ cs)
  unfolding accept_valid
  accept_valid-IsTidy c [] cs t h = (t, h)
  accept_valid-IsTidy c (e ∷ es) cs t h = h

  accept-IsTidy :
      (w : Writing) (now : ℤ) (uuid : Text) (b : Body R) (cs : List (Writing × VmReport R))
      → (w.millis < two63) × (w.leaves_file ≡ false) × (w.removes ≡ true)
      → All IsTidy cs
      → All IsTidy (accept w now uuid b ++ cs)
  unfolding accept
  accept-IsTidy w now uuid (decoded r) cs t h =
      accept_valid-IsTidy (w, filled now uuid r) (validate_errors r) cs t h
  accept-IsTidy w now uuid bad_request cs t h = h
  accept-IsTidy w now uuid bad_data cs t h = h
  accept-IsTidy w now uuid bad_report cs t h = h

  accepted-IsTidy : (ps : List (Post R)) → All IsTidyPost ps → All IsTidy (accepted ps)
  unfolding accepted
  accepted-IsTidy [] h = tt
  accepted-IsTidy (p ∷ ps) h =
      accept-IsTidy p.writing p.now p.uuid p.body (accepted ps) h.0 (accepted-IsTidy ps h.1)

-- Whatever requests the machines have sent, valid or not, and whatever saving them has answered: Get
-- does not panic, it returns a report that passed the checks and was saved for this very machine, none
-- of whose saved reports has a later time, and the error that there is no report exactly if none was
-- saved for it. This holds for machines whose names extend each other, if the clock fits an int64,
-- failed writes leave no file behind and the files can be read.
pub get-post_all :
    {R : Type 0} (vm : Text) (posts : List (Post R))
    → vm ≢ []
    → All IsTidyPost posts
    → IsNewest vm
        (history (accepted posts))
        (get (λ name. true) vm (some (post_all posts no_reports).storage))
get-post_all vm posts ne tidy =
    subst (λ dir. IsNewest vm (history (accepted posts)) (get (λ name. true) vm (some dir)))
      (sym (storage-post_all posts))
      (get-IsNewest vm (accepted posts) ne (accepted-IsTidy posts tidy))
