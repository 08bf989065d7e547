-- ===== src/Compose/S3/Merge.antt =====
-- A merge of s3/compose.go, by download, concatenation and upload, is one of the kind that the tree
-- needs.
use sky_flow.Base.{
  ℕ, ◌≡◌, refl, sym, ap, ◌∙◌, inl, inr, true, List, [], ◌∷◌, ◌++◌, some, append_assoc, append-nil,
  All, Bool-cases, Option-cases,
}
use sky_flow.Base.Text.{Text}
use sky_flow.Compose.{ObjectStore, IsLawful, IsReliable, IsMerge, MergesUpTo, Holds}
use sky_flow.Compose.Holds.{Holds-frame, Holds-back, All-always}
use sky_flow.Compose.S3.{LocalFile, download_all, merge_parts_to_temp_file}

-- Nothing local fails, and the context stays live.
pub record IsFine (l : LocalFile) : Type 0 where
  pub creates : l.creates ≡ true
  pub live : (p : Text) → l.context_live p ≡ true
  pub writes : (p : Text) → l.writes p ≡ true
  pub seeks : l.seeks ≡ true

module _ (S : ObjectStore) (law : IsLawful S) (l : LocalFile) where
  download_same :
      (ps : List Text) (file : Text) (s : S.State) (j : Text)
      → S.read (download_all S l ps file s).0 j ≡ S.read s j
  unfolding download_all
  download_same [] file s j = refl
  download_same (p ∷ ps) file s j =
      let got = S.get s p in
      elim (Bool-cases (l.context_live p)) [
        | inr e ↦ rw e refl
        | inl live ↦ elim (Option-cases got.1) [
          | inl e ↦ rw (live, e) (law.get_same s p j)
          | inr (body, e) ↦ elim (Bool-cases (l.writes p)) [
            | inr w ↦ rw (live, e, w) (law.get_same s p j)
            | inl w ↦ rw (live, e, w) (download_same ps (file ++ body) got.0 j ∙ law.get_same s p j)
          ]
        ]
      ]

  same_after_get :
      (ps : List Text) (s : S.State) (p : Text) → All (λ n. S.read (S.get s p).0 n ≡ S.read s n) ps
  same_after_get ps s p = All-always _ ps (λ n. law.get_same s p n)

  download_done :
      (ps : List Text) (file : Text) (s : S.State) (f : Text)
      → (download_all S l ps file s).1 ≡ some f
      → (c : Text) × Holds S s ps c × (f ≡ file ++ c)
  unfolding download_all
  download_done [] file s f h = ([], refl, let e : f ≡ file = cc in e ∙ sym (append-nil file))
  download_done (p ∷ ps) file s f h =
      let got = S.get s p in
      elim (Bool-cases (l.context_live p)) [
        | inr e ↦ let x = rw e at h in cc
        | inl live ↦ elim (Option-cases got.1) [
          | inl e ↦ let x = rw (live, e) at h in cc
          | inr (body, e) ↦ elim (Bool-cases (l.writes p)) [
            | inr w ↦ let x = rw (live, e, w) at h in cc
            | inl w ↦
                let (c, held, joined) =
                  download_done ps (file ++ body) got.0 f (rw (live, e, w) at h) in
                (
                  body ++ c,
                  (
                    body,
                    c,
                    law.get_done s p body e,
                    Holds-back S s got.0 ps c (same_after_get ps s p) held,
                    refl,
                  ),
                  joined ∙ append_assoc file body c,
                )
          ]
        ]
      ]

  download_runs :
      IsReliable S
      → IsFine l
      → (ps : List Text) (file : Text) (s : S.State) (c : Text) → Holds S s ps c
      → (f : Text) × ((download_all S l ps file s).1 ≡ some f)
  unfolding download_all
  download_runs up fine [] file s c h = (file, refl)
  download_runs up fine (p ∷ ps) file s c (a, b, here, rest, e) =
      let got = S.get s p in
      let (f, ok) =
        download_runs up fine ps (file ++ a) got.0 b
          (Holds-frame S s got.0 ps b (same_after_get ps s p) rest) in
      (f, rw (fine.live p, up.get_runs s p a here, fine.writes p) ok)

  pub merge_parts_to_temp_file-IsMerge : IsMerge S (merge_parts_to_temp_file S l)
  unfolding merge_parts_to_temp_file
  merge_parts_to_temp_file-IsMerge = record {
    merge_other = λ s names to j d.
        let down = download_all S l names [] s in
        let same = download_same names [] s j in
        elim (Bool-cases l.creates) [
          | inr e ↦ rw e refl
          | inl made ↦ elim (Option-cases down.1) [
            | inl e ↦ simp (made, e) same
            | inr (file, e) ↦ elim (Bool-cases l.seeks) [
              | inr k ↦ simp (made, e, k) same
              | inl k ↦ simp (made, e, k) (law.put_other down.0 to file j d ∙ same)
            ]
          ]
        ];
    merge_done = λ s names to h.
        let down = download_all S l names [] s in
        elim (Bool-cases l.creates) [
          | inr e ↦ let x = rw e at h in cc
          | inl made ↦ elim (Option-cases down.1) [
            | inl e ↦ let x = simp (made, e) at h in cc
            | inr (file, e) ↦ elim (Bool-cases l.seeks) [
              | inr k ↦ let x = simp (made, e, k) at h in cc
              | inl k ↦
                  let (c, held, joined) = download_done names [] s file e in
                  (
                    c,
                    held,
                    simp (made, e, k)
                        (law.put_done down.0 to file (simp (made, e, k) at h)
                          ∙ ap (λ x. some x) joined),
                  )
            ]
          ]
        ];
  }

  pub merge_parts_to_temp_file-MergesUpTo :
      IsReliable S → IsFine l → (width : ℕ) → MergesUpTo S width (merge_parts_to_temp_file S l)
  unfolding merge_parts_to_temp_file
  merge_parts_to_temp_file-MergesUpTo up fine width s names to c n w held =
      let (file, e) = download_runs up fine names [] s c held in
      simp (fine.creates, e, fine.seeks) (up.put_runs _ to file)
