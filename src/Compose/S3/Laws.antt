-- ===== src/Compose/S3/Laws.antt =====
-- What ComposeFile of s3/compose.go does after its loops.
use sky_flow.Base.{
  ◌≤◌, ◌≡◌, ◌≢◌, inl, inr, refl, ap, ◌∙◌, Bool, List, none, some, length, All, Bool-cases,
}
use sky_flow.Base.Text.{Text, Text-discrete}
use sky_flow.Compose.{ObjectStore, IsLawful, IsReliable, Holds}
use sky_flow.Compose.Holds.{Holds-unique}
use sky_flow.Compose.Tree.{delete_all, delete_except}
use sky_flow.Compose.S3.{LocalFile, finish}
use sky_flow.Compose.Cleanup.{
  Member-cases, delete_all_other, delete_except_other, delete_keeps_gone, delete_all_keeps_gone,
  delete_except_keeps_gone, delete_clears, delete_all_clears, delete_except_clears,
}
use sky_flow.Compose.Trees.{Built}
use sky_flow.Compose.After.{
  fresh-ne-last, object-ne-last, temps-ne-object, parts-ne-object, copy_fresh, copy_parts,
  copy_whole,
}
use sky_flow.Compose.Ends.{IsPlan, fresh-ne-temps, IsSafe, IsComplete}

module _ (S : ObjectStore) (law : IsLawful S) (l : LocalFile) where
  module _ (object : Text) (parts current temps : List Text) (s t : S.State) where
    module _ (many : 2 ≤ length parts) (plan : IsPlan object parts) where
      module _ (b : Built S object parts current temps s t) where
        abbrev pub copied : S.State × Bool
        copied = S.copy t b.last object

        abbrev pub swept : S.State
        swept = delete_except S b.last temps copied.0

        abbrev pub cleaned : S.State
        cleaned = delete_all S parts (S.delete swept b.last).0

        cleaned_other :
            (j : Text)
            → j ≢ b.last
            → All (λ n. j ≢ n) parts
            → All (λ n. j ≢ n) temps
            → S.read cleaned j ≡ S.read copied.0 j
        cleaned_other j d p q =
            delete_all_other S law parts (S.delete swept b.last).0 j p
            ∙ law.delete_other swept b.last j d
            ∙ delete_except_other S law b.last temps copied.0 j q

        cleaned_object : S.read cleaned object ≡ S.read copied.0 object
        cleaned_object =
            cleaned_other object (object-ne-last S law object parts current temps s t many plan b)
              (parts-ne-object S law object parts current temps s t many plan b)
              (temps-ne-object S law object parts current temps s t many plan b)

        pub finish-IsSafe : IsSafe S object parts s (finish S l object parts current temps t)
        unfolding finish
        finish-IsSafe = rw b.single (elim (Bool-cases copied.1) [
          | inr failed ↦ rw failed (record {
            whole = λ h. cc;
            parts_kept = λ h. copy_parts S law object parts current temps s t many plan b;
            no_panic = λ h. cc;
            others_kept =
                λ j d p f. copy_fresh S law object parts current temps s t many plan b j d f;
          })
          | inl ok ↦ rw ok (record {
            whole = λ h.
                let (c, held, written) =
                  copy_whole S law object parts current temps s t many plan b ok in
                (c, held, cleaned_object ∙ written);
            parts_kept = λ h. absurd (h refl);
            no_panic = λ h. cc;
            others_kept = λ j d p f.
                cleaned_other j (fresh-ne-last S law object parts current temps s t many plan b j f)
                  p (fresh-ne-temps object j temps f b.all_temps)
                ∙ copy_fresh S law object parts current temps s t many plan b j d f;
          })
        ])

        gone_after :
            IsReliable S → (j : Text) → j ≢ object → S.read s j ≡ none → S.read cleaned j ≡ none
        gone_after up j d n =
            delete_all_keeps_gone S law parts (S.delete swept b.last).0 j
              (elim (Text-discrete j b.last) [
                | yes e ↦ rw e (delete_clears S law up swept b.last)
                | no e ↦ delete_keeps_gone S law swept b.last j (elim (Member-cases j temps) [
                  | inl temp ↦ delete_except_clears S law up b.last temps copied.0 j temp e
                  | inr other ↦
                      delete_except_keeps_gone S law b.last temps copied.0 j
                        (law.copy_other t b.last object j d ∙ b.others j other ∙ n)
                ])
              ])

        pub finish-IsComplete :
            IsReliable S
            → (c : Text) → Holds S s parts c
            → IsComplete S object parts c s (finish S l object parts current temps t)
        unfolding finish
        finish-IsComplete up c held =
            let (d, held', at_last) = b.contents in
            let ok = up.copy_runs t b.last object d at_last in
            let (e, held'', written) =
              copy_whole S law object parts current temps s t many plan b ok in
            let same = Holds-unique S s parts e c held'' held in
            rw b.single (
              rw ok (record {
                succeeds = refl;
                has_all = cleaned_object ∙ written ∙ ap (λ x. some x) same;
                parts_gone = λ j m. delete_all_clears S law up parts (S.delete swept b.last).0 j m;
                leaves_nothing = λ j d n. gone_after up j d n;
              }))
