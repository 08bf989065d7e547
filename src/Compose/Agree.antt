-- ===== src/Compose/Agree.antt =====
-- The two versions of ComposeFile against each other.
use sky_flow.Base.{
  ℕ, ◌≤◌, ◌<◌, ◌≡◌, ◌≢◌, sym, ◌∙◌, inl, inr, true, false, List, [], ◌∷◌, arith, length, All,
}
use sky_flow.Base.Word.{two63}
use sky_flow.Base.Text.{Text, Text-discrete}
use sky_flow.Chunk.Parts.{part_name}
use sky_flow.Compose.{ObjectStore, IsLawful, IsReliable, Holds}
use sky_flow.Compose.Names.{part_name-ne-object, part_name-ne-temp_name}
use sky_flow.Compose.Cleanup.{Member-cases}
use sky_flow.Compose.Trees.{IsFresh}
use sky_flow.Compose.Ends.{IsPlan}
use sky_flow.Compose.Gcs as Gcs
use sky_flow.Compose.Gcs.{Session}
use sky_flow.Compose.Gcs.Whole.{compose_file-IsSafe, compose_file-IsComplete}
use sky_flow.Compose.S3 as S3
use sky_flow.Compose.S3.{LocalFile}
use sky_flow.Compose.S3.Merge.{IsFine}
use sky_flow.Compose.S3.Whole.{s3_compose-IsSafe, s3_compose-IsComplete}

abbrev pub part_names : Text → List ℕ → List Text
part_names object [] = []
part_names object (n ∷ ns) = part_name object n ∷ part_names object ns

-- The names that splitting gives to parts of a file can be composed into it.
pub part_names-IsPlan :
    (object : Text) (ns : List ℕ)
    → 1 ≤ length ns
    → length ns < two63
    → IsPlan object (part_names object ns)
part_names-IsPlan object ns l b = record {
  nonempty = omega (arith, length-part_names ns);
  bounded = omega (arith, length-part_names ns);
  fresh = all_fresh ns;
  not_object = all_other ns;
}
  where
    length-part_names : (ns : List ℕ) → length (part_names object ns) ≡ length ns
    length-part_names [] = omega arith
    length-part_names (n ∷ ns) = omega (arith, length-part_names ns)

    all_fresh : (ns : List ℕ) → All (IsFresh object 0) (part_names object ns)
    all_fresh [] = tt
    all_fresh (n ∷ ns) = ((λ l k p q r. part_name-ne-temp_name object n l k), all_fresh ns)

    all_other : (ns : List ℕ) → All (λ n. n ≢ object) (part_names object ns)
    all_other [] = tt
    all_other (n ∷ ns) = (part_name-ne-object object n, all_other ns)

module _ (S : ObjectStore) (law : IsLawful S) (up : IsReliable S) where
  module _ (l : LocalFile) (fine : IsFine l) (session : Session) where
    -- On a bucket that serves every request on objects that exist, the tree of compose requests of 32
    -- and the one of downloads and uploads of 1000 end alike: both succeed, and afterwards every object
    -- that has no temporary name is the same. The session connects, nothing local fails; the parts exist,
    -- and neither the object nor a temporary name is among them.
    pub compose_file-agrees :
        (object : Text) (parts : List Text) (c : Text) (s : S.State)
        → session.context_done ≡ false
        → session.connects ≡ true
        → IsPlan object parts
        → Holds S s parts c
        → let gcs = Gcs.compose_file S session object parts s in
          let s3 = S3.compose_file S l session object parts s in
          (gcs.1 ≡ s3.1) × ((j : Text) → IsFresh object 0 j → S.read gcs.0 j ≡ S.read s3.0 j)
    compose_file-agrees object parts c s live on plan held =
        let g = compose_file-IsComplete S law up session object parts c s live on plan held in
        let a = s3_compose-IsComplete S law up l fine session object parts c s live on plan held in
        let g' = compose_file-IsSafe S law session object parts s plan in
        let a' = s3_compose-IsSafe S law l session object parts s plan in
        (
          g.succeeds ∙ sym a.succeeds,
          λ j f. elim (Text-discrete j object) [
            | yes e ↦ rw e (g.has_all ∙ sym a.has_all)
            | no e ↦ elim (Member-cases j parts) [
              | inl m ↦ g.parts_gone j m ∙ sym (a.parts_gone j m)
              | inr m ↦ g'.others_kept j e m f ∙ sym (a'.others_kept j e m f)
            ]
          ],
        )
