-- ===== src/Compose/Ends.antt =====
-- What both versions of ComposeFile promise, and the case of a single part.
use sky_flow.Base.{
  Member, ◌≤◌, ◌<◌, ◌≡◌, ◌≢◌, inl, inr, refl, sym, ◌∙◌, List, [], ◌∷◌, none, some, append-nil,
  arith, length, All, Bool-cases,
}
use sky_flow.Base.Word.{two63}
use sky_flow.Base.Text.{Text, ◌≟◌, ≟→≡}
use sky_flow.Compose.{ObjectStore, IsLawful, IsReliable, Holds, ComposeResult, done, panics}
use sky_flow.Compose.Holds.{All-map, Holds-one}
use sky_flow.Compose.Gcs.{move_single}
use sky_flow.Compose.Cleanup.{delete_clears, delete_keeps_gone}
use sky_flow.Compose.Trees.{IsFresh, AnyTemp}

-- There are parts, less than 2 ^ 63, and neither the object nor a temporary name is one of them.
pub record IsPlan (object : Text) (parts : List Text) : Type 0 where
  pub nonempty : 1 ≤ length parts
  pub bounded : length parts < two63
  pub fresh : All (IsFresh object 0) parts
  pub not_object : All (λ n. n ≢ object) parts

pub fresh-ne-temps :
    (object j : Text) (temps : List Text)
    → IsFresh object 0 j
    → All (AnyTemp object) temps
    → All (λ n. j ≢ n) temps
fresh-ne-temps object j temps f h =
    All-map (AnyTemp object) _ temps
      (λ n (a : AnyTemp object n) e. f a.0 a.1 (omega arith) a.2 a.3 (e ∙ a.4)) h

module _ (S : ObjectStore) where
  -- The outcome of a run on a service of which only the laws are known.
  pub record IsSafe (object : Text) (parts : List Text) (s : S.State) (r : S.State × ComposeResult)
      : Type 0 where
    pub whole : r.1 ≡ done → (c : Text) × Holds S s parts c × (S.read r.0 object ≡ some c)
    pub parts_kept : r.1 ≢ done → All (λ n. S.read r.0 n ≡ S.read s n) parts
    pub no_panic : r.1 ≢ panics
    pub others_kept :
        (j : Text)
        → j ≢ object
        → All (λ n. j ≢ n) parts
        → IsFresh object 0 j
        → S.read r.0 j ≡ S.read s j

  -- The outcome of a run on a service that is up.
  pub record IsComplete (object : Text) (parts : List Text) (c : Text) (s : S.State)
      (r : S.State × ComposeResult) : Type 0 where
    pub succeeds : r.1 ≡ done
    pub has_all : S.read r.0 object ≡ some c
    pub parts_gone : (j : Text) → Member j parts → S.read r.0 j ≡ none
    pub leaves_nothing : (j : Text) → j ≢ object → S.read s j ≡ none → S.read r.0 j ≡ none

  pub All-same : (s : S.State) (ns : List Text) → All (λ n. S.read s n ≡ S.read s n) ns
  All-same s [] = tt
  All-same s (n ∷ ns) = (refl, All-same s ns)

  pub untouched-IsSafe :
      (object : Text) (parts : List Text) (s : S.State) (e : ComposeResult)
      → e ≢ done
      → e ≢ panics
      → IsSafe object parts s (s, e)
  untouched-IsSafe object parts s e d p = record {
    whole = λ h. absurd (d h);
    parts_kept = λ h. All-same s parts;
    no_panic = p;
    others_kept = λ j a b f. refl;
  }

  module _ (law : IsLawful S) where
    pub move_single-IsSafe :
        (object part : Text) (s : S.State)
        → part ≢ object
        → IsSafe object (part ∷ []) s (move_single S object part s)
    unfolding move_single
    move_single-IsSafe object part s d =
        let copied = S.copy s part object in
        elim (Bool-cases (part ≟ object)) [
          | inl e ↦ absurd (d (≟→≡ part object e))
          | inr e ↦ elim (Bool-cases copied.1) [
            | inl ok ↦
                let (c, before, after) = law.copy_done s part object ok in
                rw (e, ok)
                  (record {
                    whole = λ h. (
                      c,
                      (c, [], before, refl, sym (append-nil c)),
                      law.delete_other copied.0 part object (λ e. d (sym e)) ∙ after,
                    );
                    parts_kept = λ h. absurd (h refl);
                    no_panic = λ h. cc;
                    others_kept = λ j a b f.
                        law.delete_other copied.0 part j b.0 ∙ law.copy_other s part object j a;
                  })
            | inr failed ↦
                rw (e, failed)
                  (record {
                    whole = λ h. cc;
                    parts_kept = λ h. (law.copy_other s part object part d, tt);
                    no_panic = λ h. cc;
                    others_kept = λ j a b f. law.copy_other s part object j a;
                  })
          ]
        ]

    pub move_single-IsComplete :
        IsReliable S
        → (object part c : Text) (s : S.State) → part ≢ object
        → Holds S s (part ∷ []) c
        → IsComplete object (part ∷ []) c s (move_single S object part s)
    unfolding move_single
    move_single-IsComplete up object part c s d h =
        let copied = S.copy s part object in
        let here = Holds-one S s part c h in
        elim (Bool-cases (part ≟ object)) [
          | inl e ↦ absurd (d (≟→≡ part object e))
          | inr e ↦
              let ok = up.copy_runs s part object c here in
              let (b, before, after) = law.copy_done s part object ok in
              let same : some b ≡ some c = sym before ∙ here in
              rw (e, ok)
                (record {
                  succeeds = refl;
                  has_all = law.delete_other copied.0 part object (λ e. d (sym e)) ∙ after ∙ same;
                  parts_gone = λ j m. elim m [
                    | inl e ↦ rw e (delete_clears S law up copied.0 part)
                    | inr h ↦ absurd h
                  ];
                  leaves_nothing = λ j a b.
                      delete_keeps_gone S law copied.0 part j
                        (law.copy_other s part object j a ∙ b);
                })
        ]
