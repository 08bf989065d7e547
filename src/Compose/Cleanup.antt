-- ===== src/Compose/Cleanup.antt =====
-- Deleting objects whose deletion may fail.
use sky_flow.Base.{
  Member, ◌≡◌, ◌≢◌, ◌⊎◌, inl, inr, refl, ◌∙◌, List, [], ◌∷◌, none, All, Bool-cases, Option-cases,
}
use sky_flow.Base.Text.{Text, ◌≟◌, ≟→≡, Text-discrete}
use sky_flow.Compose.{ObjectStore, IsLawful, IsReliable}
use sky_flow.Compose.Tree.{delete_all, delete_except}

pub Member-cases : (j : Text) (ns : List Text) → Member j ns ⊎ All (λ n. j ≢ n) ns
Member-cases j [] = inr tt
Member-cases j (n ∷ ns) = elim (Text-discrete j n) [
  | yes e ↦ inl (inl e)
  | no e ↦ elim (Member-cases j ns) [ inl h ↦ inl (inr h) | inr h ↦ inr (e, h) ]
]

module _ (S : ObjectStore) (law : IsLawful S) where
  pub delete_all_other :
      (ns : List Text) (s : S.State) (j : Text)
      → All (λ n. j ≢ n) ns
      → S.read (delete_all S ns s) j ≡ S.read s j
  unfolding delete_all
  delete_all_other [] s j h = refl
  delete_all_other (n ∷ ns) s j h =
      delete_all_other ns (S.delete s n).0 j h.1 ∙ law.delete_other s n j h.0

  pub delete_except_other :
      (kept : Text) (ns : List Text) (s : S.State) (j : Text)
      → All (λ n. j ≢ n) ns
      → S.read (delete_except S kept ns s) j ≡ S.read s j
  unfolding delete_except
  delete_except_other kept [] s j h = refl
  delete_except_other kept (n ∷ ns) s j h = elim (Bool-cases (n ≟ kept)) [
    | inl e ↦ rw e (delete_except_other kept ns s j h.1)
    | inr e ↦ rw e (delete_except_other kept ns (S.delete s n).0 j h.1 ∙ law.delete_other s n j h.0)
  ]

  -- What is gone stays gone.
  pub delete_keeps_gone :
      (s : S.State) (n j : Text) → S.read s j ≡ none → S.read (S.delete s n).0 j ≡ none
  delete_keeps_gone s n j h = elim (Text-discrete j n) [
    | yes e ↦ rw e (law.delete_gone s n (rw e at h))
    | no e ↦ law.delete_other s n j e ∙ h
  ]

  pub delete_all_keeps_gone :
      (ns : List Text) (s : S.State) (j : Text)
      → S.read s j ≡ none
      → S.read (delete_all S ns s) j ≡ none
  unfolding delete_all
  delete_all_keeps_gone [] s j h = h
  delete_all_keeps_gone (n ∷ ns) s j h =
      delete_all_keeps_gone ns (S.delete s n).0 j (delete_keeps_gone s n j h)

  pub delete_except_keeps_gone :
      (kept : Text) (ns : List Text) (s : S.State) (j : Text)
      → S.read s j ≡ none
      → S.read (delete_except S kept ns s) j ≡ none
  unfolding delete_except
  delete_except_keeps_gone kept [] s j h = h
  delete_except_keeps_gone kept (n ∷ ns) s j h = elim (Bool-cases (n ≟ kept)) [
    | inl e ↦ rw e (delete_except_keeps_gone kept ns s j h)
    | inr e ↦ rw e (delete_except_keeps_gone kept ns (S.delete s n).0 j (delete_keeps_gone s n j h))
  ]

  module _ (up : IsReliable S) where
    pub delete_clears : (s : S.State) (n : Text) → S.read (S.delete s n).0 n ≡ none
    delete_clears s n = elim (Option-cases (S.read s n)) [
      | inl e ↦ law.delete_gone s n e
      | inr (c, e) ↦ law.delete_done s n (up.delete_runs s n c e)
    ]

    pub delete_all_clears :
        (ns : List Text) (s : S.State) (j : Text)
        → Member j ns
        → S.read (delete_all S ns s) j ≡ none
    unfolding delete_all
    delete_all_clears [] s j h = absurd h
    delete_all_clears (n ∷ ns) s j (inl e) =
        delete_all_keeps_gone ns (S.delete s n).0 j (rw e (delete_clears s n))
    delete_all_clears (n ∷ ns) s j (inr h) = delete_all_clears ns (S.delete s n).0 j h

    pub delete_except_clears :
        (kept : Text) (ns : List Text) (s : S.State) (j : Text)
        → Member j ns
        → j ≢ kept
        → S.read (delete_except S kept ns s) j ≡ none
    unfolding delete_except
    delete_except_clears kept [] s j h d = absurd h
    delete_except_clears kept (n ∷ ns) s j (inl e) d = elim (Bool-cases (n ≟ kept)) [
      | inl same ↦ absurd (d (e ∙ ≟→≡ n kept same))
      | inr other ↦
          rw other (delete_except_keeps_gone kept ns (S.delete s n).0 j (rw e (delete_clears s n)))
    ]
    delete_except_clears kept (n ∷ ns) s j (inr h) d = elim (Bool-cases (n ≟ kept)) [
      | inl same ↦ rw same (delete_except_clears kept ns s j h d)
      | inr other ↦ rw other (delete_except_clears kept ns (S.delete s n).0 j h d)
    ]
