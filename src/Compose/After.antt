-- ===== src/Compose/After.antt =====
-- Names and contents after the last level of the tree.
use sky_flow.Base.{◌≤◌, ◌≡◌, ◌≢◌, inl, inr, sym, ◌∙◌, true, List, [], ◌∷◌, some, arith, length, All}
use sky_flow.Base.Text.{Text}
use sky_flow.Compose.{ObjectStore, IsLawful, Holds}
use sky_flow.Compose.Holds.{All-map, All-both}
use sky_flow.Compose.Names.{temp_name-ne-object}
use sky_flow.Compose.Trees.{IsFresh, AnyTemp, Built}
use sky_flow.Compose.Ends.{IsPlan, fresh-ne-temps}

module _ (S : ObjectStore) (law : IsLawful S) where
  module _ (object : Text) (parts current temps : List Text) (s t : S.State) where
    module _ (many : 2 ≤ length parts) (plan : IsPlan object parts) where
      module _ (b : Built S object parts current temps s t) where
        pub last_temp : AnyTemp object b.last
        last_temp = elim b.last_from [ inl h ↦ absurd (omega (arith, h.0)) | inr h ↦ h ]

        pub fresh-ne-last : (j : Text) → IsFresh object 0 j → j ≢ b.last
        fresh-ne-last j f = (fresh-ne-temps object j (b.last ∷ []) f (last_temp, tt)).0

        pub object-ne-last : object ≢ b.last
        object-ne-last e = b.not_object (sym e)

        pub temps-ne-object : All (λ n. object ≢ n) temps
        temps-ne-object =
            All-map (AnyTemp object) _ temps
              (λ n (a : AnyTemp object n) e. temp_name-ne-object object a.0 a.1 (sym a.4 ∙ sym e))
              b.all_temps

        pub parts-ne-object : All (λ n. object ≢ n) parts
        parts-ne-object =
            All-map (λ n. n ≢ object) _ parts (λ n (d : n ≢ object) e. d (sym e)) plan.not_object

        -- A fresh name is not written up to the copy.
        pub copy_fresh :
            (j : Text)
            → j ≢ object
            → IsFresh object 0 j
            → S.read (S.copy t b.last object).0 j ≡ S.read s j
        copy_fresh j d f =
            law.copy_other t b.last object j d
            ∙ b.others j (fresh-ne-temps object j temps f b.all_temps)

        pub copy_parts : All (λ n. S.read (S.copy t b.last object).0 n ≡ S.read s n) parts
        copy_parts =
            All-both (IsFresh object 0) (λ n. n ≢ object) _ parts
              (λ n (f : IsFresh object 0 n) (d : n ≢ object). copy_fresh n d f) plan.fresh
              plan.not_object

        -- A successful copy has what the parts hold.
        pub copy_whole :
            (S.copy t b.last object).1 ≡ true
            → (c : Text) × Holds S s parts c × (S.read (S.copy t b.last object).0 object ≡ some c)
        copy_whole ok =
            let (c, held, at_last) = b.contents in
            let (d, read_last, written) = law.copy_done t b.last object ok in
            (c, held, written ∙ sym read_last ∙ at_last)
