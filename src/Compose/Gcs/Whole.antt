-- ===== src/Compose/Gcs/Whole.antt =====
-- ComposeFile of gcs/compose.go is safe on every service, and complete on one that is up.
use sky_flow.Base.{
  ◌≤◌, ◌≡◌, inl, inr, true, false, List, [], ◌∷◌, arith, length, Bool-cases, Option-cases,
}
use sky_flow.Base.Text.{Text}
use sky_flow.Compose.{ObjectStore, IsLawful, IsReliable, Holds, canceled, no_client}
use sky_flow.Compose.Holds.{All-map}
use sky_flow.Compose.Tree.{compose_tree}
use sky_flow.Compose.Gcs.{Session, compose_many, connected, compose_file}
use sky_flow.Compose.Trees.{IsFresh, tree_frame, tree-Built, tree_runs}
use sky_flow.Compose.Ends.{
  IsPlan, IsSafe, IsComplete, untouched-IsSafe, move_single-IsSafe, move_single-IsComplete,
}
use sky_flow.Compose.Gcs.Laws.{finish-IsSafe, finish-IsComplete}

module _ (S : ObjectStore) (law : IsLawful S) where
  module _ (object : Text) (parts : List Text) (s : S.State) (plan : IsPlan object parts) where
    compose_many-IsSafe : 2 ≤ length parts → IsSafe S object parts s (compose_many S object parts s)
    unfolding compose_many
    compose_many-IsSafe many =
        let tree = compose_tree S S.compose 32 object (length parts) 0 parts [] s in
        let frame = λ (j : Text) (f : IsFresh object 0 j).
          tree_frame S S.compose law.composes 32 (omega arith) object (length parts) 0 parts [] s j
            (omega (arith, plan.bounded)) plan.bounded f in
        elim (Option-cases tree.1) [
          | inl failed ↦
              rw (failed, compose_many)
                (record {
                  whole = λ h. cc;
                  parts_kept = λ h. All-map (IsFresh object 0) _ parts frame plan.fresh;
                  no_panic = λ h. cc;
                  others_kept = λ j d p f. frame j f;
                })
          | inr ((current, temps), ok) ↦
              let (new, e, built) =
                tree-Built S S.compose law.composes 32 (omega arith) object (length parts) 0 parts
                  [] s current temps plan.nonempty (omega arith) (omega (arith, plan.bounded))
                  plan.fresh plan.not_object (λ h. absurd (omega arith)) ok in
              rw (ok, compose_many, e)
                (finish-IsSafe S law object parts current new s tree.0 many plan built)
        ]

    compose_many-IsComplete :
        IsReliable S
        → 2 ≤ length parts
        → (c : Text) → Holds S s parts c
        → IsComplete S object parts c s (compose_many S object parts s)
    unfolding compose_many
    compose_many-IsComplete up many c held =
        let tree = compose_tree S S.compose 32 object (length parts) 0 parts [] s in
        let ((current, temps), ok) =
          tree_runs S S.compose law.composes 32 (omega arith) object (length parts) 0 parts [] s c
            up.compose_runs plan.nonempty (omega arith) (omega (arith, plan.bounded)) plan.fresh
            held in
        let (new, e, built) =
          tree-Built S S.compose law.composes 32 (omega arith) object (length parts) 0 parts [] s
            current temps plan.nonempty (omega arith) (omega (arith, plan.bounded)) plan.fresh
            plan.not_object (λ h. absurd (omega arith)) ok in
        rw (ok, compose_many, e)
          (finish-IsComplete S law object parts current new s tree.0 many plan built up c held)

-- However the requests of the bucket fail: `ComposeFile` reports success only if the final object
-- has the contents of all the parts in order, and an error only if every part is still as it was. It
-- does not panic, and no other object is touched but those with temporary names. There are parts,
-- and neither the object nor a temporary name is among them.
pub compose_file-IsSafe :
    (S : ObjectStore)
    → IsLawful S
    → (c : Session) (object : Text) (parts : List Text) (s : S.State) → IsPlan object parts
    → IsSafe S object parts s (compose_file S c object parts s)
unfolding compose_file connected
compose_file-IsSafe S law c object parts s plan = elim (Bool-cases c.context_done) [
  | inl e ↦ rw e (untouched-IsSafe S object parts s canceled (λ h. cc) (λ h. cc))
  | inr live ↦ elim (Bool-cases c.connects) [
    | inr e ↦ rw (live, e) (untouched-IsSafe S object parts s no_client (λ h. cc) (λ h. cc))
    | inl e ↦ rw (live, e) (connected-IsSafe parts plan)
  ]
]
  where
    connected-IsSafe :
        (parts : List Text)
        → IsPlan object parts
        → IsSafe S object parts s (connected S object parts s)
    connected-IsSafe [] plan = absurd (omega (arith, plan.nonempty))
    connected-IsSafe (p ∷ []) plan = move_single-IsSafe S law object p s plan.not_object.0
    connected-IsSafe (p ∷ q ∷ ps) plan =
        compose_many-IsSafe S law object (p ∷ q ∷ ps) s plan (omega arith)

-- On a bucket that serves every request on objects that exist, and composes up to 32 of them at a
-- time, the composition succeeds, however many parts there are: the final object has their contents
-- in order, no part is left, and no object is left that was not there before but the final one.
-- The session connects; the parts exist, and neither the object nor a temporary name is among them.
pub compose_file-IsComplete :
    (S : ObjectStore)
    → IsLawful S
    → IsReliable S
    → (session : Session) (object : Text) (parts : List Text) (c : Text) (s : S.State)
    → session.context_done ≡ false
    → session.connects ≡ true
    → IsPlan object parts
    → Holds S s parts c
    → IsComplete S object parts c s (compose_file S session object parts s)
unfolding compose_file connected
compose_file-IsComplete S law up session object parts c s live on plan held =
    rw (live, on) (connected-IsComplete parts plan held)
  where
    connected-IsComplete :
        (parts : List Text)
        → IsPlan object parts
        → Holds S s parts c
        → IsComplete S object parts c s (connected S object parts s)
    connected-IsComplete [] plan h = absurd (omega (arith, plan.nonempty))
    connected-IsComplete (p ∷ []) plan h =
        move_single-IsComplete S law up object p c s plan.not_object.0 h
    connected-IsComplete (p ∷ q ∷ ps) plan h =
        compose_many-IsComplete S law object (p ∷ q ∷ ps) s plan up (omega arith) c h
