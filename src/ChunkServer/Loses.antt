-- ===== src/ChunkServer/Loses.antt =====
-- What is lost when a chunk is missing, and what the client learns of it.
use sky_flow.Base.{
  take, subst, ◌≡◌, ◌≢◌, refl, sym, ap, ◌∙◌, inl, inr, Bool, true, false, List, [], ◌∷◌, ◌++◌, none,
  some, arith, All, Bool-cases, Option-cases,
}
use sky_flow.Base.Text.{Distinct, ne→≟, Text, ≟-refl}
use sky_flow.Base.Dict.{Dict, lookup, insert, lookup-insert}
use sky_flow.Compose.{Holds}
use sky_flow.Compose.Holds.{Holds-frame, All-both, All-map}
use sky_flow.Compose.Memory.{memory}
use sky_flow.ChunkServer.{
  MergeResult, missing, Disk, merge_loop, merge_file_chunks, internal_error, status_of,
  chunk_merge_handler, Network, remote_compose_file,
}
use sky_flow.ChunkServer.Copies.{
  after, lookup-after, lookup-append_to, loop_missing, loop_shut, loop_broken, loop_next,
}
use sky_flow.ChunkServer.Fine.{IsFine, merge_file_chunks-loop, lookup-after_fine}

-- The loop brings no chunk back.
loop_gone :
    (o : Disk) (del : Bool) (final : Text) (names : List Text) (d : Dict Text) (j : Text)
    → j ≢ final
    → lookup j d ≡ none
    → lookup j (merge_loop o del final names d).0 ≡ none
unfolding merge_loop
loop_gone o del final [] d j h e = e
loop_gone o del final (n ∷ ns) d j h e = elim (Option-cases (lookup n d)) [
  | inl gone ↦ ap (λ r. lookup j r.0) (loop_missing o del final n ns d gone) ∙ e
  | inr (c, here) ↦ elim (Bool-cases (o.opens n)) [
    | inr shut ↦ ap (λ r. lookup j r.0) (loop_shut o del final n ns d c here shut) ∙ e
    | inl open_ ↦ elim (Option-cases (o.breaks n)) [
      | inr (k, broken) ↦
          ap (λ r. lookup j r.0) (loop_broken o del final n ns d c k here open_ broken)
          ∙ (let l = lookup-append_to final j (take k c) d in
              let m = ne→≟ final j (λ q. h (sym q)) in ground arith)
      | inl whole ↦
          ap (λ r. lookup j r.0) (loop_next o del final n ns d c here open_ whole)
          ∙ loop_gone o del final ns (after o del final n c d) j h
              (let l = lookup-after o del final n c j d h in ground arith)
    ]
  ]
]

loop_loses :
    (o : Disk) (fine : IsFine o) (final : Text) (xs : List Text) (y : Text) (ys : List Text)
    (d : Dict Text) (c : Text)
    → All (λ n. n ≢ final) xs
    → y ≢ final
    → Distinct xs
    → Holds memory d xs c
    → lookup y d ≡ none
    → let r = merge_loop o true final (xs ++ y ∷ ys) d in
      (r.1 ≡ missing) × All (λ x. lookup x r.0 ≡ none) xs
loop_loses o fine final [] y ys d c a b u h e =
    (ap (λ r. r.1) (loop_missing o true final y ys d e), tt)
loop_loses o fine final (n ∷ ns) y ys d c a b u (x, z, here, rest, eq) e =
    let next = after o true final n x d in
    let step = loop_next o true final n (ns ++ y ∷ ys) d x here (fine.opens n) (fine.breaks n) in
    let same =
      All-both (λ m. m ≢ final) (λ m. m ≢ n) (λ m. lookup m next ≡ lookup m d) ns
        (λ m (p : m ≢ final) (q : m ≢ n).
          lookup-after_fine o fine true final n x m d p
          ∙ (let k = ne→≟ n m (λ r. q (sym r)) in ground arith))
        a.1 u.0 in
    let ih =
      loop_loses o fine final ns y ys next z a.1 b u.1 (Holds-frame memory d next ns z same rest)
        (let k = lookup-after_fine o fine true final n x y d b in ground arith) in
    (
      ap (λ r. r.1) step ∙ ih.0,
      (
        ap (λ r. lookup n r.0) step
            ∙ loop_gone o true final (ns ++ y ∷ ys) next n a.0 (
                let k = lookup-after_fine o fine true final n x n d a.0 in
                let l = ≟-refl n in ground arith),
        subst (λ (r : Dict Text × MergeResult). All (λ x. lookup x r.0 ≡ none) ns) (sym step) ih.1,
      ),
    )

uncons :
    (xs : List Text) (y : Text) (ys : List Text)
    → (m : Text) × (ms : List Text) × (xs ++ y ∷ ys ≡ m ∷ ms)
uncons [] y ys = (y, ys, refl)
uncons (x ∷ xs) y ys = (x, xs ++ y ∷ ys, refl)

merge_loses :
    (o : Disk) (fine : IsFine o) (base final x : Text) (xs : List Text) (y : Text) (ys : List Text)
    (d : Dict Text) (c : Text)
    → base ≢ []
    → final ≢ []
    → All (λ n. n ≢ final) (x ∷ xs)
    → y ≢ final
    → Distinct (x ∷ xs)
    → Holds memory d (x ∷ xs) c
    → lookup y d ≡ none
    → let r = merge_file_chunks o base true final (x ∷ xs ++ y ∷ ys) d in
      (r.1 ≡ missing) × All (λ n. lookup n r.0 ≡ none) (x ∷ xs)
merge_loses o fine base final x xs y ys d c b f a g u h e =
    let (m, ms, eq) = uncons xs y ys in
    let start = insert final [] d in
    let kept = λ (j : Text) (p : j ≢ final).
      let k = lookup-insert final j [] d in
      let l = ne→≟ final j (λ q. p (sym q)) in
      let r : lookup j start ≡ lookup j d = ground arith in r in
    let loses =
      loop_loses o fine final (x ∷ xs) y ys start c a g u
        (Holds-frame memory d start (x ∷ xs) c
          (All-map (λ n. n ≢ final) (λ n. lookup n start ≡ lookup n d) (x ∷ xs) kept a) h)
        (kept y g ∙ e) in
    let same =
      ap (λ ns. merge_file_chunks o base true final (x ∷ ns) d) eq
      ∙ merge_file_chunks-loop o fine base true final x m ms d b f
      ∙ ap (λ ns. merge_loop o true final (x ∷ ns) start) (sym eq) in
    subst
      (λ (r : Dict Text × MergeResult). (r.1 ≡ missing) × All (λ n. lookup n r.0 ≡ none) (x ∷ xs))
      (sym same) loses

served_request :
    (o : Disk) (base final n : Text) (ns : List Text) (d : Dict Text)
    → final ≢ []
    → let r = merge_file_chunks o base true final (n ∷ ns) d in
      chunk_merge_handler o base final (some (n ∷ ns, true)) d ≡ (r.0, status_of r.1)
unfolding chunk_merge_handler
served_request o base final n ns d f = rw (ne→≟ final [] f) refl

remote_request :
    (net : Network) (o : Disk) (base final : Text) (parts : List Text) (d : Dict Text)
    → net.context_done ≡ false
    → net.delivers ≡ true
    → remote_compose_file net o base true final parts d
      ≡ ((chunk_merge_handler o base final (some (parts, true)) d).0, net.responds)
unfolding remote_compose_file
remote_request net o base final parts d live sent = simp (live, sent)

-- A merge with deletion of which a later chunk is missing, on a disk where nothing fails: the
-- server answers with an error and has deleted every chunk before the missing one, yet the client
-- reports success, whenever it gets an answer at all. The names are distinct, and the final file is
-- not one of them.
pub remote_compose_file-loses :
    (net : Network) (o : Disk) (base final x : Text) (xs : List Text) (y : Text) (ys : List Text)
    (d : Dict Text) (c : Text)
    → net.context_done ≡ false
    → net.delivers ≡ true
    → net.responds ≡ true
    → IsFine o
    → base ≢ []
    → final ≢ []
    → All (λ n. n ≢ final) (x ∷ xs)
    → y ≢ final
    → Distinct (x ∷ xs)
    → Holds memory d (x ∷ xs) c
    → lookup y d ≡ none
    → let parts = x ∷ xs ++ y ∷ ys in
      let r = remote_compose_file net o base true final parts d in
      (r.1 ≡ true)
      × ((chunk_merge_handler o base final (some (parts, true)) d).1 ≡ internal_error)
      × All (λ n. lookup n r.0 ≡ none) (x ∷ xs)
remote_compose_file-loses net o base final x xs y ys d c live sent back fine b f a g u h e =
    let loses = merge_loses o fine base final x xs y ys d c b f a g u h e in
    let parts = x ∷ xs ++ y ∷ ys in
    let merge = merge_file_chunks o base true final parts d in
    let served = served_request o base final x (xs ++ y ∷ ys) d f in
    let same = remote_request net o base final parts d live sent in
    let left =
      subst (λ (t : Dict Text). All (λ n. lookup n t ≡ none) (x ∷ xs))
        (sym (ap (λ r. r.0) same ∙ ap (λ r. r.0) served)) loses.1 in
    (ap (λ r. r.1) same ∙ back, ap (λ r. r.1) served ∙ ap status_of loses.0, left)
