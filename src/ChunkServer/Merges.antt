-- ===== src/ChunkServer/Merges.antt =====
-- A merge that succeeds makes the whole file, and one of chunks that are there succeeds.
use sky_flow.Base.{
  ◌≡◌, ◌≢◌, inl, inr, refl, sym, ap, ◌∙◌, Bool, true, ◌||◌, List, [], ◌∷◌, ◌++◌, some, append_assoc,
  append-nil, arith, All, Bool-cases, Option-cases,
}
use sky_flow.Base.Text.{Text, ◌≟◌, ≟→≡, ≟-refl, ≟_iff}
use sky_flow.Base.Dict.{Dict, lookup, insert, delete, lookup-insert}
use sky_flow.Compose.{Holds}
use sky_flow.Compose.Memory.{memory}
use sky_flow.ChunkServer.{
  merged, Disk, merge_loop, merge_single, merge_many, merge_valid, merge_file_chunks,
}
use sky_flow.ChunkServer.Copies.{
  after, final-after, after-Less, Less-Holds, loop_missing, loop_shut, loop_broken, loop_next,
}

loop_whole :
    (o : Disk) (del : Bool) (final : Text) (names : List Text) (d : Dict Text) (old : Text)
    → All (λ n. n ≢ final) names
    → lookup final d ≡ some old
    → (merge_loop o del final names d).1 ≡ merged
    → (c : Text) × Holds memory d names c
      × (lookup final (merge_loop o del final names d).0 ≡ some (old ++ c))
unfolding merge_loop
loop_whole o del final [] d old a f e = ([], refl, f ∙ ap (λ x. some x) (sym (append-nil old)))
loop_whole o del final (n ∷ ns) d old a f e = elim (Option-cases (lookup n d)) [
  | inl gone ↦ let x = loop_missing o del final n ns d gone in cc
  | inr (c, here) ↦ elim (Bool-cases (o.opens n)) [
    | inr shut ↦ let x = loop_shut o del final n ns d c here shut in cc
    | inl open_ ↦ elim (Option-cases (o.breaks n)) [
      | inr (k, broken) ↦ let x = loop_broken o del final n ns d c k here open_ broken in cc
      | inl whole ↦
          let next = after o del final n c d in
          let step = loop_next o del final n ns d c here open_ whole in
          let ih =
            loop_whole o del final ns next (old ++ c) a.1 (final-after o del final n c old d a.0 f)
              (ap (λ r. r.1) (sym step) ∙ e) in
          (
            c ++ ih.0,
            (
              c,
              ih.0,
              here,
              Less-Holds final d next ns ih.0 (after-Less o del final n c d) a.1 ih.1,
              refl,
            ),
            ap (λ r. lookup final r.0) step ∙ ih.2 ∙ ap (λ x. some x) (append_assoc old c ih.0),
          )
    ]
  ]
]

single_whole :
    (o : Disk) (final n : Text) (d : Dict Text)
    → n ≢ final
    → (merge_single o final n d).1 ≡ merged
    → (c : Text) × (lookup n d ≡ some c) × (lookup final (merge_single o final n d).0 ≡ some c)
unfolding merge_single
single_whole o final n d h e = elim (Option-cases (lookup n d)) [
  | inl gone ↦ let x = rw (gone, merge_single) at e in cc
  | inr (c, here) ↦ elim (Bool-cases (n ≟ final)) [
    | inl same ↦ absurd (h (≟→≡ n final same))
    | inr other ↦ elim (Bool-cases o.renames) [
      | inr fails ↦ let x = rw (here, merge_single, other, fails) at e in cc
      | inl runs ↦ (
        c,
        here,
        rw (here, merge_single, other, runs)
            (lookup-insert final final c (delete n d) ∙ (rw (≟-refl final) refl)),
      )
    ]
  ]
]

many_loop :
    (o : Disk) (del : Bool) (final : Text) (names : List Text) (d : Dict Text)
    → o.creates ≡ true
    → merge_many o del final names d ≡ merge_loop o del final names (insert final [] d)
unfolding merge_many
many_loop o del final names d e = simp e

many_whole :
    (o : Disk) (del : Bool) (final : Text) (names : List Text) (d : Dict Text)
    → All (λ n. n ≢ final) names
    → o.creates ≡ true
    → (merge_many o del final names d).1 ≡ merged
    → (c : Text) × Holds memory d names c
      × (lookup final (merge_many o del final names d).0 ≡ some c)
many_whole o del final names d a runs e =
    let start = insert final [] d in
    let step = many_loop o del final names d runs in
    let (c, held, made) =
      loop_whole o del final names start [] a
        (lookup-insert final final [] d ∙ (rw (≟-refl final) refl))
        (ap (λ r. r.1) (sym step) ∙ e) in
    let less = λ (j x : Text) (h : j ≢ final) (k : lookup j start ≡ some x).
      let l = lookup-insert final j [] d in
      let m = ≟_iff final j in let r : lookup j d ≡ some x = ground arith in r in
    (c, Less-Holds final d start names c less a held, ap (λ r. lookup final r.0) step ∙ made)

-- Whatever fails on the disk, and whether chunks are deleted: a merge that reports no error has made
-- the final file of all the chunks that were there, in the order of the list. The final file is not
-- one of the chunks, and what has been written without an error stays.
pub merge_file_chunks-whole :
    (o : Disk) (base : Text) (del : Bool) (final : Text) (names : List Text) (d : Dict Text)
    → All (λ n. n ≢ final) names
    → (merge_file_chunks o base del final names d).1 ≡ merged
    → (c : Text) × Holds memory d names c
      × (lookup final (merge_file_chunks o base del final names d).0 ≡ some c)
unfolding merge_file_chunks
merge_file_chunks-whole o base del final names d a e = elim (Bool-cases (base ≟ [] || final ≟ [])) [
  | inl bad ↦ let x = rw bad at e in cc
  | inr good ↦ rw good (valid names a (rw good at e))
]
  where
    valid :
        (names : List Text)
        → All (λ n. n ≢ final) names
        → (merge_valid o del final names d).1 ≡ merged
        → (c : Text) × Holds memory d names c
          × (lookup final (merge_valid o del final names d).0 ≡ some c)
    valid [] a e = cc
    valid (n ∷ []) a e =
        let (c, here, made) = single_whole o final n d a.0 e in
        (c, (c, [], here, refl, sym (append-nil c)), made)
    valid (n ∷ m ∷ ns) a e = elim (Bool-cases o.creates) [
      | inr fails ↦ let x = simp (merge_many, fails) at e in cc
      | inl runs ↦ many_whole o del final (n ∷ m ∷ ns) d a runs e
    ]
