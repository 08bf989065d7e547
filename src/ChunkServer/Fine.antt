-- ===== src/ChunkServer/Fine.antt =====
-- Merging and receiving chunks on a disk where nothing fails.
use sky_flow.Base.{
  ◌≡◌, ◌≢◌, refl, sym, ap, ◌∙◌, Bool, true, false, ◌||◌, ◌&&◌, List, [], ◌∷◌, ◌++◌, none, some,
  append_assoc, append-nil, arith, All, if◌then◌else◌,
}
use sky_flow.Base.Text.{Distinct, ne→≟, Text, ◌≟◌, ≟-refl, mem}
use sky_flow.Base.Dict.{Dict, lookup, insert, delete, lookup-insert, lookup-delete}
use sky_flow.Compose.{Holds}
use sky_flow.Compose.Holds.{Holds-one, Holds-frame, All-map, All-both}
use sky_flow.Compose.Memory.{memory}
use sky_flow.ChunkServer.{merged, Disk, merge_loop, merge_single, merge_many, merge_file_chunks}
use sky_flow.ChunkServer.Copies.{after, lookup-after, final-after, loop_next}

pub record IsFine (o : Disk) : Type 0 where
  pub makes_dirs : o.makes_dirs ≡ true
  pub creates : o.creates ≡ true
  pub renames : o.renames ≡ true
  pub opens : (n : Text) → o.opens n ≡ true
  pub breaks : (n : Text) → o.breaks n ≡ none
  pub removes : (n : Text) → o.removes n ≡ true

pub lookup-after_fine :
    (o : Disk) (fine : IsFine o) (del : Bool) (final n c j : Text) (d : Dict Text)
    → j ≢ final
    → lookup j (after o del final n c d) ≡ (if del && n ≟ j then none else lookup j d)
lookup-after_fine o fine del final n c j d h =
    ground (arith, lookup-after o del final n c j d h, fine.removes n)

-- What a merge of `names` leaves, if it deletes them or not.
abbrev pub IsMerged : Bool → Text → List Text → Text → Dict Text → Dict Text → Type 0
IsMerged del final names c d e =
    (lookup final e ≡ some c)
    × ((j : Text) → j ≢ final → lookup j e ≡ (if del && mem j names then none else lookup j d))

loop_fine :
    (o : Disk) (fine : IsFine o) (del : Bool) (final : Text) (names : List Text) (d : Dict Text)
    (old c : Text)
    → All (λ n. n ≢ final) names
    → Distinct names
    → Holds memory d names c
    → lookup final d ≡ some old
    → ((merge_loop o del final names d).1 ≡ merged)
      × IsMerged del final names (old ++ c) d (merge_loop o del final names d).0
unfolding merge_loop mem
loop_fine o fine del final [] d old c a u h f = (
  refl,
  (f ∙ ap (λ x. some x) (sym (append-nil old) ∙ ap (λ x. old ++ x) (sym h)), λ j g. ground arith),
)
loop_fine o fine del final (n ∷ ns) d old c a u (x, y, here, rest, e) f =
    let next = after o del final n x d in
    let step = loop_next o del final n ns d x here (fine.opens n) (fine.breaks n) in
    let same =
      All-both (λ m. m ≢ final) (λ m. m ≢ n) (λ m. lookup m next ≡ lookup m d) ns
        (λ m (p : m ≢ final) (q : m ≢ n).
          lookup-after_fine o fine del final n x m d p
          ∙ (let k = ne→≟ n m (λ r. q (sym r)) in ground arith))
        a.1 u.0 in
    let ih =
      loop_fine o fine del final ns next (old ++ x) y a.1 u.1
        (Holds-frame memory d next ns y same rest) (final-after o del final n x old d a.0 f) in
    (
      ap (λ r. r.1) step ∙ ih.0,
      (
        ap (λ r. lookup final r.0) step
            ∙ ih.1.0
            ∙ ap (λ t. some t) (append_assoc old x y ∙ ap (λ t. old ++ t) (sym e)),
        λ j g.
            ap (λ r. lookup j r.0) step
            ∙ ih.1.1 j g
            ∙ (let k = lookup-after_fine o fine del final n x j d g in ground arith),
      ),
    )

abbrev pub is_single : List Text → Bool
is_single (n ∷ []) = true
is_single _ = false

merge_single_fine :
    (o : Disk) (fine : IsFine o) (final n c : Text) (d : Dict Text)
    → n ≢ final
    → lookup n d ≡ some c
    → merge_single o final n d ≡ (insert final c (delete n d), merged)
unfolding merge_single
merge_single_fine o fine final n c d h e =
    rw (e, merge_single) (rw (ne→≟ n final h, fine.renames) refl)

-- On such a disk several chunks go through the loop.
pub merge_file_chunks-loop :
    (o : Disk) (fine : IsFine o) (base : Text) (del : Bool) (final n m : Text) (ns : List Text)
    (d : Dict Text)
    → base ≢ []
    → final ≢ []
    → merge_file_chunks o base del final (n ∷ m ∷ ns) d
      ≡ merge_loop o del final (n ∷ m ∷ ns) (insert final [] d)
unfolding merge_file_chunks
merge_file_chunks-loop o fine base del final n m ns d b f =
    rw (ne→≟ base [] b, ne→≟ final [] f, merge_many) (simp fine.creates)

pub merge_file_chunks_fine :
    (o : Disk) (fine : IsFine o) (base : Text) (del : Bool) (final : Text) (n : Text)
    (ns : List Text) (d : Dict Text) (c : Text)
    → base ≢ []
    → final ≢ []
    → All (λ m. m ≢ final) (n ∷ ns)
    → Distinct (n ∷ ns)
    → Holds memory d (n ∷ ns) c
    → let r = merge_file_chunks o base del final (n ∷ ns) d in
      (r.1 ≡ merged) × IsMerged (del || is_single (n ∷ ns)) final (n ∷ ns) c d r.0
unfolding merge_file_chunks mem
merge_file_chunks_fine o fine base del final n [] d c b f a u h =
    rw (ne→≟ base [] b, ne→≟ final [] f)
      (rw (merge_single_fine o fine final n c d a.0 (Holds-one memory d n c h)) (
        refl,
        (
          lookup-insert final final c (delete n d) ∙ (rw (≟-refl final) refl),
          λ j g.
              let k = lookup-insert final j c (delete n d) in
              let l = lookup-delete n j d in let m = ne→≟ final j (λ e. g (sym e)) in ground arith,
        ),
      ))
merge_file_chunks_fine o fine base del final n (m ∷ ns) d c b f a u h =
    let start = insert final [] d in
    let same =
      All-map (λ x. x ≢ final) (λ x. lookup x start ≡ lookup x d) (n ∷ m ∷ ns)
        (λ x (g : x ≢ final).
          lookup-insert final x [] d ∙ (rw (ne→≟ final x (λ e. g (sym e))) refl))
        a in
    let held = Holds-frame memory d start (n ∷ m ∷ ns) c same h in
    let (ok, whole) =
      loop_fine o fine del final (n ∷ m ∷ ns) start [] c a u held
        (lookup-insert final final [] d ∙ (rw (≟-refl final) refl)) in
    rw (merge_file_chunks-loop o fine base del final n m ns d b f) (
      ok,
      (
        whole.0,
        λ j g.
            whole.1 j g
            ∙ (let k = lookup-insert final j [] d in
                let l = ne→≟ final j (λ e. g (sym e)) in ground arith),
      ),
    )
