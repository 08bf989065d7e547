-- ===== src/ChunkServer/Copies.antt =====
-- What a copied chunk leaves on a disk.
use sky_flow.Base.{
  ℕ, ◌≡◌, ◌≢◌, inl, inr, refl, Bool, true, false, List, [], ◌∷◌, ◌++◌, none, some, arith, All, take,
  if◌then◌else◌, Bool-cases,
}
use sky_flow.Base.Text.{Text, ◌≟◌, ≟-refl, ≟_iff}
use sky_flow.Base.Dict.{Dict, lookup, lookup-insert, lookup-delete}
use sky_flow.Compose.{Holds}
use sky_flow.Compose.Memory.{memory}
use sky_flow.ChunkServer.{
  missing, open_failed, copy_failed, Disk, or_empty, append_to, removed, merge_loop,
}

-- Entries of a directory after a chunk has been copied and perhaps deleted.
pub lookup-append_to :
    (final j c : Text) (d : Dict Text)
    → lookup j (append_to final c d)
      ≡ (if final ≟ j then some (or_empty (lookup final d) ++ c) else lookup j d)
unfolding append_to
lookup-append_to final j c d = lookup-insert final j _ d

pub lookup-removed :
    (o : Disk) (del : Bool) (n j : Text) (d : Dict Text)
    → lookup j (removed o del n d) ≡ (
        if del
        then (if o.removes n then (if n ≟ j then none else lookup j d) else lookup j d)
        else lookup j d)
unfolding removed
lookup-removed o false n j d = refl
lookup-removed o true n j d = elim (Bool-cases (o.removes n)) [
  | inl e ↦ rw e (lookup-delete n j d)
  | inr e ↦ rw e refl
]

-- Nothing but the final file gets contents.
abbrev Less : Text → Dict Text → Dict Text → Type 0
Less final d e = (j c : Text) → j ≢ final → lookup j e ≡ some c → lookup j d ≡ some c

-- A directory after one chunk of the loop.
abbrev pub after : Disk → Bool → Text → Text → Text → Dict Text → Dict Text
after o del final n c d = removed o del n (append_to final c d)

pub lookup-after :
    (o : Disk) (del : Bool) (final n c j : Text) (d : Dict Text)
    → j ≢ final
    → lookup j (after o del final n c d) ≡ (
        if del
        then (if o.removes n then (if n ≟ j then none else lookup j d) else lookup j d)
        else lookup j d)
lookup-after o del final n c j d h = ground (
  arith,
  lookup-removed o del n j (append_to final c d),
  lookup-append_to final j c d,
  ≟_iff final j,
)

pub final-after :
    (o : Disk) (del : Bool) (final n c old : Text) (d : Dict Text)
    → n ≢ final
    → lookup final d ≡ some old
    → lookup final (after o del final n c d) ≡ some (old ++ c)
final-after o del final n c old d h e = ground (
  arith,
  lookup-removed o del n final (append_to final c d),
  lookup-append_to final final c d,
  ≟-refl final,
  ≟_iff n final,
)

pub after-Less :
    (o : Disk) (del : Bool) (final n c : Text) (d : Dict Text)
    → Less final d (after o del final n c d)
after-Less o del final n c d j x h e = ground (arith, lookup-after o del final n c j d h)

pub Less-Holds :
    (final : Text) (d e : Dict Text) (names : List Text) (c : Text)
    → Less final d e
    → All (λ n. n ≢ final) names
    → Holds memory e names c
    → Holds memory d names c
Less-Holds final d e [] c l a h = h
Less-Holds final d e (n ∷ ns) c l a (x, y, here, rest, eq) =
    (x, y, l n x a.0 here, Less-Holds final d e ns y l a.1 rest, eq)

-- One round of the loop.
module _ (o : Disk) (del : Bool) (final n : Text) (ns : List Text) (d : Dict Text) where
  pub loop_missing : lookup n d ≡ none → merge_loop o del final (n ∷ ns) d ≡ (d, missing)
  unfolding merge_loop
  loop_missing e = rw (e, merge_loop) refl

  pub loop_shut :
      (c : Text)
      → lookup n d ≡ some c
      → o.opens n ≡ false
      → merge_loop o del final (n ∷ ns) d ≡ (d, open_failed)
  unfolding merge_loop
  loop_shut c e f = rw (e, merge_loop) (simp f)

  pub loop_broken :
      (c : Text) (k : ℕ)
      → lookup n d ≡ some c
      → o.opens n ≡ true
      → o.breaks n ≡ some k
      → merge_loop o del final (n ∷ ns) d ≡ (append_to final (take k c) d, copy_failed)
  unfolding merge_loop
  loop_broken c k e f g = rw (e, merge_loop) (simp (f, g))

  pub loop_next :
      (c : Text)
      → lookup n d ≡ some c
      → o.opens n ≡ true
      → o.breaks n ≡ none
      → merge_loop o del final (n ∷ ns) d ≡ merge_loop o del final ns (after o del final n c d)
  unfolding merge_loop
  loop_next c e f g = rw (e, merge_loop) (simp (f, g))
