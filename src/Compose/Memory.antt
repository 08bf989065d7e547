-- ===== src/Compose/Memory.antt =====
-- A bucket in memory, which meets the laws.
use sky_flow.Base.{
  ℕ, ◌≤◌, ◌<◌, ◌≡◌, ◌≢◌, refl, sym, ap, inl, inr, Bool, true, false, ◌&&◌, List, [], ◌∷◌, ◌++◌,
  Option, none, some, arith, length, leb, if◌then◌else◌, Option-cases, Bool-cases,
}
use sky_flow.Base.Text.{ne→≟, Text, ◌≟◌, ≟-refl}
use sky_flow.Base.Dict.{Dict, lookup, insert, delete, lookup-insert, lookup-delete}
use sky_flow.Compose.{ObjectStore, IsLawful, IsReliable, Holds}

abbrev joined : Option Text → Option Text → Option Text
joined (some a) (some b) = some (a ++ b)
joined (some a) none = none
joined none b = none

unfoldable pub contents : Dict Text → List Text → Option Text
contents s [] = some []
contents s (n ∷ ns) = joined (lookup n s) (contents s ns)

-- A new object, if there is something to write.
abbrev write : Dict Text → Text → Option Text → Dict Text × Bool
write s to none = (s, false)
write s to (some c) = (insert to c s, true)

abbrev remove : Dict Text → Text → Option Text → Dict Text × Bool
remove s k none = (s, false)
remove s k (some c) = (delete k s, true)

abbrev pub memory : ObjectStore
memory = record {
  State = Dict Text;
  read = λ s n. lookup n s;
  copy = λ s from to. write s to (lookup from s);
  delete = λ s k. remove s k (lookup k s);
  compose = λ s names to.
      if leb 1 (length names) && leb (length names) 32
      then write s to (contents s names)
      else (s, false);
  put = λ s to c. (insert to c s, true);
  get = λ s from. (s, lookup from s);
}

other : (k j : Text) → j ≢ k → (k ≟ j) ≡ false
other k j d = ne→≟ k j (λ q. d (sym q))

write_other :
    (s : Dict Text) (to : Text) (o : Option Text) (j : Text)
    → j ≢ to
    → lookup j (write s to o).0 ≡ lookup j s
write_other s to none j d = refl
write_other s to (some c) j d = rw (lookup-insert, other to j d) refl

write_done :
    (s : Dict Text) (to : Text) (o : Option Text)
    → (write s to o).1 ≡ true
    → (c : Text) × (o ≡ some c) × (lookup to (write s to o).0 ≡ some c)
write_done s to none h = cc
write_done s to (some c) h = (c, refl, rw (lookup-insert, ≟-refl to) refl)

remove_other :
    (s : Dict Text) (k : Text) (o : Option Text) (j : Text)
    → j ≢ k
    → lookup j (remove s k o).0 ≡ lookup j s
remove_other s k none j d = refl
remove_other s k (some c) j d = rw (lookup-delete, other k j d) refl

remove_done :
    (s : Dict Text) (k : Text) (o : Option Text)
    → (remove s k o).1 ≡ true
    → lookup k (remove s k o).0 ≡ none
remove_done s k none h = cc
remove_done s k (some c) h = rw (lookup-delete, ≟-refl k) refl

joined-Holds :
    (s : Dict Text) (names : List Text) (c : Text)
    → contents s names ≡ some c
    → Holds memory s names c
unfolding contents
joined-Holds s [] c e = cc
joined-Holds s (n ∷ ns) c e = elim (Option-cases (lookup n s)) [
  | inl h ↦ let x = rw h at e in cc
  | inr (a, h) ↦ elim (Option-cases (contents s ns)) [
    | inl k ↦ let x = rw (h, k) at e in cc
    | inr (b, k) ↦
        let x : some (a ++ b) ≡ some c = rw (h, k) at e in (a, b, h, joined-Holds s ns b k, cc)
  ]
]

Holds-joined :
    (s : Dict Text) (names : List Text) (c : Text)
    → Holds memory s names c
    → contents s names ≡ some c
unfolding contents
Holds-joined s [] c h = ap (λ x. some x) (sym h)
Holds-joined s (n ∷ ns) c (a, b, here, rest, e) =
    rw (here, Holds-joined s ns b rest) (ap (λ x. some x) (sym e))

pub memory-IsLawful : IsLawful memory
memory-IsLawful = record {
  copy_other = λ s from to j d. write_other s to (lookup from s) j d;
  copy_done = λ s from to h. write_done s to (lookup from s) h;
  delete_other = λ s k j d. remove_other s k (lookup k s) j d;
  delete_done = λ s k h. remove_done s k (lookup k s) h;
  delete_gone = λ s k h. rw h h;
  composes = record {
    merge_other = λ s names to j d.
        elim (Bool-cases (leb 1 (length names) && leb (length names) 32)) [
          | inl e ↦ rw e (write_other s to (contents s names) j d)
          | inr e ↦ rw e refl
        ];
    merge_done = λ s names to h. elim (Bool-cases (leb 1 (length names) && leb (length names) 32)) [
      | inl e ↦
          let (c, held, done) = write_done s to (contents s names) (rw e at h) in
          (c, joined-Holds s names c held, rw e done)
      | inr e ↦ let x = rw e at h in cc
    ];
  };
  put_other = λ s to c j d. rw (lookup-insert, other to j d) refl;
  put_done = λ s to c h. rw (lookup-insert, ≟-refl to) refl;
  get_same = λ s from j. refl;
  get_done = λ s from c h. h;
}

within : (n : ℕ) → 0 < n → n ≤ 32 → (leb 1 n && leb n 32) ≡ true
within n a b = ground arith

pub memory-IsReliable : IsReliable memory
memory-IsReliable = record {
  copy_runs = λ s from to c h. rw h refl;
  delete_runs = λ s k c h. rw h refl;
  compose_runs =
      λ s names to c a b h. rw (within (length names) a b, Holds-joined s names c h) refl;
  put_runs = λ s to c. refl;
  get_runs = λ s from c h. h;
}
