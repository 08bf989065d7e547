-- ===== src/Compose/Levels.antt =====
-- One level of the tree: the new objects hold together what the merged ones hold.
use sky_flow.Base.{
  ℕ, zero, suc, ◌+◌, ◌≤◌, ◌<◌, ◌≡◌, ◌≢◌, refl, subst, ◌∙◌, inl, inr, Bool, true, List, [], ◌∷◌,
  ◌++◌, Option, none, some, arith, length, take, drop, All, Bool-cases,
}
use sky_flow.Base.Word.{two63}
use sky_flow.Base.Text.{Text}
use sky_flow.Compose.{ObjectStore, IsMerge, MergesUpTo, Holds, temp_name}
use sky_flow.Compose.Names.{temp_name_injective}
use sky_flow.Compose.Tree.{compose_level, keep_name}
use sky_flow.Compose.Holds.{
  All-map, All-drop, take-append-drop, length-drop, length-take-le, Holds-append, Holds-split,
  Holds-frame, Holds-back,
}

-- A name is none of the level's temporary names for the offsets from `lo` below `hi`.
abbrev pub NotTemp : Text → ℕ → ℕ → ℕ → Text → Type 0
NotTemp object level lo hi n = (k : ℕ) → lo ≤ k → k < hi → n ≢ temp_name object level k

abbrev pub IsTemp : Text → ℕ → ℕ → ℕ → Text → Type 0
IsTemp object level lo hi n = (k : ℕ) × (lo ≤ k) × (k < hi) × (n ≡ temp_name object level k)

pub keep_name-eq_some :
    (n : Text) (o : Option (List Text)) (next : List Text)
    → keep_name n o ≡ some next
    → (ns : List Text) × (o ≡ some ns) × (next ≡ n ∷ ns)
keep_name-eq_some n none next e = cc
keep_name-eq_some n (some ns) next e = (ns, refl, cc)

length-take-pos : (w : ℕ) (n : Text) (ns : List Text) → 0 < w → 0 < length (take w (n ∷ ns))
length-take-pos zero n ns h = absurd (omega arith)
length-take-pos (suc w) n ns h = omega arith

module _ (S : ObjectStore) where
  -- What a level did if it made the names `next` of `rest`.
  pub record Made (object : Text) (level lo : ℕ) (rest next : List Text) (s t : S.State)
      : Type 0 where
    pub temps : All (IsTemp object level lo (lo + length rest)) next
    pub contents : (c : Text) × Holds S s rest c × Holds S t next c
    pub others : (j : Text) → All (λ n. j ≢ n) next → S.read t j ≡ S.read s j
    pub shorter : length next ≤ length rest
    pub much_shorter : 2 ≤ length rest → length next + 1 ≤ length rest
    pub some_left : 1 ≤ length rest → 1 ≤ length next

  module _ (merge : S.State → List Text → Text → S.State × Bool) (m : IsMerge S merge) where
    module _ (width : ℕ) (w : 2 ≤ width) (object : Text) where
      -- Whether it succeeds or not, a level writes temporary names only.
      pub level_frame :
          (rounds level i : ℕ) (rest : List Text) (s : S.State) (j : Text)
          → ((k : ℕ) → i ≤ k → k < i + length rest → j ≢ temp_name object level k)
          → S.read (compose_level S merge width object rounds level i rest s).0 j ≡ S.read s j
      unfolding compose_level
      level_frame rounds level i [] s j h = refl
      level_frame zero level i (n ∷ ns) s j h = refl
      level_frame (suc rounds) level i (n ∷ ns) s j h =
          let tmp = temp_name object level i in
          let merged = merge s (take width (n ∷ ns)) tmp in
          let first =
            m.merge_other s (take width (n ∷ ns)) tmp j (h i (omega arith) (omega arith)) in
          let ih =
            level_frame rounds level (i + width) (drop width (n ∷ ns)) merged.0 j
              (λ k p q. h k (omega arith) (omega (arith, length-drop {A = Text} width (n ∷ ns)))) in
          elim (Bool-cases merged.1) [ inl e ↦ rw e (ih ∙ first) | inr e ↦ rw e first ]

      none-Made :
          (level i : ℕ) (next : List Text) (s : S.State)
          → some [] ≡ some next
          → Made object level i [] next s s
      none-Made level i [] s e = record {
        temps = tt;
        contents = ([], refl, refl);
        others = λ j f. refl;
        shorter = omega arith;
        much_shorter = λ h. absurd (omega arith);
        some_left = λ h. h;
      }
      none-Made level i (x ∷ xs) s e = cc

      merge_before :
          (level i : ℕ) (rest group : List Text) (s : S.State)
          → 1 ≤ length rest
          → All (NotTemp object level i (i + length rest)) rest
          → let tmp = temp_name object level i in
            All (λ x. S.read (merge s group tmp).0 x ≡ S.read s x) rest
      merge_before level i rest group s l fresh =
          All-map (NotTemp object level i (i + length rest)) _ rest
            (λ x (f : NotTemp object level i (i + length rest) x).
              m.merge_other s group (temp_name object level i) x (f i (omega arith) (omega arith)))
            fresh

      later_fresh :
          (level i : ℕ) (rest : List Text)
          → All (NotTemp object level i (i + length rest)) rest
          → All
              (NotTemp object level (i + width) (i + width + length (drop width rest)))
              (drop width rest)
      later_fresh level i rest fresh =
          let cut = length-drop {A = Text} width rest in
          All-map (NotTemp object level i (i + length rest)) _ (drop width rest)
            (λ x (g : NotTemp object level i (i + length rest) x) k p q.
              g k (omega arith) (omega arith))
            (All-drop (NotTemp object level i (i + length rest)) width rest fresh)

      -- The first group and the rest of the level put together.
      join :
          (level i : ℕ) (n : Text) (ns : List Text) (s : S.State) (next : List Text) (t : S.State)
          → level < two63
          → i + length (n ∷ ns) < two63
          → All (NotTemp object level i (i + length (n ∷ ns))) (n ∷ ns)
          → let tmp = temp_name object level i in
            let merged = merge s (take width (n ∷ ns)) tmp in
            merged.1 ≡ true
            → Made object level (i + width) (drop width (n ∷ ns)) next merged.0 t
            → S.read t tmp ≡ S.read merged.0 tmp
            → Made object level i (n ∷ ns) (tmp ∷ next) s t
      join level i n ns s next t l b fresh e ih kept =
          let tmp = temp_name object level i in
          let merged = merge s (take width (n ∷ ns)) tmp in
          let cut = length-drop {A = Text} width (n ∷ ns) in
          let (a, group, written) = m.merge_done s (take width (n ∷ ns)) tmp e in
          let (c, rest, made) = ih.contents in
          let before = merge_before level i (n ∷ ns) (take width (n ∷ ns)) s (omega arith) fresh in
          let rest_before =
            Holds-back S s merged.0 (drop width (n ∷ ns)) c
              (All-drop (λ x. S.read merged.0 x ≡ S.read s x) width (n ∷ ns) before) rest in
          record {
            temps = (
              (i, omega arith, omega arith, refl),
              All-map _ _ next
                  (λ x
                      (f : IsTemp object level (i + width)
                        (i + width + length (drop width (n ∷ ns))) x).
                    (f.0, omega arith, omega (arith, cut), f.3))
                  ih.temps,
            );
            contents = (
              a ++ c,
              subst (λ ys. Holds S s ys (a ++ c)) (take-append-drop width (n ∷ ns))
                  (Holds-append S s (take width (n ∷ ns)) (drop width (n ∷ ns)) a c group
                    rest_before),
              (a, c, kept ∙ written, made, refl),
            );
            others = λ j f. ih.others j f.1 ∙ m.merge_other s (take width (n ∷ ns)) tmp j f.0;
            shorter = omega (arith, cut, ih.shorter);
            much_shorter = λ h. omega (arith, cut, ih.shorter);
            some_left = λ h. omega arith;
          }

      pub level-Made :
          (rounds level i : ℕ) (rest : List Text) (s : S.State) (next : List Text)
          → length rest ≤ rounds
          → level < two63
          → (1 ≤ length rest → i + length rest < two63)
          → All (NotTemp object level i (i + length rest)) rest
          → (compose_level S merge width object rounds level i rest s).1 ≡ some next
          → Made object level i rest next s
              (compose_level S merge width object rounds level i rest s).0
      unfolding compose_level
      level-Made rounds level i [] s next f l b fresh e = none-Made level i next s e
      level-Made zero level i (n ∷ ns) s next f l b fresh e = absurd (omega arith)
      level-Made (suc rounds) level i (n ∷ ns) s next f l b fresh e =
          let tmp = temp_name object level i in
          let merged = merge s (take width (n ∷ ns)) tmp in
          let cut = length-drop {A = Text} width (n ∷ ns) in
          let bound = b (omega arith) in
          let deep =
            compose_level S merge width object rounds level (i + width) (drop width (n ∷ ns))
              merged.0 in
          elim (Bool-cases merged.1) [
            | inl ok ↦
                let (next', e1, e2) = keep_name-eq_some tmp deep.1 next (rw ok at e) in
                rw (ok, e2)
                  (join level i n ns s next' deep.0 l bound fresh ok
                    (level-Made rounds level (i + width) (drop width (n ∷ ns)) merged.0 next'
                      (omega arith) l (λ h. omega arith) (later_fresh level i (n ∷ ns) fresh) e1)
                    (level_frame rounds level (i + width) (drop width (n ∷ ns)) merged.0 tmp
                      (λ k p q e'.
                        let same =
                          temp_name_injective object level i level k l (omega arith) l (omega arith)
                            e' in
                        let late : i ≡ k = same.1 in absurd (omega arith))))
            | inr bad ↦ let x = rw bad at e in cc
          ]

      -- Where merges run, the level is made.
      pub level_runs :
          (rounds level i : ℕ) (rest : List Text) (s : S.State) (c : Text)
          → MergesUpTo S width merge
          → length rest ≤ rounds
          → All (NotTemp object level i (i + length rest)) rest
          → Holds S s rest c
          → (next : List Text) × ((compose_level S merge width object rounds level i rest s).1
              ≡ some next)
      unfolding compose_level
      level_runs rounds level i [] s c runs f fresh h = ([], refl)
      level_runs zero level i (n ∷ ns) s c runs f fresh h = absurd (omega arith)
      level_runs (suc rounds) level i (n ∷ ns) s c runs f fresh h =
          let tmp = temp_name object level i in
          let merged = merge s (take width (n ∷ ns)) tmp in
          let cut = length-drop {A = Text} width (n ∷ ns) in
          let (a, b, group, others, e) = Holds-split S s width (n ∷ ns) c h in
          let ok =
            runs s (take width (n ∷ ns)) tmp a (length-take-pos width n ns (omega arith))
              (length-take-le width (n ∷ ns)) group in
          let before = merge_before level i (n ∷ ns) (take width (n ∷ ns)) s (omega arith) fresh in
          let (next, made) =
            level_runs rounds level (i + width) (drop width (n ∷ ns)) merged.0 b runs (omega arith)
              (later_fresh level i (n ∷ ns) fresh)
              (Holds-frame S s merged.0 (drop width (n ∷ ns)) b
                (All-drop (λ x. S.read merged.0 x ≡ S.read s x) width (n ∷ ns) before) others) in
          (tmp ∷ next, rw (ok, made) refl)

      -- A level makes a name a round at most.
      pub level_length :
          (rounds level i : ℕ) (rest : List Text) (s : S.State) (next : List Text)
          → (compose_level S merge width object rounds level i rest s).1 ≡ some next
          → length next ≤ rounds
      unfolding compose_level
      level_length rounds level i [] s [] e = omega arith
      level_length rounds level i [] s (x ∷ xs) e = cc
      level_length zero level i (n ∷ ns) s next e = cc
      level_length (suc rounds) level i (n ∷ ns) s next e =
          let tmp = temp_name object level i in
          let merged = merge s (take width (n ∷ ns)) tmp in
          let deep =
            compose_level S merge width object rounds level (i + width) (drop width (n ∷ ns))
              merged.0 in
          elim (Bool-cases merged.1) [
            | inl ok ↦
                let (next', e1, e2) = keep_name-eq_some tmp deep.1 next (rw ok at e) in
                rw e2 (
                  omega (
                    arith,
                    level_length rounds level (i + width) (drop width (n ∷ ns)) merged.0 next' e1,
                  ))
            | inr bad ↦ let x = rw bad at e in cc
          ]
