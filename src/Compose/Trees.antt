-- ===== src/Compose/Trees.antt =====
-- The levels together: they end with one object, which holds what the parts held.
use sky_flow.Base.{
  Member, ◌⊎◌, ltb→lt, ℕ, zero, suc, ◌+◌, ◌≤◌, ◌<◌, ◌≡◌, ◌≢◌, refl, sym, subst, ◌∙◌, inl, inr, Bool,
  List, [], ◌∷◌, ◌++◌, Option, some, append_assoc, append-nil, arith, length, All, ltb, Bool-cases,
  Option-cases,
}
use sky_flow.Base.Word.{two63}
use sky_flow.Base.Text.{Text}
use sky_flow.Compose.{ObjectStore, IsMerge, MergesUpTo, Holds, temp_name}
use sky_flow.Compose.Names.{temp_name_injective, temp_name-ne-object}
use sky_flow.Compose.Tree.{compose_level, compose_tree}
use sky_flow.Compose.Holds.{All-map, All-append, All-split, All-member, Holds-unique, Holds-one}
use sky_flow.Compose.Levels.{
  NotTemp, IsTemp, Made, level_frame, level-Made, level_runs, level_length,
}

-- A name is no temporary name of the level or a later one.
abbrev pub IsFresh : Text → ℕ → Text → Type 0
IsFresh object level n = (l k : ℕ) → level ≤ l → l < two63 → k < two63 → n ≢ temp_name object l k

abbrev pub AnyTemp : Text → Text → Type 0
AnyTemp object n = (l : ℕ) × (k : ℕ) × (l < two63) × (k < two63) × (n ≡ temp_name object l k)

last_any :
    (object last : Text) (next : List Text)
    → All (AnyTemp object) next
    → (length next ≤ 1) × Member last next ⊎ AnyTemp object last
    → AnyTemp object last
last_any object last next a (inl (n, h)) = All-member (AnyTemp object) last next a h
last_any object last next a (inr h) = h

module _ (S : ObjectStore) where
  -- What the tree did if it ended with `current` and the temporary names `temps`.
  pub record Built (object : Text) (start current temps : List Text) (s t : S.State) : Type 0 where
    pub last : Text
    pub single : current ≡ last ∷ []
    pub contents : (c : Text) × Holds S s start c × (S.read t last ≡ some c)
    pub all_temps : All (AnyTemp object) temps
    pub others : (j : Text) → All (λ n. j ≢ n) temps → S.read t j ≡ S.read s j
    pub not_object : last ≢ object
    pub last_from : (length start ≤ 1) × Member last start ⊎ AnyTemp object last

  single-Built :
      (object : Text) (current temps : List Text) (s : S.State) (final all : List Text)
      → 1 ≤ length current
      → length current ≤ 1
      → (c : Text) × Holds S s current c
      → All (λ n. n ≢ object) current
      → ◌≡◌ {A = Option (List Text × List Text)} (some (current, temps)) (some (final, all))
      → (new : List Text) × (all ≡ temps ++ new) × Built object current final new s s
  single-Built object [] temps s final all l u h o e = absurd (omega arith)
  single-Built object (n ∷ m ∷ ns) temps s final all l u h o e = absurd (omega arith)
  single-Built object (n ∷ []) temps s final all l u (c, h) o e = (
    [],
    let same : all ≡ temps = cc in same ∙ sym (append-nil temps),
    record {
      last = n;
      single = cc;
      contents = (c, h, Holds-one S s n c h);
      all_temps = tt;
      others = λ j f. refl;
      not_object = o.0;
      last_from = inl (u, inl refl);
    },
  )

  more-Built :
      (object : Text) (level : ℕ) (current next temps : List Text) (s u t : S.State)
      (final all : List Text)
      → Made S object level 0 current next s u
      → All (AnyTemp object) next
      → (new : List Text) × (all ≡ (temps ++ next) ++ new) × Built object next final new u t
      → (new : List Text) × (all ≡ temps ++ new) × Built object current final new s t
  more-Built object level current next temps s u t final all m a (new, e, h) =
      let (c, before, after) = m.contents in
      let (d, at_next, at_last) = h.contents in
      let same = Holds-unique S u next c d after at_next in
      (
        next ++ new,
        e ∙ append_assoc temps next new,
        record {
          last = h.last;
          single = h.single;
          contents = (d, subst (Holds S s current) same before, at_last);
          all_temps = All-append (AnyTemp object) next new a h.all_temps;
          others = λ j f.
              let (f', g) = All-split (λ n. j ≢ n) next new f in h.others j g ∙ m.others j f';
          not_object = h.not_object;
          last_from = inr (last_any object h.last next a h.last_from);
        },
      )

  module _ (merge : S.State → List Text → Text → S.State × Bool) (m : IsMerge S merge) where
    module _ (width : ℕ) (w : 2 ≤ width) (object : Text) where
      pub tree_frame :
          (rounds level : ℕ) (current temps : List Text) (s : S.State) (j : Text)
          → level + rounds < two63
          → length current < two63
          → IsFresh object level j
          → S.read (compose_tree S merge width object rounds level current temps s).0 j ≡ S.read s j
      unfolding compose_tree
      tree_frame zero level current temps s j l b h = refl
      tree_frame (suc rounds) level current temps s j l b h =
          let made = compose_level S merge width object (length current) level 0 current s in
          let first =
            level_frame S merge m width w object (length current) level 0 current s j
              (λ k p q. h level k (omega arith) (omega arith) (omega arith)) in
          elim (Bool-cases (ltb 1 (length current))) [
            | inr e ↦ rw e refl
            | inl e ↦ elim (Option-cases made.1) [
              | inl failed ↦ rw (e, failed) first
              | inr (next, ok) ↦
                  let short =
                    level_length S merge m width w object (length current) level 0 current s next
                      ok in
                  rw (e, ok)
                    (tree_frame rounds (level + 1) next (temps ++ next) made.0 j (omega arith)
                        (omega arith) (λ l k p q r. h l k (omega arith) q r)
                      ∙ first)
            ]
          ]

      -- The names of a level are fresh for the later ones.
      next_fresh :
          (level n : ℕ) (next : List Text)
          → level < two63
          → n < two63
          → All (IsTemp object level 0 n) next
          → All (IsFresh object (level + 1)) next
      next_fresh level n next l b h =
          All-map (IsTemp object level 0 n) _ next
            (λ x (f : IsTemp object level 0 n x) l' k p q r e.
              let same =
                temp_name_injective object level f.0 l' k l (omega (arith, f.2)) q r
                  (sym f.3 ∙ e) in
              let late : level ≡ l' = same.0 in absurd (omega arith))
            h

      start_fresh :
          (level : ℕ) (current : List Text)
          → level < two63
          → length current < two63
          → All (IsFresh object level) current
          → All (NotTemp object level 0 (0 + length current)) current
      start_fresh level current l b h =
          All-map (IsFresh object level) _ current
            (λ x (f : IsFresh object level x) k p q. f level k (omega arith) l (omega arith)) h

      temps_any :
          (level n : ℕ) (next : List Text)
          → level < two63
          → n < two63
          → All (IsTemp object level 0 n) next
          → All (AnyTemp object) next
      temps_any level n next l b h =
          All-map (IsTemp object level 0 n) _ next
            (λ x (f : IsTemp object level 0 n x). (level, f.0, l, omega (arith, f.2), f.3)) h

      pub any_not_object :
          (next : List Text) → All (AnyTemp object) next → All (λ n. n ≢ object) next
      any_not_object next h =
          All-map (AnyTemp object) _ next
            (λ x (f : AnyTemp object x) e. temp_name-ne-object object f.0 f.1 (sym f.4 ∙ e)) h

      pub tree-Built :
          (rounds level : ℕ) (current temps : List Text) (s : S.State) (final all : List Text)
          → 1 ≤ length current
          → length current ≤ rounds
          → level + rounds < two63
          → All (IsFresh object level) current
          → All (λ n. n ≢ object) current
          → (length current ≤ 1 → (c : Text) × Holds S s current c)
          → (compose_tree S merge width object rounds level current temps s).1 ≡ some (final, all)
          → (new : List Text) × (all ≡ temps ++ new)
            × Built object current final new s
                (compose_tree S merge width object rounds level current temps s).0
      unfolding compose_tree
      tree-Built zero level current temps s final all l f b fresh o h e = absurd (omega arith)
      tree-Built (suc rounds) level current temps s final all l f b fresh o h e =
          let made = compose_level S merge width object (length current) level 0 current s in
          elim (Bool-cases (ltb 1 (length current))) [
            | inr one ↦ rw one (
                single-Built object current temps s final all l (ground arith) (h (ground arith)) o
                  (rw one at e))
            | inl more ↦ elim (Option-cases made.1) [
              | inl failed ↦ let x = rw (more, failed) at e in cc
              | inr (next, ok) ↦
                  let many : 2 ≤ length current = ltb→lt 1 (length current) more in
                  let m' =
                    level-Made S merge m width w object (length current) level 0 current s next
                      (omega arith) (omega arith) (λ p. omega arith)
                      (start_fresh level current (omega arith) (omega arith) fresh) ok in
                  let any =
                    temps_any level (0 + length current) next (omega arith) (omega arith)
                      m'.temps in
                  rw (more, ok)
                    (more-Built object level current next temps s made.0
                      (compose_tree S merge width object rounds (level + 1) next (temps ++ next)
                        made.0).0
                      final all m' any
                      (tree-Built rounds (level + 1) next (temps ++ next) made.0 final all
                        (m'.some_left (omega arith)) (omega (arith, m'.much_shorter many))
                        (omega arith)
                        (next_fresh level (0 + length current) next (omega arith) (omega arith)
                          m'.temps)
                        (any_not_object next any)
                        (λ p. let (c, before, after) = m'.contents in (c, after))
                        (rw (more, ok) at e)))
            ]
          ]

      -- Where merges run the tree ends with an object.
      pub tree_runs :
          (rounds level : ℕ) (current temps : List Text) (s : S.State) (c : Text)
          → MergesUpTo S width merge
          → 1 ≤ length current
          → length current ≤ rounds
          → level + rounds < two63
          → All (IsFresh object level) current
          → Holds S s current c
          → (r : List Text × List Text) × ((compose_tree S merge width object rounds level current
                temps s).1
              ≡ some r)
      unfolding compose_tree
      tree_runs zero level current temps s c runs l f b fresh h = absurd (omega arith)
      tree_runs (suc rounds) level current temps s c runs l f b fresh h =
          let made = compose_level S merge width object (length current) level 0 current s in
          let start = start_fresh level current (omega arith) (omega arith) fresh in
          elim (Bool-cases (ltb 1 (length current))) [
            | inr one ↦ ((current, temps), rw one refl)
            | inl more ↦
                let many : 2 ≤ length current = ltb→lt 1 (length current) more in
                let (next, ok) =
                  level_runs S merge m width w object (length current) level 0 current s c runs
                    (omega arith) start h in
                let m' =
                  level-Made S merge m width w object (length current) level 0 current s next
                    (omega arith) (omega arith) (λ p. omega arith) start ok in
                let (d, before, after) = m'.contents in
                let (r, e) =
                  tree_runs rounds (level + 1) next (temps ++ next) made.0 d runs
                    (m'.some_left (omega arith)) (omega (arith, m'.much_shorter many)) (omega arith)
                    (next_fresh level (0 + length current) next (omega arith) (omega arith)
                      m'.temps)
                    after in
                (r, rw (more, ok) e)
          ]
