-- ===== src/Compose/Tree.antt =====
-- The loops of both versions of ComposeFile: groups of up to `width` objects are merged level by level.
use sky_flow.Base.{
  ℕ, zero, suc, ◌+◌, Bool, List, [], ◌∷◌, ◌++◌, Option, none, some, length, take, drop, ltb,
  if◌then◌else◌,
}
use sky_flow.Base.Text.{Text, ◌≟◌}
use sky_flow.Compose.{ObjectStore, temp_name}

abbrev pub keep_name : Text → Option (List Text) → Option (List Text)
keep_name n none = none
keep_name n (some ns) = some (n ∷ ns)

module _ (S : ObjectStore) where
  -- The request of each group, and the width of a group.
  module _ (merge : S.State → List Text → Text → S.State × Bool) (width : ℕ) (object : Text) where
    -- The inner loop, from `current[i:]` on: the names that it made, in order, or `none` after the
    -- first failure. Each round takes a name off, so a round per name is enough.
    unfoldable pub compose_level : ℕ → ℕ → ℕ → List Text → S.State → S.State × Option (List Text)
    compose_level rounds level i [] s = (s, some [])
    compose_level zero level i (n ∷ ns) s = (s, none)
    compose_level (suc rounds) level i (n ∷ ns) s =
        let tmp = temp_name object level i in
        let merged = merge s (take width (n ∷ ns)) tmp in
        let rest = compose_level rounds level (i + width) (drop width (n ∷ ns)) merged.0 in
        if merged.1 then (rest.0, keep_name tmp rest.1) else (merged.0, none)

    -- The outer loop: what is left in `current`, and all the temporary names.
    unfoldable pub compose_tree :
        ℕ → ℕ → List Text → List Text → S.State → S.State × Option (List Text × List Text)
    compose_tree zero level current temps s = (s, some (current, temps))
    compose_tree (suc rounds) level current temps s =
        let made = compose_level (length current) level 0 current s in
        let rest : S.State × Option (List Text × List Text) = elim made.1 [
          | none ↦ (made.0, none)
          | some next ↦ compose_tree rounds (level + 1) next (temps ++ next) made.0
        ] in
        if ltb 1 (length current) then rest else (s, some (current, temps))

  -- Deletions whose failure is only logged.
  unfoldable pub delete_all : List Text → S.State → S.State
  delete_all [] s = s
  delete_all (n ∷ ns) s = delete_all ns (S.delete s n).0

  unfoldable pub delete_except : Text → List Text → S.State → S.State
  delete_except kept [] s = s
  delete_except kept (n ∷ ns) s = delete_except kept ns (if n ≟ kept then s else (S.delete s n).0)
