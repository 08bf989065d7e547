-- ===== src/Compose.antt =====
-- The composition of uploaded parts into one object (client-plugin/upload, gcs/compose.go and
-- s3/compose.go). The storage service is a parameter: `ObjectStore` has its requests, `IsLawful` and
-- `IsReliable` what is relied on.
pub mod Names
pub mod Holds
pub mod Tree
pub mod Gcs
pub mod S3
mod Levels
mod Trees
mod After
mod Cleanup
pub mod Ends
pub mod Agree
pub mod Memory
mod Tests
use sky_flow.Base.{
  ℕ, zero, suc, ◌+◌, ◌≤◌, ◌<◌, ◌≡◌, ◌≢◌, Bool, true, false, List, [], ◌∷◌, ◌++◌, Option, none, some,
  length,
}
use sky_flow.Base.Text.{Text, codes}
use sky_flow.Chunk.Parts.{itoa}

-- A bucket and its requests, each with whether it succeeded. `put` writes a new object, and `get`
-- returns the bytes of one; `merge` makes one object of several.
pub record ObjectStore : Type 1 where
  pub State : Type 0
  pub read : State → Text → Option Text
  pub copy : State → Text → Text → State × Bool
  pub delete : State → Text → State × Bool
  pub compose : State → List Text → Text → State × Bool
  pub put : State → Text → Text → State × Bool
  pub get : State → Text → State × Option Text

pub data ComposeResult : Type 0 where
  done : ComposeResult
  canceled : ComposeResult
  no_client : ComposeResult
  copy_failed : ComposeResult
  merge_failed : ComposeResult
  finalize_failed : ComposeResult
  panics : ComposeResult

-- `fmt.Sprintf("%s.compose.%d.%d", objectName, level, i)`
unfoldable pub temp_name : Text → ℕ → ℕ → Text
temp_name object level i = object ++ (codes ".compose." ++ (itoa level ++ (codes "." ++ itoa i)))

module _ (S : ObjectStore) where
  -- The objects exist, and their contents make `c` one after the other.
  abbrev pub Holds : S.State → List Text → Text → Type 0
  Holds s [] c = c ≡ []
  Holds s (n ∷ ns) c = (a : Text) × (b : Text) × (S.read s n ≡ some a) × Holds s ns b × (c ≡ a ++ b)

  -- What a request that makes an object of others may do: nothing else is touched, and success means
  -- that it has the contents of the others in order.
  pub record IsMerge (merge : S.State → List Text → Text → S.State × Bool) : Type 0 where
    pub merge_other :
        (s : S.State) (names : List Text) (to j : Text)
        → j ≢ to
        → S.read (merge s names to).0 j ≡ S.read s j
    pub merge_done :
        (s : S.State) (names : List Text) (to : Text)
        → (merge s names to).1 ≡ true
        → (c : Text) × Holds s names c × (S.read (merge s names to).0 to ≡ some c)

  pub record IsLawful : Type 0 where
    pub copy_other :
        (s : S.State) (from to j : Text) → j ≢ to → S.read (S.copy s from to).0 j ≡ S.read s j
    pub copy_done :
        (s : S.State) (from to : Text)
        → (S.copy s from to).1 ≡ true
        → (c : Text) × (S.read s from ≡ some c) × (S.read (S.copy s from to).0 to ≡ some c)
    pub delete_other : (s : S.State) (k j : Text) → j ≢ k → S.read (S.delete s k).0 j ≡ S.read s j
    pub delete_done :
        (s : S.State) (k : Text) → (S.delete s k).1 ≡ true → S.read (S.delete s k).0 k ≡ none
    pub delete_gone :
        (s : S.State) (k : Text) → S.read s k ≡ none → S.read (S.delete s k).0 k ≡ none
    pub composes : IsMerge S.compose
    pub put_other : (s : S.State) (to c j : Text) → j ≢ to → S.read (S.put s to c).0 j ≡ S.read s j
    pub put_done :
        (s : S.State) (to c : Text) → (S.put s to c).1 ≡ true → S.read (S.put s to c).0 to ≡ some c
    pub get_same : (s : S.State) (from j : Text) → S.read (S.get s from).0 j ≡ S.read s j
    pub get_done :
        (s : S.State) (from c : Text) → (S.get s from).1 ≡ some c → S.read s from ≡ some c

  -- Merges of up to `width` objects that exist succeed.
  abbrev pub MergesUpTo : ℕ → (S.State → List Text → Text → S.State × Bool) → Type 0
  MergesUpTo width merge =
      (s : S.State) (names : List Text) (to c : Text)
      → 0 < length names
      → length names ≤ width
      → Holds s names c
      → (merge s names to).1 ≡ true

  -- A service that is up: requests on objects that exist succeed, and one compose request takes 32.
  pub record IsReliable : Type 0 where
    pub copy_runs :
        (s : S.State) (from to c : Text) → S.read s from ≡ some c → (S.copy s from to).1 ≡ true
    pub delete_runs : (s : S.State) (k c : Text) → S.read s k ≡ some c → (S.delete s k).1 ≡ true
    pub compose_runs : MergesUpTo 32 S.compose
    pub put_runs : (s : S.State) (to c : Text) → (S.put s to c).1 ≡ true
    pub get_runs :
        (s : S.State) (from c : Text) → S.read s from ≡ some c → (S.get s from).1 ≡ some c
