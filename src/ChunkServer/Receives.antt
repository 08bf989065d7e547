-- ===== src/ChunkServer/Receives.antt =====
-- Chunks that were uploaded one by one are merged into the file.
use sky_flow.Base.{◌≡◌, ◌≢◌, refl, ap, ◌∙◌, Bool, ◌||◌, List, [], ◌∷◌, ◌++◌, some, All}
use sky_flow.Base.Text.{Distinct, ne→≟, Text, ≟-refl}
use sky_flow.Base.Dict.{Dict, lookup, insert, lookup-insert}
use sky_flow.Compose.{Holds}
use sky_flow.Compose.Memory.{memory}
use sky_flow.ChunkServer.{
  Disk, status_ok, status_of, chunk_merge_handler, chunk_upload_handler, save_file_chunk,
}
use sky_flow.ChunkServer.Fine.{IsFine, is_single, IsMerged, merge_file_chunks_fine}

abbrev pub names : List (Text × Text) → List Text
names [] = []
names ((n, c) ∷ xs) = n ∷ names xs

abbrev pub bodies : List (Text × Text) → Text
bodies [] = []
bodies ((n, c) ∷ xs) = c ++ bodies xs

-- One upload request for each chunk of the file.
pub upload_all : Disk → Text → List (Text × Text) → Dict Text → Dict Text
upload_all o final [] d = d
upload_all o final ((n, c) ∷ xs) d =
    upload_all o final xs (chunk_upload_handler o final n (some c) d).0

upload_one :
    (o : Disk) (fine : IsFine o) (final n c : Text) (d : Dict Text)
    → final ≢ []
    → n ≢ []
    → chunk_upload_handler o final n (some c) d ≡ (insert n c d, status_ok)
unfolding chunk_upload_handler save_file_chunk
upload_one o fine final n c d f e =
    rw (ne→≟ final [] f, ne→≟ n [] e) (simp (fine.makes_dirs, fine.creates, fine.breaks n))

upload_all_other :
    (o : Disk) (fine : IsFine o) (final : Text) (xs : List (Text × Text)) (d : Dict Text) (j : Text)
    → final ≢ []
    → All (λ n. n ≢ []) (names xs)
    → All (λ m. m ≢ j) (names xs)
    → lookup j (upload_all o final xs d) ≡ lookup j d
unfolding upload_all
upload_all_other o fine final [] d j f a u = refl
upload_all_other o fine final ((n, c) ∷ xs) d j f a u =
    upload_all_other o fine final xs _ j f a.1 u.1
    ∙ ap (λ r. lookup j r.0) (upload_one o fine final n c d f a.0)
    ∙ lookup-insert n j c d
    ∙ (rw (ne→≟ n j u.0) refl)

upload_all-Holds :
    (o : Disk) (fine : IsFine o) (final : Text) (xs : List (Text × Text)) (d : Dict Text)
    → final ≢ []
    → All (λ n. n ≢ []) (names xs)
    → Distinct (names xs)
    → Holds memory (upload_all o final xs d) (names xs) (bodies xs)
unfolding upload_all
upload_all-Holds o fine final [] d f a u = refl
upload_all-Holds o fine final ((n, c) ∷ xs) d f a u =
    let next = (chunk_upload_handler o final n (some c) d).0 in
    (
      c,
      bodies xs,
      upload_all_other o fine final xs next n f a.1 u.0
          ∙ ap (λ r. lookup n r.0) (upload_one o fine final n c d f a.0)
          ∙ lookup-insert n n c d
          ∙ (rw (≟-refl n) refl),
      upload_all-Holds o fine final xs next f a.1 u.1,
      refl,
    )

-- On a disk where nothing fails: chunks that are uploaded one by one, under distinct names, and then
-- merged make the file of their contents in order; the server answers 200. The chunks are gone if
-- the request says so, or if there is one only, and stay else; nothing else changes. No name is
-- empty, and none is the file's.
pub merge-upload_all :
    (o : Disk) (base final : Text) (del : Bool) (x : Text × Text) (xs : List (Text × Text))
    (d : Dict Text)
    → IsFine o
    → base ≢ []
    → final ≢ []
    → All (λ n. n ≢ []) (names (x ∷ xs))
    → All (λ n. n ≢ final) (names (x ∷ xs))
    → Distinct (names (x ∷ xs))
    → let chunks = names (x ∷ xs) in
      let received = upload_all o final (x ∷ xs) d in
      let r = chunk_merge_handler o base final (some (chunks, del)) received in
      (r.1 ≡ status_ok)
      × IsMerged (del || is_single chunks) final chunks (bodies (x ∷ xs)) received r.0
unfolding chunk_merge_handler
merge-upload_all o base final del (n, c) xs d fine b f a g u =
    let (ok, left) =
      merge_file_chunks_fine o fine base del final n (names xs) (upload_all o final ((n, c) ∷ xs) d)
        (c ++ bodies xs) b f g u (upload_all-Holds o fine final ((n, c) ∷ xs) d f a u) in
    rw (ne→≟ final [] f) (ap status_of ok, left)
