-- ===== src/ChunkServer/Tests.antt =====
-- A server that has two of three chunks.
use sky_flow.Base.{◌≡◌, ◌≢◌, refl, true, false, [], ◌∷◌, none, some, All}
use sky_flow.Base.Text.{≟→≢, Text, codes, ◌≟◌}
use sky_flow.Base.Dict.{Dict, lookup, insert, delete}
use sky_flow.Compose.{Holds}
use sky_flow.Compose.Memory.{memory}
use sky_flow.ChunkServer.{
  Disk, Network, merged, merge_loop, merge_single, removed, append_to, merge_file_chunks, status_ok,
  internal_error, chunk_merge_handler, remote_compose_file,
}
use sky_flow.ChunkServer.Merges.{merge_file_chunks-whole}
use sky_flow.ChunkServer.Fine.{IsFine, IsMerged}
use sky_flow.ChunkServer.Receives.{upload_all, merge-upload_all}
use sky_flow.ChunkServer.Loses.{remote_compose_file-loses}

abbrev disk : Disk
disk = record {
  makes_dirs = true;
  creates = true;
  renames = true;
  opens = λ n. true;
  breaks = λ n. none;
  removes = λ n. true;
}

disk-IsFine : IsFine disk
disk-IsFine = record {
  makes_dirs = refl;
  creates = refl;
  renames = refl;
  opens = λ n. refl;
  breaks = λ n. refl;
  removes = λ n. refl;
}

abbrev network : Network
network = record { context_done = false; delivers = true; responds = true }

abbrev base : Text
base = codes "/data"

abbrev file : Text
file = codes "f"

abbrev a : Text
a = codes "a"

abbrev b : Text
b = codes "b"

abbrev directory : Dict Text
directory = (a, codes "12") ∷ (b, codes "3") ∷ []

a-ne-file : a ≢ file
unfolding ◌≟◌
a-ne-file = ≟→≢ a file refl

b-ne-file : b ≢ file
unfolding ◌≟◌
b-ne-file = ≟→≢ b file refl

two_chunks :
    merge_file_chunks disk base false file (b ∷ a ∷ []) directory
    ≡ ((a, codes "12") ∷ (b, codes "3") ∷ (file, codes "312") ∷ [], merged)
unfolding merge_file_chunks merge_loop removed append_to lookup insert ◌≟◌
two_chunks = refl

-- A single chunk is gone although the request does not ask for it.
one_chunk :
    merge_file_chunks disk base false file (a ∷ []) directory
    ≡ ((b, codes "3") ∷ (file, codes "12") ∷ [], merged)
unfolding merge_file_chunks merge_single lookup insert delete ◌≟◌
one_chunk = refl

b-ne-a : b ≢ a
unfolding ◌≟◌
b-ne-a = ≟→≢ b a refl

c-ne-file : codes "c" ≢ file
unfolding ◌≟◌
c-ne-file = ≟→≢ (codes "c") file refl

merge_file_chunks-whole_example :
    (c : Text) × Holds memory directory (b ∷ a ∷ []) c
    × (lookup file (merge_file_chunks disk base true file (b ∷ a ∷ []) directory).0 ≡ some c)
unfolding merge_file_chunks merge_loop removed append_to lookup insert ◌≟◌ delete
merge_file_chunks-whole_example =
    merge_file_chunks-whole disk base true file (b ∷ a ∷ []) directory (b-ne-file, (a-ne-file, tt))
      refl

merge-upload_all_example :
    let received = upload_all disk file ((a, codes "12") ∷ (b, codes "3") ∷ []) [] in
    let r = chunk_merge_handler disk base file (some (a ∷ b ∷ [], true)) received in
    (r.1 ≡ status_ok) × IsMerged true file (a ∷ b ∷ []) (codes "123") received r.0
merge-upload_all_example =
    merge-upload_all disk base file true (a, codes "12") ((b, codes "3") ∷ []) [] disk-IsFine
      (λ e. cc) (λ e. cc) ((λ e. cc), ((λ e. cc), tt)) (a-ne-file, (b-ne-file, tt))
      ((b-ne-a, tt), (tt, tt))

remote_compose_file-loses_example :
    let parts = a ∷ b ∷ codes "c" ∷ [] in
    let r = remote_compose_file network disk base true file parts directory in
    (r.1 ≡ true)
    × ((chunk_merge_handler disk base file (some (parts, true)) directory).1 ≡ internal_error)
    × All (λ n. lookup n r.0 ≡ none) (a ∷ b ∷ [])
unfolding lookup ◌≟◌
remote_compose_file-loses_example =
    remote_compose_file-loses network disk base file a (b ∷ []) (codes "c") [] directory
      (codes "123") refl refl refl disk-IsFine (λ e. cc) (λ e. cc) (a-ne-file, (b-ne-file, tt))
      c-ne-file ((b-ne-a, tt), (tt, tt))
      (codes "12", codes "3", refl, (codes "3", [], refl, refl, refl), refl) refl
