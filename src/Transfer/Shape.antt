-- ===== src/Transfer/Shape.antt =====
-- What a write of a chunk's status leaves as it is, and which chunks count as uploaded.
use sky_flow.Base.{
  ℕ, ◌≡◌, refl, sym, ap, ap₂, ◌∙◌, inl, inr, true, List, [], ◌∷◌, some, All, arith, ◌==◌,
  Bool-cases, Option-cases,
}
use sky_flow.Base.Text.{Text, ◌≟◌, ≟→≡, ≟-refl}
use sky_flow.Base.Dict.{Dict, lookup, insert, All-insert}
use sky_flow.Chunk.Split.{ChunkState, put_chunks}
use sky_flow.Transfer.Status
use sky_flow.Transfer.{keys}
use sky_flow.Transfer.Checker.{values}
use sky_flow.Transfer.Worker.{write_status}
use sky_flow.Base.Text.{mem}
use sky_flow.Transfer.Events.{object_names, all_completed}

abbrev pub erase : ChunkState → ChunkState
erase c = record c { acked = 0; last_send = 0 }

-- The chunks without their status.
abbrev pub shape : Dict ChunkState → Dict ChunkState
shape [] = []
shape ((k, c) ∷ m) = (k, erase c) ∷ shape m

shape-insert :
    (k : Text) (c d : ChunkState) (m : Dict ChunkState)
    → lookup k m ≡ some c
    → erase d ≡ erase c
    → shape (insert k d m) ≡ shape m
unfolding lookup insert
shape-insert k c d [] h e = cc
shape-insert k c d ((j, b) ∷ m) h e = elim (Bool-cases (j ≟ k)) [
  | inl p ↦
      let same : b ≡ c = ground (arith, p, h) in
      rw p (ap₂ (λ i x. (i, x) ∷ shape m) (sym (≟→≡ j k p)) (e ∙ ap erase (sym same)))
  | inr p ↦
      let tail : lookup k m ≡ some c = ground (arith, p, h) in
      rw p (ap (λ r. (j, erase b) ∷ r) (shape-insert k c d m tail e))
]

pub shape-write_status :
    (k : Text) (status time : ℕ) (m : Dict ChunkState)
    → shape (write_status k status time m) ≡ shape m
unfolding write_status
shape-write_status k status time m = elim (Option-cases (lookup k m)) [
  | inl e ↦ rw e refl
  | inr (c, e) ↦ rw e (shape-insert k c (record c { acked = status; last_send = time }) m e refl)
]

pub object_names-shape :
    (m : Dict ChunkState) → object_names (values (shape m)) ≡ object_names (values m)
object_names-shape [] = refl
object_names-shape ((k, c) ∷ m) = ap (λ ns. c.object_name ∷ ns) (object_names-shape m)

pub keys-shape : (m : Dict ChunkState) → keys (shape m) ≡ keys m
keys-shape [] = refl
keys-shape ((k, c) ∷ m) = ap (λ ks. k ∷ ks) (keys-shape m)

-- A chunk that counts as completed has been uploaded.
abbrev pub Uploaded : List Text → Text × ChunkState → Type 0
Uploaded done (k, c) = c.acked ≡ Status.completed → mem k done ≡ true

pub Uploaded-write_status :
    (done : List Text) (k : Text) (status time : ℕ) (m : Dict ChunkState)
    → (status ≡ Status.completed → mem k done ≡ true)
    → All (Uploaded done) m
    → All (Uploaded done) (write_status k status time m)
unfolding write_status
Uploaded-write_status done k status time m p h = elim (Option-cases (lookup k m)) [
  | inl e ↦ rw e h
  | inr (c, e) ↦
      rw e (All-insert (Uploaded done) k (record c { acked = status; last_send = time }) m p h)
]

pub mem-here : (k : Text) (ks : List Text) → mem k (k ∷ ks) ≡ true
unfolding mem
mem-here k ks = rw (≟-refl k) refl

pub mem-there : (k j : Text) (ks : List Text) → mem k ks ≡ true → mem k (j ∷ ks) ≡ true
unfolding mem
mem-there k j ks h = ground (arith, h)

pub Uploaded-more :
    (j : Text) (done : List Text) (m : Dict ChunkState)
    → All (Uploaded done) m
    → All (Uploaded (j ∷ done)) m
Uploaded-more j done [] h = tt
Uploaded-more j done ((k, c) ∷ m) h = (λ e. mem-there k j done (h.0 e), Uploaded-more j done m h.1)

abbrev pub Whole : List Text → List Text → Type 0
Whole done = All (λ k. mem k done ≡ true)

pub Whole-more : (j : Text) (done ks : List Text) → Whole done ks → Whole (j ∷ done) ks
Whole-more j done [] h = tt
Whole-more j done (k ∷ ks) h = (mem-there k j done h.0, Whole-more j done ks h.1)

pub Whole-completed :
    (done : List Text) (m : Dict ChunkState)
    → All (Uploaded done) m
    → all_completed (values m) ≡ true
    → Whole done (keys m)
unfolding all_completed
Whole-completed done [] h e = tt
Whole-completed done ((k, c) ∷ m) h e = elim (Bool-cases (c.acked == Status.completed)) [
  | inl p ↦ (h.0 (ground arith), Whole-completed done m h.1 (ground arith))
  | inr p ↦ absurd (ground arith)
]

abbrev pub Fresh : List ChunkState → Type 0
Fresh = All (λ c. c.acked ≡ Status.init)

pub Uploaded-put_chunks :
    (cs : List ChunkState) (m : Dict ChunkState)
    → Fresh cs
    → All (Uploaded []) m
    → All (Uploaded []) (put_chunks cs m)
unfolding put_chunks
Uploaded-put_chunks [] m f h = h
Uploaded-put_chunks (c ∷ cs) m f h =
    Uploaded-put_chunks cs (insert c.index c m) f.1
      (All-insert (Uploaded []) c.index c m (λ e. absurd (omega (arith, f.0, e))) h)
