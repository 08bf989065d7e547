-- ===== src/Storage/Saved.antt =====
-- The directory that a sequence of calls of Put makes.
use sky_flow.Base.{
  ℕ, ◌<◌, ◌≤◌, ◌≡◌, ◌≢◌, refl, sym, subst, ◌∙◌, ap, ◌⊎◌, inl, inr, Bool, true, false, not, ◌&&◌,
  List, [], ◌∷◌, some, arith, All, Member, Bool-cases, if◌then◌else◌,
}
use sky_flow.Base.Word.{two63}
use sky_flow.Base.Text.{Text, ◌≟◌, ≟→≡}
use sky_flow.Storage.{
  VmReport, Entry, GetResult, report, not_found, Writing, file_name, before, put_entry, put,
}

module _ {R : Type 0} where
  -- Calls of Put, the last one first.
  unfoldable pub put_all : List (Writing × VmReport R) → List (Entry R)
  put_all [] = []
  put_all ((w, r) ∷ cs) = (put w (some r) (put_all cs)).0

  abbrev saves : Writing → VmReport R → Bool
  saves w r = not (r.vm_id ≟ []) && w.marshals && w.writes && w.renames

  abbrev saved_file : Writing → VmReport R → Entry R
  saved_file w r = record {
    name = file_name r.vm_id w.millis;
    is_dir = false;
    mod_time = w.modified;
    body = some r;
  }

  -- The reports that were saved, with their times.
  unfoldable pub history : List (Writing × VmReport R) → List (ℕ × VmReport R)
  history [] = []
  history ((w, r) ∷ cs) = let rest = history cs in if saves w r then (w.millis, r) ∷ rest else rest

  -- The clock is an int64, and a write or a renaming that fails leaves no file behind.
  abbrev pub IsTidy : Writing × VmReport R → Type 0
  IsTidy (w, r) = (w.millis < two63) × (w.leaves_file ≡ false) × (w.removes ≡ true)

  -- A saved report of the machine with the greatest time, or none if nothing of it was saved.
  unfoldable pub IsNewest : Text → List (ℕ × VmReport R) → GetResult R → Type 0
  IsNewest vm hs (report r) =
      (t : ℕ) × Member (t, r) hs
      × (r.vm_id ≡ vm)
      × ((t' : ℕ) (r' : VmReport R) → Member (t', r') hs → r'.vm_id ≡ vm → t' ≤ t)
  IsNewest vm hs not_found = (t : ℕ) (r : VmReport R) → Member (t, r) hs → r.vm_id ≢ vm
  IsNewest vm hs _ = ⊥

  put_entry-Member :
      (e f : Entry R) (dir : List (Entry R)) → Member f (put_entry e dir) → (f ≡ e) ⊎ Member f dir
  unfolding put_entry
  put_entry-Member e f [] h = h
  put_entry-Member e f (g ∷ gs) h = elim (Bool-cases (e.name ≟ g.name)) [
    | inl q ↦ ground (arith, q, h)
    | inr q ↦ elim (Bool-cases (before e.name g.name)) [
      | inl b ↦ ground (arith, q, b, h)
      | inr b ↦ ground (arith, q, b, h, put_entry-Member e f gs)
    ]
  ]

  put_entry-has : (e : Entry R) (dir : List (Entry R)) → Member e (put_entry e dir)
  unfolding put_entry
  put_entry-has e [] = inl refl
  put_entry-has e (g ∷ gs) = elim (Bool-cases (e.name ≟ g.name)) [
    | inl q ↦ ground (arith, q)
    | inr q ↦ elim (Bool-cases (before e.name g.name)) [
      | inl b ↦ ground (arith, q, b)
      | inr b ↦ ground (arith, q, b, put_entry-has e gs)
    ]
  ]

  -- A file has a successor of its name.
  put_entry-keeps :
      (e f : Entry R) (dir : List (Entry R))
      → Member f dir
      → (g : Entry R) × Member g (put_entry e dir) × (g.name ≡ f.name)
  unfolding put_entry
  put_entry-keeps e f [] h = absurd h
  put_entry-keeps e f (g ∷ gs) h = elim (Bool-cases (e.name ≟ g.name)) [
    | inl q ↦ elim h [
      | inl r ↦ (e, rw q (inl refl), ≟→≡ e.name g.name q ∙ ap (λ x. x.name) (sym r))
      | inr m ↦ (f, rw q (inr m), refl)
    ]
    | inr q ↦ elim (Bool-cases (before e.name g.name)) [
      | inl b ↦ (f, rw (q, b) (inr h), refl)
      | inr b ↦ elim h [
        | inl r ↦ (g, rw (q, b) (inl refl), ap (λ x. x.name) (sym r))
        | inr m ↦ let (k, here, same) = put_entry-keeps e f gs m in (k, rw (q, b) (inr here), same)
      ]
    ]
  ]

  put_lem :
      (w : Writing) (r : VmReport R) (dir : List (Entry R))
      → IsTidy (w, r)
      → (put w (some r) dir).0 ≡ (if saves w r then put_entry (saved_file w r) dir else dir)
  unfolding put
  put_lem w r dir (b, l, m) = ground (arith, l, m)

  -- An entry is a saved report, under the name for its machine and its time.
  abbrev pub IsFile : List (ℕ × VmReport R) → Entry R → Type 0
  IsFile hs e =
      (t : ℕ) × (r : VmReport R) × Member (t, r) hs
      × (t < two63)
      × (e.is_dir ≡ false)
      × (e.body ≡ some r)
      × (e.name ≡ file_name r.vm_id t)

  -- All entries are saved reports, and the name of each saved report is there.
  abbrev pub IsKept : List (ℕ × VmReport R) → List (Entry R) → Type 0
  IsKept hs dir =
      ((e : Entry R) → Member e dir → IsFile hs e)
      × ((t : ℕ) (r : VmReport R)
          → Member (t, r) hs
          → (e : Entry R) × Member e dir × (t < two63) × (e.name ≡ file_name r.vm_id t))

  put_entry-IsKept :
      (w : Writing) (r : VmReport R) (hs : List (ℕ × VmReport R)) (dir : List (Entry R))
      → w.millis < two63
      → IsKept hs dir
      → IsKept ((w.millis, r) ∷ hs) (put_entry (saved_file w r) dir)
  put_entry-IsKept w r hs dir b (sound, full) = (files, names)
    where
      files :
          (e : Entry R) → Member e (put_entry (saved_file w r) dir) → IsFile ((w.millis, r) ∷ hs) e
      files e h = elim (put_entry-Member (saved_file w r) e dir h) [
        | inl q ↦
            (w.millis, r, inl refl, b, ap (λ x. x.is_dir) q, ap (λ x. x.body) q, ap (λ x. x.name) q)
        | inr m ↦ let (t, r', i, c, d, y, n) = sound e m in (t, r', inr i, c, d, y, n)
      ]

      names :
          (t : ℕ) (r' : VmReport R)
          → Member (t, r') ((w.millis, r) ∷ hs)
          → (e : Entry R) × Member e (put_entry (saved_file w r) dir)
            × (t < two63)
            × (e.name ≡ file_name r'.vm_id t)
      names t r' (inl q) = (
        saved_file w r,
        put_entry-has (saved_file w r) dir,
        subst (λ x. x.0 < two63) (sym q) b,
        ap (λ x. file_name x.1.vm_id x.0) (sym q),
      )
      names t r' (inr i) =
          let (e, m, c, n) = full t r' i in
          let (g, k, s) = put_entry-keeps (saved_file w r) e dir m in (g, k, c, s ∙ n)

  pub put_all-IsKept :
      (cs : List (Writing × VmReport R)) → All IsTidy cs → IsKept (history cs) (put_all cs)
  unfolding history put_all
  put_all-IsKept [] h = ((λ e m. absurd m), (λ t r m. absurd m))
  put_all-IsKept ((w, r) ∷ cs) h =
      let ih = put_all-IsKept cs h.1 in
      subst (λ d. IsKept (if saves w r then (w.millis, r) ∷ history cs else history cs) d)
        (sym (put_lem w r (put_all cs) h.0)) (by_result (saves w r) ih)
    where
      by_result :
          (b : Bool)
          → IsKept (history cs) (put_all cs)
          → IsKept
              (if b then (w.millis, r) ∷ history cs else history cs)
              (if b then put_entry (saved_file w r) (put_all cs) else put_all cs)
      by_result true k = put_entry-IsKept w r (history cs) (put_all cs) h.0.0 k
      by_result false k = k
