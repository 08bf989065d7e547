-- ===== src/Storage/Loop.antt =====
-- The loop of Get: it finds an entry with the greatest time.
use sky_flow.Base.{
  ◌≡◌, ◌≢◌, refl, sym, subst, ◌∙◌, ap, ◌⊎◌, inl, inr, false, List, [], ◌∷◌, Option, some, arith,
  Member, Bool-cases, if◌then◌else◌,
}
use sky_flow.Base.Int.{ℤ, ltb_ℤ, ◌≤ℤ◌}
use sky_flow.Base.Text.{Text}
use sky_flow.Storage.{Entry, Stamp, skipped, crashes, stamp, stamp_of, get_loop}

pub stamp_injective : (y z : ℤ) → stamp y ≡ stamp z → y ≡ z
stamp_injective y z h = cc h

module _ {R : Type 0} where
  -- What the loop may answer: what it started from, or an entry with the greatest time.
  abbrev pub IsFound : Text → List (Entry R) → ℤ → Option (Entry R) → Option (Entry R) → Type 0
  IsFound p dir best found out =
      ((out ≡ found)
        × ((e : Entry R) (z : ℤ) → Member e dir → stamp_of p e.name ≡ stamp z → z ≤ℤ best))
      ⊎ ((e : Entry R) × (z : ℤ) × (out ≡ some e)
          × Member e dir
          × (stamp_of p e.name ≡ stamp z)
          × ((e' : Entry R) (z' : ℤ) → Member e' dir → stamp_of p e'.name ≡ stamp z' → z' ≤ℤ z)
          × (best ≤ℤ z))

  abbrev pub IsPlain : Text → Entry R → Type 0
  IsPlain p e = (e.is_dir ≡ false) × (stamp_of p e.name ≢ crashes)

  -- An entry that is no better than the best so far.
  skip_one :
      (p : Text) (e : Entry R) (dir : List (Entry R)) (best : ℤ) (found out : Option (Entry R))
      → ((z : ℤ) → stamp_of p e.name ≡ stamp z → z ≤ℤ best)
      → IsFound p dir best found out
      → IsFound p (e ∷ dir) best found out
  skip_one p e dir best found out le (inl (q, all)) = inl (
    q,
    λ f z m h. elim m [
      | inl r ↦ le z (subst (λ x. stamp_of p x.name ≡ stamp z) r h)
      | inr k ↦ all f z k h
    ],
  )
  skip_one p e dir best found out le (inr (g, y, q, m, s, all, b)) = inr (
    g,
    y,
    q,
    inr m,
    s,
    (λ f z m h. elim m [
      | inl r ↦
          let small = le z (subst (λ x. stamp_of p x.name ≡ stamp z) r h) in omega (arith, small)
      | inr k ↦ all f z k h
    ]),
    b,
  )

  -- An entry that is better.
  take_one :
      (p : Text) (e : Entry R) (dir : List (Entry R)) (best z : ℤ) (found out : Option (Entry R))
      → stamp_of p e.name ≡ stamp z
      → best ≤ℤ z
      → IsFound p dir z (some e) out
      → IsFound p (e ∷ dir) best found out
  take_one p e dir best z found out s b (inl (q, all)) = inr (
    e,
    z,
    q,
    inl refl,
    s,
    (λ f y m h. elim m [
      | inl r ↦
          let same : y ≡ z = stamp_injective y z (sym h ∙ ap (λ x. stamp_of p x.name) r ∙ s) in
          rw same (omega arith)
      | inr k ↦ all f y k h
    ]),
    b,
  )
  take_one p e dir best z found out s b (inr (g, y, q, m, s', all, c)) = inr (
    g,
    y,
    q,
    inr m,
    s',
    (λ f x m' h. elim m' [
      | inl r ↦
          let same : x ≡ z = stamp_injective x z (sym h ∙ ap (λ x. stamp_of p x.name) r ∙ s) in
          rw same (omega arith)
      | inr k ↦ all f x k h
    ]),
    omega arith,
  )

  get_loop-skip :
      (p : Text) (e : Entry R) (es : List (Entry R)) (best : ℤ) (found : Option (Entry R))
      → e.is_dir ≡ false
      → stamp_of p e.name ≡ skipped
      → get_loop p (e ∷ es) best found ≡ get_loop p es best found
  unfolding get_loop
  get_loop-skip p e es best found d q = rw (d, q) refl

  get_loop-stamp :
      (p : Text) (e : Entry R) (es : List (Entry R)) (best z : ℤ) (found : Option (Entry R))
      → e.is_dir ≡ false
      → stamp_of p e.name ≡ stamp z
      → get_loop p (e ∷ es) best found
        ≡ (if ltb_ℤ best z then get_loop p es z (some e) else get_loop p es best found)
  unfolding get_loop
  get_loop-stamp p e es best z found d q = simp (d, q)

  abbrev pub IsAnswered : Text → List (Entry R) → ℤ → Option (Entry R) → Type 0
  IsAnswered p dir best found =
      (out : Option (Entry R)) × (get_loop p dir best found ≡ some out)
      × IsFound p dir best found out

  -- One round of the loop, by what it makes of the name.
  get_loop_round :
      (p : Text) (e : Entry R) (es : List (Entry R)) (best : ℤ) (found : Option (Entry R))
      (s : Stamp)
      → ((b : ℤ) (f : Option (Entry R)) → IsAnswered p es b f)
      → stamp_of p e.name ≡ s
      → IsPlain p e
      → IsAnswered p (e ∷ es) best found
  get_loop_round p e es best found crashes ih q (d, ne) = absurd (ne q)
  get_loop_round p e es best found skipped ih q (d, ne) =
      let (out, r, ok) = ih best found in
      (
        out,
        get_loop-skip p e es best found d q ∙ r,
        skip_one p e es best found out (λ z k. no_time z (sym q ∙ k)) ok,
      )
    where
      no_time : {A : Type 0} → (z : ℤ) → skipped ≡ stamp z → A
      no_time z k = cc k
  get_loop_round p e es best found (stamp z) ih q (d, ne) = elim (Bool-cases (ltb_ℤ best z)) [
    | inl less ↦
        let (out, r, ok) = ih z (some e) in
        (
          out,
          get_loop-stamp p e es best z found d q ∙ rw less r,
          take_one p e es best z found out q (ground (arith, less)) ok,
        )
    | inr less ↦
        let (out, r, ok) = ih best found in
        (
          out,
          get_loop-stamp p e es best z found d q ∙ rw less r,
          skip_one p e es best found out
              (λ y k. rw (stamp_injective y z (sym k ∙ q)) (ground (arith, less))) ok,
        )
  ]

  pub get_loop_lem :
      (p : Text) (dir : List (Entry R)) (best : ℤ) (found : Option (Entry R))
      → ((e : Entry R) → Member e dir → IsPlain p e)
      → IsAnswered p dir best found
  unfolding get_loop
  get_loop_lem p [] best found h = (found, refl, inl (refl, λ e z m. absurd m))
  get_loop_lem p (e ∷ es) best found h =
      get_loop_round p e es best found (stamp_of p e.name)
        (λ b f. get_loop_lem p es b f (λ g m. h g (inr m))) refl (h e (inl refl))
