-- ===== src/Storage/Names.antt =====
-- What the loop of Get makes of the names that Put gives.
use sky_flow.Base.{
  ℕ, suc, ◌+◌, ◌-◌, ◌*◌, ◌<◌, ◌/◌, ◌%◌, ◌≡◌, ◌≢◌, refl, sym, ◌∙◌, ap, ◌⊎◌, inl, inr, true, false,
  [], ◌∷◌, ◌++◌, none, some, append_assoc, arith, length, length-append, take, drop, All, ltb, ◌==◌,
  Bool-cases, if◌then◌else◌,
}
use sky_flow.Base.Int.{pos}
use sky_flow.Base.Word.{two63}
use sky_flow.Base.Text.{Text, codes, ◌≟◌, ≟→≡, ≟→≢}
use sky_flow.Chunk.Parts.{digits_of, itoa, digits_value, parse_uint, parse_int}
use sky_flow.Chunk.Names.{Digits, digits_of-Digits, digits_value-digits_of, parse_int-Digits}
use sky_flow.Storage.{file_name, has_prefix, skipped, stamp, parsed, stamp_of}

has_prefix-append : (p s : Text) → has_prefix p (p ++ s) ≡ true
unfolding has_prefix
has_prefix-append [] s = refl
has_prefix-append (c ∷ p) s = ground (arith, has_prefix-append p s)

drop-append : (p s : Text) → drop (length p) (p ++ s) ≡ s
drop-append [] s = refl
drop-append (c ∷ p) s = drop-append p s

take-append : (p s : Text) → take (length p) (p ++ s) ≡ p
take-append [] s = refl
take-append (c ∷ p) s = ap (λ t. c ∷ t) (take-append p s)

-- A name with the prefix and the ending has what stands between them for its time.
stamp_of-between :
    (p mid : Text) → stamp_of p (p ++ (mid ++ codes ".json")) ≡ parsed (parse_int mid)
unfolding stamp_of
stamp_of-between p mid =
    let l : length (p ++ (mid ++ codes ".json")) ≡ length p + (length mid + 5) =
      length-append p (mid ++ codes ".json")
      ∙ ap (λ n. length p + n) (length-append mid (codes ".json")) in
    let fits : ltb (length p + (length mid + 5)) (length p + 5) ≡ false = ground arith in
    let m : length p + (length mid + 5) - 5 - length p ≡ length mid = omega arith in
    rw
      (
        has_prefix-append p (mid ++ codes ".json"),
        l,
        fits,
        m,
        drop-append p (mid ++ codes ".json"),
        take-append mid (codes ".json"),
      )
      refl

digits_value-bar : (acc : ℕ) (u s : Text) → digits_value acc (u ++ 95 ∷ s) ≡ none
unfolding digits_value
digits_value-bar acc [] s = refl
digits_value-bar acc (c ∷ u) s = ground (arith, digits_value-bar (acc * 10 + (c - 48)) u s)

parse_uint-bar : (u s : Text) → parse_uint (u ++ 95 ∷ s) ≡ none
unfolding parse_uint
parse_uint-bar [] s = digits_value-bar 0 [] s
parse_uint-bar (c ∷ u) s = digits_value-bar 0 (c ∷ u) s

-- A text with a bar is no number.
parse_int-bar : (u s : Text) → parse_int (u ++ 95 ∷ s) ≡ none
unfolding parse_int parse_uint digits_value
parse_int-bar [] s = refl
parse_int-bar (c ∷ u) s = rw (parse_uint-bar u s, parse_uint-bar (c ∷ u) s) (ground arith)

abbrev Unbarred : Text → Type 0
Unbarred = All (λ c. (c == 95) ≡ false)

Digits-Unbarred : (s : Text) → Digits s → Unbarred (s ++ codes ".json")
Digits-Unbarred [] h = (refl, (refl, (refl, (refl, (refl, tt)))))
Digits-Unbarred (c ∷ s) h = (let d = h.0 in ground arith, Digits-Unbarred s h.1)

has_prefix-bar : (p s : Text) → Unbarred s → has_prefix (p ++ 95 ∷ []) s ≡ false
unfolding has_prefix
has_prefix-bar [] [] h = refl
has_prefix-bar (c ∷ p) [] h = refl
has_prefix-bar [] (d ∷ s) h = let b = h.0 in ground arith
has_prefix-bar (c ∷ p) (d ∷ s) h = ground (arith, has_prefix-bar p s h.1)

-- A name of the machine `v` has the prefix of `vm` only if `v` is `vm`, or `vm`, a bar and more.
prefix-cases :
    (vm v s : Text)
    → Unbarred s
    → has_prefix (vm ++ 95 ∷ []) (v ++ 95 ∷ s) ≡ true
    → (v ≡ vm) ⊎ ((u : Text) × (v ≡ vm ++ 95 ∷ u))
unfolding has_prefix
prefix-cases [] [] s h e = inl refl
prefix-cases [] (d ∷ v) s h e = let q : d ≡ 95 = ground arith in inr (v, ap (λ x. x ∷ v) q)
prefix-cases (c ∷ vm) [] s h e = absurd (ground (arith, has_prefix-bar vm s h))
prefix-cases (c ∷ vm) (d ∷ v) s h e =
    let q : d ≡ c = ground arith in
    elim (prefix-cases vm v s h (ground arith)) [
      | inl r ↦ inl (cc (q, r))
      | inr (u, r) ↦ inr (u, cc (q, r))
    ]

pub itoa-Digits : (n : ℕ) → Digits (itoa n)
unfolding itoa
itoa-Digits n = digits_of-Digits 20 n

digits_of-nonempty : (fuel n : ℕ) → 0 < length (digits_of (suc fuel) n)
unfolding digits_of
digits_of-nonempty fuel n =
    ground (arith, length-append (digits_of fuel (n / 10)) ((48 + n % 10) ∷ []))

-- A number is read back from its digits.
parse_int-itoa : (n : ℕ) → n < two63 → parse_int (itoa n) ≡ some (pos n)
unfolding itoa
parse_int-itoa n h =
    parse_int-Digits (digits_of 20 n) n (digits_of-Digits 20 n) (digits_of-nonempty 19 n)
      (digits_value-digits_of 20 n (omega arith)) h

stamp_of-same :
    (vm : Text) (millis : ℕ)
    → millis < two63
    → stamp_of (vm ++ 95 ∷ []) (file_name vm millis) ≡ stamp (pos millis)
unfolding file_name
stamp_of-same vm millis h =
    ap (stamp_of (vm ++ 95 ∷ [])) (sym (append_assoc vm (95 ∷ []) (itoa millis ++ codes ".json")))
    ∙ stamp_of-between (vm ++ 95 ∷ []) (itoa millis)
    ∙ ap parsed (parse_int-itoa millis h)

-- A machine whose name goes on after a bar is not taken for this one.
stamp_of-longer :
    (vm u : Text) (millis : ℕ)
    → stamp_of (vm ++ 95 ∷ []) (file_name (vm ++ 95 ∷ u) millis) ≡ skipped
unfolding file_name
stamp_of-longer vm u millis =
    ap (stamp_of (vm ++ 95 ∷ [])) (
      append_assoc vm (95 ∷ u) (95 ∷ (itoa millis ++ codes ".json"))
      ∙ sym (append_assoc vm (95 ∷ []) (u ++ 95 ∷ (itoa millis ++ codes ".json")))
      ∙ ap (λ t. (vm ++ 95 ∷ []) ++ t) (sym (append_assoc u (95 ∷ itoa millis) (codes ".json"))))
    ∙ stamp_of-between (vm ++ 95 ∷ []) (u ++ 95 ∷ itoa millis)
    ∙ ap parsed (parse_int-bar u (itoa millis))

stamp_of-without : (p name : Text) → has_prefix p name ≡ false → stamp_of p name ≡ skipped
unfolding stamp_of
stamp_of-without p name h = rw h refl

file_name-prefix :
    (vm v : Text) (millis : ℕ)
    → has_prefix (vm ++ 95 ∷ []) (file_name v millis) ≡ true
    → (v ≡ vm) ⊎ ((u : Text) × (v ≡ vm ++ 95 ∷ u))
unfolding file_name
file_name-prefix vm v millis e =
    prefix-cases vm v (itoa millis ++ codes ".json")
      (Digits-Unbarred (itoa millis) (itoa-Digits millis)) e

stamp_of-other :
    (vm v : Text) (millis : ℕ) → v ≢ vm → stamp_of (vm ++ 95 ∷ []) (file_name v millis) ≡ skipped
stamp_of-other vm v millis ne =
    elim (Bool-cases (has_prefix (vm ++ 95 ∷ []) (file_name v millis))) [
      | inr e ↦ stamp_of-without (vm ++ 95 ∷ []) (file_name v millis) e
      | inl e ↦ elim (file_name-prefix vm v millis e) [
        | inl r ↦ absurd (ne r)
        | inr (u, r) ↦ rw r (stamp_of-longer vm u millis)
      ]
    ]

-- Get sees the time in a name that Put gave for its machine, and skips the names of all others.
pub stamp_of-file_name :
    (vm v : Text) (millis : ℕ)
    → millis < two63
    → stamp_of (vm ++ 95 ∷ []) (file_name v millis)
      ≡ (if v ≟ vm then stamp (pos millis) else skipped)
stamp_of-file_name vm v millis h = elim (Bool-cases (v ≟ vm)) [
  | inl e ↦ let q : v ≡ vm = ≟→≡ v vm e in rw (e, q) (stamp_of-same vm millis h)
  | inr e ↦ rw e (stamp_of-other vm v millis (≟→≢ v vm e))
]
