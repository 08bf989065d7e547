-- ===== src/Queue/Laws.antt =====
-- What the bounded queue keeps: the newest `size` samples, newest first in a snapshot.
use mathlib.Core.List.{reverse-append, reverse-cons, reverse-reverse}
use sky_flow.Base.{
  ℕ, zero, suc, ◌-◌, ◌≤◌, ◌<◌, ◌≡◌, refl, sym, ap, ◌∙◌, false, List, [], ◌∷◌, ◌++◌, some, reverse,
  length, length-append, take, ◌==◌, false, leb, arith, Bool-cases, ◌⊎◌, inl, inr, append_assoc,
}
use sky_flow.Queue.{
  FixedQueue, push, pop, push_all, snapshot_latest_first, len, remove_front, front, latest, back,
}

module _ {ℓ} {A : Type ℓ} where
  length-reverse : (xs : List A) → length (reverse xs) ≡ length xs
  length-reverse [] = refl
  length-reverse (x ∷ xs) =
      omega (
        arith,
        ap length (reverse-cons x xs),
        length-append (reverse xs) (x ∷ []),
        length-reverse xs,
      )

  length-remove_front : (xs : List A) → length (remove_front xs) ≡ length xs - 1
  unfolding remove_front
  length-remove_front [] = refl
  length-remove_front (x ∷ xs) = omega arith

  take_all : (n : ℕ) (xs : List A) → length xs ≤ n → take n xs ≡ xs
  take_all zero [] h = refl
  take_all zero (x ∷ xs) h = absurd (omega arith)
  take_all (suc n) [] h = refl
  take_all (suc n) (x ∷ xs) h = ap (◌∷◌ x) (take_all n xs (omega arith))

  take-append_left : (n : ℕ) (xs ys : List A) → n ≤ length xs → take n (xs ++ ys) ≡ take n xs
  take-append_left zero xs ys h = refl
  take-append_left (suc n) [] ys h = absurd (omega arith)
  take-append_left (suc n) (x ∷ xs) ys h = ap (◌∷◌ x) (take-append_left n xs ys (omega arith))

  take-append-take :
      (n m : ℕ) (ys zs : List A) → n ≤ m → take n (ys ++ take m zs) ≡ take n (ys ++ zs)
  take-append-take zero m ys zs h = refl
  take-append-take (suc n) zero ys zs h = absurd (omega arith)
  take-append-take (suc n) (suc m) [] [] h = refl
  take-append-take (suc n) (suc m) [] (z ∷ zs) h =
      ap (◌∷◌ z) (take-append-take n m [] zs (omega arith))
  take-append-take (suc n) (suc m) (y ∷ ys) zs h =
      ap (◌∷◌ y) (take-append-take n (suc m) ys zs (omega arith))

  reverse-remove_front :
      (n : ℕ) (xs : List A) → length xs ≡ suc n → reverse (remove_front xs) ≡ take n (reverse xs)
  unfolding remove_front
  reverse-remove_front n [] h = absurd (omega arith)
  reverse-remove_front n (x ∷ xs) h = rw (reverse-cons x xs) (
      sym (
        take-append_left n (reverse xs) (x ∷ []) (omega (arith, length-reverse xs))
        ∙ take_all n (reverse xs) (omega (arith, length-reverse xs))))

  -- The queue is within its bound, and the bound is positive.
  pub record Fits (q : FixedQueue A) : Type ℓ where
    pub positive : 0 < q.size
    pub bounded : length q.list ≤ q.size

  -- Both branches of `push`, as equations of the list.
  push-list :
      (q : FixedQueue A) (x : A)
      → ((q.size ≤ length q.list) × ((push q x).list ≡ remove_front q.list ++ x ∷ []))
        ⊎ ((length q.list < q.size) × ((push q x).list ≡ q.list ++ x ∷ []))
  unfolding push
  push-list q x = elim (Bool-cases (leb q.size (length q.list))) [
    | inl full ↦ inl (ground arith, rw full)
    | inr room ↦ inr (ground arith, rw room)
  ]

  pub push-Fits : (q : FixedQueue A) (x : A) → Fits q → Fits (push q x)
  unfolding push
  push-Fits q x f = record { positive = f.positive; bounded = within }
    where
      within : length (push q x).list ≤ q.size
      within = elim (push-list q x) [
        | inl (full, e) ↦ rw e (
            omega (
              arith,
              length-append (remove_front q.list) (x ∷ []),
              length-remove_front q.list,
              f.bounded,
              f.positive,
            ))
        | inr (room, e) ↦ rw e (omega (arith, length-append q.list (x ∷ [])))
      ]

  size-push : (q : FixedQueue A) (x : A) → (push q x).size ≡ q.size
  unfolding push
  size-push q x = refl

  full_case :
      (s : ℕ) (xs : List A) (x : A)
      → 0 < s
      → length xs ≡ s
      → x ∷ reverse (remove_front xs) ≡ take s (x ∷ reverse xs)
  full_case zero xs x p h = absurd (omega arith)
  full_case (suc n) xs x p h = ap (◌∷◌ x) (reverse-remove_front n xs h)

  snapshot-push :
      (q : FixedQueue A) (x : A)
      → Fits q
      → snapshot_latest_first (push q x) ≡ take q.size (x ∷ snapshot_latest_first q)
  unfolding snapshot_latest_first
  snapshot-push q x f = elim (push-list q x) [
    | inl (full, e) ↦
        rw (e, reverse-append (remove_front q.list) (x ∷ []))
          (full_case q.size q.list x f.positive (omega (arith, f.bounded)))
    | inr (room, e) ↦
        rw (e, reverse-append q.list (x ∷ []))
          (sym (take_all q.size (x ∷ reverse q.list) (omega (arith, length-reverse q.list))))
  ]

  length-snapshot : (q : FixedQueue A) → Fits q → length (snapshot_latest_first q) ≤ q.size
  unfolding snapshot_latest_first
  length-snapshot q f = omega (arith, length-reverse q.list, f.bounded)

  -- After any run of pushes a snapshot is the newest `size` samples, newest first: those pushed last,
  -- then what the queue held before.
  pub snapshot-push_all :
      (q : FixedQueue A) (xs : List A)
      → Fits q
      → (snapshot_latest_first (push_all q xs)
          ≡ take q.size (reverse xs ++ snapshot_latest_first q))
        × Fits (push_all q xs)
        × ((push_all q xs).size ≡ q.size)
  unfolding push_all snapshot_latest_first
  snapshot-push_all q [] f = (sym (take_all q.size _ (length-snapshot q f)), f, refl)
  snapshot-push_all q (x ∷ xs) f =
      let (e, g, s) = snapshot-push_all (push q x) xs (push-Fits q x f) in
      (
        e
            ∙ rw (size-push q x, snapshot-push q x f, reverse-cons x xs, append_assoc)
                (take-append-take q.size q.size (reverse xs) (x ∷ snapshot_latest_first q)
                  (omega arith)),
        g,
        s ∙ size-push q x,
      )

  back-append : (xs : List A) (x : A) → back (xs ++ x ∷ []) ≡ some x
  unfolding back
  back-append [] x = refl
  back-append (y ∷ []) x = refl
  back-append (y ∷ (z ∷ zs)) x = back-append (z ∷ zs) x

  back-reverse : (xs : List A) → back (reverse xs) ≡ front xs
  unfolding front back
  back-reverse [] = refl
  back-reverse (x ∷ xs) = rw (reverse-cons x xs) (back-append (reverse xs) x)

  front-reverse : (xs : List A) → front (reverse xs) ≡ back xs
  front-reverse xs = sym (back-reverse (reverse xs)) ∙ ap back (reverse-reverse xs)

  pop_at :
      (xs : List A) (s : ℕ)
      → let q : FixedQueue A = record { list = xs; size = s } in
        ((pop q).0 ≡ back (reverse xs))
        × (latest q ≡ front (reverse xs))
        × (reverse (pop q).1.list ≡ take (len q - 1) (reverse xs))
  unfolding pop latest len front back
  pop_at [] s = (refl, refl, refl)
  pop_at (x ∷ xs) s =
      let filled : (suc (length xs) == 0) ≡ false = ground arith in
      let less : suc (length xs) - 1 ≡ length xs = omega arith in
      (
        rw (filled, pop) (sym (back-reverse (x ∷ xs))),
        rw (filled, latest) (sym (front-reverse (x ∷ xs))),
        rw (filled, pop, less) (reverse-remove_front (length xs) (x ∷ xs) refl),
      )

  -- Reading agrees at both ends: `pop` takes off the entry that a
  -- snapshot shows last, `latest` shows the one that it shows first, and both fail on the empty queue
  -- only.
  pub pop-latest-snapshot :
      (q : FixedQueue A)
      → ((pop q).0 ≡ back (snapshot_latest_first q))
        × (latest q ≡ front (snapshot_latest_first q))
        × (snapshot_latest_first (pop q).1 ≡ take (len q - 1) (snapshot_latest_first q))
  unfolding pop latest snapshot_latest_first len
  pop-latest-snapshot q = pop_at q.list q.size
