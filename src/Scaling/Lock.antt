-- ===== src/Scaling/Lock.antt =====
-- The lock of the scaler (control-plane/scaling/scaling.go, lines 99 to 116) under any interleaving of
-- threads: a flag that is set by compare-and-swap, and a mutex behind it. Each atomic operation is a
-- step.
use sky_flow.Base.{
  ℕ, ◌≡◌, refl, Bool, true, false, Option, none, some, arith, ◌==◌, if◌then◌else◌, ◌≢◌,
}

-- Where a thread stands: outside; between the compare-and-swap and `mu.Lock()`; inside; between the
-- store of 0 and `mu.Unlock()`.
pub data Place : Type 0 where
  outside claimed inside leaving : Place

pub record TryMutex : Type 0 where
  pub locked : ℕ
  pub mu : Option ℕ
  pub place : ℕ → Place

abbrev pub moved : (ℕ → Place) → ℕ → Place → ℕ → Place
moved place i p j = if i == j then p else place j

pub data Step : TryMutex → TryMutex → Type 0 where
  try_lock_fails : (m : TryMutex) (i : ℕ) → m.place i ≡ Place.outside → m.locked ≡ 1 → Step m m
  try_lock_claims :
      (m : TryMutex) (i : ℕ)
      → m.place i ≡ Place.outside
      → m.locked ≡ 0
      → Step m (record m { locked = 1; place = moved m.place i Place.claimed })
  try_lock_enters :
      (m : TryMutex) (i : ℕ)
      → m.place i ≡ Place.claimed
      → m.mu ≡ none
      → Step m (record m { mu = some i; place = moved m.place i Place.inside })
  unlock_clears :
      (m : TryMutex) (i : ℕ)
      → m.place i ≡ Place.inside
      → Step m (record m { locked = 0; place = moved m.place i Place.leaving })
  unlock_frees :
      (m : TryMutex) (i : ℕ)
      → m.place i ≡ Place.leaving
      → Step m (record m { mu = none; place = moved m.place i Place.outside })

pub data Reach (m : TryMutex) : TryMutex → Type 0 where
  here : Reach m m
  next : {n k : TryMutex} → Reach m n → Step n k → Reach m k

unfoldable pub fresh : TryMutex
fresh = record { locked = 0; mu = none; place = λ i. Place.outside }

-- A thread that owns the flag, and one that owns the mutex.
abbrev pub has_flag : Place → Bool
has_flag Place.claimed = true
has_flag Place.inside = true
has_flag _ = false

abbrev pub has_mutex : Place → Bool
has_mutex Place.inside = true
has_mutex Place.leaving = true
has_mutex _ = false

record Inv (m : TryMutex) : Type 0 where
  flag : (i : ℕ) → has_flag (m.place i) ≡ true → m.locked ≡ 1
  owner : (i : ℕ) → has_mutex (m.place i) ≡ true → m.mu ≡ some i
  one_flag : (i j : ℕ) → has_flag (m.place i) ≡ true → has_flag (m.place j) ≡ true → i ≡ j

Step-Inv : {m n : TryMutex} → Step m n → Inv m → Inv n
Step-Inv (try_lock_fails m i p l) v = v
Step-Inv (try_lock_claims m i p l) v = record {
  flag = λ j h. refl;
  owner = λ j h. ground (arith, v.owner j);
  one_flag = λ j k g h. ground (arith, v.flag j, v.flag k);
}
Step-Inv (try_lock_enters m i p l) v = record {
  flag = λ j h. ground (arith, v.flag j, v.flag i);
  owner = λ j h. ground (arith, v.owner j);
  one_flag = λ j k g h. ground (arith, v.one_flag j k, v.one_flag i k, v.one_flag j i);
}
Step-Inv (unlock_clears m i p) v = record {
  flag = λ j h. ground (arith, v.flag j, v.one_flag i j);
  owner = λ j h. ground (arith, v.owner j, v.owner i);
  one_flag = λ j k g h. ground (arith, v.one_flag j k);
}
Step-Inv (unlock_frees m i p) v = record {
  flag = λ j h. ground (arith, v.flag j);
  owner = λ j h. ground (arith, v.owner j, v.owner i);
  one_flag = λ j k g h. ground (arith, v.one_flag j k);
}

fresh-Inv : Inv fresh
unfolding fresh
fresh-Inv = record { flag = λ i h. cc; owner = λ i h. cc; one_flag = λ i j g h. cc }

Reach-Inv : {m : TryMutex} → Reach fresh m → Inv m
Reach-Inv here = fresh-Inv
Reach-Inv (next r s) = Step-Inv s (Reach-Inv r)

-- From a fresh lock, however the threads interleave: at most one thread is inside, at most one has
-- claimed the flag without being inside, and while one is inside no other has claimed it, so `TryLock`
-- waits at most for a thread that is leaving.
pub lock-excludes :
    {m : TryMutex} (i j : ℕ)
    → Reach fresh m
    → i ≢ j
    → (m.place i ≡ Place.inside → has_flag (m.place j) ≡ false)
      × (m.place i ≡ Place.claimed → has_flag (m.place j) ≡ false)
      × (m.place i ≡ Place.claimed → has_mutex (m.place j) ≡ true → m.place j ≡ Place.leaving)
lock-excludes i j r d =
    let v = Reach-Inv r in
    (
      λ h. ground (arith, v.one_flag i j),
      λ h. ground (arith, v.one_flag i j),
      λ h k. ground (arith, v.one_flag i j),
    )
