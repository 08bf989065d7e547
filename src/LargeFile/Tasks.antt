-- ===== src/LargeFile/Tasks.antt =====
-- The tasks by address when two machines share one.
use sky_flow.Base.{
  Member, ℕ, suc, ◌+◌, ◌<◌, ◌≡◌, ◌≢◌, ◌⊎◌, inl, inr, refl, sym, ap, subst, ◌∙◌, List, [], ◌∷◌, ◌++◌,
  some, arith, length, Bool-cases,
}
use sky_flow.Base.Int.{ℤ}
use sky_flow.Base.Word.{two63}
use sky_flow.Base.Text.{Text, codes, ◌≟◌, ≟→≡, ≟_iff}
use sky_flow.Base.Dict.{Dict, lookup, insert, lookup-insert}
use sky_flow.Chunk.Parts.{itoa}
use sky_flow.Compose.Names.{itoa_injective, append_cancel_left}
use sky_flow.LargeFile.{WeightedVm, File, split_name, task, split_tasks, vm_tasks, split_file_names}

split_name_injective :
    (name : Text) (i j : ℕ) → i < two63 → j < two63 → split_name name i ≡ split_name name j → i ≡ j
unfolding split_name
split_name_injective name i j a b e = itoa_injective i j a b (
    append_cancel_left (codes "_") (itoa i) (itoa j)
      (append_cancel_left name (codes "_" ++ itoa i) (codes "_" ++ itoa j) e))

found_in :
    (ip j : Text) (t u : File) (m : Dict File)
    → lookup j (insert ip t m) ≡ some u
    → (ip ≡ j) × (u ≡ t) ⊎ (ip ≢ j) × (lookup j m ≡ some u)
found_in ip j t u m f =
    let known = lookup-insert ip j t m in
    elim (Bool-cases (ip ≟ j)) [
      | inl e ↦ let same : some u ≡ some t = sym f ∙ known ∙ (rw e refl) in inl (≟→≡ ip j e, cc)
      | inr e ↦ inr (
        (λ q. let x = (≟_iff ip j).1 q in cc),
        (let k : lookup j (insert ip t m) ≡ lookup j m = known ∙ (rw e refl) in sym k ∙ f),
      )
    ]

module _ (file : File) (total : ℤ) (p : ℕ) (small : p < two63) where
  abbrev target : Text
  target = split_name file.new_file_name p

  abbrev Free : Dict File → Type 0
  Free m = (ip : Text) (t : File) → lookup ip m ≡ some t → t.new_file_name ≢ target

  abbrev FreeBut : Text → Dict File → Type 0
  FreeBut a m = (ip : Text) (t : File) → ip ≢ a → lookup ip m ≡ some t → t.new_file_name ≢ target

  -- One machine more, whatever follows.
  pub step :
      (i : ℕ) (offset : ℤ) (v : WeightedVm) (vs : List WeightedVm)
      → (t : File) × (next : ℤ) × (split_tasks file total i offset (v ∷ vs)
          ≡ (v.ip, t) ∷ split_tasks file total (suc i) next vs)
        × (t.new_file_name ≡ split_name file.new_file_name i)
  unfolding split_tasks task
  step i offset v [] = (_, offset, refl, refl)
  step i offset v (w ∷ vs) = (_, _, refl, refl)

  other_name :
      (i : ℕ) (t : File)
      → i < two63
      → i ≢ p
      → t.new_file_name ≡ split_name file.new_file_name i
      → t.new_file_name ≢ target
  other_name i t b d e f = d (split_name_injective file.new_file_name i p b small (sym e ∙ f))

  insert-FreeBut :
      (a ip : Text) (t : File) (m : Dict File)
      → t.new_file_name ≢ target
      → FreeBut a m
      → FreeBut a (insert ip t m)
  insert-FreeBut a ip t m d h j u e f = elim (found_in ip j t u m f) [
    | inl (same, new) ↦ rw new d
    | inr (other, old) ↦ h j u e old
  ]

  insert-Free :
      (a : Text) (t : File) (m : Dict File)
      → t.new_file_name ≢ target
      → FreeBut a m
      → Free (insert a t m)
  insert-Free a t m d h j u f = elim (found_in a j t u m f) [
    | inl (same, new) ↦ rw new d
    | inr (other, old) ↦ h j u (λ e. other (sym e)) old
  ]

  insert_target : (a : Text) (t : File) (m : Dict File) → Free m → FreeBut a (insert a t m)
  insert_target a t m h j u e f = elim (found_in a j t u m f) [
    | inl (same, new) ↦ absurd (e (sym same))
    | inr (other, old) ↦ h j u old
  ]

  after_both :
      (vs : List WeightedVm) (i : ℕ) (offset : ℤ) (m : Dict File)
      → p < i
      → i + length vs < two63
      → Free m
      → Free (vm_tasks (split_tasks file total i offset vs) m)
  unfolding vm_tasks split_tasks
  after_both [] i offset m l b h = h
  after_both (v ∷ vs) i offset m l b h =
      let (t, next, e, named) = step i offset v vs in
      let other = other_name i t (omega arith) (omega arith) named in
      rw e (
        after_both vs (suc i) next (insert v.ip t m) (omega arith) (omega arith)
          (insert-Free v.ip t m other (λ j u d f. h j u f)))

  between :
      (vs : List WeightedVm) (w : WeightedVm) (ws : List WeightedVm) (i : ℕ) (offset : ℤ)
      (m : Dict File)
      → p < i
      → i + length (vs ++ w ∷ ws) < two63
      → FreeBut w.ip m
      → Free (vm_tasks (split_tasks file total i offset (vs ++ w ∷ ws)) m)
  unfolding vm_tasks
  between [] w ws i offset m l b h =
      let (t, next, e, named) = step i offset w ws in
      let other = other_name i t (omega arith) (omega arith) named in
      rw e (
        after_both ws (suc i) next (insert w.ip t m) (omega arith) (omega arith)
          (insert-Free w.ip t m other h))
  between (v ∷ vs) w ws i offset m l b h =
      let (t, next, e, named) = step i offset v (vs ++ w ∷ ws) in
      let other = other_name i t (omega arith) (omega arith) named in
      rw e (
        between vs w ws (suc i) next (insert v.ip t m) (omega arith) (omega arith)
          (insert-FreeBut w.ip v.ip t m other h))

  pub before_both :
      (us : List WeightedVm) (v : WeightedVm) (vs : List WeightedVm) (w : WeightedVm)
      (ws : List WeightedVm) (i : ℕ) (offset : ℤ) (m : Dict File)
      → v.ip ≡ w.ip
      → i + length us ≡ p
      → i + length (us ++ v ∷ (vs ++ w ∷ ws)) < two63
      → Free m
      → Free (vm_tasks (split_tasks file total i offset (us ++ v ∷ (vs ++ w ∷ ws))) m)
  unfolding vm_tasks
  before_both [] v vs w ws i offset m same at b h =
      let (t, next, e, named) = step i offset v (vs ++ w ∷ ws) in
      rw e (
        between vs w ws (suc i) next (insert v.ip t m) (omega arith) (omega arith)
          (subst (λ a. FreeBut a (insert v.ip t m)) same (insert_target v.ip t m h)))
  before_both (u ∷ us) v vs w ws i offset m same at b h =
      let (t, next, e, named) = step i offset u (us ++ v ∷ (vs ++ w ∷ ws)) in
      let other = other_name i t (omega arith) (omega arith) named in
      rw e (
        before_both us v vs w ws (suc i) next (insert u.ip t m) same (omega arith) (omega arith)
          (insert-Free u.ip t m other (λ j x d f. h j x f)))

  pub named_at :
      (us : List WeightedVm) (v : WeightedVm) (vs : List WeightedVm) (i : ℕ) (offset : ℤ)
      → i + length us ≡ p
      → Member target (split_file_names (split_tasks file total i offset (us ++ v ∷ vs)))
  unfolding split_file_names
  named_at [] v vs i offset at =
      let (t, next, e, named) = step i offset v vs in
      let here : i ≡ p = omega arith in
      rw e (inl (sym (named ∙ ap (λ k. split_name file.new_file_name k) here)))
  named_at (u ∷ us) v vs i offset at =
      let (t, next, e, named) = step i offset u (us ++ v ∷ vs) in
      rw e (inr (named_at us v vs (suc i) next (omega arith)))
