-- ===== src/Storage/Samples.antt =====
-- The samples that the loops over the reports collect for a target.
use sky_flow.Base.{
  ◌≡◌, refl, sym, ap, ◌∙◌, inl, inr, Bool, true, false, List, [], ◌∷◌, ◌++◌, Option, none, some,
  arith, filterb, Bool-cases, if◌then◌else◌,
}
use sky_flow.Base.Text.{Text, ◌≟◌, ≟→≡}
use sky_flow.Base.Dict.{Dict, lookup, insert, lookup-insert}
use sky_flow.Telemetry.{LinkCongestionInfo}
use sky_flow.Storage.{VmReport}
use sky_flow.Storage.Averages.{
  LinkSamples, or_no_samples, first_samples, add_sample, add_targets, add_links, total_links,
}

lookup-same : {A : Type 0} (k t : Text) (m : Dict A) → (k ≟ t) ≡ true → lookup t m ≡ lookup k m
lookup-same k t m e = ap (λ j. lookup j m) (sym (≟→≡ k t e))

module _ {R : Type 0} where
  -- All links of all reports, in order.
  unfoldable pub all_links : List (VmReport R) → List (LinkCongestionInfo R)
  all_links [] = []
  all_links (r ∷ rs) = r.links_congestion ++ all_links rs

  abbrev pub links_to : Text → List (LinkCongestionInfo R) → List (LinkCongestionInfo R)
  links_to t = filterb (λ v. v.target_ip ≟ t)

  unfoldable pub add_all : LinkSamples R → List (LinkCongestionInfo R) → LinkSamples R
  add_all t [] = t
  add_all t (v ∷ vs) = add_all (add_sample t v) vs

  -- The samples of a target after more links to it.
  unfoldable pub combined :
      Option (LinkSamples R) → List (LinkCongestionInfo R) → Option (LinkSamples R)
  unfolding add_all
  combined (some t) vs = some (add_all t vs)
  combined none [] = none
  combined none (v ∷ vs) = some (add_all (first_samples v) (v ∷ vs))

  started : Option (LinkSamples R) → List (LinkCongestionInfo R) → Option (LinkSamples R)
  started (some t) vs = some t
  started none [] = none
  started none (v ∷ vs) = some (first_samples v)

  add_targets-new :
      (v : LinkCongestionInfo R) (vs : List (LinkCongestionInfo R)) (m : Dict (LinkSamples R))
      → lookup v.target_ip m ≡ none
      → add_targets (v ∷ vs) m ≡ add_targets vs (insert v.target_ip (first_samples v) m)
  unfolding add_targets
  add_targets-new v vs m q = rw (q, add_targets) refl

  add_targets-old :
      (v : LinkCongestionInfo R) (vs : List (LinkCongestionInfo R)) (m : Dict (LinkSamples R))
      (x : LinkSamples R)
      → lookup v.target_ip m ≡ some x
      → add_targets (v ∷ vs) m ≡ add_targets vs m
  unfolding add_targets
  add_targets-old v vs m x q = rw (q, add_targets) refl

  targets_step :
      (t : Text) (v : LinkCongestionInfo R) (vs : List (LinkCongestionInfo R))
      (m : Dict (LinkSamples R)) (o : Option (LinkSamples R)) (b : Bool)
      → lookup v.target_ip m ≡ o
      → (v.target_ip ≟ t) ≡ b
      → ((n : Dict (LinkSamples R))
          → lookup t (add_targets vs n) ≡ started (lookup t n) (links_to t vs))
      → lookup t (add_targets (v ∷ vs) m) ≡ started (lookup t m) (links_to t (v ∷ vs))
  unfolding started
  targets_step t v vs m none b q e ih =
      ap (lookup t) (add_targets-new v vs m q)
      ∙ ih (insert v.target_ip (first_samples v) m)
      ∙ ap (λ o. started o (links_to t vs)) (lookup-insert v.target_ip t (first_samples v) m)
      ∙ new_target b e
    where
      new_target :
          (b : Bool)
          → (v.target_ip ≟ t) ≡ b
          → started (if v.target_ip ≟ t then some (first_samples v) else lookup t m) (links_to t vs)
            ≡ started (lookup t m) (links_to t (v ∷ vs))
      new_target true e =
          let none_yet : lookup t m ≡ none = lookup-same v.target_ip t m e ∙ q in
          rw (none_yet, e) refl
      new_target false e = rw e refl
  targets_step t v vs m (some x) true q e ih =
      let found : lookup t m ≡ some x = lookup-same v.target_ip t m e ∙ q in
      ap (lookup t) (add_targets-old v vs m x q) ∙ ih m ∙ rw found refl
  targets_step t v vs m (some x) false q e ih =
      ap (lookup t) (add_targets-old v vs m x q) ∙ ih m ∙ rw e refl

  lookup-add_targets :
      (t : Text) (vs : List (LinkCongestionInfo R)) (m : Dict (LinkSamples R))
      → lookup t (add_targets vs m) ≡ started (lookup t m) (links_to t vs)
  unfolding add_targets started
  lookup-add_targets t [] m = elim (lookup t m) as (λ o. o ≡ started o []) [
    | none ↦ refl
    | some x ↦ refl
  ]
  lookup-add_targets t (v ∷ vs) m =
      targets_step t v vs m (lookup v.target_ip m) (v.target_ip ≟ t) refl refl
        (lookup-add_targets t vs)

  lookup-add_links :
      (t : Text) (vs : List (LinkCongestionInfo R)) (m : Dict (LinkSamples R)) (x : LinkSamples R)
      → lookup t m ≡ some x
      → lookup t (add_links vs m) ≡ some (add_all x (links_to t vs))
  unfolding add_links add_all
  lookup-add_links t [] m x q = q
  lookup-add_links t (v ∷ vs) m x q = elim (Bool-cases (v.target_ip ≟ t)) [
    | inl e ↦
        let here : lookup v.target_ip m ≡ some x = sym (lookup-same v.target_ip t m e) ∙ q in
        let ih =
          lookup-add_links t vs
            (insert v.target_ip (add_sample (or_no_samples (lookup v.target_ip m)) v) m)
            (add_sample x v) (simp (lookup-insert, e, here)) in
        ih ∙ simp e
    | inr e ↦
        let ih =
          lookup-add_links t vs
            (insert v.target_ip (add_sample (or_no_samples (lookup v.target_ip m)) v) m) x
            (lookup-insert v.target_ip t (add_sample (or_no_samples (lookup v.target_ip m)) v) m
              ∙ rw e q) in
        ih ∙ simp e
  ]

  lookup-add_links_none :
      (t : Text) (vs : List (LinkCongestionInfo R)) (m : Dict (LinkSamples R))
      → links_to t vs ≡ []
      → lookup t (add_links vs m) ≡ lookup t m
  unfolding add_links
  lookup-add_links_none t [] m q = refl
  lookup-add_links_none t (v ∷ vs) m q = elim (Bool-cases (v.target_ip ≟ t)) [
    | inl e ↦
        let more : links_to t (v ∷ vs) ≡ v ∷ links_to t vs = simp e in
        absurd (some_link (sym more ∙ q))
    | inr e ↦
        let less : links_to t (v ∷ vs) ≡ links_to t vs = simp e in
        lookup-add_links_none t vs
          (insert v.target_ip (add_sample (or_no_samples (lookup v.target_ip m)) v) m)
          (sym less ∙ q)
        ∙ lookup-insert v.target_ip t (add_sample (or_no_samples (lookup v.target_ip m)) v) m
        ∙ rw e refl
  ]
    where
      some_link : {A : Type 0} {x : A} {xs : List A} → x ∷ xs ≡ [] → ⊥
      some_link q = cc q

  -- A report adds its links to each target.
  lookup-add_report :
      (t : Text) (vs : List (LinkCongestionInfo R)) (m : Dict (LinkSamples R))
      → lookup t (add_links vs (add_targets vs m)) ≡ combined (lookup t m) (links_to t vs)
  unfolding started combined
  lookup-add_report t vs m = by_entry (lookup t m) (links_to t vs) refl (lookup-add_targets t vs m)
    where
      by_entry :
          (o : Option (LinkSamples R)) (ls : List (LinkCongestionInfo R))
          → links_to t vs ≡ ls
          → lookup t (add_targets vs m) ≡ started o ls
          → lookup t (add_links vs (add_targets vs m)) ≡ combined o ls
      by_entry (some x) ls q h =
          lookup-add_links t vs (add_targets vs m) x h ∙ ap (λ l. some (add_all x l)) q
      by_entry none [] q h = lookup-add_links_none t vs (add_targets vs m) q ∙ h
      by_entry none (v ∷ ls) q h =
          lookup-add_links t vs (add_targets vs m) (first_samples v) h
          ∙ ap (λ l. some (add_all (first_samples v) l)) q

  add_all-append :
      (x : LinkSamples R) (us vs : List (LinkCongestionInfo R))
      → add_all x (us ++ vs) ≡ add_all (add_all x us) vs
  unfolding add_all
  add_all-append x [] vs = refl
  add_all-append x (u ∷ us) vs = add_all-append (add_sample x u) us vs

  combined-append :
      (o : Option (LinkSamples R)) (us vs : List (LinkCongestionInfo R))
      → combined (combined o us) vs ≡ combined o (us ++ vs)
  unfolding combined
  combined-append (some x) us vs = ap some (sym (add_all-append x us vs))
  combined-append none [] vs = refl
  combined-append none (u ∷ us) vs = ap some (sym (add_all-append (first_samples u) (u ∷ us) vs))

  links_to-append :
      (t : Text) (us vs : List (LinkCongestionInfo R))
      → links_to t (us ++ vs) ≡ links_to t us ++ links_to t vs
  links_to-append t [] vs = refl
  links_to-append t (u ∷ us) vs = ground (arith, links_to-append t us vs)

  pub lookup-total_links :
      (t : Text) (rs : List (VmReport R)) (m : Dict (LinkSamples R))
      → lookup t (total_links rs m) ≡ combined (lookup t m) (links_to t (all_links rs))
  unfolding total_links all_links combined
  lookup-total_links t [] m = elim (lookup t m) as (λ o. o ≡ combined o []) [
    | none ↦ refl
    | some x ↦ refl
  ]
  lookup-total_links t (r ∷ rs) m =
      lookup-total_links t rs (add_links r.links_congestion (add_targets r.links_congestion m))
      ∙ ap (λ o. combined o (links_to t (all_links rs))) (lookup-add_report t r.links_congestion m)
      ∙ combined-append (lookup t m) (links_to t r.links_congestion) (links_to t (all_links rs))
      ∙ ap (combined (lookup t m)) (sym (links_to-append t r.links_congestion (all_links rs)))
