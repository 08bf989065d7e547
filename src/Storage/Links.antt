-- ===== src/Storage/Links.antt =====
-- The averages of each link against its definition: over all links of all reports.
use sky_flow.Base.{
  ◌≡◌, refl, ap, ◌∙◌, inl, inr, List, [], ◌∷◌, ◌++◌, map, Option, none, some, append_assoc,
  append-nil, Bool-cases, Bool, true, false, not, ◌&&◌, length, ltb, arith, if◌then◌else◌,
}
use sky_flow.Base.Int.{ℤ, pos}
use sky_flow.Base.Text.{Text, ◌≟◌, ≟→≡}
use sky_flow.Base.Dict.{Dict, lookup}
use sky_flow.Base.Floats.{FloatOps}
use sky_flow.Telemetry.{LinkCongestionInfo}
use sky_flow.Storage.{VmReport}
use sky_flow.Storage.Averages.{
  LinkSamples, NodeConfig, first_samples, add_sample, total_links, average, sum_from, average_link,
  link_map, calculate,
}
use sky_flow.Storage.Samples.{all_links, links_to, add_all, combined, lookup-total_links}

module _ {R : Type 0} (ops : FloatOps R) where
  -- The sum of numbers from left to right, after `acc`.
  unfoldable pub total_of : R → List R → R
  total_of acc [] = acc
  total_of acc (x ∷ xs) = total_of (ops.add acc x) xs

  -- The total over the count, or the total itself if it is equal to 0.
  unfoldable pub mean_of : List R → R
  unfolding total_of
  mean_of xs =
      let zero : R = ops.of_int (pos 0) in
      let total = total_of zero xs in
      if ops.le total zero && ops.le zero total
      then total
      else ops.div total (ops.of_int (pos (length xs)))

  -- The means over the links to a target; its probe task is that of the first one.
  unfoldable pub mean_link : Text → List (LinkCongestionInfo R) → Option (LinkCongestionInfo R)
  mean_link t [] = none
  mean_link t (v ∷ vs) = some (record {
    target_ip = t;
    target = v.target;
    packet_loss = mean_of (map (λ u. u.packet_loss) (v ∷ vs));
    weighted_cache = ops.of_int (pos 0);
    average_latency = mean_of (map (λ u. u.average_latency) (v ∷ vs));
    bandwidth_usage = ops.of_int (pos 0);
  })

  sum_from-total_of : (acc : R) (xs : List R) → sum_from ops acc xs ≡ total_of acc xs
  unfolding sum_from total_of
  sum_from-total_of acc [] = refl
  sum_from-total_of acc (x ∷ xs) = sum_from-total_of (ops.add acc x) xs

  average-mean_of : (x : R) (xs : List R) → average ops (x ∷ xs) ≡ mean_of (x ∷ xs)
  unfolding average mean_of
  average-mean_of x xs =
      rw (sum_from-total_of (ops.add (ops.of_int (pos 0)) x) xs)
        (by_total (ops.le t zero && ops.le zero t))
    where
      zero : R
      zero = ops.of_int (pos 0)

      t : R
      t = total_of (ops.add (ops.of_int (pos 0)) x) xs

      n : R
      n = ops.of_int (pos (length (x ∷ xs)))

      by_total :
          (b : Bool)
          → (if not b && ltb 0 (length (x ∷ xs)) then ops.div t n else t)
            ≡ (if b then t else ops.div t n)
      by_total true = refl
      by_total false = ground arith

  averaged : Text → Option (LinkSamples R) → Option (LinkCongestionInfo R)
  averaged t none = none
  averaged t (some x) = some (average_link ops t x)

  lookup-link_map :
      (t : Text) (m : Dict (LinkSamples R)) → lookup t (link_map ops m) ≡ averaged t (lookup t m)
  unfolding link_map lookup averaged
  lookup-link_map t [] = refl
  lookup-link_map t ((k, x) ∷ m) = elim (Bool-cases (k ≟ t)) [
    | inl e ↦ rw e (ap (λ j. some (average_link ops j x)) (≟→≡ k t e))
    | inr e ↦ rw e (lookup-link_map t m)
  ]

  average_link-add_all :
      (t : Text) (x : LinkSamples R) (vs : List (LinkCongestionInfo R))
      → average_link ops t (add_all x vs) ≡ record {
        target_ip = t;
        target = x.probe_task;
        packet_loss = average ops (x.packet_losses ++ map (λ u. u.packet_loss) vs);
        weighted_cache = ops.of_int (pos 0);
        average_latency = average ops (x.average_latencies ++ map (λ u. u.average_latency) vs);
        bandwidth_usage = ops.of_int (pos 0);
      }
  unfolding add_all
  average_link-add_all t x [] = simp (append-nil x.packet_losses, append-nil x.average_latencies)
  average_link-add_all t x (v ∷ vs) =
      average_link-add_all t (add_sample x v) vs
      ∙ simp (
        append_assoc x.packet_losses (v.packet_loss ∷ []),
        append_assoc x.average_latencies (v.average_latency ∷ []),
      )

  averaged-combined :
      (t : Text) (ls : List (LinkCongestionInfo R))
      → averaged t (combined (lookup t []) ls) ≡ mean_link t ls
  unfolding averaged combined lookup mean_link
  averaged-combined t [] = refl
  averaged-combined t (v ∷ vs) = ap some (
      average_link-add_all t (first_samples v) (v ∷ vs)
      ∙ simp (
        average-mean_of v.packet_loss (map (λ u. u.packet_loss) vs),
        average-mean_of v.average_latency (map (λ u. u.average_latency) vs),
      ))

-- The entry of each target is what its definition says: the means of the packet losses and of the
-- latencies over all links to it in all reports, with the probe task of the first one; a target that
-- no report names has no entry. A mean is the sum in that order over the number of links, and a sum
-- that is equal to 0 itself. This holds whatever the operations on floats do.
pub calculate-mean_link :
    {R : Type 0} (ops : FloatOps R) (reports : List (VmReport R)) (config : NodeConfig) (now : ℤ)
    (t : Text)
    → lookup t (calculate ops reports config now).links_congestion
      ≡ mean_link ops t (links_to t (all_links reports))
unfolding calculate
calculate-mean_link ops reports config now t =
    lookup-link_map ops t (total_links reports [])
    ∙ ap (averaged ops t) (lookup-total_links t reports [])
    ∙ averaged-combined ops t (links_to t (all_links reports))
