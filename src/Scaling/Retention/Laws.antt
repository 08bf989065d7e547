-- ===== src/Scaling/Retention/Laws.antt =====
-- What the retention rule decides and which scaling events it forgets.
use sky_flow.Base.{
  List, [], ◌∷◌, ◌≡◌, refl, ap, ◌∙◌, arith, not, filterb, if◌then◌else◌, Bool-cases, inl, inr, ◌⊎◌,
}
use sky_flow.Base.Int.{ℤ, pos, ◌-ℤ◌, ◌*ℤ◌, ◌+ℤ◌, ltb_ℤ, ◌≤ℤ◌, ◌<ℤ◌}
use sky_flow.Base.Word.{add64, mul64, quot}
use sky_flow.Base.Floats.{FloatOps}
use sky_flow.Scaling.{NodeStatus, permanent, end, NodeState, ScaleEvent, Scaler, now}
use sky_flow.Scaling.Retention.{
  is_stale, seconds, exp_decay, potential, add_weight, total_retention, calculate_retention,
}

-- The events that are no older than the window, in order.
unfoldable pub within : ℤ → ℤ → List ScaleEvent → List ScaleEvent
within t decay = filterb (λ e. not (ltb_ℤ (e.time +ℤ decay) t))

is_stale-time : (t decay : ℤ) (e : ScaleEvent) → is_stale t decay e ≡ ltb_ℤ (e.time +ℤ decay) t
unfolding is_stale ◌+ℤ◌ ◌-ℤ◌
is_stale-time t decay e = ground arith

within-is_stale :
    (t decay : ℤ) (es : List ScaleEvent)
    → filterb (λ e. not (is_stale t decay e)) es ≡ within t decay es
unfolding within
within-is_stale t decay [] = refl
within-is_stale t decay (e ∷ es) = rw (is_stale-time t decay e, within-is_stale t decay es) refl

verdict :
    (total threshold t d : ℤ)
    → let b = ltb_ℤ total threshold in
      let status = if b then end else permanent in
      let until = if b then t +ℤ total else t +ℤ d in
      ((status ≡ permanent) × (threshold ≤ℤ total) × (until ≡ t +ℤ d))
      ⊎ ((status ≡ end) × (total <ℤ threshold) × (until ≡ t +ℤ total))
verdict total threshold t d = ground arith

module _ {R : Type 0} (ops : FloatOps R) where
  potential-kept :
      (now_ decay : ℤ) (acc : R) (events : List ScaleEvent)
      → (potential ops now_ decay acc events).1
        ≡ filterb (λ evt. not (is_stale now_ decay evt)) events
  unfolding potential
  potential-kept now_ decay acc [] = refl
  potential-kept now_ decay acc (evt ∷ rest) = elim (Bool-cases (is_stale now_ decay evt)) [
    | inl e ↦ rw e (potential-kept now_ decay acc rest)
    | inr e ↦
        rw e (ap (◌∷◌ evt) (potential-kept now_ decay (add_weight ops now_ decay acc evt) rest))
  ]

  -- Stale events add nothing: the sum is that of the events kept.
  potential-again :
      (now_ decay : ℤ) (acc : R) (events : List ScaleEvent)
      → let (sum, kept) = potential ops now_ decay acc events in
        potential ops now_ decay acc kept ≡ (sum, kept)
  unfolding potential
  potential-again now_ decay acc [] = refl
  potential-again now_ decay acc (evt ∷ rest) = elim (Bool-cases (is_stale now_ decay evt)) [
    | inl e ↦ rw e (potential-again now_ decay acc rest)
    | inr e ↦
        rw (e, e)
          (ap (λ r. (r.0, evt ∷ r.1))
            (potential-again now_ decay (add_weight ops now_ decay acc evt) rest))
  ]

  -- The result of the rule, from the sum and the events kept.
  abbrev outcome : Scaler R → ℤ → R × List ScaleEvent → NodeState R × ℤ × NodeStatus
  outcome s t (sum, kept) =
      let total = total_retention ops s sum in
      (
        record n { scale_history = kept },
        (if ltb_ℤ total s.config.permanent_threshold
            then t +ℤ total
            else t +ℤ s.config.permanent_duration),
        (if ltb_ℤ total s.config.permanent_threshold then end else permanent),
      )
    where
      open s use {node as n}

  -- A duration in seconds: the whole ones, and the nanoseconds that are left over a billion.
  abbrev pub in_seconds : ℤ → R
  in_seconds d =
      let whole = quot d (pos 1_000_000_000) in
      ops.add (ops.of_int whole)
        (ops.div (ops.of_int (d -ℤ whole *ℤ pos 1_000_000_000)) (ops.of_int (pos 1_000_000_000)))

  -- `acc` and the amounts of the events, each times e^(-age / window).
  unfoldable pub decayed : ℤ → ℤ → R → List ScaleEvent → R
  decayed t decay acc [] = acc
  decayed t decay acc (e ∷ es) =
      let age = in_seconds (t -ℤ e.time) in
      let weight = ops.exp (ops.div (ops.neg age) (in_seconds decay)) in
      decayed t decay (ops.add acc (ops.mul (ops.of_int (pos e.amount)) weight)) es

  potential-decayed :
      (t decay : ℤ) (acc : R) (es : List ScaleEvent)
      → (potential ops t decay acc es).0 ≡ decayed t decay acc (within t decay es)
  unfolding potential within decayed add_weight exp_decay seconds
  potential-decayed t decay acc [] = refl
  potential-decayed t decay acc (e ∷ es) = elim (Bool-cases (ltb_ℤ (e.time +ℤ decay) t)) [
    | inl q ↦ rw (is_stale-time t decay e, q) (potential-decayed t decay acc es)
    | inr q ↦
        rw (is_stale-time t decay e, q)
          (potential-decayed t decay (add_weight ops t decay acc e) es)
  ]

  -- The base time and the amplified sum over the events within the window, in whole seconds.
  unfoldable pub retention_of : Scaler R → ℤ → ℤ
  unfolding decayed within
  retention_of s t =
      let c = s.config in
      let sum =
        decayed t c.retention_decay (ops.ratio 0 1)
          (within t c.retention_decay s.node.scale_history) in
      let extra = ops.to_int (ops.mul c.retention_amplifier sum) in
      add64 c.base_retention_time (mul64 extra (pos 1_000_000_000))

  total-retention_of :
      (s : Scaler R) (t : ℤ)
      → total_retention ops s
          (potential ops t s.config.retention_decay (ops.ratio 0 1) s.node.scale_history).0
        ≡ retention_of s t
  unfolding total_retention retention_of
  total-retention_of s t =
      rw (potential-decayed t s.config.retention_decay (ops.ratio 0 1) s.node.scale_history) refl

  -- The retention rule. The events that are no older than the window stay, in order, and the others go
  -- for good: the rule applied to what it left gives the same node, time and verdict. The total is the
  -- base time and, in whole seconds, the amplified sum of the amounts of those events, each times
  -- e^(-age / window). The node is kept for that total, or for the permanent duration exactly when the
  -- total reaches the threshold.
  pub calculate_retention_rule :
      (s : Scaler R) (clock : ℤ)
      → let (n, until, status) = calculate_retention ops s clock in
        let t = now s clock in
        let c = s.config in
        let total = retention_of s t in
        (n.scale_history ≡ within t c.retention_decay s.node.scale_history)
        × (calculate_retention ops (record s { node = n }) clock ≡ (n, until, status))
        × (((status ≡ permanent)
              × (c.permanent_threshold ≤ℤ total)
              × (until ≡ t +ℤ c.permanent_duration))
            ⊎ ((status ≡ end) × (total <ℤ c.permanent_threshold) × (until ≡ t +ℤ total)))
  unfolding calculate_retention
  calculate_retention_rule s clock =
      let t = now s clock in
      let c = s.config in
      let start : R = ops.ratio 0 1 in
      (
        potential-kept t c.retention_decay start s.node.scale_history
            ∙ within-is_stale t c.retention_decay s.node.scale_history,
        ap (λ r. outcome s t r) (potential-again t c.retention_decay start s.node.scale_history),
        rw (total-retention_of s t)
            (verdict (retention_of s t) c.permanent_threshold t c.permanent_duration),
      )
