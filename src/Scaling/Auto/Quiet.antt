-- ===== src/Scaling/Auto/Quiet.antt =====
-- Ticks that make no request: in a busy state, and in the inactive one unless scaling is due.
use sky_flow.Base.{
  some, Bool, true, false, List, [], ◌++◌, none, ◌≡◌, refl, sym, ap, ◌∙◌, ◌≢◌, ◌⊎◌, inl, inr, arith,
  Bool-cases, append-nil,
}
use sky_flow.Base.Floats.{FloatOps}
use sky_flow.Scaling.{
  NodeState, NodeStatus, inactive, dormant, triggered, scaling_up, releasing, permanent, end,
  Scaler,
}
use sky_flow.Scaling.Volatility.{calculate_delta}
use sky_flow.Scaling.Calls.{World, Effect}
use sky_flow.Scaling.Auto.{
  check_state, measure, scale_in, scale_from_inactive, scale, settle, settle_in, tick, with_node,
  is_settled,
}
use sky_flow.Scaling.Auto.Edges.{get_state_plain, inactive_cases, scale-override}

-- The states that a tick leaves as they are, or only takes from `permanent` to `releasing`.
abbrev pub is_busy : NodeStatus → Bool
is_busy inactive = false
is_busy dormant = false
is_busy end = false
is_busy _ = true

module _ {R : Type 0} (ops : FloatOps R) where
  scale_in-busy :
      (t : NodeStatus) (s : Scaler R) (w : World) → is_busy t ≡ true → scale_in ops t s w ≡ (s, [])
  unfolding scale_in
  scale_in-busy inactive s w h = cc
  scale_in-busy dormant s w h = cc
  scale_in-busy triggered s w h = refl
  scale_in-busy _ s w h = refl

  scale-busy :
      (s : Scaler R) (w : World)
      → s.override ≡ none
      → is_busy s.node.state ≡ true
      → scale ops s w ≡ (s, [])
  unfolding scale
  scale-busy s w o h =
      rw (get_state_plain s o, scale_in-busy s.node.state s w h)
        (elim (Bool-cases (ops.lt (calculate_delta ops s s.node) (ops.ratio 0 1))) [
          | inl e ↦ rw e
          | inr e ↦ rw e
        ])

  settle_in-still :
      (t : NodeStatus) (s : Scaler R) (w : World)
      → is_settled t ≡ false
      → t ≢ dormant
      → settle_in ops t s w ≡ (s, [])
  unfolding settle_in
  settle_in-still dormant s w h d = absurd (d refl)
  settle_in-still permanent s w h d = cc
  settle_in-still scaling_up s w h d = cc
  settle_in-still triggered s w h d = cc
  settle_in-still inactive s w h d = refl
  settle_in-still releasing s w h d = refl
  settle_in-still end s w h d = refl

  settle-still :
      (s : Scaler R) (w : World)
      → s.override ≡ none
      → s.node.state ≢ dormant
      → settle ops s w ≡ (s, [])
  unfolding settle
  settle-still s w o d = rw (get_state_plain s o) (elim (Bool-cases (is_settled s.node.state)) [
    | inl e ↦ rw e
    | inr e ↦ rw (e, settle_in-still s.node.state s w e d)
  ])

  -- Steps 2 to 4 in a busy state only take the measurements.
  unfoldable pub rest : Scaler R → World → Scaler R × List Effect
  rest s w =
      let (s', effects) = scale ops (measure ops s) w in
      let (s'', more) = settle ops s' w in (s'', effects ++ more)

  pub tick-rest :
      (s : Scaler R) (w : World) (n : NodeState R)
      → check_state s w ≡ some n
      → tick ops s w ≡ rest (with_node s n) w
  unfolding tick rest
  tick-rest s w n e = rw (e, tick)

  pub tick-end : (s : Scaler R) (w : World) → check_state s w ≡ none → tick ops s w ≡ (s, [])
  unfolding tick
  tick-end s w e = rw (e, tick)

  pub rest-busy :
      (s : Scaler R) (w : World)
      → s.override ≡ none
      → is_busy s.node.state ≡ true
      → rest s w ≡ (measure ops s, [])
  unfolding rest measure
  rest-busy s w o h =
      rw (scale-busy (measure ops s) w o h, settle-still (measure ops s) w o (ground arith))

  from_inactive-calm :
      (s : Scaler R) (w : World) → (scale_from_inactive ops s w).0.node.state ≢ dormant
  from_inactive-calm s w = elim (inactive_cases ops s w) [
    | inl e ↦ rw e (λ d. cc)
    | inr (inl e) ↦ rw e (λ d. cc)
    | inr (inr e) ↦ rw e (λ d. cc)
  ]

  scale-inactive :
      (s : Scaler R) (w : World)
      → s.override ≡ none
      → s.node.state ≡ inactive
      → (scale ops s w ≡ (s, [])) ⊎ (scale ops s w ≡ scale_from_inactive ops s w)
  unfolding scale scale_in
  scale-inactive s w o h =
      rw (get_state_plain s o ∙ h)
        (elim (Bool-cases (ops.lt (calculate_delta ops s s.node) (ops.ratio 0 1))) [
          | inl e ↦ rw e (inr refl)
          | inr e ↦ rw e (inl refl)
        ])

  pub rest-inactive :
      (s : Scaler R) (w : World)
      → s.override ≡ none
      → s.node.state ≡ inactive
      → (rest s w ≡ (measure ops s, [])) ⊎ (rest s w ≡ scale_from_inactive ops (measure ops s) w)
  unfolding rest measure
  rest-inactive s w o h =
      let s' = measure ops s in
      elim (scale-inactive s' w o h) [
        | inl e ↦ inl (rw (e, settle-still s' w o (rw h (λ d. cc))))
        | inr e ↦ inr (
            rw (
              e,
              settle-still (scale_from_inactive ops s' w).0 w
                  (ap (λ r. r.0.override) (sym e) ∙ scale-override ops s' w ∙ o)
                  (from_inactive-calm s' w),
              append-nil,
            ))
      ]
