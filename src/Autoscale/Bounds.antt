-- ===== src/Autoscale/Bounds.antt =====
-- Every recommendation lies within the policy.
use aether_mesh.Base.{
  ℕ, ◌≤◌, ◌<◌, ◌≡◌, refl, inl, inr, min, max, ltb, false, Bool-cases, Option, some, arith,
}
use aether_mesh.Node.{Float}
use aether_mesh.Autoscale.{
  wanted_down, wanted_up, close_enough, below_minimum, cooling, backlog, Real, Signals, Policy,
  Autoscaler, Decision, scale_up, scale_down, no_change, clamp, grow, shrink, evaluate,
  cooling_down, ratio_of, adding, at_maximum, releasing, at_minimum,
}

clamp-some : (lo hi x : ℕ) → lo ≤ hi → (to : ℕ) × (clamp lo hi x ≡ some to) × (lo ≤ to) × (to ≤ hi)
unfolding clamp
clamp-some lo hi x h =
    let fits : ltb hi lo ≡ false = ground arith in
    (max lo (min x hi), rw fits refl, omega arith, omega arith)

module _ (float : Float) (real : Real float) where
  -- More nodes than there are, or fewer, within the bounds; fewer only when nothing waits.
  abbrev pub IsSound : Policy float real → Signals float → Decision → Type 0
  IsSound policy signals (scale_up to why) =
      (signals.nodes < to) × (policy.min_nodes ≤ to) × (to ≤ policy.max_nodes)
  IsSound policy signals (scale_down to why) =
      (to < signals.nodes)
      × (policy.min_nodes ≤ to)
      × (to ≤ policy.max_nodes)
      × (signals.queue_depth ≡ 0)
  IsSound policy signals (no_change why) = Unit {0}

  abbrev pub Answers : Policy float real → Signals float → Option Decision → Type 0
  Answers policy signals answer = (d : Decision) × (answer ≡ some d) × IsSound policy signals d

  grow-Answers :
      (policy : Policy float real) (signals : Signals float) (ratio : real.D)
      → policy.min_nodes ≤ policy.max_nodes
      → Answers policy signals (grow float real policy signals ratio)
  unfolding grow
  grow-Answers policy signals ratio h =
      let (to, e, low, high) =
        clamp-some policy.min_nodes policy.max_nodes (wanted_up float real signals ratio) h in
      elim (Bool-cases (ltb signals.nodes to)) [
        | inl more ↦ rw (e, more) (scale_up to adding, refl, (ground arith, low, high))
        | inr full ↦ rw (e, full) (no_change at_maximum, refl, tt)
      ]

  shrink-Answers :
      (policy : Policy float real) (signals : Signals float) (ratio : real.D)
      → policy.min_nodes ≤ policy.max_nodes
      → Answers policy signals (shrink float real policy signals ratio)
  unfolding shrink
  shrink-Answers policy signals ratio h = elim (Bool-cases (ltb 0 signals.queue_depth)) [
    | inl waiting ↦ rw waiting (no_change backlog, refl, tt)
    | inr quiet ↦
        let (to, e, low, high) =
          clamp-some policy.min_nodes policy.max_nodes (wanted_down float real signals ratio) h in
        elim (Bool-cases (ltb to signals.nodes)) [
          | inl fewer ↦
              rw (quiet, e, fewer)
                (scale_down to releasing, refl, (ground arith, low, high, ground arith))
          | inr least ↦ rw (quiet, e, least) (no_change at_minimum, refl, tt)
        ]
  ]

  -- Under a policy whose minimum is not above its maximum, an evaluation ends without a panic. What
  -- it recommends lies between the two bounds; more nodes are recommended only above the number
  -- there is, and fewer only below it and when no task waits, whatever the loads are.
  pub evaluate-Answers :
      (scaler : Autoscaler float real) (signals : Signals float) (now : ℕ)
      → scaler.policy.min_nodes ≤ scaler.policy.max_nodes
      → Answers scaler.policy signals (evaluate float real scaler signals now)
  unfolding evaluate
  evaluate-Answers scaler signals now h =
      let policy = scaler.policy in
      let ratio = ratio_of float real policy.target signals in
      elim (Bool-cases (cooling_down float real scaler now)) [
        | inl settling ↦ rw settling (no_change cooling, refl, tt)
        | inr free ↦ elim (Bool-cases (ltb signals.nodes policy.min_nodes)) [
          | inl few ↦
              rw (free, few)
                (scale_up policy.min_nodes below_minimum, refl, (ground arith, omega arith, h))
          | inr enough ↦ elim (Bool-cases (real.less (real.add real.one policy.tolerance) ratio)) [
            | inl over ↦ rw (free, enough, over) (grow-Answers policy signals ratio h)
            | inr not_over ↦
                elim (Bool-cases (real.less ratio (real.sub real.one policy.tolerance))) [
                  | inl under ↦
                      rw (free, enough, not_over, under) (shrink-Answers policy signals ratio h)
                  | inr close ↦
                      rw (free, enough, not_over, close) (no_change close_enough, refl, tt)
                ]
          ]
        ]
      ]
