-- ===== src/Heartbeat/Pace.antt =====
-- The pace of an idle node, and what it means for its eviction.
use aether_mesh.Base.{
  ℕ, ◌+◌, ◌-◌, ◌*◌, ◌≤◌, ◌<◌, ◌≡◌, refl, inl, inr, ◌||◌, max, false, Bool, Bool-cases, List, [],
  ◌∷◌, arith,
}
use aether_mesh.Node.{Float, NodeMetrics}
use aether_mesh.Registry.{NodeEntry, is_stale}
use aether_mesh.Heartbeat.{HeartbeatPacer, new, has_moved, record_sample, ceiling_for_timeout}

module _ (float : Float) where
  -- Samples, the latest first, each with whether the node did work.
  abbrev pub Sample : Type 0
  Sample = NodeMetrics float × Bool

  unfoldable pub run : List Sample → HeartbeatPacer float → HeartbeatPacer float
  run [] p = p
  run ((metrics, did_work) ∷ earlier) p = record_sample float metrics did_work (run earlier p)

  -- The gap lies between the base and the ceiling, which have not changed.
  record IsPaced (base ceiling : ℕ) (p : HeartbeatPacer float) : Type 0 where
    same_base : p.base ≡ base
    same_ceiling : p.ceiling ≡ max ceiling base
    low : base ≤ p.current
    high : p.current ≤ max ceiling base

  record_sample-IsPaced :
      (base ceiling : ℕ) (metrics : NodeMetrics float) (did_work : Bool) (p : HeartbeatPacer float)
      → IsPaced base ceiling p
      → IsPaced base ceiling (record_sample float metrics did_work p)
  unfolding record_sample
  record_sample-IsPaced base ceiling metrics did_work p v =
      elim (Bool-cases (did_work || has_moved float p.last metrics)) [
        | inl busy ↦ rw busy (record {
          same_base = v.same_base;
          same_ceiling = v.same_ceiling;
          low = omega (arith, v.same_base);
          high = omega (arith, v.same_base);
        })
        | inr idle ↦ rw idle (record {
          same_base = v.same_base;
          same_ceiling = v.same_ceiling;
          low = omega (arith, v.low, v.same_ceiling);
          high = omega (arith, v.same_ceiling);
        })
      ]

  run-IsPaced :
      (base ceiling : ℕ) (samples : List Sample)
      → IsPaced base ceiling (run samples (new float base ceiling))
  unfolding run new
  run-IsPaced base ceiling [] = record {
    same_base = refl;
    same_ceiling = refl;
    low = omega arith;
    high = omega arith;
  }
  run-IsPaced base ceiling ((metrics, did_work) ∷ earlier) =
      record_sample-IsPaced base ceiling metrics did_work (run earlier (new float base ceiling))
        (run-IsPaced base ceiling earlier)

  ceiling-half :
      (base timeout : ℕ)
      → base * 2 ≤ timeout
      → 0 < timeout
      → max (ceiling_for_timeout base timeout) base * 2 ≤ timeout
  unfolding ceiling_for_timeout
  ceiling-half base timeout h pos = ground arith

  -- A lost heartbeat does not evict a node: where the controller's timeout is at least twice the
  -- base, the node is not stale until the second gap after the heartbeat that was seen has passed,
  -- whatever the node has sampled, before that heartbeat and between the two gaps. The timeout is
  -- not zero.
  pub run-not-is_stale :
      (base timeout now : ℕ) (samples : List Sample) (sample : Sample) (entry : NodeEntry float)
      → base * 2 ≤ timeout
      → 0 < timeout
      → now
        ≤ entry.last_seen
          + (run samples (new float base (ceiling_for_timeout base timeout))).current
          + (run (sample ∷ samples) (new float base (ceiling_for_timeout base timeout))).current
      → is_stale float now timeout entry ≡ false
  run-not-is_stale base timeout now samples sample entry h pos before =
      let first = (run-IsPaced base (ceiling_for_timeout base timeout) samples).high in
      let second = (run-IsPaced base (ceiling_for_timeout base timeout) (sample ∷ samples)).high in
      let half = ceiling-half base timeout h pos in
      let late : now - entry.last_seen ≤ timeout = omega (arith, first, second, half, before) in
      ground (arith, late)
