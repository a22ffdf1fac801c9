-- ===== src/Heartbeat.antt =====
-- crates/aether-agent/src/heartbeat.rs: the gap between the heartbeats of a node. Durations are
-- nanoseconds; none is so long that doubling it leaves the range of `Duration`.
mod Pace
mod Tests
use aether_mesh.Base.{
  ℕ, ◌*◌, ◌/◌, ◌==◌, ◌||◌, min, max, if◌then◌else◌, Bool, true, false, Option, none, some,
}
use aether_mesh.Node.{Float, NodeMetrics}

module _ (float : Float) where
  open float use {sub, div, ge, abs, from_u64}

  pub record HeartbeatPacer : Type 0 where
    pub base : ℕ
    pub ceiling : ℕ
    pub current : ℕ
    pub last : Option (NodeMetrics float)

  unfoldable pub new : ℕ → ℕ → HeartbeatPacer
  new base ceiling = record { base = base; ceiling = max ceiling base; current = base; last = none }

  -- 0.05 is the float nearest to 5 / 100, as is the quotient of their floats.
  abbrev pub is_significant : float.F → float.F → Bool
  is_significant a b = ge (abs (sub a b)) (div (from_u64 5) (from_u64 100))

  unfoldable pub changed : NodeMetrics float → NodeMetrics float → Bool
  changed before after =
      is_significant before.cpu_usage after.cpu_usage
      || is_significant before.memory_usage after.memory_usage

  abbrev pub has_moved : Option (NodeMetrics float) → NodeMetrics float → Bool
  has_moved none metrics = false
  has_moved (some last) metrics = changed last metrics

  -- `HeartbeatPacer::record`; `interval` reads the field `current`.
  unfoldable pub record_sample : NodeMetrics float → Bool → HeartbeatPacer → HeartbeatPacer
  record_sample metrics did_work p = record p {
    last = some metrics;
    current =
        if did_work || has_moved p.last metrics then p.base else min (p.current * 2) p.ceiling;
  }

unfoldable pub ceiling_for_timeout : ℕ → ℕ → ℕ
ceiling_for_timeout base timeout = if timeout == 0 then base else max (timeout / 2) base
