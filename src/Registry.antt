-- ===== src/Registry.antt =====
-- crates/aether-controller/src: registry.rs, the smoothing of probe.rs, and health.rs, which evicts
-- silent nodes from the state that state.rs collects. `f64` is the parameter `Double`.
-- Times are nanoseconds; the clock is an argument.
mod Evict
mod Keyed
mod Tests
use aether_mesh.Base.{
  ℕ, ◌+◌, ◌-◌, ◌%◌, ltb, if◌then◌else◌, Bool, true, false, List, [], ◌∷◌, map, Option, none, some,
  length, filter, u64_mod,
}
use aether_mesh.Base.Assoc.{lookup, contains_key, insert, remove, nat_eq}
use aether_mesh.Base.Result.{Result, ok, err}
use aether_mesh.Task.{NodeId}
use aether_mesh.Node.{Float, NodeInfo, NodeMetrics, update_metrics}
use aether_mesh.Catalog.{Catalog, forget_node}
use aether_mesh.Connections.{Connections, detach}

-- `f64` with the conversions between it, `f32` and `u64`.
pub record Double (float : Float) : Type 1 where
  pub D : Type 0
  pub add : D → D → D
  pub sub : D → D → D
  pub mul : D → D → D
  pub one : D
  pub smoothing : D
  pub from_f32 : float.F → D
  pub to_f32 : D → float.F
  pub from_u64 : ℕ → D
  pub to_u64 : D → ℕ

module _ (float : Float) where
  pub record NodeEntry : Type 0 where
    pub info : NodeInfo float
    pub last_seen : ℕ

  -- `NodeRegistry`.
  abbrev pub Registry : Type 0
  Registry = List (NodeId × NodeEntry)

  pub data RegistryError : Type 0 where
    unknown_node : (node_id : NodeId) → RegistryError

  unfoldable pub register : NodeInfo float → ℕ → Registry → Registry × Option NodeEntry
  register info now r =
      (insert info.id (record { info = info; last_seen = now }) r, lookup info.id r)

  unfoldable pub remove_node : NodeId → Registry → Registry × Option NodeEntry
  remove_node node_id r = (remove node_id r, lookup node_id r)

  unfoldable pub record_heartbeat :
      NodeId → NodeMetrics float → ℕ → Registry → Registry × Result RegistryError (Unit {0})
  record_heartbeat node_id metrics now r = elim (lookup node_id r) [
    | none ↦ (r, err (unknown_node node_id))
    | some entry ↦ (
      insert node_id (record { info = update_metrics float entry.info metrics; last_seen = now }) r,
      ok tt,
    )
  ]

  unfoldable pub nodes : Registry → List (NodeInfo float)
  nodes r = map (λ (p : NodeId × NodeEntry). p.1.info) r

  -- `-` on ℕ is `duration_since`, which stops at zero.
  abbrev pub is_stale : ℕ → ℕ → NodeEntry → Bool
  is_stale now timeout entry = ltb timeout (now - entry.last_seen)

  unfoldable pub stale_nodes : ℕ → ℕ → Registry → List NodeId
  stale_nodes now timeout r =
      map (λ (p : NodeId × NodeEntry). p.1.info.id)
        (filter (λ (p : NodeId × NodeEntry). is_stale now timeout p.1) r)

  module _ (double : Double float) where
    unfoldable pub smooth : Option double.D → double.D → double.D
    smooth none sample = sample
    smooth (some previous) sample =
        double.add (double.mul previous (double.sub double.one double.smoothing))
          (double.mul sample double.smoothing)

    abbrev widen : Option float.F → Option double.D
    widen none = none
    widen (some x) = some (double.from_f32 x)

    abbrev widen_u64 : Option ℕ → Option double.D
    widen_u64 none = none
    widen_u64 (some x) = some (double.from_u64 x)

    abbrev pub smooth_latency : float.F → NodeInfo float → NodeInfo float
    smooth_latency latency_ms info = record info {
      latency_ms =
          some (double.to_f32 (smooth (widen info.latency_ms) (double.from_f32 latency_ms)));
    }

    abbrev pub smooth_bandwidth : Option ℕ → NodeInfo float → NodeInfo float
    smooth_bandwidth none info = info
    smooth_bandwidth (some sample) info = record info {
      bandwidth_bytes_per_sec = some (
          double.to_u64 (smooth (widen_u64 info.bandwidth_bytes_per_sec) (double.from_u64 sample)));
    }

    unfoldable pub record_link : NodeId → float.F → Option ℕ → Registry → Registry
    record_link node_id latency_ms bandwidth r = elim (lookup node_id r) [
      | none ↦ r
      | some entry ↦
          insert node_id
            (record entry {
              info = smooth_bandwidth bandwidth (smooth_latency latency_ms entry.info);
            })
            r
    ]

  -- The parts of `MeshState` that eviction touches; `nodes_evicted` is its counter in the metrics.
  pub record MeshState : Type 0 where
    pub registry : Registry
    pub connections : Connections
    pub catalog : Catalog
    pub nodes_evicted : ℕ

  abbrev pub evict_node : NodeId → MeshState → MeshState
  evict_node node_id state = record state {
    registry = (remove_node node_id state.registry).0;
    connections = detach node_id state.connections;
    catalog = forget_node node_id state.catalog;
  }

  -- The loop over the stale nodes.
  unfoldable pub evict_each : List NodeId → MeshState → MeshState
  evict_each [] state = state
  evict_each (node_id ∷ stale) state = evict_each stale (evict_node node_id state)

  unfoldable pub evict_stale_nodes : MeshState → ℕ → ℕ → MeshState × List NodeId
  evict_stale_nodes state now timeout =
      let stale = stale_nodes now timeout state.registry in
      let state' = evict_each stale state in
      (record state' { nodes_evicted = (state'.nodes_evicted + length stale) % u64_mod }, stale)
