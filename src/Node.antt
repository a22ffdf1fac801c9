-- ===== src/Node.antt =====
-- crates/aether-core/src/node.rs: node descriptions and load metrics.
-- `f32` is not code of the repository: it is the parameter `Float`, with the operations that the
-- crates call and the law of `total_cmp` that the schedulers rely on.
pub mod Whole
use aether_mesh.Base.{ℕ, ◌≡◌, if◌then◌else◌, Bool, Option, none, some, []}
use Prim.Native.Nat.{compare, Ordering}
use aether_mesh.Base.Assoc.{insert}
use aether_mesh.Text.{Text, text_key}
use aether_mesh.Labels.{Labels}
use aether_mesh.Task.{NodeId}

pub record Float : Type 1 where
  pub F : Type 0
  pub zero_f : F
  pub add : F → F → F
  pub sub : F → F → F
  pub mul : F → F → F
  pub div : F → F → F
  pub ge : F → F → Bool
  pub abs : F → F
  pub from_u64 : ℕ → F
  pub is_nan : F → Bool
  -- `clamp(0.0, 1.0)`
  pub clamp_unit : F → F
  -- The IEEE 754 total order, by the position of a value in it.
  pub total_cmp : F → F → Ordering
  pub key : F → ℕ
  pub total_cmp_lem : (a b : F) → total_cmp a b ≡ compare (key a) (key b)

module _ (float : Float) where
  open float use {F, zero_f, is_nan, clamp_unit}

  pub record NodeMetrics : Type 0 where
    pub cpu_usage : F
    pub memory_usage : F
    pub memory_total_bytes : ℕ

  pub record NodeInfo : Type 0 where
    pub id : NodeId
    pub hostname : Text
    pub address : Text
    pub cpu_cores : ℕ
    pub bandwidth_bytes_per_sec : Option ℕ
    pub latency_ms : Option F
    pub labels : Labels
    pub metrics : NodeMetrics

  unfoldable pub clamp_ratio : F → F
  clamp_ratio value = if is_nan value then zero_f else clamp_unit value

  unfoldable pub new_metrics : F → F → ℕ → NodeMetrics
  new_metrics cpu_usage memory_usage memory_total_bytes = record {
    cpu_usage = clamp_ratio cpu_usage;
    memory_usage = clamp_ratio memory_usage;
    memory_total_bytes = memory_total_bytes;
  }

  unfoldable pub new_node : NodeId → Text → Text → ℕ → NodeInfo
  new_node id hostname address cpu_cores = record {
    id = id;
    hostname = hostname;
    address = address;
    cpu_cores = cpu_cores;
    bandwidth_bytes_per_sec = none;
    latency_ms = none;
    labels = [];
    metrics = new_metrics zero_f zero_f 0;
  }

  unfoldable pub with_label : NodeInfo → Text → Text → NodeInfo
  with_label node key value = record node { labels = insert key value node.labels }

  unfoldable pub with_bandwidth : NodeInfo → ℕ → NodeInfo
  with_bandwidth node bytes_per_sec = record node { bandwidth_bytes_per_sec = some bytes_per_sec }

  unfoldable pub with_latency_ms : NodeInfo → F → NodeInfo
  with_latency_ms node latency_ms = record node { latency_ms = some latency_ms }

  unfoldable pub update_metrics : NodeInfo → NodeMetrics → NodeInfo
  update_metrics node metrics = record node { metrics = metrics }
