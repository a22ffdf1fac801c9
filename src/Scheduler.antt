-- ===== src/Scheduler.antt =====
-- crates/aether-scheduler/src/lib.rs and advanced.rs: which node a task runs on.
-- `min_by` keeps the first of equals and `max_by` the last: both are the fold `best` of
-- Base/Select, with the test that says when a later element replaces the one kept.
-- `Scheduler` is the interface that the rest of the controller is written against.
pub mod Placement
pub mod Instances
mod Tests
use Prim.Native.Nat.{compare, Ordering}
use aether_mesh.Base.{
  ℕ, ◌+◌, ◌-◌, ◌≡◌, max, ◌==◌, if◌then◌else◌, Bool, true, false, List, [], ◌∷◌, Option, none, some,
  length, filter, best, In,
}
use aether_mesh.Labels.{satisfies_all}
use aether_mesh.Task.{Task, NodeId, DataId}
use aether_mesh.Node.{Float, NodeInfo}
use aether_mesh.Catalog.{Catalog, descriptor, local_bytes}

-- `Ordering::then_with`, `== Less` and `!= Less`.
abbrev pub then_with : Ordering → Ordering → Ordering
then_with Ordering.eq o = o
then_with o _ = o

abbrev pub is_less : Ordering → Bool
is_less Ordering.lt = true
is_less _ = false

abbrev pub is_not_less : Ordering → Bool
is_not_less Ordering.lt = false
is_not_less _ = true

abbrev pub sizes : List DataId → Catalog → ℕ
sizes [] catalog = 0
sizes (data_id ∷ inputs) catalog =
    elim (descriptor data_id catalog) [ none ↦ 0 | some d ↦ d.size_bytes ] + sizes inputs catalog

module _ (float : Float) where
  open float use {F, zero_f, add, sub, mul, div, from_u64, total_cmp}

  unfoldable pub eligible : List (NodeInfo float) → Task → List (NodeInfo float)
  eligible nodes task =
      filter (λ (node : NodeInfo float). satisfies_all node.labels task.constraints) nodes

  unfoldable pub load_order : NodeInfo float → NodeInfo float → Ordering
  load_order a b =
      then_with (total_cmp a.metrics.cpu_usage b.metrics.cpu_usage)
        (total_cmp a.metrics.memory_usage b.metrics.memory_usage)

  abbrev pub chosen_id : Option (ℕ × NodeInfo float) → Option NodeId
  chosen_id none = none
  chosen_id (some (index, node)) = some node.id

  -- `min_by` and `max_by` over the eligible nodes, and the id of the node found.
  abbrev pub min_by :
      (NodeInfo float → NodeInfo float → Ordering) → List (NodeInfo float) → Option NodeId
  min_by order nodes = chosen_id (best (λ x a. is_less (order x a)) nodes)

  abbrev pub max_by :
      (NodeInfo float → NodeInfo float → Ordering) → List (NodeInfo float) → Option NodeId
  max_by order nodes = chosen_id (best (λ x a. is_not_less (order x a)) nodes)

  -- `LeastLoadedScheduler::select_node`.
  unfoldable pub least_loaded : List (NodeInfo float) → Task → Option NodeId
  least_loaded nodes task = min_by load_order (eligible nodes task)

  unfoldable pub locality_order : Catalog → Task → NodeInfo float → NodeInfo float → Ordering
  locality_order catalog task a b =
      then_with
        (compare (local_bytes a.id task.inputs catalog) (local_bytes b.id task.inputs catalog))
        (load_order b a)

  -- `LocalityScheduler::select_node`.
  unfoldable pub locality : Catalog → List (NodeInfo float) → Task → Option NodeId
  locality catalog nodes task = max_by (locality_order catalog task) (eligible nodes task)

  pub record ScoreWeights : Type 0 where
    pub cpu : F
    pub memory : F
    pub transfer : F
    pub latency : F
    pub locality : F

  pub record Score : Type 0 where
    pub compute_cost : F
    pub transfer_cost : F
    pub latency_penalty : F
    pub locality_bonus : F

  unfoldable pub total : Score → F
  total s = sub (add (add s.compute_cost s.transfer_cost) s.latency_penalty) s.locality_bonus

  abbrev pub default_bandwidth_bytes_per_sec : ℕ
  default_bandwidth_bytes_per_sec = 12_500_000

  -- The default latency of 50 ms and the divisor 1000 are the floats of these numbers.
  abbrev default_latency_ms : F
  default_latency_ms = from_u64 50

  abbrev unwrap_or {ℓ} : {A : Type ℓ} → Option A → A → A
  unwrap_or none d = d
  unwrap_or (some a) d = a

  -- Bytes that have to move: what the node lacks of the inputs, and the payload.
  unfoldable pub missing_bytes : Catalog → NodeInfo float → Task → ℕ
  missing_bytes catalog node task =
      (sizes task.inputs catalog - local_bytes node.id task.inputs catalog) + length task.payload

  -- `AdvancedScheduler::score`.
  unfoldable pub score : Catalog → ScoreWeights → NodeInfo float → Task → Score
  score catalog weights node task =
      let total_bytes = sizes task.inputs catalog in
      let local = local_bytes node.id task.inputs catalog in
      let missing = missing_bytes catalog node task in
      let bandwidth =
        max (unwrap_or node.bandwidth_bytes_per_sec default_bandwidth_bytes_per_sec) 1 in
      record {
        compute_cost =
            add (mul node.metrics.cpu_usage weights.cpu)
              (mul node.metrics.memory_usage weights.memory);
        transfer_cost = mul (div (from_u64 missing) (from_u64 bandwidth)) weights.transfer;
        latency_penalty =
            mul (div (unwrap_or node.latency_ms default_latency_ms) (from_u64 1000))
              weights.latency;
        locality_bonus =
            if total_bytes == 0
            then zero_f
            else mul (div (from_u64 local) (from_u64 total_bytes)) weights.locality;
      }

  unfoldable pub score_order :
      Catalog → ScoreWeights → Task → NodeInfo float → NodeInfo float → Ordering
  score_order catalog weights task a b =
      then_with
        (total_cmp (total (score catalog weights a task)) (total (score catalog weights b task)))
        (load_order a b)

  -- `AdvancedScheduler::select_node`.
  unfoldable pub advanced : Catalog → ScoreWeights → List (NodeInfo float) → Task → Option NodeId
  advanced catalog weights nodes task =
      min_by (score_order catalog weights task) (eligible nodes task)

  -- A node that a task may run on.
  abbrev pub Eligible : List (NodeInfo float) → Task → NodeInfo float → Type 0
  Eligible nodes task node = In node nodes × (satisfies_all node.labels task.constraints ≡ true)

  -- The trait `Scheduler`, with what its documentation promises: the node chosen is one that the
  -- task may run on, and there is none to choose just where no node may take the task.
  pub record Scheduler : Type 0 where
    pub select_node : List (NodeInfo float) → Task → Option NodeId
    pub sound :
        (nodes : List (NodeInfo float)) (task : Task) (id : NodeId)
        → select_node nodes task ≡ some id
        → (node : NodeInfo float) × (node.id ≡ id) × Eligible nodes task node
    pub complete :
        (nodes : List (NodeInfo float)) (task : Task)
        → select_node nodes task ≡ none
        → (node : NodeInfo float) → Eligible nodes task node
        → ⊥
