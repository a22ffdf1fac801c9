-- ===== src/Controller.antt =====
-- crates/aether-controller/src/dispatch.rs: the state of the controller that places tasks, and the
-- operations on it that do not reach a node. The locks are not modelled, and neither is the
-- journal of finished workflow steps, which a submission does not touch.
pub mod Publish
pub mod InFlight
use aether_mesh.Base.{
  ℕ, ◌+◌, ◌-◌, ◌%◌, ◌^◌, max, ltb, ◌==◌, ◌&&◌, if◌then◌else◌, Bool, true, List, [], ◌∷◌, map,
  Option, none, some, length,
}
use aether_mesh.Base.Assoc.{lookup, insert, remove, nat_eq}
use aether_mesh.Base.Result.{Result, ok, err}
use aether_mesh.Task.{DataId, NodeId, Bytes, Hash, TaskResult, DataDescriptor, output}
use aether_mesh.Node.{Float, NodeInfo, new_metrics}
use aether_mesh.Catalog.{Catalog, record_data}
use aether_mesh.Store.{DataStore, DataStoreError, get, put, insert_data}
use aether_mesh.Store
use aether_mesh.Chunk.{ChunkManifest, default_chunk_size, split}
use aether_mesh.Registry.{Registry, NodeEntry, register, nodes}
use aether_mesh.Compress.{CompressionPolicy, default_policy}
use aether_mesh.Cache.{Cache}
use aether_mesh.Traffic.{Traffic, no_traffic}
use aether_mesh.History.{History, default_history}
use aether_mesh.History

-- Durations are nanoseconds.
pub record RetryPolicy : Type 0 where
  pub max_attempts : ℕ
  pub backoff : ℕ

abbrev pub default_retry : RetryPolicy
default_retry = record { max_attempts = 3; backoff = 100_000_000 }

-- `RetryPolicy::none`.
abbrev pub no_retry : RetryPolicy
no_retry = record { max_attempts = 1; backoff = 0 }

-- The key of `transfers`: a dataset on its way to a node.
abbrev pub Transfer : Type 0
Transfer = NodeId × DataId

abbrev pub is_transfer : Transfer → Transfer → Bool
is_transfer t u = t.0 == u.0 && t.1 == u.1

abbrev pub add_transfer : Transfer → List Transfer → List Transfer
add_transfer t [] = t ∷ []
add_transfer t (u ∷ us) = if is_transfer u t then u ∷ us else u ∷ add_transfer t us

abbrev pub drop_transfer : Transfer → List Transfer → List Transfer
drop_transfer t [] = []
drop_transfer t (u ∷ us) = if is_transfer u t then drop_transfer t us else u ∷ drop_transfer t us

abbrev pub count_or_zero : Option ℕ → ℕ
count_or_zero none = 0
count_or_zero (some n) = n

-- `entry(..).or_insert_with(..)`.
abbrev pub or_insert :
    DataId → ChunkManifest → List (DataId × ChunkManifest) → List (DataId × ChunkManifest)
or_insert data_id m manifests = elim (lookup data_id manifests) [
  | none ↦ insert data_id m manifests
  | some found ↦ manifests
]

module _ (float : Float) where
  open float use {add, div, from_u64}

  pub record Controller : Type 0 where
    pub registry : Registry float
    pub catalog : Catalog
    pub store : DataStore
    pub manifests : List (DataId × ChunkManifest)
    pub in_flight : List (NodeId × ℕ)
    pub chunk_size : ℕ
    pub compression : CompressionPolicy float
    pub reuse_data : Bool
    pub retry : RetryPolicy
    pub cache : Option Cache
    pub traffic : Traffic
    pub history : History
    pub transfers : List Transfer

  unfoldable pub new : Catalog → Controller
  new catalog = record {
    registry = [];
    catalog = catalog;
    store = Store.new;
    manifests = [];
    in_flight = [];
    chunk_size = default_chunk_size;
    compression = default_policy float;
    reuse_data = true;
    retry = default_retry;
    cache = none;
    traffic = no_traffic;
    history = History.new default_history;
    transfers = [];
  }

  unfoldable pub with_history : Controller → History → Controller
  with_history c history = record c { history = history }

  unfoldable pub with_compression : Controller → CompressionPolicy float → Controller
  with_compression c compression = record c { compression = compression }

  unfoldable pub with_data_reuse : Controller → Bool → Controller
  with_data_reuse c reuse_data = record c { reuse_data = reuse_data }

  unfoldable pub with_traffic_stats : Controller → Traffic → Controller
  with_traffic_stats c traffic = record c { traffic = traffic }

  unfoldable pub with_retry : Controller → RetryPolicy → Controller
  with_retry c retry = record c { retry = retry }

  unfoldable pub with_result_cache : Controller → Cache → Controller
  with_result_cache c cache = record c { cache = some cache }

  unfoldable pub with_chunk_size : Controller → ℕ → Controller
  with_chunk_size c chunk_size = record c {
    chunk_size = if chunk_size == 0 then default_chunk_size else chunk_size;
  }

  unfoldable pub register_node : NodeInfo float → ℕ → Controller → Controller
  register_node info now c = record c { registry = (register float info now c.registry).0 }

  abbrev pub register_all : List (NodeInfo float) → ℕ → Registry float → Registry float
  register_all [] now r = r
  register_all (info ∷ infos) now r = register_all infos now (register float info now r).0

  -- `register` reads the clock for each node; the loop is taken to happen at one time.
  unfoldable pub sync_registry : List (NodeInfo float) → ℕ → Controller → Controller
  sync_registry infos now c = record c { registry = register_all infos now [] }

  unfoldable pub manifest : DataId → Controller → Option ChunkManifest
  manifest data_id c = lookup data_id c.manifests

  unfoldable pub split_published : Hash → DataId → Controller → Controller
  split_published hash data_id c =
      let (store, found) = get data_id c.store in
      elim found [
        | none ↦ record c { store = store }
        | some bytes ↦ record c {
          store = store;
          manifests = or_insert data_id (split hash bytes c.chunk_size) c.manifests;
        }
      ]

  unfoldable pub publish : Hash → Bytes → Controller → Controller × DataDescriptor
  publish hash bytes c =
      let (store, descriptor) = put hash bytes c.store in
      let stored = record c { store = store } in
      if ltb c.chunk_size descriptor.size_bytes
      then (split_published hash descriptor.id stored, descriptor)
      else (stored, descriptor)

  -- Tasks sent to a node and not heard of since.
  unfoldable pub pending_on : NodeId → Controller → ℕ
  pending_on node_id c = count_or_zero (lookup node_id c.in_flight)

  unfoldable pub begin_on : NodeId → Controller → Controller
  begin_on node_id c = record c {
    in_flight = insert node_id ((pending_on node_id c + 1) % 2 ^ 32) c.in_flight;
  }

  unfoldable pub finished_on : NodeId → Controller → Controller
  finished_on node_id c = elim (lookup node_id c.in_flight) [
    | none ↦ c
    | some pending ↦
        if pending - 1 == 0
        then record c { in_flight = remove node_id c.in_flight }
        else record c { in_flight = insert node_id (pending - 1) c.in_flight }
  ]

  -- The node with a core's load more for each task that it has not finished.
  unfoldable pub with_pending : ℕ → NodeInfo float → NodeInfo float
  with_pending pending node =
      if ltb 0 pending
      then record node {
        metrics =
            new_metrics float
              (add node.metrics.cpu_usage
                (div (from_u64 pending) (from_u64 (max node.cpu_cores 1))))
              node.metrics.memory_usage node.metrics.memory_total_bytes;
      }
      else node

  unfoldable pub nodes_with_pending_work : Controller → List (NodeInfo float)
  nodes_with_pending_work c =
      map (λ (node : NodeInfo float). with_pending (pending_on node.id c) node)
        (nodes float c.registry)

  abbrev pub entry_bandwidth : Option (NodeEntry float) → Option ℕ
  entry_bandwidth none = none
  entry_bandwidth (some entry) = entry.info.bandwidth_bytes_per_sec

  unfoldable pub bandwidth_to : NodeId → Controller → Option ℕ
  bandwidth_to node_id c = entry_bandwidth (lookup node_id c.registry)

  unfoldable pub lock_transfer : NodeId → DataId → Controller → Controller
  lock_transfer node_id data_id c = record c {
    transfers = add_transfer (node_id, data_id) c.transfers;
  }

  -- With one submission at a time nobody else waits on the lock.
  unfoldable pub release_transfer : NodeId → DataId → Controller → Controller
  release_transfer node_id data_id c = record c {
    transfers = drop_transfer (node_id, data_id) c.transfers;
  }

  abbrev pub keep_output :
      DataDescriptor → NodeId → DataStore × Result DataStoreError Bool → Controller → Controller
  keep_output descriptor node_id (store, ok fresh) c = record c {
    store = store;
    catalog = record_data descriptor node_id c.catalog;
  }
  keep_output descriptor node_id (store, err e) c = record c { store = store }

  unfoldable pub record_output : Hash → TaskResult → Controller → Controller
  record_output hash result c = elim result.output_id [
    | none ↦ c
    | some output_id ↦ elim (output result) [
      | none ↦ c
      | some bytes ↦
          let descriptor : DataDescriptor = record { id = output_id; size_bytes = length bytes } in
          keep_output descriptor result.node_id (insert_data hash descriptor bytes c.store) c
    ]
  ]
