-- ===== src/Dispatch/Tests.antt =====
-- Submissions to a mesh of two nodes, one of which is down.
use aether_mesh.Base.{
  best, ◌≡◌, refl, ◌≤◌, true, false, none, some, List, [], ◌∷◌, ◌++◌, length, contains, All, arith,
  Bool,
}
use aether_mesh.Base.Assoc.{contains_key, remove, insert, lookup, nat_eq}
use aether_mesh.Base.Result.{Result, ok, err}
use aether_mesh.Task.{
  output, Task, TaskResult, NodeId, Hash, new_task, success, is_success, with_inputs,
}
use aether_mesh.Node.{new_metrics, clamp_ratio}
use aether_mesh.Node.Whole.{whole, node}
use aether_mesh.Scheduler.Instances.{least_loaded_scheduler, scheduler_of}
use aether_mesh.Scheduler.{least_loaded, load_order, eligible}
use aether_mesh.Registry.{register, nodes}
use aether_mesh.Store.{evict_over_budget, touch, put_evicting, put}
use aether_mesh.Compress.{choose, encode, default_policy, Lz4}
use aether_mesh.Cache.{get, Cache, work_key}
use aether_mesh.Cache
use aether_mesh.Controller.{
  split_published, Controller, register_node, publish, with_result_cache, with_chunk_size,
  pending_on,
}
use aether_mesh.Controller
use aether_mesh.Controller.Publish.{IsConsistent, publish-IsConsistent}
use aether_mesh.Dispatch.Transport.{
  DispatchError, unreachable, TaskTransport, World, State, is_retryable,
}
use aether_mesh.Dispatch.Inputs.{
  slice_of, add_chunk, encode_chunk, encode_chunks, send_chunked, ensure_inputs,
}
use aether_mesh.Dispatch.Logged.{log, logged}
use aether_mesh.Dispatch.Chosen.{MayRun}
use aether_mesh.Dispatch.Trace.{Once, submit-Traced}
use aether_mesh.Dispatch.Frame.{OnOk, Holds, ensure_inputs-Holds}
use aether_mesh.Dispatch.Calm.{Calm}
use aether_mesh.Dispatch.Settled.{Settled, HasRoom, submit-Settled}
use aether_mesh.Chunk.{indexed, chunk_range, pieces_from, split}
use aether_mesh.Dispatch.Lost.{send_chunked-lost}
use aether_mesh.Dispatch.Cuts.{All-Cuts}
use aether_mesh.Dispatch.Cached.{submit-again}
use aether_mesh.Dispatch.{
  failed, Bytes, ChunkManifest, submit, attempts, select, candidates, attempt, try_once,
  prepare_retry, finish,
}
use aether_mesh.History.{record_finished, drop_oldest, entry_of, preview}
use aether_mesh.Controller.{
  nodes_with_pending_work, with_pending, begin_on, finished_on, record_output,
}
use aether_mesh.Store
use aether_mesh.History
use aether_mesh.Traffic.{record_sent, record_retry}
use aether_mesh.Catalog.{record_data, holds, forget_node}
use aether_mesh.Labels.{satisfies_all}

-- The world is the list of the nodes that are down.
abbrev Down : Type 0
Down = List NodeId

abbrev answer_of : NodeId → Task → Bool → Result DispatchError TaskResult
answer_of n task true = err (unreachable n [])
answer_of n task false = ok (record {
  task_id = task.id;
  node_id = n;
  outcome = success task.payload;
  duration = 1;
  output_id = none;
})

abbrev sent_to : NodeId → Bool → Result DispatchError (Unit {0})
sent_to n true = err (unreachable n [])
sent_to n false = ok tt

abbrev mesh : TaskTransport Down
mesh = record {
  dispatch = λ n task down. (down, answer_of n task (contains down n));
  send_data = λ n d codec bytes down. (down, sent_to n (contains down n));
  send_manifest = λ n m down. (down, sent_to n (contains down n));
  send_chunks = λ n i chunks down. (down, sent_to n (contains down n));
  is_available = λ n down. true;
}

abbrev length_hash : Hash
length_hash bytes = length bytes

abbrev unpacking : Lz4
unpacking = record { pack = λ b. b; unpack = some; unpack-pack = λ b. refl }

abbrev world : World whole Down
world = record {
  hash = length_hash;
  lz4 = unpacking;
  scheduler = λ catalog. least_loaded_scheduler whole;
  transport = mesh;
  now = λ down. 0;
  sleep = λ d down. down;
}

-- Two nodes, of which node 1 is idler and down.
abbrev two_nodes : Controller whole
unfolding Controller.new register_node register insert Store.new History.new default_policy
two_nodes =
    register_node whole (node 2 0 1) 0
      (register_node whole (node 1 0 0) 0 (Controller.new whole []))

abbrev start : State whole Down
start = record { controller = two_nodes; outside = 1 ∷ [] }

abbrev task : Task
task = new_task 9 [] (b'h' ∷ b'i' ∷ [])

second_try :
    (submit world task start).1
    ≡ ok (record {
      task_id = 9;
      node_id = 2;
      outcome = success (b'h' ∷ b'i' ∷ []);
      duration = 1;
      output_id = none;
    })
unfolding submit attempts select candidates nodes_with_pending_work with_pending pending_on nodes
    attempt try_once ensure_inputs begin_on finished_on prepare_retry is_retryable finish
    record_output record_finished drop_oldest entry_of preview is_success output
    least_loaded_scheduler scheduler_of least_loaded load_order eligible best satisfies_all
    forget_node record_retry lookup insert remove new_metrics clamp_ratio new_task two_nodes
second_try = refl

-- The same from a controller with a cache, and from one that holds two chunks of a dataset.
abbrev caching : State whole Down
caching = record start { controller = record two_nodes { cache = some (Cache.new 4) } }

abbrev published : Controller whole
published = (publish whole length_hash (7 ∷ 8 ∷ 9 ∷ []) (record two_nodes { chunk_size = 2 })).0

abbrev loaded : State whole Down
loaded = record start { controller = published }

empty-IsConsistent : IsConsistent length_hash (record two_nodes { chunk_size = 2 })
unfolding two_nodes lookup
empty-IsConsistent = record {
  unbounded = refl;
  small = omega arith;
  splits = λ id m h. absurd (ground arith);
}

submit-Traced_example :
    (tried : List NodeId) × (log
        (submit (logged world) task (record { controller = two_nodes; outside = (1 ∷ [], []) })).0
      ≡ [] ++ tried)
    × (length tried ≤ 3)
    × Once tried
    × All (MayRun world task (record { controller = two_nodes; outside = (1 ∷ [], []) })) tried
unfolding two_nodes
submit-Traced_example =
    submit-Traced world task (record { controller = two_nodes; outside = (1 ∷ [], []) })

ensure_inputs-Holds_example :
    OnOk world
      (λ t. All (λ data_id. Holds world 2 data_id t) (3 ∷ []))
      (ensure_inputs world 2 (3 ∷ []) loaded)
ensure_inputs-Holds_example = ensure_inputs-Holds world 2 (3 ∷ []) loaded

room : HasRoom world loaded
unfolding pending_on two_nodes lookup publish put put_evicting split_published Store.get touch
    Store.store contains_key evict_over_budget
room n = omega arith

submit-Settled_example :
    Calm (Settled world loaded) (submit world (with_inputs task (3 ∷ [])) loaded)
submit-Settled_example =
    submit-Settled world (with_inputs task (3 ∷ [])) loaded
      (publish-IsConsistent length_hash (7 ∷ 8 ∷ 9 ∷ []) (record two_nodes { chunk_size = 2 })
        empty-IsConsistent)
      room

abbrev work_again : Task
work_again = record task { id = 10 }

abbrev answered : TaskResult
answered = record {
  task_id = 9;
  node_id = 2;
  outcome = success (b'h' ∷ b'i' ∷ []);
  duration = 1;
  output_id = none;
}

first : submit world task caching ≡ ((submit world task caching).0, ok answered)
unfolding submit attempts select candidates nodes_with_pending_work with_pending pending_on nodes
    attempt try_once ensure_inputs begin_on finished_on prepare_retry is_retryable finish
    record_output record_finished drop_oldest entry_of preview is_success output
    least_loaded_scheduler scheduler_of least_loaded load_order eligible best satisfies_all
    forget_node record_retry lookup insert remove new_metrics clamp_ratio new_task two_nodes
    Cache.get Cache.forget_old Cache.new Cache.put Cache.drop_oldest work_key
first = refl

submit-again_example :
    ((submit world work_again (submit world task caching).0).1
      ≡ ok (record answered { task_id = 10 }))
    × ((submit world work_again (submit world task caching).0).0.outside
        ≡ (submit world task caching).0.outside)
unfolding Cache.new is_success new_task work_key
submit-again_example =
    submit-again world task work_again caching (submit world task caching).0 (Cache.new 4) answered
      refl refl (λ h. cc h) first refl refl

-- A node that takes manifests and loses chunks.
abbrev lossy : World whole Down
lossy = record world {
  transport = record mesh {
    send_manifest = λ n m down. (down, ok tt);
    send_chunks = λ n i chunks down. (down, err (unreachable n []));
  };
}

abbrev bytes : Bytes
bytes = 7 ∷ 8 ∷ 9 ∷ []

abbrev layout : ChunkManifest
layout = split length_hash bytes 2

abbrev lost : State whole Down
lost = (send_chunked lossy 2 layout bytes none loaded).0

chunks_fail : (send_chunked lossy 2 layout bytes none loaded).1 ≡ err (failed (unreachable 2 []))
unfolding send_chunked encode_chunks encode_chunk add_chunk slice_of chunk_range indexed split
    pieces_from holds lookup record_data record_sent encode default_policy choose two_nodes publish
    put put_evicting split_published Store.get touch Store.store contains_key evict_over_budget
chunks_fail = refl

reuses : loaded.controller.reuse_data ≡ true
unfolding two_nodes publish put put_evicting split_published Store.get touch Store.store
    contains_key evict_over_budget lookup
reuses = refl

send_chunked-lost_example :
    ((send_chunked lossy 2 layout bytes none lost).1 ≡ ok tt)
    × ((send_chunked lossy 2 layout bytes none lost).0.outside ≡ lost.outside)
send_chunked-lost_example =
    send_chunked-lost lossy 2 layout bytes none loaded lost loaded.outside lost.outside
      (All-Cuts length_hash bytes 2 (omega arith)) reuses refl refl refl
