-- ===== src/Dispatch.antt =====
-- crates/aether-controller/src/dispatch.rs: placing a task on a node, one submission at a time.
-- What lies beyond the controller is a `World` with the operations of the trait `TaskTransport`, a
-- clock and a sleep. Where the code would panic, the answer is `panicked`.
pub mod Transport
pub mod Inputs
mod Kept
mod Frame
mod Logged
mod Chosen
mod Trace
mod Cuts
mod Lost
mod Cached
mod Calm
mod Settled
mod Tests
use aether_mesh.Base.{
  ℕ, zero, suc, ◌+◌, ltb, ◌==◌, ◌&&◌, ◌||◌, if◌then◌else◌, Bool, true, false, not, List, [], ◌∷◌,
  ◌++◌, Option, none, some, length, contains, filter, take, drop, leb, ◌-◌,
}
use aether_mesh.Base.Assoc.{lookup, nat_eq}
use aether_mesh.Base.Result.{Result, ok, err}
use aether_mesh.Text.{Text}
use aether_mesh.Task.{DataId, NodeId, TaskId, Bytes, Hash, Task, TaskResult, DataDescriptor}
use aether_mesh.Node.{Float, NodeInfo}
use aether_mesh.Catalog.{Catalog, record_data, forget_node, holds}
use aether_mesh.Scheduler.{Scheduler}
use aether_mesh.Store.{get}
use aether_mesh.Chunk.{ChunkManifest, chunk_range, indexed}
use aether_mesh.Compress.{Codec, Lz4, encode}
use aether_mesh.Cache.{Cache}
use aether_mesh.Cache
use aether_mesh.Traffic.{record_sent, record_transfer_skipped, record_chunk_skipped, record_retry}
use aether_mesh.History.{record_finished}
use aether_mesh.Controller.{
  Controller, begin_on, finished_on, bandwidth_to, lock_transfer, release_transfer,
  nodes_with_pending_work, record_output,
}
use Transport.{
  DispatchError, no_node_available, unreachable, timeout, unknown_input, queue_full, queue_timeout,
  Stop, failed, panicked, World, State, M, continue, ◌>>=◌, ◌>>◌, fail, call, is_retryable,
}
use Inputs.{ensure_inputs}

module _ {float : Float} {W : Type 0} (world : World float W) where
  open world use {hash, scheduler, transport, now, sleep}

  unfoldable pub try_once : NodeId → Task → M float W TaskResult
  try_once node_id task = do
    ensure_inputs world node_id task.inputs
    call (transport.dispatch node_id task)

  -- Nodes that are set aside or out of reach are not offered to the scheduler.
  unfoldable pub candidates : List NodeId → State float W → List (NodeInfo float)
  candidates unusable s =
      filter
        (λ (node : NodeInfo float).
          not (contains unusable node.id) && transport.is_available node.id s.outside)
        (nodes_with_pending_work float s.controller)

  unfoldable pub select : List NodeId → Task → State float W → Option NodeId
  select unusable task s = (scheduler s.controller.catalog).select_node (candidates unusable s) task

  abbrev pub put_in_cache : Task → TaskResult → ℕ → Option Cache → Option Cache
  put_in_cache task result now none = none
  put_in_cache task result now (some cache) = some (Cache.put hash task result now cache)

  -- What `submit` does with a result.
  unfoldable pub finish : Task → TaskResult → M float W TaskResult
  finish task result s =
      let time = now s.outside in
      let c = s.controller in
      let recorded =
        record_output float hash result
          (record c { history = record_finished task result time c.history }) in
      (
        record s { controller = record recorded { cache = put_in_cache task result time c.cache } },
        ok result,
      )

  abbrev pub set_aside : NodeId → Controller float → Controller float
  set_aside node_id c = record c {
    catalog = forget_node node_id c.catalog;
    traffic = record_retry c.traffic;
  }

  -- A backoff of zero is no sleep.
  unfoldable pub prepare_retry : NodeId → M float W (Unit {0})
  prepare_retry node_id s =
      let s' = record s { controller = set_aside node_id s.controller } in
      let backoff = s.controller.retry.backoff in
      if backoff == 0 then (s', ok tt) else (record s' { outside = sleep backoff s.outside }, ok tt)

  -- `begin_on`, `try_once` and `finished_on`: the answer of the attempt is a value here, while a
  -- panic leaves at once.
  abbrev pub settle :
      NodeId
      → State float W × Result Stop TaskResult
      → State float W × Result Stop (Result DispatchError TaskResult)
  settle node_id (s, ok result) =
      (record s { controller = finished_on float node_id s.controller }, ok (ok result))
  settle node_id (s, err (failed e)) =
      (record s { controller = finished_on float node_id s.controller }, ok (err e))
  settle node_id (s, err panicked) = (s, err panicked)

  unfoldable pub attempt : NodeId → Task → M float W (Result DispatchError TaskResult)
  attempt node_id task s =
      settle node_id
        (try_once node_id task (record s { controller = begin_on float node_id s.controller }))

  -- The `match` on the answer of an attempt, with `more` attempts left after it.
  abbrev pub respond :
      ℕ
      → NodeId
      → Task
      → M float W TaskResult
      → Result DispatchError TaskResult
      → M float W TaskResult
  respond more node_id task later (ok result) = finish task result
  respond more node_id task later (err e) =
      if ltb 0 more && is_retryable e then prepare_retry node_id >> later else fail e

  abbrev pub on_node :
      ℕ → Task → (NodeId → M float W TaskResult) → Option NodeId → M float W TaskResult
  on_node more task later none s = (s, err (failed (no_node_available task.id)))
  on_node more task later (some node_id) s =
      continue (attempt node_id task s) (respond more node_id task (later node_id))

  -- The loop of `submit` over the attempts that are left.
  unfoldable pub attempts : ℕ → List NodeId → Task → M float W TaskResult
  attempts zero unusable task s = (s, err (failed (no_node_available task.id)))
  attempts (suc more) unusable task s =
      on_node more task (λ node_id. attempts more (node_id ∷ unusable) task)
        (select unusable task s) s

  abbrev pub ask_cache : Task → State float W → Option Cache → State float W × Option TaskResult
  ask_cache task s none = (s, none)
  ask_cache task s (some cache) =
      let (cache', found) = Cache.get hash task (now s.outside) cache in
      (record s { controller = record s.controller { cache = some cache' } }, found)

  abbrev pub or_attempt :
      Task → State float W × Option TaskResult → State float W × Result Stop TaskResult
  or_attempt task (s, none) = attempts s.controller.retry.max_attempts [] task s
  or_attempt task (s, some result) = (s, ok result)

  unfoldable pub submit : Task → M float W TaskResult
  submit task s = or_attempt task (ask_cache task s s.controller.cache)
