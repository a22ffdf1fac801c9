-- ===== src/Dispatch/Transport.antt =====
-- crates/aether-controller/src/dispatch.rs: the errors of a dispatch, the trait `TaskTransport`, and
-- the computations that the controller runs on it: they change the controller and the world
-- outside, and end with a value, with an error, or with a panic.
use aether_mesh.Base.{some, Option, none, some, ℕ, Bool, true, false, List, [], ◌∷◌}
use aether_mesh.Base.Assoc.{nat_eq}
use aether_mesh.Base.Result.{Result, ok, err}
use aether_mesh.Text.{Text}
use aether_mesh.Task.{DataId, NodeId, TaskId, Bytes, Hash, Task, TaskResult, DataDescriptor}
use aether_mesh.Node.{Float}
use aether_mesh.Catalog.{Catalog}
use aether_mesh.Scheduler.{Scheduler}
use aether_mesh.Chunk.{ChunkManifest}
use aether_mesh.Compress.{Codec, Lz4}
use aether_mesh.Controller.{Controller}

pub data DispatchError : Type 0 where
  no_node_available : (task_id : TaskId) → DispatchError
  unreachable : (node_id : NodeId) (reason : Text) → DispatchError
  timeout : (node_id : NodeId) (task_id : TaskId) → DispatchError
  unknown_input : (data_id : DataId) → DispatchError
  queue_full : (task_id : TaskId) → DispatchError
  queue_timeout : (task_id : TaskId) (waited_ms : ℕ) → DispatchError

unfoldable pub is_retryable : DispatchError → Bool
is_retryable (unreachable node_id reason) = true
is_retryable (timeout node_id task_id) = true
is_retryable (no_node_available task_id) = false
is_retryable (unknown_input data_id) = false
is_retryable (queue_full task_id) = false
is_retryable (queue_timeout task_id waited_ms) = false

-- Why a computation ends without a value.
pub data Stop : Type 0 where
  failed : DispatchError → Stop
  panicked : Stop

-- An encoded chunk of a batch, under its index.
abbrev pub Encoded : Type 0
Encoded = ℕ × Codec × Bytes

-- The trait `TaskTransport`, with the state of the world that each call changes.
pub record TaskTransport (W : Type 0) : Type 0 where
  pub dispatch : NodeId → Task → W → W × Result DispatchError TaskResult
  pub send_data : NodeId → DataDescriptor → Codec → Bytes → W → W × Result DispatchError (Unit {0})
  pub send_manifest : NodeId → ChunkManifest → W → W × Result DispatchError (Unit {0})
  pub send_chunks : NodeId → DataId → List Encoded → W → W × Result DispatchError (Unit {0})
  pub is_available : NodeId → W → Bool

-- The default method `send_chunks`, which sends one chunk after another.
module _ {W : Type 0} where
  abbrev pub and_then :
      W × Result DispatchError (Unit {0})
      → (W → W × Result DispatchError (Unit {0}))
      → W × Result DispatchError (Unit {0})
  and_then (w, ok a) next = next w
  and_then (w, err e) next = (w, err e)

  unfoldable pub send_each :
      (NodeId → DataId → ℕ → Codec → Bytes → W → W × Result DispatchError (Unit {0}))
      → NodeId
      → DataId
      → List Encoded
      → W
      → W × Result DispatchError (Unit {0})
  send_each send_chunk node_id data_id [] w = (w, ok tt)
  send_each send_chunk node_id data_id ((index, codec, bytes) ∷ chunks) w =
      and_then (send_chunk node_id data_id index codec bytes w)
        (send_each send_chunk node_id data_id chunks)

-- What a controller is built on. The scheduler reads the catalog that the controller writes.
pub record World (float : Float) (W : Type 0) : Type 0 where
  pub hash : Hash
  pub lz4 : Lz4
  pub scheduler : Catalog → Scheduler float
  pub transport : TaskTransport W
  pub now : W → ℕ
  pub sleep : ℕ → W → W

module _ (float : Float) (W : Type 0) where
  pub record State : Type 0 where
    pub controller : Controller float
    pub outside : W

  abbrev pub M : Type 0 → Type 0
  M A = State → State × Result Stop A

module _ {float : Float} {W : Type 0} where
  abbrev pub continue :
      {A B : Type 0}
      → State float W × Result Stop A
      → (A → M float W B)
      → State float W × Result Stop B
  continue (s, ok a) f = f a s
  continue (s, err e) f = (s, err e)

  infixl 5 ◌>>=◌ ◌>>◌
  abbrev pub ◌>>=◌ : {A B : Type 0} → M float W A → (A → M float W B) → M float W B
  ◌>>=◌ m f s = continue (m s) f

  abbrev pub ◌>>◌ : {B : Type 0} → M float W (Unit {0}) → M float W B → M float W B
  ◌>>◌ m k s = continue (m s) (λ _. k)

  abbrev pub pure : {A : Type 0} → A → M float W A
  pure a s = (s, ok a)

  abbrev pub fail : {A : Type 0} → DispatchError → M float W A
  fail e s = (s, err (failed e))

  -- `expect` and indexing.
  abbrev pub expect : {A : Type 0} → Option A → M float W A
  expect none s = (s, err panicked)
  expect (some a) s = (s, ok a)

  abbrev pub reads : {A : Type 0} → (Controller float → A) → M float W A
  reads f s = (s, ok (f s.controller))

  abbrev pub modify : (Controller float → Controller float) → M float W (Unit {0})
  modify f s = (record s { controller = f s.controller }, ok tt)

  abbrev pub from_transport :
      {A : Type 0} → State float W → W × Result DispatchError A → State float W × Result Stop A
  from_transport s (w, ok a) = (record s { outside = w }, ok a)
  from_transport s (w, err e) = (record s { outside = w }, err (failed e))

  -- A call of the transport.
  abbrev pub call : {A : Type 0} → (W → W × Result DispatchError A) → M float W A
  call f s = from_transport s (f s.outside)
