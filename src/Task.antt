-- ===== src/Task.antt =====
-- crates/aether-core/src/task.rs and data.rs: priorities, tasks, results, and content addresses.
-- A 256-bit id is a number (its big-endian value, so that the derived order is that of numbers).
use aether_mesh.Base.{
  ℕ, if◌then◌else◌, Bool, true, false, List, [], ◌∷◌, ◌++◌, Option, none, some, length, contains,
}
use aether_mesh.Text.{Text}
use aether_mesh.Labels.{Constraint}

abbrev pub DataId : Type 0
DataId = ℕ

abbrev pub NodeId : Type 0
NodeId = ℕ

abbrev pub TaskId : Type 0
TaskId = ℕ

abbrev pub Bytes : Type 0
Bytes = List ℕ

-- BLAKE3, which the crate only calls.
abbrev pub Hash : Type 0
Hash = Bytes → DataId

pub record DataDescriptor : Type 0 where
  pub id : DataId
  pub size_bytes : ℕ

-- `DataDescriptor::of`.
abbrev pub describe : Hash → Bytes → DataDescriptor
describe hash bytes = record { id = hash bytes; size_bytes = length bytes }

pub data Priority : Type 0 where
  background low normal high critical : Priority

-- The discriminant, which is also the derived order.
unfoldable pub rank : Priority → ℕ
rank background = 0
rank low = 1
rank normal = 2
rank high = 3
rank critical = 4

unfoldable pub promoted : Priority → Priority
promoted background = low
promoted low = normal
promoted normal = high
promoted high = critical
promoted critical = critical

pub record Task : Type 0 where
  pub id : TaskId
  pub kind : Text
  pub payload : Bytes
  pub inputs : List DataId
  pub priority : Priority
  pub constraints : List Constraint
  pub module_id : Option DataId

-- The generated id is an argument.
unfoldable pub new_task : TaskId → Text → Bytes → Task
new_task id kind payload = record {
  id = id;
  kind = kind;
  payload = payload;
  inputs = [];
  priority = normal;
  constraints = [];
  module_id = none;
}

abbrev pub wasm_kind : Text
wasm_kind = b'w' ∷ b'a' ∷ b's' ∷ b'm' ∷ []

unfoldable pub wasm_task : TaskId → DataId → Bytes → Task
wasm_task id program payload = record (new_task id wasm_kind payload) {
  inputs = program ∷ [];
  module_id = some program;
}

abbrev pub inputs_with : Option DataId → List DataId → List DataId
inputs_with none inputs = inputs
inputs_with (some program) inputs = if contains inputs program then inputs else program ∷ inputs

unfoldable pub with_inputs : Task → List DataId → Task
with_inputs task inputs = record task { inputs = inputs_with task.module_id inputs }

unfoldable pub requiring : Task → Constraint → Task
requiring task constraint = record task { constraints = task.constraints ++ (constraint ∷ []) }

unfoldable pub with_priority : Task → Priority → Task
with_priority task priority = record task { priority = priority }

pub data TaskOutcome : Type 0 where
  success : (output : Bytes) → TaskOutcome
  failure : (message : Text) → TaskOutcome

pub record TaskResult : Type 0 where
  pub task_id : TaskId
  pub node_id : NodeId
  pub outcome : TaskOutcome
  pub duration : ℕ
  pub output_id : Option DataId

abbrev outcome_is_success : TaskOutcome → Bool
outcome_is_success (success output) = true
outcome_is_success (failure message) = false

unfoldable pub is_success : TaskResult → Bool
is_success result = outcome_is_success result.outcome

abbrev outcome_output : TaskOutcome → Option Bytes
outcome_output (success output) = some output
outcome_output (failure message) = none

unfoldable pub output : TaskResult → Option Bytes
output result = outcome_output result.outcome
