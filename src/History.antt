-- ===== src/History.antt =====
-- crates/aether-controller/src/history.rs: the last finished tasks, newest first.
-- The clock is an argument, and so is the size limit of `new`. The lock is not modelled.
mod Ring
mod Tests
use aether_mesh.Base.{
  ℕ, zero, suc, ◌+◌, ltb, leb, max, if◌then◌else◌, Bool, ◌&&◌, List, [], ◌∷◌, ◌++◌, map, Option,
  none, some, length, take,
}
use aether_mesh.Text.{Text}
use aether_mesh.Task.{Bytes, TaskId, NodeId, Task, TaskResult, is_success, output}

abbrev pub default_history : ℕ
default_history = 64

abbrev pub preview_bytes : ℕ
preview_bytes = 48

pub record Finished : Type 0 where
  pub task_id : TaskId
  pub kind : Text
  pub node_id : NodeId
  pub success : Bool
  pub duration : ℕ
  pub output_bytes : ℕ
  pub preview : Text
  pub finished_at : ℕ

pub record History : Type 0 where
  pub entries : List Finished
  pub limit : ℕ

unfoldable pub new : ℕ → History
new limit = record { entries = []; limit = max limit 1 }

abbrev pub is_printable : ℕ → Bool
is_printable byte = leb 0x20 byte && leb byte 0x7e

abbrev pub shown : ℕ → ℕ
shown byte = if is_printable byte then byte else b'.'

abbrev pub ellipsis : ℕ
ellipsis = 0x2026

unfoldable pub preview : Bytes → Text
preview output =
    let text = map shown (take preview_bytes output) in
    if ltb preview_bytes (length output) then text ++ (ellipsis ∷ []) else text

abbrev pub unwrap_or_default : Option Bytes → Bytes
unwrap_or_default none = []
unwrap_or_default (some bytes) = bytes

unfoldable pub entry_of : Task → TaskResult → ℕ → Finished
entry_of task result now =
    let bytes = unwrap_or_default (output result) in
    record {
      task_id = result.task_id;
      kind = task.kind;
      node_id = result.node_id;
      success = is_success result;
      duration = result.duration;
      output_bytes = length bytes;
      preview = preview bytes;
      finished_at = now;
    }

-- `VecDeque::pop_back`.
abbrev pub pop_back : List Finished → List Finished
pop_back [] = []
pop_back (e ∷ []) = []
pop_back (e ∷ f ∷ es) = e ∷ pop_back (f ∷ es)

-- The `while` loop of `record`: each round drops an entry, so their number is fuel enough.
unfoldable pub drop_oldest : ℕ → ℕ → List Finished → List Finished
drop_oldest zero limit entries = entries
drop_oldest (suc fuel) limit entries =
    let rest = drop_oldest fuel limit (pop_back entries) in
    if ltb limit (length entries) then rest else entries

-- `History::record`.
unfoldable pub record_finished : Task → TaskResult → ℕ → History → History
record_finished task result now h =
    let entries = entry_of task result now ∷ h.entries in
    record h { entries = drop_oldest (length entries) h.limit entries }

unfoldable pub recent : ℕ → History → List Finished
recent limit h = take limit h.entries

unfoldable pub len : History → ℕ
len h = length h.entries
