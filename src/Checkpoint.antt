-- ===== src/Checkpoint.antt =====
-- crates/aether-controller/src/checkpoint.rs: what a run has finished, and what a workflow is.
-- The journal file is the list of the records that its lines parse to; reading, writing and JSON
-- are not modelled. BLAKE3 is the argument `hash`, and the UTF-8 encoding the argument `utf8`.
pub mod Collision
pub mod Completed
mod Tests
use aether_mesh.Base.{
  ℕ, zero, suc, ◌+◌, ◌-◌, ◌/◌, ◌%◌, ◌==◌, ltb, if◌then◌else◌, Bool, true, false, List, [], ◌∷◌,
  ◌++◌,
}
use aether_mesh.Base.Assoc.{insert, nat_eq}
use aether_mesh.Base.Result.{Result, ok, err}
use aether_mesh.Text.{Text, text_eq}
use aether_mesh.Task.{Bytes, Hash, DataId, NodeId, TaskId}
use aether_mesh.Digest.{as_bytes, display_id}
use aether_mesh.Workflow.{Step, Workflow}

pub record Record : Type 0 where
  pub run : Text
  pub fingerprint : Text
  pub step : ℕ
  pub task_id : TaskId
  pub node_id : NodeId
  pub output_id : DataId
  pub duration_ms : ℕ

pub data CheckpointError : Type 0 where
  io : CheckpointError
  fingerprint_error : (run recorded submitted : Text) → CheckpointError

-- The `len` bytes of a number, lowest first (`to_le_bytes`).
abbrev pub le_bytes : ℕ → ℕ → Bytes
le_bytes zero n = []
le_bytes (suc len) n = (n % 256) ∷ le_bytes len (n / 256)

unfoldable pub input_bytes : List DataId → Bytes
input_bytes [] = []
input_bytes (input ∷ inputs) = as_bytes input ++ input_bytes inputs

unfoldable pub dependency_bytes : List ℕ → Bytes
dependency_bytes [] = []
dependency_bytes (d ∷ ds) = le_bytes 8 d ++ dependency_bytes ds

-- `utf8` is `String::as_bytes`.
unfoldable pub step_bytes : (Text → Bytes) → Step → Bytes
step_bytes utf8 s =
    utf8 s.task.kind
    ++ (0
        ∷ (s.task.payload
            ++ (0
                ∷ (input_bytes s.task.inputs
                    ++ (0 ∷ (dependency_bytes s.depends_on ++ (0 ∷ [])))))))

unfoldable pub fingerprint_bytes : (Text → Bytes) → List Step → Bytes
fingerprint_bytes utf8 [] = []
fingerprint_bytes utf8 (s ∷ ss) = step_bytes utf8 s ++ fingerprint_bytes utf8 ss

unfoldable pub fingerprint : Hash → (Text → Bytes) → Workflow → Text
fingerprint hash utf8 w = display_id (hash (fingerprint_bytes utf8 w.steps))

-- The loop of `Journal::completed` over the records of the file.
unfoldable pub completed_from :
    Text → Text → List (ℕ × Record) → List Record → Result CheckpointError (List (ℕ × Record))
completed_from run fingerprint done [] = ok done
completed_from run fingerprint done (r ∷ rs) =
    let next = completed_from run fingerprint (insert r.step r done) rs in
    let skip = completed_from run fingerprint done rs in
    if text_eq r.run run
    then if text_eq r.fingerprint fingerprint
      then next
      else err (fingerprint_error run r.fingerprint fingerprint)
    else skip

unfoldable pub completed : Text → Text → List Record → Result CheckpointError (List (ℕ × Record))
completed run fingerprint records = completed_from run fingerprint [] records
