-- ===== src/Checkpoint/Tests.antt =====
-- The theorems on the journal at small inputs.
use aether_mesh.Base.{ℕ, ◌≡◌, refl, List, [], ◌∷◌, sum}
use aether_mesh.Text.{Text}
use aether_mesh.Task.{Task, Hash, new_task}
use aether_mesh.Workflow.{new_step, after}
use aether_mesh.Checkpoint.{Record, fingerprint, completed}
use aether_mesh.Checkpoint.Collision.{padded, fingerprint-collision}
use aether_mesh.Checkpoint.Completed.{Outcome, completed-Outcome}

abbrev job : Task
job = new_task 0 (b'e' ∷ []) (1 ∷ 2 ∷ [])

abbrev sum_hash : Hash
sum_hash bytes = sum bytes

abbrev ascii : Text → List ℕ
ascii text = text

abbrev entry : ℕ → ℕ → Record
entry step node = record {
  run = b'r' ∷ [];
  fingerprint = b'f' ∷ [];
  step = step;
  task_id = 0;
  node_id = node;
  output_id = 7;
  duration_ms = 1;
}

fingerprint-collision_example :
    fingerprint sum_hash ascii (record { id = 1; steps = new_step job ∷ after job (0 ∷ []) ∷ [] })
    ≡ fingerprint sum_hash ascii
        (record { id = 2; steps = new_step job ∷ new_step (padded job) ∷ [] })
fingerprint-collision_example =
    fingerprint-collision sum_hash ascii 1 2 (new_step job) job no_inputs
  where
    no_inputs : job.inputs ≡ []
    no_inputs = unfold new_task in refl

completed-Outcome_example :
    Outcome
      (b'r' ∷ [])
      (b'f' ∷ [])
      []
      (entry 0 1 ∷ entry 0 2 ∷ [])
      (completed (b'r' ∷ []) (b'f' ∷ []) (entry 0 1 ∷ entry 0 2 ∷ []))
completed-Outcome_example = completed-Outcome (b'r' ∷ []) (b'f' ∷ []) (entry 0 1 ∷ entry 0 2 ∷ [])
