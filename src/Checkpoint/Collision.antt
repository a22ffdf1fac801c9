-- ===== src/Checkpoint/Collision.antt =====
-- What the fingerprint of a workflow does not tell apart.
use aether_mesh.Base.{ℕ, ◌≡◌, refl, [], ◌∷◌, ◌++◌, append_regroup}
use aether_mesh.Text.{Text}
use aether_mesh.Task.{Task, Bytes, Hash}
use aether_mesh.Workflow.{Step, new_step, after}
use aether_mesh.Checkpoint.{
  step_bytes, fingerprint_bytes, fingerprint, input_bytes, dependency_bytes,
}

abbrev eight_zeros : Bytes
eight_zeros = 0 ∷ 0 ∷ 0 ∷ 0 ∷ 0 ∷ 0 ∷ 0 ∷ 0 ∷ []

-- The same task with eight zero bytes behind its payload.
abbrev pub padded : Task → Task
padded task = record task { payload = task.payload ++ eight_zeros }

same_bytes :
    (utf8 : Text → Bytes) (task : Task)
    → task.inputs ≡ []
    → step_bytes utf8 (after task (0 ∷ [])) ≡ step_bytes utf8 (new_step (padded task))
unfolding step_bytes after new_step input_bytes dependency_bytes
same_bytes utf8 task no_inputs =
    rw no_inputs (rw (append_regroup task.payload eight_zeros (0 ∷ 0 ∷ 0 ∷ [])) refl)

-- Two different workflows with one fingerprint, whatever the hash: a step without inputs of its
-- own that depends on step 0, and the same step with no dependency and eight zero bytes more in
-- its payload, behind any same first step.
pub fingerprint-collision :
    (hash : Hash) (utf8 : Text → Bytes) (id other : ℕ) (first : Step) (task : Task)
    → task.inputs ≡ []
    → fingerprint hash utf8 (record { id = id; steps = first ∷ after task (0 ∷ []) ∷ [] })
      ≡ fingerprint hash utf8 (record { id = other; steps = first ∷ new_step (padded task) ∷ [] })
unfolding fingerprint fingerprint_bytes
fingerprint-collision hash utf8 id other first task no_inputs =
    rw (same_bytes utf8 task no_inputs) refl
