-- ===== src/Workflow/Tests.antt =====
-- Runs of the workflow's functions on small inputs, and its theorems at such inputs.
use aether_mesh.Base.{ℕ, ◌<◌, ◌≡◌, refl, ◌⊎◌, ◌↔◌, List, [], ◌∷◌, length}
use aether_mesh.Base.Result.{ok, err}
use aether_mesh.Task.{Task, new_task}
use aether_mesh.Workflow.{
  Workflow, cycle, new_step, after, order, validate, waves, roots, dependents_of, reached, rounds,
  release, build_dependents, add_dependents, set_depths, deepest, fill_waves,
}
use aether_mesh.Workflow.Order.{IsPlan, IsStuck, order_cases}
use aether_mesh.Workflow.Acyclic.{IsAcyclic, order-ok_iff, validate-ok_iff}

abbrev job : Task
job = new_task 0 [] []

-- The diamond of the module's documentation: A, then B and C, then D.
abbrev diamond : Workflow
diamond = record {
  id = 0;
  steps = new_step job ∷ after job (0 ∷ []) ∷ after job (0 ∷ []) ∷ after job (1 ∷ 2 ∷ []) ∷ [];
}

-- Two steps that wait for each other, and one that is free.
abbrev knot : Workflow
knot = record { id = 0; steps = after job (1 ∷ []) ∷ after job (0 ∷ []) ∷ new_step job ∷ [] }

order-diamond : order diamond ≡ ok (0 ∷ 1 ∷ 2 ∷ 3 ∷ [])
unfolding order reached rounds release build_dependents add_dependents new_step after
order-diamond = refl

waves-diamond : waves diamond ≡ ok ((0 ∷ []) ∷ (1 ∷ 2 ∷ []) ∷ (3 ∷ []) ∷ [])
unfolding waves order reached rounds release build_dependents add_dependents new_step after
    set_depths deepest fill_waves
waves-diamond = refl

order-knot : order knot ≡ err (cycle (0 ∷ 1 ∷ []))
unfolding order reached rounds release build_dependents add_dependents new_step after
order-knot = refl

roots-diamond : roots diamond ≡ 0 ∷ []
unfolding roots new_step after
roots-diamond = refl

dependents_diamond : dependents_of diamond 0 ≡ 1 ∷ 2 ∷ []
unfolding dependents_of new_step after
dependents_diamond = refl

order_cases_example :
    ((plan : List ℕ) × (order knot ≡ ok plan) × IsPlan knot.steps plan)
    ⊎ ((stuck : List ℕ) × (order knot ≡ err (cycle stuck)) × IsStuck knot.steps stuck)
order_cases_example = order_cases knot

order-ok_iff_example : ((plan : List ℕ) × (order diamond ≡ ok plan)) ↔ IsAcyclic diamond.steps
order-ok_iff_example = order-ok_iff diamond

validate-ok_iff_example :
    (validate diamond ≡ ok tt) ↔ ((0 < length diamond.steps) × IsAcyclic diamond.steps)
validate-ok_iff_example = validate-ok_iff diamond
