-- ===== src/Scheduler/Instances.antt =====
-- Each of the three schedulers keeps the promises of the interface.
use aether_mesh.Base.{◌≡◌, inl, inr, List, Option, none, some, arith}
use aether_mesh.Task.{Task, NodeId}
use aether_mesh.Node.{Float, NodeInfo}
use aether_mesh.Catalog.{Catalog}
use aether_mesh.Scheduler.{Scheduler, Eligible, least_loaded, locality, advanced, ScoreWeights}
use aether_mesh.Scheduler.Placement.{Picks, least_loaded-Picks, locality-Picks, advanced-Picks}

module _ (float : Float) (R : NodeInfo float → NodeInfo float → Type 0) where
  pub Picks-sound :
      (nodes : List (NodeInfo float)) (task : Task) (answer : Option NodeId) (id : NodeId)
      → Picks float R nodes task answer
      → answer ≡ some id
      → (node : NodeInfo float) × (node.id ≡ id) × Eligible float nodes task node
  Picks-sound nodes task answer id (inl (none_there, h)) e = absurd (ground arith)
  Picks-sound nodes task answer id (inr (node, found, may, best)) e =
      let same : node.id ≡ id = ground arith in (node, same, may)

  pub Picks-complete :
      (nodes : List (NodeInfo float)) (task : Task) (answer : Option NodeId)
      → Picks float R nodes task answer
      → answer ≡ none
      → (node : NodeInfo float) → Eligible float nodes task node
      → ⊥
  Picks-complete nodes task answer (inl (none_there, h)) e = h
  Picks-complete nodes task answer (inr (node, found, may, best)) e = absurd (ground arith)

  unfoldable pub scheduler_of :
      (select : List (NodeInfo float) → Task → Option NodeId)
      → ((nodes : List (NodeInfo float)) (task : Task)
          → Picks float R nodes task (select nodes task))
      → Scheduler float
  scheduler_of select picks = record {
    select_node = select;
    sound = λ nodes task id. Picks-sound nodes task (select nodes task) id (picks nodes task);
    complete = λ nodes task. Picks-complete nodes task (select nodes task) (picks nodes task);
  }

unfoldable pub least_loaded_scheduler : (float : Float) → Scheduler float
unfolding scheduler_of
least_loaded_scheduler float = scheduler_of float _ (least_loaded float) (least_loaded-Picks float)

-- The catalog that a scheduler reads comes first: these are what a controller can be built on.
unfoldable pub locality_scheduler : (float : Float) → Catalog → Scheduler float
unfolding scheduler_of
locality_scheduler float catalog = record {
  select_node = locality float catalog;
  sound = λ nodes task id.
      Picks-sound float _ nodes task _ id (locality-Picks float catalog task nodes);
  complete =
      λ nodes task. Picks-complete float _ nodes task _ (locality-Picks float catalog task nodes);
}

unfoldable pub advanced_scheduler : (float : Float) → ScoreWeights float → Catalog → Scheduler float
unfolding scheduler_of
advanced_scheduler float weights catalog = record {
  select_node = advanced float catalog weights;
  sound = λ nodes task id.
      Picks-sound float _ nodes task _ id (advanced-Picks float catalog task weights nodes);
  complete = λ nodes task.
      Picks-complete float _ nodes task _ (advanced-Picks float catalog task weights nodes);
}
