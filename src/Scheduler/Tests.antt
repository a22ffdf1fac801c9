-- ===== src/Scheduler/Tests.antt =====
-- The schedulers on a small cluster, with floats as numbers.
use aether_mesh.Base.{◌≡◌, refl, List, [], ◌∷◌, some, best}
use aether_mesh.Base.Assoc.{lookup}
use aether_mesh.Labels.{satisfies_all}
use aether_mesh.Task.{Task, new_task, with_inputs}
use aether_mesh.Node.{NodeInfo}
use aether_mesh.Node.Whole.{whole, node}
use aether_mesh.Catalog.{Catalog, local_bytes, descriptor}
use aether_mesh.Scheduler.{
  least_loaded, load_order, eligible, locality, locality_order, advanced, score, score_order, total,
  missing_bytes, ScoreWeights,
}
use aether_mesh.Scheduler.Placement.{Picks, Nearer, Before, cost, locality-Picks, advanced-Picks}

-- Node 3 holds dataset 5.
abbrev catalog : Catalog
catalog = (5, record { descriptor = record { id = 5; size_bytes = 1000 }; locations = 3 ∷ [] }) ∷ []

abbrev nodes : List (NodeInfo whole)
nodes = node 1 9 1 ∷ node 2 4 5 ∷ node 3 9 9 ∷ []

abbrev task : Task
task = with_inputs (new_task 0 [] []) (5 ∷ [])

abbrev weights : ScoreWeights whole
weights = record { cpu = 1; memory = 1; transfer = 1; latency = 1; locality = 1 }

idle_wins : least_loaded whole nodes task ≡ some 2
unfolding least_loaded eligible load_order best satisfies_all with_inputs new_task
idle_wins = refl

data_wins : locality whole catalog nodes task ≡ some 3
unfolding locality locality_order eligible load_order best satisfies_all with_inputs new_task
    local_bytes lookup
data_wins = refl

cheapest_wins : advanced whole catalog weights nodes task ≡ some 3
unfolding advanced score_order score total missing_bytes eligible load_order best satisfies_all
    with_inputs new_task local_bytes lookup descriptor
cheapest_wins = refl

locality-Picks_example :
    Picks whole (Nearer whole catalog task) nodes task (locality whole catalog nodes task)
locality-Picks_example = locality-Picks whole catalog task nodes

advanced-Picks_example :
    Picks whole
      (Before whole (cost whole catalog task weights))
      nodes
      task
      (advanced whole catalog weights nodes task)
advanced-Picks_example = advanced-Picks whole catalog task weights nodes
