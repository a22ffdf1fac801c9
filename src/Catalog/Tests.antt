-- ===== src/Catalog/Tests.antt =====
-- Runs of the catalog on a small history, and its theorems at it.
use aether_mesh.Base.{◌≡◌, refl, List, [], ◌∷◌, length}
use aether_mesh.Base.Assoc.{lookup, insert}
use aether_mesh.Catalog.{record_data, forget_node, add_location, drop_location, holds, local_bytes}
use aether_mesh.Catalog.Run.{Op, records, forgets, step, run, held, holds-run}

-- Dataset 5 goes to nodes 1 and 2 and dataset 6 to node 1; then node 1 is forgotten.
abbrev history : List Op
history =
    forgets 1
    ∷ records (record { id = 6; size_bytes = 40 }) 1
    ∷ records (record { id = 5; size_bytes = 100 }) 2
    ∷ records (record { id = 5; size_bytes = 100 }) 1
    ∷ []

left_over : length (run history) ≡ 1
unfolding run step record_data forget_node add_location drop_location insert lookup
left_over = refl

bytes_of_two : local_bytes 2 (5 ∷ 6 ∷ []) (run history) ≡ 100
unfolding local_bytes run step record_data forget_node add_location drop_location insert lookup
bytes_of_two = refl

holds-run_example : holds 5 2 (run history) ≡ held history 5 2
holds-run_example = holds-run history 5 2
