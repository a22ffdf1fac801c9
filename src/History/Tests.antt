-- ===== src/History/Tests.antt =====
-- The history on concrete results.
use aether_mesh.Base.{◌≡◌, refl, [], ◌∷◌, map, none, List}
use aether_mesh.Task.{Task, new_task, success, Bytes}
use aether_mesh.History.{Finished, new, recent, preview, entry_of, record_finished, drop_oldest}
use aether_mesh.History.Ring.{Finish, run, run-recent}

abbrev echoed : Bytes
echoed = b'o' ∷ b'k' ∷ 10 ∷ []

abbrev finish : Task → Finish
finish task = (
  task,
  record {
    task_id = task.id;
    node_id = 7;
    outcome = success echoed;
    duration = 5;
    output_id = none;
  },
  100,
)

abbrev finishes : List Finish
finishes = finish (new_task 3 [] []) ∷ finish (new_task 2 [] []) ∷ finish (new_task 1 [] []) ∷ []

shown_as_text : preview echoed ≡ b'o' ∷ b'k' ∷ b'.' ∷ []
unfolding preview
shown_as_text = refl

two_latest : map (λ (e : Finished). e.task_id) (recent 5 (run finishes (new 2))) ≡ 3 ∷ 2 ∷ []
unfolding run new recent record_finished drop_oldest entry_of new_task
two_latest = refl

run-recent_example :
    recent 5 (run finishes (new 2))
    ≡ map
        (λ (f : Finish). entry_of f.0 f.1 f.2)
        (finish (new_task 3 [] []) ∷ finish (new_task 2 [] []) ∷ [])
run-recent_example = run-recent finishes 2 5
