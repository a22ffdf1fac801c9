-- ===== src/Cache/Tests.antt =====
-- Runs of a cache for two results, and the theorems at them.
use aether_mesh.Base.{◌≡◌, refl, List, [], ◌∷◌, none, some, sum}
use aether_mesh.Base.Assoc.{lookup, insert}
use aether_mesh.Text.{text_eq}
use aether_mesh.Task.{Task, TaskResult, new_task, Hash, success, failure, is_success}
use aether_mesh.Cache.{Cache, work_key, new, with_ttl, forget_old, get, put}
use aether_mesh.Cache.Run.{Call, puts, step, run, IsFaithful}
use aether_mesh.Cache.Answers.{Origin, run-IsFaithful, with_ttl-IsFaithful, get-Origin}

abbrev weigh : Hash
weigh bytes = sum bytes

-- Ids differ, the work of payload 4 is the same.
abbrev job : Task
job = new_task 1 [] (4 ∷ [])

abbrev again : Task
again = new_task 2 [] (4 ∷ [])

abbrev good : TaskResult
good = record {
  task_id = 1;
  node_id = 9;
  outcome = success (7 ∷ []);
  duration = 3;
  output_id = none;
}

abbrev calls : List Call
calls =
    puts (new_task 3 [] (6 ∷ [])) (record good { outcome = failure [] }) 5
    ∷ puts (new_task 4 [] (5 ∷ [])) good 3
    ∷ puts job good 1
    ∷ []

abbrev cache : Cache
cache = with_ttl (new 2) 60

hit : (get weigh again 10 (run weigh cache calls)).1 ≡ some (record good { task_id = 2 })
unfolding get run step put with_ttl new forget_old work_key new_task lookup insert text_eq
    is_success
hit = refl

too_old : (get weigh again 61 (run weigh cache calls)).1 ≡ none
unfolding get run step put with_ttl new forget_old work_key new_task lookup insert text_eq
    is_success
too_old = refl

run-IsFaithful_example : IsFaithful weigh calls (run weigh cache calls)
run-IsFaithful_example = run-IsFaithful weigh cache calls (with_ttl-IsFaithful weigh 2 60)

get-Origin_example :
    Origin weigh calls again 10 (run weigh cache calls).ttl (record good { task_id = 2 })
get-Origin_example =
    get-Origin weigh cache calls again 10 (record good { task_id = 2 })
      (with_ttl-IsFaithful weigh 2 60) hit
