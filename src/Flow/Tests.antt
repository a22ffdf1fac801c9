-- ===== src/Flow/Tests.antt =====
-- The theorems on workflow runs at small inputs.
use aether_mesh.Base.{ℕ, ◌≡◌, refl, true, false, [], ◌∷◌, none, some, contains, All, arith}
use aether_mesh.Base.Assoc.{lookup}
use aether_mesh.Base.Result.{ok}
use aether_mesh.Task.{Task, TaskResult, TaskOutcome, success, failure, is_success, new_task}
use aether_mesh.Workflow.{
  Workflow, depends, order, new_step, after, reached, rounds, release, build_dependents,
  add_dependents, dependents_of,
}
use aether_mesh.Workflow.Order.{IsPlan}
use aether_mesh.Flow.{
  Run, fresh, with_ready, start, resume, launch, settle, finish, release_all, release_one,
  flow_is_success,
}
use aether_mesh.Flow.Release.{
  join_of, chain_of, twice_of, started, runs_after_failure, skipped_is_short,
  success_without_running,
}
use aether_mesh.Flow.Counts.{NamesOnce}
use aether_mesh.Flow.Success.{Succeeds, begins, goes_on, finished, running-finished, success-IsPlan}

abbrev job : Task
job = new_task 0 [] []

abbrev answer : TaskOutcome → TaskResult
answer outcome = record {
  task_id = 0;
  node_id = 1;
  outcome = outcome;
  duration = 1;
  output_id = some 9;
}

abbrev good : TaskResult
good = answer (success [])

abbrev bad : TaskResult
bad = answer (failure [])

good-is_success : is_success good ≡ true
unfolding is_success
good-is_success = refl

bad_is_failure : is_success bad ≡ false
unfolding is_success
bad_is_failure = refl

runs_after_failure_example :
    let w = join_of 0 job job job in
    let st = settle w [] none (started w) 0 bad in
    let end = settle w [] none (launch st) 1 good in (end.ready ≡ 2 ∷ []) × (end.abandoned ≡ [])
runs_after_failure_example =
    runs_after_failure none [] [] 0 job job job bad good bad_is_failure good-is_success

skipped_is_short_example :
    let w = chain_of 0 job job job job in
    let end = settle w [] none (started w) 0 bad in
    ((launch end).running ≡ [])
    × ((finish w 0 end).steps_run ≡ 0 ∷ [])
    × ((finish w 0 end).skipped ≡ 1 ∷ 2 ∷ [])
skipped_is_short_example = skipped_is_short none [] 0 0 job job job job bad bad_is_failure

success_without_running_example :
    let w = twice_of 0 job job in
    let end = settle w [] none (started w) 0 good in
    ((launch end).running ≡ [])
    × ((finish w 0 end).steps_run ≡ 0 ∷ [])
    × (flow_is_success (finish w 0 end) ≡ true)
success_without_running_example = success_without_running none [] 0 0 job job good good-is_success

-- A chain of two steps, run to its end.
abbrev pair : Workflow
pair = record { id = 0; steps = new_step job ∷ after job (0 ∷ []) ∷ [] }

pair-NamesOnce : NamesOnce pair.steps
unfolding new_step after
pair-NamesOnce ℕ.zero d = omega arith
pair-NamesOnce (ℕ.suc ℕ.zero) d = ground arith
pair-NamesOnce (ℕ.suc (ℕ.suc i)) d = omega arith

order-pair : order pair ≡ ok (0 ∷ 1 ∷ [])
unfolding order reached rounds release build_dependents add_dependents new_step after
order-pair = refl

start-pair : start pair [] none [] ≡ ok (with_ready pair (fresh pair))
unfolding start order reached rounds release build_dependents add_dependents new_step after resume
    lookup
start-pair = refl

abbrev pair_start : Run
pair_start = with_ready pair (fresh pair)

abbrev pair_middle : Run
pair_middle = settle pair [] none (launch pair_start) 0 good

abbrev pair_end : Run
pair_end = settle pair [] none (launch pair_middle) 1 good

middle_runs : contains (launch pair_middle).running 1 ≡ true
unfolding launch settle release_all release_one dependents_of new_step after is_success
middle_runs = refl

pair_middle-Succeeds : Succeeds pair none pair_middle
pair_middle-Succeeds =
    goes_on [] pair_start 0 good (begins [] [] pair_start start-pair) first_runs good-is_success
  where
    first_runs : contains (launch pair_start).running 0 ≡ true
    first_runs = unfold launch new_step after in refl

pair_end-Succeeds : Succeeds pair none pair_end
pair_end-Succeeds = goes_on [] pair_middle 1 good pair_middle-Succeeds middle_runs good-is_success

pair_end_idle : (launch pair_end).running ≡ []
unfolding launch settle release_all release_one dependents_of new_step after is_success
pair_end_idle = refl

running-finished_example :
    All (λ d. contains (finished pair_middle) d ≡ true) (depends pair.steps 1)
running-finished_example =
    running-finished pair none pair-NamesOnce pair_middle 1 pair_middle-Succeeds middle_runs

success-IsPlan_example :
    IsPlan pair.steps (finished pair_end) × ((finish pair 0 pair_end).skipped ≡ [])
success-IsPlan_example =
    success-IsPlan pair none pair-NamesOnce pair_end (0 ∷ 1 ∷ []) 0 order-pair pair_end-Succeeds
      pair_end_idle
