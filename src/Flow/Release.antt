-- ===== src/Flow/Release.antt =====
-- What a failed step releases: how `run_inner` tells which steps to give up.
use aether_mesh.Base.{ℕ, ◌≡◌, refl, true, false, [], ◌∷◌, Option, none}
use aether_mesh.Base.Assoc.{insert, lookup, nat_eq}
use aether_mesh.Task.{Task, TaskResult, is_success}
use aether_mesh.Catalog.{Catalog, locations, no_locations}
use aether_mesh.Checkpoint.{Record}
use aether_mesh.Workflow.{Workflow, new_step, after, dependents_of}
use aether_mesh.Flow.{
  Run, Journaled, resume, decrement_all, fresh, with_ready, launch, release_all, release_one,
  abandon_further, settle, finish, flow_is_success, collect_results,
}

-- Step 2 depends on the steps 0 and 1, which depend on nothing.
abbrev pub join_of : ℕ → (a b c : Task) → Workflow
join_of id a b c = record { id = id; steps = new_step a ∷ new_step b ∷ after c (0 ∷ 1 ∷ []) ∷ [] }

abbrev pub started : Workflow → Run
started w = launch (with_ready w (fresh w))

-- A step runs although a step that it depends on has failed: where step 0 fails first and step 1
-- succeeds after it, step 2, which depends on both, is made ready and nothing is given up.
pub runs_after_failure :
    (journal : Option Journaled) (catalog catalog' : Catalog) (id : ℕ) (a b c : Task)
    (failed succeeded : TaskResult)
    → is_success failed ≡ false
    → is_success succeeded ≡ true
    → let w = join_of id a b c in
      let st = settle w catalog journal (started w) 0 failed in
      let end = settle w catalog' journal (launch st) 1 succeeded in
      (end.ready ≡ 2 ∷ []) × (end.abandoned ≡ [])
unfolding settle launch release_all release_one dependents_of new_step after
runs_after_failure journal catalog catalog' id a b c failed succeeded bad good =
    rw good (refl, refl)

-- A chain of four steps.
abbrev pub chain_of : ℕ → (a b c d : Task) → Workflow
chain_of id a b c d = record {
  id = id;
  steps = new_step a ∷ after b (0 ∷ []) ∷ after c (1 ∷ []) ∷ after d (2 ∷ []) ∷ [];
}

-- A step that is never run is not reported as skipped either: where the first step of a chain of
-- four fails, the run ends with the steps 1 and 2 as skipped, and step 3 is left out.
pub skipped_is_short :
    (journal : Option Journaled) (catalog : Catalog) (id bytes_moved : ℕ) (a b c d : Task)
    (failed : TaskResult)
    → is_success failed ≡ false
    → let w = chain_of id a b c d in
      let end = settle w catalog journal (started w) 0 failed in
      ((launch end).running ≡ [])
      × ((finish w bytes_moved end).steps_run ≡ 0 ∷ [])
      × ((finish w bytes_moved end).skipped ≡ 1 ∷ 2 ∷ [])
unfolding settle launch release_all release_one abandon_further dependents_of new_step after finish
    collect_results lookup insert
skipped_is_short journal catalog id bytes_moved a b c d failed bad = rw bad (refl, refl, refl)

-- Step 1 names step 0 twice.
abbrev pub twice_of : ℕ → (a b : Task) → Workflow
twice_of id a b = record { id = id; steps = new_step a ∷ after b (0 ∷ 0 ∷ []) ∷ [] }

-- A run is reported as a success although a step never ran: where a step names its dependency
-- twice, the run ends after the dependency, with nothing skipped and `is_success` true.
pub success_without_running :
    (journal : Option Journaled) (catalog : Catalog) (id bytes_moved : ℕ) (a b : Task)
    (succeeded : TaskResult)
    → is_success succeeded ≡ true
    → let w = twice_of id a b in
      let end = settle w catalog journal (started w) 0 succeeded in
      ((launch end).running ≡ [])
      × ((finish w bytes_moved end).steps_run ≡ 0 ∷ [])
      × (flow_is_success (finish w bytes_moved end) ≡ true)
unfolding settle launch release_all release_one dependents_of new_step after finish collect_results
    lookup insert flow_is_success
success_without_running journal catalog id bytes_moved a b succeeded good =
    rw good (refl, refl, refl)

-- A resumed step runs again: where the journal has step 1 of a chain of four, with its output still
-- in the mesh, and step 0 is run, the success of step 0 makes step 1 ready.
resumed_again :
    (catalog later : Catalog) (id : ℕ) (a b c d : Task) (r : Record) (succeeded : TaskResult)
    → no_locations (locations r.output_id catalog) ≡ false
    → is_success succeeded ≡ true
    → let w = chain_of id a b c d in
      let st = with_ready w (resume w catalog ((1, r) ∷ []) (0 ∷ 1 ∷ 2 ∷ 3 ∷ []) (fresh w)) in
      (st.resumed ≡ 1 ∷ [])
      × (st.ready ≡ 0 ∷ 2 ∷ [])
      × ((settle w later none (launch st) 0 succeeded).ready ≡ 1 ∷ [])
unfolding settle launch resume decrement_all release_all release_one dependents_of new_step after
    lookup
resumed_again catalog later id a b c d r succeeded held good = rw (held, good) (refl, refl, refl)
