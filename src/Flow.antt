-- ===== src/Flow.antt =====
-- crates/aether-controller/src/flow.rs: running a workflow, each step after those it waits for.
-- The `JoinSet` of running steps is a list; which of them finishes next, and with what, is chosen
-- by the environment. What dispatch returns is part of that choice; the catalog at the moment of
-- joining and the byte counters are arguments. `usize` counters never fall below 0 here.
pub mod Release
mod Counts
pub mod Success
mod Tests
use aether_mesh.Base.Sort.{sort_by, sort, dedup}
use aether_mesh.Base.{
  u64_mod, ℕ, zero, suc, ◌+◌, ◌-◌, ltb, leb, ◌==◌, if◌then◌else◌, Bool, true, false, not, ◌&&◌,
  ◌||◌, List, [], ◌∷◌, ◌++◌, map, Option, none, some, length, contains, filter, range, get_or,
  update_at, In, All,
}
use aether_mesh.Base.Assoc.{lookup, insert, contains_key, nat_eq}
use aether_mesh.Base.Result.{Result, ok, err, ◌>>=◌}
use aether_mesh.Text.{Text}
use aether_mesh.Task.{Task, TaskResult, DataId, NodeId, is_success, output}
use aether_mesh.Traffic.{as_millis}
use aether_mesh.Catalog.{Catalog, holds, locations, no_locations}
use aether_mesh.Workflow.{Step, Workflow, WorkflowError, depends, order, dependents_of}
use aether_mesh.Checkpoint.{Record, CheckpointError, completed}

pub data FlowError : Type 0 where
  invalid : WorkflowError → FlowError
  dispatch : (step : ℕ) (source : Text) → FlowError
  checkpoint : CheckpointError → FlowError
  lost : (reason : Text) → FlowError

pub record Placement : Type 0 where
  pub step : ℕ
  pub node_id : NodeId
  pub output_bytes : ℕ
  pub inputs_local : ℕ
  pub inputs_moved : ℕ

pub record FlowResult : Type 0 where
  pub results : List TaskResult
  pub steps_run : List ℕ
  pub skipped : List ℕ
  pub resumed : List ℕ
  pub placements : List Placement
  pub bytes_moved : ℕ

-- The local variables of `run_inner`, and the records appended to the journal.
pub record Run : Type 0 where
  pub waiting : List ℕ
  pub outputs : List (ℕ × DataId)
  pub results : List (ℕ × TaskResult)
  pub placements : List Placement
  pub abandoned : List ℕ
  pub resumed : List ℕ
  pub ready : List ℕ
  pub running : List ℕ
  pub appended : List Record

-- A named run with the fingerprint of the workflow, where a journal is configured.
pub record Journaled : Type 0 where
  pub run : Text
  pub fingerprint : Text

-- `-= 1` on a `usize` of 64 bits, which wraps in a release build; with overflow checks 0 panics.
abbrev pub step_down : ℕ → ℕ
step_down n = if n == 0 then u64_mod - 1 else n - 1

-- `waiting[dependent] -= 1` for each step that waits on one.
unfoldable pub decrement_all : List ℕ → List ℕ → List ℕ
decrement_all [] waiting = waiting
decrement_all (dependent ∷ ds) waiting = decrement_all ds (update_at dependent step_down waiting)

-- The loop over `order` that takes finished steps from the journal.
abbrev pub resume_one : Workflow → Catalog → ℕ → Option Record → Run → Run
resume_one w catalog step none st = st
resume_one w catalog step (some r) st =
    if no_locations (locations r.output_id catalog) then st else record st {
      outputs = insert step r.output_id st.outputs;
      resumed = st.resumed ++ (step ∷ []);
      waiting = decrement_all (dependents_of w step) st.waiting;
    }

unfoldable pub resume : Workflow → Catalog → List (ℕ × Record) → List ℕ → Run → Run
resume w catalog done [] st = st
resume w catalog done (step ∷ plan) st =
    resume w catalog done plan (resume_one w catalog step (lookup step done) st)

abbrev pub fresh : Workflow → Run
fresh w = record {
  waiting = map (λ (s : Step). length s.depends_on) w.steps;
  outputs = [];
  results = [];
  placements = [];
  abandoned = [];
  resumed = [];
  ready = [];
  running = [];
  appended = [];
}

-- The steps that wait for nothing and were not resumed.
abbrev pub with_ready : Workflow → Run → Run
with_ready w st = record st {
  ready =
      filter (λ step. get_or st.waiting step 0 == 0 && not (contains st.resumed step))
        (range (length w.steps));
}

abbrev pub completed_of :
    Option Journaled → List Record → Result CheckpointError (List (ℕ × Record))
completed_of none records = ok []
completed_of (some j) records = completed j.run j.fingerprint records

abbrev pub or_invalid : Result WorkflowError (List ℕ) → Result FlowError (List ℕ)
or_invalid (ok plan) = ok plan
or_invalid (err e) = err (invalid e)

abbrev pub or_checkpoint :
    Result CheckpointError (List (ℕ × Record)) → Result FlowError (List (ℕ × Record))
or_checkpoint (ok done) = ok done
or_checkpoint (err e) = err (checkpoint e)

-- `run_inner` up to its loop.
unfoldable pub start : Workflow → Catalog → Option Journaled → List Record → Result FlowError Run
start w catalog journal records = or_invalid (order w) >>= λ plan.
    or_checkpoint (completed_of journal records) >>= λ done.
    ok (with_ready w (resume w catalog done plan (fresh w)))

-- `std::mem::take(&mut ready)`, each step spawned.
unfoldable pub launch : Run → Run
launch st = record st { ready = []; running = st.running ++ st.ready }

-- `task_for`.
abbrev pub add_input : Option DataId → Task → Task
add_input none task = task
add_input (some output_id) task =
    if contains task.inputs output_id
    then task
    else record task { inputs = task.inputs ++ (output_id ∷ []) }

unfoldable pub add_outputs : List (ℕ × DataId) → List ℕ → Task → Task
add_outputs outputs [] task = task
add_outputs outputs (dependency ∷ ds) task =
    add_outputs outputs ds (add_input (lookup dependency outputs) task)

abbrev pub task_at : List Step → ℕ → Option Task
task_at [] step = none
task_at (s ∷ ss) zero = some s.task
task_at (s ∷ ss) (suc step) = task_at ss step

-- The task that `run_inner` submits for a step; a step out of range is the panic of indexing.
unfoldable pub task_for : Workflow → ℕ → List (ℕ × DataId) → Option Task
task_for w step outputs = elim (task_at w.steps step) [
  | none ↦ none
  | some task ↦ some (add_outputs outputs (depends w.steps step) task)
]

unfoldable pub known_outputs : List (ℕ × DataId) → List ℕ → List DataId
known_outputs outputs [] = []
known_outputs outputs (dependency ∷ ds) = elim (lookup dependency outputs) [
  | none ↦ known_outputs outputs ds
  | some id ↦ id ∷ known_outputs outputs ds
]

abbrev pub output_length : Option (List ℕ) → ℕ
output_length none = 0
output_length (some bytes) = length bytes

unfoldable pub placement_for : Catalog → Workflow → ℕ → List (ℕ × DataId) → TaskResult → Placement
placement_for catalog w step outputs result =
    let dependencies = known_outputs outputs (depends w.steps step) in
    let local = length (filter (λ input. holds input result.node_id catalog) dependencies) in
    record {
      step = step;
      node_id = result.node_id;
      output_bytes = output_length (output result);
      inputs_local = local;
      inputs_moved = length dependencies - local;
    }

abbrev pub store_output : ℕ → Option DataId → List (ℕ × DataId) → List (ℕ × DataId)
store_output step none outputs = outputs
store_output step (some id) outputs = insert step id outputs

abbrev pub record_of : Option Journaled → ℕ → TaskResult → Option DataId → List Record
record_of none step result output_id = []
record_of (some j) step result none = []
record_of (some j) step result (some id) =
    if is_success result
    then record {
      run = j.run;
      fingerprint = j.fingerprint;
      step = step;
      task_id = result.task_id;
      node_id = result.node_id;
      output_id = id;
      duration_ms = as_millis result.duration;
    }
      ∷ []
    else []

-- The inner loop of giving up: the steps that wait on an abandoned one.
unfoldable pub abandon_further : List ℕ → List ℕ → List ℕ → List ℕ × List ℕ
abandon_further [] waiting abandoned = (waiting, abandoned)
abandon_further (further ∷ fs) waiting abandoned =
    let waiting' = update_at further step_down waiting in
    abandon_further fs waiting'
      (if get_or waiting' further 0 == 0 then abandoned ++ (further ∷ []) else abandoned)

-- The variables that the loop over the dependents of a finished step changes.
pub record Released : Type 0 where
  pub waiting : List ℕ
  pub ready : List ℕ
  pub abandoned : List ℕ

abbrev pub give_up : Released → List ℕ × List ℕ → Released
give_up r (waiting, abandoned) = record {
  waiting = waiting;
  ready = r.ready;
  abandoned = abandoned;
}

-- One round of that loop.
unfoldable pub release_one : Workflow → Bool → ℕ → Released → ℕ → Released
release_one w succeeded step r dependent =
    let waiting = update_at dependent step_down r.waiting in
    if ltb 0 (get_or waiting dependent 0)
    then record r { waiting = waiting }
    else if succeeded && not (contains r.abandoned step)
    then record r { waiting = waiting; ready = r.ready ++ (dependent ∷ []) }
    else give_up r
        (abandon_further (dependents_of w dependent) waiting (r.abandoned ++ (dependent ∷ [])))

unfoldable pub release_all : Workflow → Bool → ℕ → List ℕ → Released → Released
release_all w succeeded step [] r = r
release_all w succeeded step (dependent ∷ ds) r =
    release_all w succeeded step ds (release_one w succeeded step r dependent)

-- One round of the loop of `run_inner`, from the result of the step that finished.
unfoldable pub settle : Workflow → Catalog → Option Journaled → Run → ℕ → TaskResult → Run
settle w catalog journal st step result =
    let r : Released =
      release_all w (is_success result) step (dependents_of w step)
        (record { waiting = st.waiting; ready = st.ready; abandoned = st.abandoned }) in
    record {
      waiting = r.waiting;
      outputs = store_output step result.output_id st.outputs;
      results = insert step result st.results;
      placements = st.placements ++ (placement_for catalog w step st.outputs result ∷ []);
      abandoned = r.abandoned;
      resumed = st.resumed;
      ready = sort r.ready;
      running = filter (λ other. not (other == step)) st.running;
      appended = st.appended ++ record_of journal step result result.output_id;
    }

-- What `join_next` hands over: the dispatch's answer, its error, or a panic of the task.
pub data Finished : Type 0 where
  returned : TaskResult → Finished
  failed : (source : Text) → Finished
  panicked : (reason : Text) → Finished

unfoldable pub join :
    Workflow → Catalog → Option Journaled → Run → ℕ → Finished → Result FlowError Run
join w catalog journal st step (returned result) = ok (settle w catalog journal st step result)
join w catalog journal st step (failed source) = err (dispatch step source)
join w catalog journal st step (panicked reason) = err (lost reason)

unfoldable pub collect_results : List ℕ → List (ℕ × TaskResult) → List (ℕ × TaskResult)
collect_results [] results = []
collect_results (step ∷ steps) results = elim (lookup step results) [
  | none ↦ collect_results steps results
  | some result ↦ (step, result) ∷ collect_results steps results
]

-- The end of `run_inner`.
unfoldable pub finish : Workflow → ℕ → Run → FlowResult
finish w bytes_moved st =
    let ordered = collect_results (range (length w.steps)) st.results in
    record {
      results = map (λ (p : ℕ × TaskResult). p.1) ordered;
      steps_run = map (λ (p : ℕ × TaskResult). p.0) ordered;
      skipped = dedup (sort st.abandoned);
      resumed = sort st.resumed;
      placements = sort_by (λ (p : Placement). p.step) st.placements;
      bytes_moved = bytes_moved;
    }

abbrev pub nothing_in : List ℕ → Bool
nothing_in [] = true
nothing_in (x ∷ xs) = false

abbrev pub all_success : List TaskResult → Bool
all_success [] = true
all_success (r ∷ rs) = is_success r && all_success rs

-- `FlowResult::is_success` and `FlowResult::nodes_used`.
unfoldable pub flow_is_success : FlowResult → Bool
flow_is_success result = nothing_in result.skipped && all_success result.results

unfoldable pub nodes_used : FlowResult → ℕ
nodes_used result = length (dedup (sort (map (λ (p : Placement). p.node_id) result.placements)))

abbrev pub first_failed : ℕ → List TaskResult → Option (ℕ × TaskResult)
first_failed index [] = none
first_failed index (r ∷ rs) = if is_success r then first_failed (suc index) rs else some (index, r)

-- `FlowResult::first_failure`.
unfoldable pub first_failure : FlowResult → Option (ℕ × TaskResult)
first_failure result = first_failed 0 result.results
