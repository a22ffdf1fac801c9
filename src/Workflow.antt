-- ===== src/Workflow.antt =====
-- crates/aether-core/src/workflow.rs: tasks that depend on other tasks, and the order they run in.
-- The generated id is an argument. `Vec` reads and writes are those of Base/Vectors.
pub mod Deps
pub mod Rounds
pub mod Order
pub mod Acyclic
mod Tests
use aether_mesh.Base.{
  ℕ, zero, suc, ◌+◌, ◌-◌, ltb, leb, ◌==◌, if◌then◌else◌, Bool, true, false, not, List, [], ◌∷◌,
  ◌++◌, map, Option, none, some, length, contains, filter, range, get_or, update_at, replicate,
  insert_at, partition_point, max,
}
use aether_mesh.Base.Result.{Result, ok, err, ◌>>=◌}
use aether_mesh.Task.{Task}

pub record Step : Type 0 where
  pub task : Task
  pub depends_on : List ℕ

unfoldable pub new_step : Task → Step
new_step task = record { task = task; depends_on = [] }

unfoldable pub after : Task → List ℕ → Step
after task depends_on = record { task = task; depends_on = depends_on }

pub data WorkflowError : Type 0 where
  empty : WorkflowError
  unknown_dependency : (step missing : ℕ) → WorkflowError
  self_dependency : (step : ℕ) → WorkflowError
  cycle : (stuck : List ℕ) → WorkflowError
  unknown_step : (step : ℕ) → WorkflowError

pub record Workflow : Type 0 where
  pub id : ℕ
  pub steps : List Step

-- `steps[i].depends_on`.
abbrev pub depends : List Step → ℕ → List ℕ
depends [] i = []
depends (s ∷ ss) zero = s.depends_on
depends (s ∷ ss) (suc i) = depends ss i

unfoldable pub len : Workflow → ℕ
len w = length w.steps

-- The loop over `depends_on` of one step in `validate`.
unfoldable pub check_dependencies : ℕ → ℕ → List ℕ → Result WorkflowError (Unit {0})
check_dependencies n index [] = ok tt
check_dependencies n index (dependency ∷ ds) =
    if dependency == index
    then err (self_dependency index)
    else if leb n dependency
    then err (unknown_dependency index dependency)
    else check_dependencies n index ds

-- The loop over the steps in `validate`.
unfoldable pub check_steps : ℕ → ℕ → List Step → Result WorkflowError (Unit {0})
check_steps n index [] = ok tt
check_steps n index (s ∷ ss) =
    check_dependencies n index s.depends_on >>= λ _. check_steps n (suc index) ss

-- `dependents[dependency].push(index)` for each dependency of one step, where it is in range.
unfoldable pub add_dependents : ℕ → List ℕ → List (List ℕ) → List (List ℕ)
add_dependents index [] table = table
add_dependents index (dependency ∷ ds) table =
    add_dependents index ds (update_at dependency (λ list. list ++ (index ∷ [])) table)

unfoldable pub build_dependents : ℕ → List Step → List (List ℕ) → List (List ℕ)
build_dependents index [] table = table
build_dependents index (s ∷ ss) table =
    build_dependents (suc index) ss (add_dependents index s.depends_on table)

-- The loop over `dependents[index]`: `remaining` and `ready` after it.
unfoldable pub release : List ℕ → List ℕ → List ℕ → List ℕ × List ℕ
release remaining ready [] = (remaining, ready)
release remaining ready (dependent ∷ ds) =
    let left = get_or remaining dependent 0 - 1 in
    release (update_at dependent (λ r. r - 1) remaining)
      (if left == 0
        then insert_at (partition_point (λ waiting. ltb waiting dependent) ready) dependent ready
        else ready)
      ds

-- The `while` loop of `order`. Each round moves a step into `order`, so `steps.len()` rounds do.
unfoldable pub rounds : ℕ → List (List ℕ) → List ℕ → List ℕ → List ℕ → List ℕ
rounds zero dependents remaining ready order = order
rounds (suc fuel) dependents remaining [] order = order
rounds (suc fuel) dependents remaining (index ∷ ready) order =
    let (remaining', ready') = release remaining ready (get_or dependents index []) in
    rounds fuel dependents remaining' ready' (order ++ (index ∷ []))

abbrev pub dependents_table : List Step → List (List ℕ)
dependents_table steps = build_dependents 0 steps (replicate (length steps) [])

abbrev pub remaining_of : List Step → List ℕ
remaining_of steps = map (λ (s : Step). length s.depends_on) steps

-- The steps that the loop of `order` reaches.
unfoldable pub reached : List Step → List ℕ
reached steps =
    let remaining = remaining_of steps in
    rounds (length steps) (dependents_table steps) remaining
      (filter (λ index. get_or remaining index 0 == 0) (range (length steps))) []

unfoldable pub order : Workflow → Result WorkflowError (List ℕ)
order w =
    let plan = reached w.steps in
    if length plan == length w.steps
    then ok plan
    else err (cycle (filter (λ index. not (contains plan index)) (range (length w.steps))))

unfoldable pub validate : Workflow → Result WorkflowError (Unit {0})
validate w = elim w.steps [
  | [] ↦ err empty
  | _ ∷ _ ↦ check_steps (length w.steps) 0 w.steps >>= λ _. order w >>= λ plan. ok tt
]

-- `Workflow::new`, with the generated id as an argument.
unfoldable pub new : ℕ → List Step → Result WorkflowError Workflow
new id steps = let w : Workflow = record { id = id; steps = steps } in validate w >>= λ _. ok w

unfoldable pub parallel : ℕ → List Task → Result WorkflowError Workflow
parallel id tasks = new id (map new_step tasks)

-- The `match` of `chain`.
abbrev pub link : ℕ → Task → Step
link zero task = new_step task
link (suc index) task = after task ((suc index - 1) ∷ [])

-- The steps of `chain`, from `index` on.
unfoldable pub chain_steps : ℕ → List Task → List Step
chain_steps index [] = []
chain_steps index (task ∷ tasks) = link index task ∷ chain_steps (suc index) tasks

unfoldable pub chain : ℕ → List Task → Result WorkflowError Workflow
chain id tasks = new id (chain_steps 0 tasks)

abbrev pub is_nil : List ℕ → Bool
is_nil [] = true
is_nil (x ∷ xs) = false

unfoldable pub roots : Workflow → List ℕ
roots w = filter (λ index. is_nil (depends w.steps index)) (range (length w.steps))

unfoldable pub dependents_of : Workflow → ℕ → List ℕ
dependents_of w step =
    filter (λ index. contains (depends w.steps index) step) (range (length w.steps))

-- `max().unwrap_or(0)` of `depth[dependency] + 1`.
unfoldable pub deepest : List ℕ → List ℕ → ℕ
deepest depth [] = 0
deepest depth (dependency ∷ ds) = max (get_or depth dependency 0 + 1) (deepest depth ds)

unfoldable pub set_depths : List Step → List ℕ → List ℕ → List ℕ
set_depths steps [] depth = depth
set_depths steps (index ∷ plan) depth =
    set_depths steps plan (update_at index (λ _. deepest depth (depends steps index)) depth)

abbrev pub maximum : List ℕ → ℕ
maximum [] = 0
maximum (x ∷ xs) = max x (maximum xs)

abbrev pub wave_count : List ℕ → ℕ
wave_count [] = 0
wave_count (x ∷ xs) = maximum (x ∷ xs) + 1

-- `waves[level].push(index)` for each level in turn.
unfoldable pub fill_waves : ℕ → List ℕ → List (List ℕ) → List (List ℕ)
fill_waves index [] waves = waves
fill_waves index (level ∷ levels) waves =
    fill_waves (suc index) levels (update_at level (λ wave. wave ++ (index ∷ [])) waves)

unfoldable pub waves : Workflow → Result WorkflowError (List (List ℕ))
waves w = order w >>= λ plan.
    let depth = set_depths w.steps plan (replicate (length w.steps) 0) in
    ok (fill_waves 0 depth (replicate (wave_count depth) []))
