-- ===== src/Cache.antt =====
-- crates/aether-controller/src/cache.rs: results of finished tasks, by the work they did.
-- Times are nanoseconds; `now` is an argument. The lock and the sharing of the handle are not
-- modelled.
mod Keys
mod Lookup
mod Run
mod Answers
pub mod Again
mod Tests
use Keys.{work_key_eq}
use aether_mesh.Base.{
  ℕ, ◌+◌, ◌-◌, ◌%◌, ltb, leb, ◌==◌, if◌then◌else◌, Bool, not, List, [], ◌∷◌, Option, none, some,
  length, filter, best, u64_mod,
}
use aether_mesh.Base.Assoc.{lookup, insert, remove}
use aether_mesh.Task.{Task, TaskResult, TaskId, Hash, is_success}
pub use Keys.{WorkKey}

unfoldable pub work_key : Hash → Task → WorkKey
work_key hash task = record {
  kind = task.kind;
  payload = hash task.payload;
  program = task.module_id;
  inputs = task.inputs;
}

pub record Entry : Type 0 where
  pub result : TaskResult
  pub stored : ℕ

-- `Inner`.
pub record Cache : Type 0 where
  pub entries : List (WorkKey × Entry)
  pub hits : ℕ
  pub misses : ℕ
  pub capacity : ℕ
  pub ttl : Option ℕ

unfoldable pub new : ℕ → Cache
new capacity = record { entries = []; hits = 0; misses = 0; capacity = capacity; ttl = none }

unfoldable pub with_ttl : Cache → ℕ → Cache
with_ttl c ttl = record c { ttl = some ttl }

abbrev pub is_young : ℕ → ℕ → WorkKey × Entry → Bool
is_young now ttl e = ltb (now - e.1.stored) ttl

-- The `retain` of `get`.
unfoldable pub forget_old : ℕ → Option ℕ → List (WorkKey × Entry) → List (WorkKey × Entry)
forget_old now none entries = entries
forget_old now (some ttl) entries = filter (is_young now ttl) entries

unfoldable pub get : Hash → Task → ℕ → Cache → Cache × Option TaskResult
get hash task now c =
    let kept = forget_old now c.ttl c.entries in
    elim (lookup (work_key hash task) kept) [
      | none ↦ (record c { entries = kept; misses = (c.misses + 1) % u64_mod }, none)
      | some entry ↦ (
        record c { entries = kept; hits = (c.hits + 1) % u64_mod },
        some (record entry.result { task_id = task.id }),
      )
    ]

-- `min_by_key` on `stored`.
abbrev pub stored_before : WorkKey × Entry → WorkKey × Entry → Bool
stored_before e b = ltb e.1.stored b.1.stored

unfoldable pub drop_oldest : List (WorkKey × Entry) → List (WorkKey × Entry)
drop_oldest entries = elim (best stored_before entries) [
  | none ↦ entries
  | some (index, oldest) ↦ remove oldest.0 entries
]

unfoldable pub put : Hash → Task → TaskResult → ℕ → Cache → Cache
put hash task result now c =
    if not (is_success result)
    then c
    else if c.capacity == 0
    then c
    else let entries =
        if leb c.capacity (length c.entries) then drop_oldest c.entries else c.entries in
      record c {
        entries = insert (work_key hash task) (record { result = result; stored = now }) entries;
      }

unfoldable pub stats : Cache → ℕ × ℕ
stats c = (c.hits, c.misses)

unfoldable pub len : Cache → ℕ
len c = length c.entries

unfoldable pub clear : Cache → Cache
clear c = record c { entries = [] }
