-- ===== src/Cache/Answers.antt =====
-- What `get` answers.
use aether_mesh.Base.{
  ℕ, ◌-◌, ◌<◌, ◌≡◌, inl, inr, true, Option-cases, List, [], ◌∷◌, Option, none, some, In, arith,
}
use aether_mesh.Base.Assoc.{lookup}
use aether_mesh.Task.{Task, TaskResult, Hash, is_success}
use aether_mesh.Cache.Keys.{work_key_eq}
use aether_mesh.Cache.{Entry, Cache, work_key, new, with_ttl, forget_old, get, clear}
use aether_mesh.Cache.Run.{
  Call, puts, gets, clears, step, run, IsFaithful, IsFaithful-later, get-IsFaithful, put-IsFaithful,
  forget_old-lookup,
}

-- On a cache that starts without results, any sequence of calls leaves at most `capacity` of them,
-- none of which is a failure, and each of which was put for the work that it is kept under.
pub run-IsFaithful :
    (hash : Hash) (c : Cache) (calls : List Call)
    → IsFaithful hash [] c
    → IsFaithful hash calls (run hash c calls)
unfolding run step clear lookup
run-IsFaithful hash c [] f = f
run-IsFaithful hash c (puts task result now ∷ calls) f =
    put-IsFaithful hash task result now calls (run hash c calls) (run-IsFaithful hash c calls f)
run-IsFaithful hash c (gets task now ∷ calls) f =
    IsFaithful-later hash (gets task now) calls (get hash task now (run hash c calls)).0
      (get-IsFaithful hash task now calls (run hash c calls) (run-IsFaithful hash c calls f))
run-IsFaithful hash c (clears ∷ calls) f = record {
  distinct = tt;
  bounded = omega arith;
  origin = λ k e no. absurd (ground arith);
}

pub with_ttl-IsFaithful :
    (hash : Hash) (capacity ttl : ℕ) → IsFaithful hash [] (with_ttl (new capacity) ttl)
unfolding with_ttl new lookup
with_ttl-IsFaithful hash capacity ttl = record {
  distinct = tt;
  bounded = omega arith;
  origin = λ k e no. absurd (ground arith);
}

get-found :
    (hash : Hash) (task : Task) (now : ℕ) (c : Cache) (answer : TaskResult)
    → (get hash task now c).1 ≡ some answer
    → (e : Entry) × (lookup (work_key hash task) (forget_old now c.ttl c.entries) ≡ some e)
      × (record e.result { task_id = task.id } ≡ answer)
unfolding get
get-found hash task now c answer h =
    elim (Option-cases (lookup (work_key hash task) (forget_old now c.ttl c.entries))) [
      | inl absent ↦ let no : none ≡ some answer = (rw (get, absent) at h) in absurd (ground arith)
      | inr (e, found) ↦
          let yes : some (record e.result { task_id = task.id }) ≡ some answer =
            (rw (get, found) at h) in
          (e, found, ground arith)
    ]

-- Where an answer comes from: a call that put a success for the same work, recently enough.
pub record Origin (hash : Hash) (calls : List Call) (task : Task) (now : ℕ) (ttl : Option ℕ)
    (answer : TaskResult) : Type 0 where
  pub before : Task
  pub result : TaskResult
  pub at_time : ℕ
  pub called : In (puts before result at_time) calls
  pub same_work : work_key hash before ≡ work_key hash task
  pub succeeded : is_success result ≡ true
  pub young : (limit : ℕ) → ttl ≡ some limit → now - at_time < limit
  pub adopted : record result { task_id = task.id } ≡ answer

-- On a cache that starts without results, a hit is the success that an earlier call put for the
-- same kind, payload, module and inputs, not older than the time to live, under the id of the task
-- that asks.
pub get-Origin :
    (hash : Hash) (c : Cache) (calls : List Call) (task : Task) (now : ℕ) (answer : TaskResult)
    → IsFaithful hash [] c
    → (get hash task now (run hash c calls)).1 ≡ some answer
    → Origin hash calls task now (run hash c calls).ttl answer
get-Origin hash c calls task now answer start h =
    let after = run hash c calls in
    let f = run-IsFaithful hash c calls start in
    let (e, found, same) = get-found hash task now after answer h in
    let (there, young) =
      forget_old-lookup now after.ttl (work_key hash task) e after.entries f.distinct found in
    let put_before = f.origin (work_key hash task) e there in
    record {
      before = put_before.task;
      result = e.result;
      at_time = e.stored;
      called = put_before.called;
      same_work = put_before.same_work;
      succeeded = put_before.succeeded;
      young = young;
      adopted = same;
    }
