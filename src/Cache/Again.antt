-- ===== src/Cache/Again.antt =====
-- What the cache answers to work that it has answered or kept before, without a time to live.
use aether_mesh.Base.{
  List, ℕ, ◌+◌, ◌%◌, u64_mod, List, ◌≡◌, ◌≢◌, refl, ap, ◌∙◌, inl, inr, ◌==◌, true, false,
  Option-cases, if◌then◌else◌, Option, none, some, leb, length, arith,
}
use aether_mesh.Base.Assoc.{lookup, lookup-insert_self}
use aether_mesh.Task.{Task, TaskResult, TaskId, Hash, is_success}
use aether_mesh.Cache.{Cache, Entry, WorkKey, work_key, get, put, forget_old, drop_oldest}
use aether_mesh.Cache.Keys.{work_key_eq}

-- The cache keeps the result for the work, up to the id of the task.
pub record Keeps (hash : Hash) (task : Task) (result : TaskResult) (c : Cache) : Type 0 where
  pub endless : c.ttl ≡ none
  pub entry : Entry
  pub found : lookup (work_key hash task) c.entries ≡ some entry
  pub same : (id : TaskId) → record entry.result { task_id = id } ≡ record result { task_id = id }

forget_old-none :
    (now : ℕ) (o : Option ℕ) (entries : List (WorkKey × Entry))
    → o ≡ none
    → forget_old now o entries ≡ entries
unfolding forget_old
forget_old-none now none entries h = refl
forget_old-none now (some ttl) entries h = absurd (ground arith)

-- A lookup that finds the work counts as a hit and changes nothing else.
get-found :
    (hash : Hash) (task : Task) (now : ℕ) (c : Cache) (e : Entry)
    → c.ttl ≡ none
    → lookup (work_key hash task) c.entries ≡ some e
    → get hash task now c
      ≡ (record c { hits = (c.hits + 1) % u64_mod }, some (record e.result { task_id = task.id }))
unfolding get
get-found hash task now c e endless found =
    let all = forget_old-none now c.ttl c.entries endless in
    let kept = ap (λ (l : List (WorkKey × Entry)). lookup (work_key hash task) l) all ∙ found in
    let answer : List (WorkKey × Entry) → Cache × Option TaskResult = λ l. (
      record c { entries = l; hits = (c.hits + 1) % u64_mod },
      some (record e.result { task_id = task.id }),
    ) in
    rw (get, kept) (ap answer all)

get-missing :
    (hash : Hash) (task : Task) (now : ℕ) (c : Cache)
    → c.ttl ≡ none
    → lookup (work_key hash task) c.entries ≡ none
    → get hash task now c ≡ (record c { misses = (c.misses + 1) % u64_mod }, none)
unfolding get
get-missing hash task now c endless absent =
    let all = forget_old-none now c.ttl c.entries endless in
    let kept = ap (λ (l : List (WorkKey × Entry)). lookup (work_key hash task) l) all ∙ absent in
    let no_answer : List (WorkKey × Entry) → Cache × Option TaskResult =
      λ l. (record c { entries = l; misses = (c.misses + 1) % u64_mod }, none) in
    rw (get, kept) (ap no_answer all)

-- After a hit the cache keeps the answer.
pub get-Keeps :
    (hash : Hash) (task : Task) (result : TaskResult) (now : ℕ) (c : Cache)
    → c.ttl ≡ none
    → (get hash task now c).1 ≡ some result
    → Keeps hash task result (get hash task now c).0
get-Keeps hash task result now c endless h =
    elim (Option-cases (lookup (work_key hash task) c.entries)) [
      | inl absent ↦ let miss = get-missing hash task now c endless absent in absurd (ground arith)
      | inr (e, found) ↦
          let hit = get-found hash task now c e endless found in
          let answer : record e.result { task_id = task.id } ≡ result = ground arith in
          rw hit (record {
            endless = endless;
            entry = e;
            found = found;
            same = λ id. ap (λ (r : TaskResult). record r { task_id = id }) answer;
          })
    ]

-- A miss leaves the time to live and the capacity.
pub get-settings :
    (hash : Hash) (task : Task) (now : ℕ) (c : Cache)
    → ((get hash task now c).0.ttl ≡ c.ttl) × ((get hash task now c).0.capacity ≡ c.capacity)
unfolding get
get-settings hash task now c = (ground arith, ground arith)

-- The cache keeps a success that it has room for.
pub put-Keeps :
    (hash : Hash) (task : Task) (result : TaskResult) (now : ℕ) (c : Cache)
    → c.ttl ≡ none
    → c.capacity ≢ 0
    → is_success result ≡ true
    → Keeps hash task result (put hash task result now c)
unfolding put
put-Keeps hash task result now c endless room good =
    let some_room : (c.capacity == 0) ≡ false = ground arith in
    let entries = if leb c.capacity (length c.entries) then drop_oldest c.entries else c.entries in
    let kept : Entry = record { result = result; stored = now } in
    rw (put, good, some_room)
      (record {
        endless = endless;
        entry = kept;
        found = lookup-insert_self (work_key hash task) kept entries;
        same = λ id. refl;
      })

-- Work with the key of what is kept is answered with it, under its own id.
pub get-again :
    (hash : Hash) (task again : Task) (result : TaskResult) (now : ℕ) (c : Cache)
    → Keeps hash task result c
    → work_key hash again ≡ work_key hash task
    → (get hash again now c).1 ≡ some (record result { task_id = again.id })
get-again hash task again result now c k e =
    let found = ap (λ (w : WorkKey). lookup w c.entries) e ∙ k.found in
    ap (λ (r : Cache × Option TaskResult). r.1) (get-found hash again now c k.entry k.endless found)
    ∙ ap some (k.same again.id)
