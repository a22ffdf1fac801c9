-- ===== src/Cache/Run.antt =====
-- What the cache holds and answers, after any sequence of calls.
use aether_mesh.Base.{
  ℕ, ◌-◌, ◌≤◌, ◌<◌, ◌==◌, ◌≡◌, refl, inl, inr, true, false, leb, Bool-cases, Option-cases,
  if◌then◌else◌, List, [], ◌∷◌, Option, none, some, length, In, arith,
}
use aether_mesh.Base.Assoc.{lookup, insert, IsMap, lookup-insert, insert-IsMap}
use aether_mesh.Task.{Task, TaskResult, Hash, is_success}
use aether_mesh.Cache.Keys.{WorkKey, work_key_eq}
use aether_mesh.Cache.{Entry, Cache, work_key, is_young, forget_old, get, drop_oldest, put, clear}
use aether_mesh.Cache.Lookup.{
  Entries, filter-IsMap, lookup-filter, length-filter, length-insert, length-drop_oldest,
  drop_oldest-IsMap, lookup-drop_oldest,
}

pub data Call : Type 0 where
  puts : (task : Task) (result : TaskResult) (now : ℕ) → Call
  gets : (task : Task) (now : ℕ) → Call
  clears : Call

unfoldable pub step : Hash → Cache → Call → Cache
step hash c (puts task result now) = put hash task result now c
step hash c (gets task now) = (get hash task now c).0
step hash c clears = clear c

-- The latest call stands first.
unfoldable pub run : Hash → Cache → List Call → Cache
run hash c [] = c
run hash c (call ∷ calls) = step hash (run hash c calls) call

-- An entry for this work was put by one of the calls, with a result that is a success.
pub record WasPut (hash : Hash) (calls : List Call) (k : WorkKey) (e : Entry) : Type 0 where
  pub task : Task
  pub called : In (puts task e.result e.stored) calls
  pub same_work : work_key hash task ≡ k
  pub succeeded : is_success e.result ≡ true

-- Within the capacity, every work once, and nothing that was not put.
pub record IsFaithful (hash : Hash) (calls : List Call) (c : Cache) : Type 0 where
  pub distinct : IsMap c.entries
  pub bounded : length c.entries ≤ c.capacity
  pub origin : (k : WorkKey) (e : Entry) → lookup k c.entries ≡ some e → WasPut hash calls k e

later :
    (hash : Hash) (call : Call) (calls : List Call) (k : WorkKey) (e : Entry)
    → WasPut hash calls k e
    → WasPut hash (call ∷ calls) k e
later hash call calls k e w = record {
  task = w.task;
  called = inr w.called;
  same_work = w.same_work;
  succeeded = w.succeeded;
}

pub IsFaithful-later :
    (hash : Hash) (call : Call) (calls : List Call) (c : Cache)
    → IsFaithful hash calls c
    → IsFaithful hash (call ∷ calls) c
IsFaithful-later hash call calls c f = record {
  distinct = f.distinct;
  bounded = f.bounded;
  origin = λ k e h. later hash call calls k e (f.origin k e h);
}

pub forget_old-lookup :
    (now : ℕ) (ttl : Option ℕ) (k : WorkKey) (e : Entry) (m : Entries)
    → IsMap m
    → lookup k (forget_old now ttl m) ≡ some e
    → (lookup k m ≡ some e) × ((limit : ℕ) → ttl ≡ some limit → now - e.stored < limit)
unfolding forget_old
forget_old-lookup now none k e m u h = (h, λ limit no. absurd (ground arith))
forget_old-lookup now (some ttl) k e m u h =
    let (found, young) = lookup-filter (is_young now ttl) k e m u h in
    (found, λ limit same. ground arith)

forget_old-IsMap : (now : ℕ) (ttl : Option ℕ) (m : Entries) → IsMap m → IsMap (forget_old now ttl m)
unfolding forget_old
forget_old-IsMap now none m u = u
forget_old-IsMap now (some ttl) m u = filter-IsMap (is_young now ttl) m u

forget_old-length :
    (now : ℕ) (ttl : Option ℕ) (m : Entries) → length (forget_old now ttl m) ≤ length m
unfolding forget_old
forget_old-length now none m = omega arith
forget_old-length now (some ttl) m = length-filter (is_young now ttl) m

pub get-IsFaithful :
    (hash : Hash) (task : Task) (now : ℕ) (calls : List Call) (c : Cache)
    → IsFaithful hash calls c
    → IsFaithful hash calls (get hash task now c).0
unfolding get
get-IsFaithful hash task now calls c f =
    let kept = forget_old now c.ttl c.entries in
    let distinct = forget_old-IsMap now c.ttl c.entries f.distinct in
    let bounded : length kept ≤ c.capacity =
      omega (arith, forget_old-length now c.ttl c.entries, f.bounded) in
    let origin : (k : WorkKey) (e : Entry) → lookup k kept ≡ some e → WasPut hash calls k e =
      λ k e h. f.origin k e (forget_old-lookup now c.ttl k e c.entries f.distinct h).0 in
    elim (Option-cases (lookup (work_key hash task) kept)) [
      | inl absent ↦
          rw (get, absent) (record { distinct = distinct; bounded = bounded; origin = origin })
      | inr (e, found) ↦
          rw (get, found) (record { distinct = distinct; bounded = bounded; origin = origin })
    ]

-- The entries that `put` inserts into.
abbrev room : Cache → Entries
room c = if leb c.capacity (length c.entries) then drop_oldest c.entries else c.entries

-- Where there is room, the size stays below the capacity.
room_lem :
    (c : Cache)
    → IsMap c.entries
    → length c.entries ≤ c.capacity
    → (c.capacity == 0) ≡ false
    → IsMap (room c)
      × (length (room c) < c.capacity)
      × ((k : WorkKey) (e : Entry) → lookup k (room c) ≡ some e → lookup k c.entries ≡ some e)
room_lem c u b h = elim (Bool-cases (leb c.capacity (length c.entries))) [
  | inl full ↦ rw full (
    drop_oldest-IsMap c.entries u,
    ground (arith, length-drop_oldest c.entries),
    λ k e found. lookup-drop_oldest k e c.entries found,
  )
  | inr free ↦ rw free (u, ground arith, λ k e found. found)
]

put-stores :
    (hash : Hash) (task : Task) (result : TaskResult) (now : ℕ) (c : Cache)
    → is_success result ≡ true
    → (c.capacity == 0) ≡ false
    → put hash task result now c ≡ record c {
      entries = insert (work_key hash task) (record { result = result; stored = now }) (room c);
    }
unfolding put
put-stores hash task result now c good some_room = rw (put, good, some_room) refl

pub put-IsFaithful :
    (hash : Hash) (task : Task) (result : TaskResult) (now : ℕ) (calls : List Call) (c : Cache)
    → IsFaithful hash calls c
    → IsFaithful hash (puts task result now ∷ calls) (put hash task result now c)
unfolding put
put-IsFaithful hash task result now calls c f =
    let call = puts task result now in
    elim (Bool-cases (is_success result)) [
      | inr bad ↦ rw (put, bad) (IsFaithful-later hash call calls c f)
      | inl good ↦ elim (Bool-cases (c.capacity == 0)) [
        | inl off ↦ rw (put, good, off) (IsFaithful-later hash call calls c f)
        | inr on ↦
            let (distinct, small, from) = room_lem c f.distinct f.bounded on in
            let key = work_key hash task in
            let entry : Entry = record { result = result; stored = now } in
            rw (put-stores hash task result now c good on) (record {
              distinct = insert-IsMap key entry (room c) distinct;
              bounded = omega (arith, length-insert key entry (room c), small);
              origin = λ k e h. elim (Bool-cases (work_key_eq.beq key k)) [
                | inl same ↦
                    let stored : some entry ≡ some e =
                      (rw (lookup-insert key k entry (room c), same) at h) in
                    let eq : entry ≡ e = ground arith in
                    rw (← eq) (record {
                      task = task;
                      called = inl refl;
                      same_work = (work_key_eq.beq_iff key k).0 same;
                      succeeded = good;
                    })
                | inr other ↦
                    let there = (rw (lookup-insert key k entry (room c), other) at h) in
                    later hash call calls k e (f.origin k e (from k e there))
              ];
            })
      ]
    ]
