-- ===== src/Queue.antt =====
-- crates/aether-controller/src/queue.rs: the priority queue of tasks that wait for a node.
-- Instants and durations are nanoseconds. The clock, the `f64` quotient behind aging and
-- `Instant::checked_add` are arguments. A method returns the new queue beside its result.
pub mod Order
pub mod Choice
pub mod Room
pub mod Admission
pub mod Expiry
pub mod Aging
pub mod Fairness
pub mod Run
mod Tests
use aether_mesh.Base.{
  u64_mod, ℕ, zero, suc, ◌+◌, ◌-◌, ◌%◌, ◌^◌, min, max, ◌==◌, ltb, leb, if◌then◌else◌, Bool, true,
  false, ◌&&◌, ◌||◌, List, [], ◌∷◌, ◌++◌, Option, none, some, length, get_elem?, best, remove_at,
}
use aether_mesh.Task.{Task, Priority, rank, promoted}

pub data Rejection : Type 0 where
  reject drop_oldest drop_lowest_priority : Rejection

pub record Queued {ℓ} (T : Type ℓ) : Type ℓ where
  pub task : Task
  pub payload : T
  pub queued_at : ℕ
  pub deadline : Option ℕ
  pub sequence : ℕ

pub data Admitted {ℓ} (T : Type ℓ) : Type ℓ where
  queued : Admitted T
  refused : Task → T → Admitted T
  displaced : Queued T → Admitted T

pub record Queue {ℓ} (T : Type ℓ) : Type ℓ where
  pub entries : List (Queued T)
  pub next_sequence : ℕ
  pub aging : ℕ
  pub max_size : Option ℕ
  pub timeout : Option ℕ
  pub rejection : Rejection

-- What the queue takes from the platform.
pub record Platform : Type 0 where
  -- `(waited.as_secs_f64() / aging.as_secs_f64()) as u32`
  pub levels : ℕ → ℕ → ℕ
  -- `Instant::checked_add`
  pub checked_add : ℕ → ℕ → Option ℕ

abbrev pub default_aging : ℕ
default_aging = 30_000_000_000

unfoldable pub promoted_times : ℕ → Priority → Priority
promoted_times zero p = p
promoted_times (suc n) p = promoted_times n (promoted p)

-- `Option::is_some_and` for a deadline and for a limit.
abbrev past : Option ℕ → ℕ → Bool
past none now = false
past (some deadline) now = leb deadline now

abbrev at_least : Option ℕ → ℕ → Bool
at_least none n = false
at_least (some limit) n = leb limit n

abbrev or_else : Option ℕ → Option ℕ → Option ℕ
or_else none b = b
or_else (some a) b = some a

abbrev add_deadline : Platform → ℕ → Option ℕ → Option ℕ
add_deadline platform now none = none
add_deadline platform now (some timeout) = platform.checked_add now timeout

module _ {ℓ} {T : Type ℓ} where
  unfoldable pub new : Queue T
  new = record {
    entries = [];
    next_sequence = 0;
    aging = default_aging;
    max_size = none;
    timeout = none;
    rejection = reject;
  }

  unfoldable pub with_aging : Queue T → ℕ → Queue T
  with_aging q aging = record q { aging = aging }

  unfoldable pub with_max_size : Queue T → ℕ → Queue T
  with_max_size q size = record q { max_size = if ltb 0 size then some size else none }

  unfoldable pub with_rejection : Queue T → Rejection → Queue T
  with_rejection q rejection = record q { rejection = rejection }

  unfoldable pub with_timeout : Queue T → ℕ → Queue T
  with_timeout q timeout = record q { timeout = if timeout == 0 then none else some timeout }

  -- `min_by_key` on the sequence number.
  abbrev pub arrived_before : Queued T → Queued T → Bool
  arrived_before e b = ltb e.sequence b.sequence

  -- `-` on ℕ is `saturating_duration_since`.
  unfoldable pub waited : Queued T → ℕ → ℕ
  waited e now = now - e.queued_at

  unfoldable pub expired : ℕ → Queued T → Bool
  expired now e = past e.deadline now

  unfoldable pub is_full : Queue T → Bool
  is_full q = at_least q.max_size (length q.entries)

  unfoldable pub depth_at : ℕ → List (Queued T) → ℕ
  depth_at level [] = 0
  depth_at level (e ∷ es) = (if rank e.task.priority == level then 1 else 0) + depth_at level es

  -- The array of five counters, lowest level first.
  unfoldable pub depth_by_priority : Queue T → List ℕ
  depth_by_priority q =
      depth_at 0 q.entries
      ∷ depth_at 1 q.entries
      ∷ depth_at 2 q.entries
      ∷ depth_at 3 q.entries
      ∷ depth_at 4 q.entries
      ∷ []

  longest_wait : List (Queued T) → ℕ → ℕ
  longest_wait [] now = 0
  longest_wait (e ∷ es) now = max (now - e.queued_at) (longest_wait es now)

  unfoldable pub oldest_wait : Queue T → ℕ → ℕ
  unfolding longest_wait
  oldest_wait q now = longest_wait q.entries now

  -- The `while` loop of `expire`: `index` walks over `entries`, and `gone` is what it removed.
  unfoldable pub expire_loop :
      ℕ → ℕ → ℕ → List (Queued T) → List (Queued T) → List (Queued T) × List (Queued T)
  expire_loop zero now index entries gone = (entries, gone)
  expire_loop (suc fuel) now index entries gone = elim (get_elem? entries index) [
    | none ↦ (entries, gone)
    | some e ↦ elim (expired now e) [
      | false ↦ expire_loop fuel now (index + 1) entries gone
      | true ↦ elim (remove_at index entries) [
        | none ↦ (entries, gone)
        | some (removed, rest) ↦ expire_loop fuel now index rest (gone ++ (removed ∷ []))
      ]
    ]
  ]

  -- Each round moves past an entry or removes it, so the number of entries is fuel enough.
  unfoldable pub expire : Queue T → ℕ → Queue T × List (Queued T)
  expire q now =
      let (kept, gone) = expire_loop (length q.entries) now 0 q.entries [] in
      (record q { entries = kept }, gone)

module _ {ℓ} {T : Type ℓ} (platform : Platform) where
  unfoldable pub effective_priority : Queued T → ℕ → ℕ → Priority
  effective_priority e now aging =
      if aging == 0
      then e.task.priority
      else promoted_times (min (platform.levels (now - e.queued_at) aging) 5) e.task.priority

  -- The effective rank that `pop` and the eviction policy compare.
  abbrev pub urgency : ℕ → ℕ → Queued T → ℕ
  urgency now aging e = rank (effective_priority e now aging)

  -- `max_by_key` takes the later of two equal keys: is the key of `e` at least that of `b`?
  -- The key is the effective priority, then the sequence number reversed.
  unfoldable pub runs_before : ℕ → ℕ → Queued T → Queued T → Bool
  runs_before now aging e b =
      ltb (urgency now aging b) (urgency now aging e)
      || (urgency now aging e == urgency now aging b && leb e.sequence b.sequence)

  -- `min_by_key` keeps the earlier of two equal keys: is the key of `e` below that of `b`?
  unfoldable pub less_urgent : ℕ → ℕ → Queued T → Queued T → Bool
  less_urgent now aging e b =
      ltb (urgency now aging e) (urgency now aging b)
      || (urgency now aging e == urgency now aging b && ltb e.sequence b.sequence)

  -- What `make_room` frees: the entry that goes and the entries that stay.
  unfoldable pub make_room : Queue T → Task → ℕ → Option (Queued T × List (Queued T))
  make_room q incoming now = elim q.rejection [
    | reject ↦ none
    | drop_oldest ↦ elim (best arrived_before q.entries) [
      | none ↦ none
      | some (index, oldest) ↦ remove_at index q.entries
    ]
    | drop_lowest_priority ↦ elim (best (less_urgent now q.aging) q.entries) [
      | none ↦ none
      | some (index, victim) ↦
          if leb (rank incoming.priority) (urgency now q.aging victim)
          then none
          else remove_at index q.entries
    ]
  ]

  -- The new entry, and the sequence counter with its wrap-around.
  abbrev pub new_entry : Queue T → Task → T → ℕ → Option ℕ → Queued T
  new_entry q task payload now timeout = record {
    task = task;
    payload = payload;
    queued_at = now;
    deadline = add_deadline platform now (or_else timeout q.timeout);
    sequence = q.next_sequence;
  }

  abbrev pub enqueue : Queue T → List (Queued T) → Queued T → Queue T
  enqueue q entries e = record q {
    entries = entries ++ (e ∷ []);
    next_sequence = (q.next_sequence + 1) % u64_mod;
  }

  unfoldable pub push_with_timeout : Queue T → Task → T → ℕ → Option ℕ → Queue T × Admitted T
  push_with_timeout q task payload now timeout =
      let e = new_entry q task payload now timeout in
      if is_full q
      then elim (make_room q task now) [
        | none ↦ (q, refused task payload)
        | some (dropped, rest) ↦ (enqueue q rest e, displaced dropped)
      ]
      else (enqueue q q.entries e, queued)

  unfoldable pub push : Queue T → Task → T → ℕ → Queue T × Admitted T
  push q task payload now = push_with_timeout q task payload now none

  unfoldable pub pop : Queue T → ℕ → Option (Queued T × Queue T)
  pop q now = elim (best (runs_before now q.aging) q.entries) [
    | none ↦ none
    | some (index, _) ↦ elim (remove_at index q.entries) [
      | none ↦ none
      | some (e, rest) ↦ some (e, record q { entries = rest })
    ]
  ]
