-- ===== src/Queue/Tests.antt =====
-- Runs of the queue on small inputs, and its theorems at such inputs.
use aether_mesh.Base.{
  ℕ, ◌+◌, ◌/◌, ◌*◌, ◌<◌, ◌≤◌, ◌≡◌, refl, inl, inr, List, [], ◌∷◌, none, some, length, remove_at,
  best, All, Removes, filter, arith,
}
use native.Mathlib.Nat.{div-add-mod, mod-lt}
use aether_mesh.Task.{Task, Priority, low, high, critical, rank, promoted, new_task, with_priority}
use aether_mesh.Queue.{
  Queue, Queued, Platform, refused, displaced, drop_oldest, drop_lowest_priority, push_with_timeout,
  pop, expire, expired, is_full, make_room, effective_priority, promoted_times, runs_before,
  less_urgent, expire_loop, urgency,
}
use aether_mesh.Queue.Choice.{Follows}
use aether_mesh.Queue.Order.{Rising}
use aether_mesh.Queue.Admission.{IsValid, Admits, push-Admits}
use aether_mesh.Queue.Expiry.{waits, expire_lem}
use aether_mesh.Queue.Aging.{pop-le_sequence}
use aether_mesh.Queue.Fairness.{pop-Follows, push-displaced, GivesWay}
use aether_mesh.Queue.Run.{Call, offer, take_next, sweep, run, configured, run-bounded}

-- Time in whole units, with an exact quotient and no overflow.
abbrev exact : Platform
exact = record { levels = λ waited aging. waited / aging; checked_add = λ now t. some (now + t) }

abbrev job : ℕ → Priority → Task
job id p = with_priority (new_task id [] []) p

abbrev waiting : ℕ → Priority → ℕ → ℕ → Queued ℕ
waiting id p at number = record {
  task = job id p;
  payload = id;
  queued_at = at;
  deadline = none;
  sequence = number;
}

-- A full queue of two low entries, of a policy that drops the least urgent.
abbrev crowded : Queue ℕ
crowded = record {
  entries = waiting 10 low 0 0 ∷ waiting 11 low 0 1 ∷ [];
  next_sequence = 2;
  aging = 30;
  max_size = some 2;
  timeout = none;
  rejection = drop_lowest_priority;
}

crowded-IsValid : IsValid crowded
crowded-IsValid = record { ordered = omega arith; bounded = omega arith }

abbrev rest_crowded : Queue ℕ
rest_crowded = record crowded { entries = waiting 11 low 0 1 ∷ [] }

pop-crowded : pop exact crowded 0 ≡ some (waiting 10 low 0 0, rest_crowded)
unfolding pop best runs_before effective_priority promoted_times rank with_priority new_task
    remove_at promoted
pop-crowded = refl

push_crowded :
    (push_with_timeout exact crowded (job 12 high) 12 0 none).1 ≡ displaced (waiting 10 low 0 0)
unfolding push_with_timeout is_full make_room best less_urgent effective_priority promoted_times
    rank with_priority new_task remove_at promoted
push_crowded = refl

refuse_crowded :
    (push_with_timeout exact crowded (job 12 low) 12 0 none) ≡ (crowded, refused (job 12 low) 12)
unfolding push_with_timeout is_full make_room best less_urgent effective_priority promoted_times
    rank with_priority new_task remove_at promoted
refuse_crowded = refl

push-Admits_example :
    Admits exact crowded
      (job 12 high)
      12
      5
      none
      (push_with_timeout exact crowded (job 12 high) 12 5 none)
push-Admits_example = push-Admits exact crowded (job 12 high) 12 5 none crowded-IsValid

pop-Follows_example :
    Removes crowded.entries (waiting 10 low 0 0) (waiting 11 low 0 1 ∷ [])
    × All (Follows exact 0 30 (waiting 10 low 0 0)) (waiting 11 low 0 1 ∷ [])
pop-Follows_example =
    pop-Follows exact crowded 0 (waiting 10 low 0 0)
      (record crowded { entries = waiting 11 low 0 1 ∷ [] }) crowded-IsValid pop-crowded

push-displaced_example :
    (urgency exact 0 30 (waiting 10 low 0 0) < rank (job 12 high).priority)
    × ((rest : List (Queued ℕ)) × Removes crowded.entries (waiting 10 low 0 0) rest
        × All (GivesWay exact 0 30 (waiting 10 low 0 0)) rest)
push-displaced_example =
    push-displaced exact crowded (job 12 high) 12 0 none (waiting 10 low 0 0) crowded-IsValid refl
      push_crowded

-- The exact quotient is 4 or more from five periods on.
exact_steady : (waited aging : ℕ) → 0 < aging → 5 * aging ≤ waited → 4 ≤ waited / aging
exact_steady waited aging h k = grind (arith, div-add-mod waited aging, mod-lt)

pop_late : pop exact crowded 150 ≡ some (waiting 10 low 0 0, rest_crowded)
unfolding pop best runs_before effective_priority promoted_times rank with_priority new_task
    remove_at promoted
pop_late = refl

pop-le_sequence_example : (waiting 10 low 0 0).sequence ≤ (waiting 11 low 0 1).sequence
pop-le_sequence_example =
    pop-le_sequence exact exact_steady crowded 150 (waiting 11 low 0 1) (waiting 10 low 0 0)
      rest_crowded (inr (inl refl)) (omega arith) (omega arith) pop_late

-- The second entry has missed its deadline.
abbrev overdue : Queue ℕ
overdue = record crowded {
  entries = waiting 10 low 0 0 ∷ record (waiting 11 low 0 1) { deadline = some 40 } ∷ [];
}

expire-overdue : (expire overdue 40).0.entries ≡ waiting 10 low 0 0 ∷ []
unfolding expire expire_loop expired remove_at with_priority new_task
expire-overdue = refl

expire_lem_example : expire overdue 40 ≡ (
  record overdue { entries = filter (waits 40) overdue.entries },
  filter (expired 40) overdue.entries,
)
expire_lem_example = expire_lem 40 overdue

abbrev calls : List (Call ℕ)
calls =
    offer (job 1 low) 1 0 none
    ∷ offer (job 2 high) 2 0 none
    ∷ offer (job 3 critical) 3 1 none
    ∷ take_next 2
    ∷ sweep 3
    ∷ []

run-bounded_example :
    (length (run exact (configured ℕ 2 30 0 drop_oldest) calls).entries ≤ 2)
    × Rising 0
        (run exact (configured ℕ 2 30 0 drop_oldest) calls).next_sequence
        (run exact (configured ℕ 2 30 0 drop_oldest) calls).entries
run-bounded_example = run-bounded exact 2 30 0 drop_oldest calls (omega arith) (omega arith)
