-- ===== src/Autoscale/Wait.antt =====
-- What the autoscaler reads as the oldest wait.
use aether_mesh.Base.{ℕ, ◌*◌, ◌≤◌, List, [], ◌∷◌, arith}
use aether_mesh.Node.{Float}
use aether_mesh.Registry.{MeshState}
use aether_mesh.Traffic.{
  record_expired, record_refused, QueueStats, as_millis, set_depth, record_dequeued,
}
use aether_mesh.Autoscale.{Real, signals_from}

-- What happens to the counters of the queue: a task leaves after a wait, is refused or expires, or
-- the depth is set.
pub data Event : Type 0 where
  dequeued : (waited : ℕ) → Event
  refused : Event
  expired : Event
  depth_is : (depth : ℕ) → Event

pub count_event : Event → QueueStats → QueueStats
count_event (dequeued waited) s = record_dequeued waited s
count_event refused s = record_refused s
count_event expired s = record_expired s
count_event (depth_is depth) s = set_depth depth s

unfoldable pub count_all : List Event → QueueStats → QueueStats
count_all [] s = s
count_all (e ∷ events) s = count_all events (count_event e s)

longest-count_event :
    (e : Event) (s : QueueStats) → s.longest_wait_ms ≤ (count_event e s).longest_wait_ms
unfolding count_event record_dequeued record_refused record_expired set_depth
longest-count_event (dequeued waited) s = omega arith
longest-count_event refused s = omega arith
longest-count_event expired s = omega arith
longest-count_event (depth_is depth) s = omega arith

longest-count_all :
    (events : List Event) (s : QueueStats)
    → s.longest_wait_ms ≤ (count_all events s).longest_wait_ms
unfolding count_all
longest-count_all [] s = omega arith
longest-count_all (e ∷ events) s =
    omega (arith, longest-count_event e s, longest-count_all events (count_event e s))

longest-record_dequeued :
    (waited : ℕ) (s : QueueStats) → as_millis waited ≤ (record_dequeued waited s).longest_wait_ms
unfolding record_dequeued
longest-record_dequeued waited s = omega arith

module _ (float : Float) (real : Real float) where
  -- Once a task has left the queue after some wait, the autoscaler reads at least that wait, in
  -- whole milliseconds, as the oldest one for good: whatever tasks leave the queue later, are
  -- refused or expire, and whatever its depth becomes, which may be 0.
  pub oldest_wait-count_all :
      (state : MeshState float) (s : QueueStats) (waited : ℕ) (later : List Event)
      → as_millis waited * 1_000_000
        ≤ (signals_from float real state (count_all later (record_dequeued waited s))).oldest_wait
  unfolding signals_from
  oldest_wait-count_all state s waited later =
      omega (
        arith,
        longest-record_dequeued waited s,
        longest-count_all later (record_dequeued waited s),
      )
