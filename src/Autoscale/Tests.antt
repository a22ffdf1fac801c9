-- ===== src/Autoscale/Tests.antt =====
-- The autoscaler on whole numbers in the place of floats: 10 stands for 1.
use aether_mesh.Base.{ℕ, ◌+◌, ◌-◌, ◌*◌, ◌/◌, ◌≤◌, ◌≡◌, refl, max, ltb, [], ◌∷◌, none, some, arith}
use aether_mesh.Node.Whole.{whole}
use aether_mesh.Connections
use aether_mesh.Registry.{MeshState}
use aether_mesh.Traffic.{no_stats, record_dequeued, as_millis}
use aether_mesh.Autoscale.{
  queue_length, Real, Signals, Policy, Autoscaler, Decision, scale_up, scale_down, no_change,
  evaluate, decide, signals_from, cooldown, clamp, grow, shrink, ratio_of, cooling_down,
  target_nodes, adding, releasing,
}
use aether_mesh.Autoscale
use aether_mesh.Autoscale.Bounds.{Answers, evaluate-Answers}
use aether_mesh.Autoscale.Cooldown.{Apart, changes, changes-Apart}
use aether_mesh.Autoscale.Wait.{depth_is, count_all, oldest_wait-count_all}

abbrev tenths : Real whole
tenths = record {
  D = ℕ;
  zero_d = 0;
  one = 10;
  hundredth = 1;
  thousandth = 1;
  add = λ a b. a + b;
  sub = λ a b. a - b;
  mul = λ a b. a * b / 10;
  div = λ a b. a * 10 / b;
  max_d = max;
  less = ltb;
  ceil = λ a. a;
  floor = λ a. a;
  from_u64 = λ n. n * 10;
  to_usize = λ a. a / 10;
  as_secs = λ n. n / 100_000_000;
  from_f32 = λ a. a;
  hundredth_f = 1;
  max_f = max;
  empty_sum = 0;
}

abbrev policy : Policy whole tenths
policy = record {
  target = queue_length 20;
  min_nodes = 1;
  max_nodes = 10;
  cooldown_secs = 60;
  tolerance = 2;
}

abbrev reading : ℕ → ℕ → Signals whole
reading nodes depth = record {
  nodes = nodes;
  queue_depth = depth;
  oldest_wait = 0;
  cpu_usage = 0;
  memory_usage = 0;
}

backlog_grows :
    evaluate whole tenths (Autoscale.new whole tenths policy) (reading 2 16) 0
    ≡ some (scale_up 8 adding)
unfolding evaluate Autoscale.new cooling_down ratio_of grow clamp
backlog_grows = refl

idle_shrinks :
    evaluate whole tenths (Autoscale.new whole tenths policy) (reading 4 0) 0
    ≡ some (scale_down 1 releasing)
unfolding evaluate Autoscale.new cooling_down ratio_of shrink clamp
idle_shrinks = refl

-- A policy whose minimum is above its maximum makes the first long queue a panic.
inverted_bounds_panic :
    evaluate whole tenths
      (Autoscale.new whole tenths (record policy { min_nodes = 2; max_nodes = 1 }))
      (reading 2 16)
      0
    ≡ none
unfolding evaluate Autoscale.new cooling_down ratio_of grow clamp
inverted_bounds_panic = refl

evaluate-Answers_example :
    Answers whole tenths policy
      (reading 2 16)
      (evaluate whole tenths (Autoscale.new whole tenths policy) (reading 2 16) 0)
unfolding Autoscale.new
evaluate-Answers_example =
    evaluate-Answers whole tenths (Autoscale.new whole tenths policy) (reading 2 16) 0 (omega arith)

abbrev minute : ℕ
minute = 60_000_000_000

changes-Apart_example : Apart whole tenths (cooldown whole tenths policy) none (
    changes whole tenths
      (Autoscale.new whole tenths policy)
      ((reading 2 16, 0) ∷ (reading 2 16, 5) ∷ (reading 2 16, minute) ∷ []))
unfolding Autoscale.new
changes-Apart_example =
    changes-Apart whole tenths (Autoscale.new whole tenths policy)
      ((reading 2 16, 0) ∷ (reading 2 16, 5) ∷ (reading 2 16, minute) ∷ [])

two_changes :
    changes whole tenths
      (Autoscale.new whole tenths policy)
      ((reading 2 16, 0) ∷ (reading 2 16, 5) ∷ (reading 2 16, minute) ∷ [])
    ≡ 0 ∷ minute ∷ []
unfolding changes decide evaluate target_nodes Autoscale.new cooling_down ratio_of grow clamp
two_changes = refl

abbrev empty_mesh : MeshState whole
empty_mesh = record {
  registry = [];
  connections = Connections.new;
  catalog = [];
  nodes_evicted = 0;
}

oldest_wait-count_all_example :
    as_millis minute * 1_000_000
    ≤ (signals_from whole tenths empty_mesh
        (count_all (depth_is 0 ∷ []) (record_dequeued minute no_stats))).oldest_wait
oldest_wait-count_all_example =
    oldest_wait-count_all whole tenths empty_mesh no_stats minute (depth_is 0 ∷ [])
