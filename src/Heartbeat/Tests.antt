-- ===== src/Heartbeat/Tests.antt =====
-- The pace of an idle node, with floats as numbers.
use aether_mesh.Base.{◌≡◌, refl, true, false, [], ◌∷◌, arith}
use aether_mesh.Node.{NodeMetrics}
use aether_mesh.Node.Whole.{whole, node}
use aether_mesh.Registry.{is_stale}
use aether_mesh.Heartbeat.{new, record_sample, changed, ceiling_for_timeout}
use aether_mesh.Heartbeat.Pace.{run, run-not-is_stale}

-- On whole numbers every two samples differ: 5 / 100 is zero. A first sample has none before it.
abbrev quiet : NodeMetrics whole
quiet = record { cpu_usage = 0; memory_usage = 0; memory_total_bytes = 0 }

first_gap : (record_sample whole quiet false (new whole 5 30)).current ≡ 10
unfolding record_sample new
first_gap = refl

gap_with_work : (record_sample whole quiet true (new whole 5 30)).current ≡ 5
unfolding record_sample new
gap_with_work = refl

half_the_timeout : ceiling_for_timeout 5 30 ≡ 15
unfolding ceiling_for_timeout
half_the_timeout = refl

run-not-is_stale_example :
    is_stale whole 115 30 (record { info = node 1 0 0; last_seen = 100 }) ≡ false
unfolding run new record_sample ceiling_for_timeout changed
run-not-is_stale_example =
    run-not-is_stale whole 5 30 115 ((quiet, false) ∷ []) (quiet, true)
      (record { info = node 1 0 0; last_seen = 100 }) (omega arith) (omega arith) (omega arith)
