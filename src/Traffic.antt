-- ===== src/Traffic.antt =====
-- crates/aether-controller/src/observability.rs: the counters of the mesh, of transfers and of the
-- queue. An atomic counter is a number that wraps at 2^64; the text of the scrape endpoint and the
-- ratio of compression, which is a float, are not modelled.
use aether_mesh.Base.{ℕ, ◌+◌, ◌-◌, ◌/◌, ◌%◌, max, if◌then◌else◌, Bool, u64_mod}

-- `fetch_add`.
abbrev pub fetch_add : ℕ → ℕ → ℕ
fetch_add counter n = (counter + n) % u64_mod

-- `Counters` of `MeshMetrics`.
pub record Counters : Type 0 where
  pub nodes_registered : ℕ
  pub registrations_rejected : ℕ
  pub nodes_disconnected : ℕ
  pub nodes_evicted : ℕ
  pub heartbeats : ℕ
  pub tasks_completed : ℕ
  pub tasks_failed : ℕ
  pub messages_received : ℕ

unfoldable pub record_registration : Counters → Counters
record_registration c = record c { nodes_registered = fetch_add c.nodes_registered 1 }

unfoldable pub record_rejection : Counters → Counters
record_rejection c = record c { registrations_rejected = fetch_add c.registrations_rejected 1 }

unfoldable pub record_disconnect : Counters → Counters
record_disconnect c = record c { nodes_disconnected = fetch_add c.nodes_disconnected 1 }

unfoldable pub record_heartbeat : Counters → Counters
record_heartbeat c = record c { heartbeats = fetch_add c.heartbeats 1 }

unfoldable pub record_message : Counters → Counters
record_message c = record c { messages_received = fetch_add c.messages_received 1 }

unfoldable pub record_evictions : ℕ → Counters → Counters
record_evictions count c = record c { nodes_evicted = fetch_add c.nodes_evicted count }

unfoldable pub record_task : Bool → Counters → Counters
record_task success c =
    if success
    then record c { tasks_completed = fetch_add c.tasks_completed 1 }
    else record c { tasks_failed = fetch_add c.tasks_failed 1 }

-- `TrafficCounters`.
pub record Traffic : Type 0 where
  pub data_bytes_sent : ℕ
  pub data_bytes_uncompressed : ℕ
  pub transfers_skipped : ℕ
  pub chunks_skipped : ℕ
  pub retries : ℕ

abbrev pub no_traffic : Traffic
no_traffic = record {
  data_bytes_sent = 0;
  data_bytes_uncompressed = 0;
  transfers_skipped = 0;
  chunks_skipped = 0;
  retries = 0;
}

unfoldable pub record_sent : ℕ → ℕ → Traffic → Traffic
record_sent wire_bytes original_bytes t = record t {
  data_bytes_sent = fetch_add t.data_bytes_sent wire_bytes;
  data_bytes_uncompressed = fetch_add t.data_bytes_uncompressed original_bytes;
}

unfoldable pub record_transfer_skipped : Traffic → Traffic
record_transfer_skipped t = record t { transfers_skipped = fetch_add t.transfers_skipped 1 }

unfoldable pub record_chunk_skipped : Traffic → Traffic
record_chunk_skipped t = record t { chunks_skipped = fetch_add t.chunks_skipped 1 }

unfoldable pub record_retry : Traffic → Traffic
record_retry t = record t { retries = fetch_add t.retries 1 }

-- `-` on ℕ is `saturating_sub`.
unfoldable pub compression_saved_bytes : Traffic → ℕ
compression_saved_bytes t = t.data_bytes_uncompressed - t.data_bytes_sent

-- `QueueCounters`.
pub record QueueStats : Type 0 where
  pub depth : ℕ
  pub dequeued : ℕ
  pub refused : ℕ
  pub expired : ℕ
  pub waited_ms : ℕ
  pub longest_wait_ms : ℕ

abbrev pub no_stats : QueueStats
no_stats = record {
  depth = 0;
  dequeued = 0;
  refused = 0;
  expired = 0;
  waited_ms = 0;
  longest_wait_ms = 0;
}

-- `Duration::as_millis`, of nanoseconds, cast to a `u64`.
abbrev pub as_millis : ℕ → ℕ
as_millis nanos = (nanos / 1_000_000) % u64_mod

unfoldable pub set_depth : ℕ → QueueStats → QueueStats
set_depth depth s = record s { depth = depth }

unfoldable pub record_dequeued : ℕ → QueueStats → QueueStats
record_dequeued waited s = record s {
  dequeued = fetch_add s.dequeued 1;
  waited_ms = fetch_add s.waited_ms (as_millis waited);
  longest_wait_ms = max s.longest_wait_ms (as_millis waited);
}

unfoldable pub record_refused : QueueStats → QueueStats
record_refused s = record s { refused = fetch_add s.refused 1 }

unfoldable pub record_expired : QueueStats → QueueStats
record_expired s = record s { expired = fetch_add s.expired 1 }
