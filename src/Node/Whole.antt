-- ===== src/Node/Whole.antt =====
-- Floats as numbers and a node over them, for runs on concrete data.
use Prim.Native.Nat.{compare}
use aether_mesh.Base.{ℕ, ◌+◌, ◌-◌, ◌*◌, ◌/◌, min, refl, false, [], some, leb}
use aether_mesh.Node.{Float, NodeInfo}

abbrev pub whole : Float
whole = record {
  F = ℕ;
  zero_f = 0;
  add = λ a b. a + b;
  sub = λ a b. a - b;
  mul = λ a b. a * b;
  div = λ a b. a / b;
  ge = λ a b. leb b a;
  abs = λ a. a;
  from_u64 = λ n. n;
  is_nan = λ a. false;
  clamp_unit = λ a. min a 1;
  total_cmp = compare;
  key = λ a. a;
  total_cmp_lem = λ a b. refl;
}

abbrev pub node : ℕ → ℕ → ℕ → NodeInfo whole
node id cpu memory = record {
  id = id;
  hostname = [];
  address = [];
  cpu_cores = 4;
  bandwidth_bytes_per_sec = some 10;
  latency_ms = some 0;
  labels = [];
  metrics = record { cpu_usage = cpu; memory_usage = memory; memory_total_bytes = 0 };
}
