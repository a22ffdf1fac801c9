-- ===== src/Registry/Tests.antt =====
-- An eviction and a history of the registry, and the theorems at them.
use aether_mesh.Base.{ℕ, ◌≡◌, refl, ◌+◌, ◌-◌, ◌*◌, List, [], ◌∷◌, some, contains}
use aether_mesh.Base.Assoc.{lookup, contains_key, nat_eq}
use aether_mesh.Node.Whole.{whole, node}
use aether_mesh.Connections.{attach, new}
use aether_mesh.Registry.{Double, MeshState, stale_nodes, evict_stale_nodes}
use aether_mesh.Registry.Evict.{IsValid, Evicted, silent, evict_stale_nodes-Evicted}
use aether_mesh.Registry.Keyed.{Call, registers, removes, beats, measures}

abbrev double : Double whole
double = record {
  D = ℕ;
  add = λ a b. a + b;
  sub = λ a b. a - b;
  mul = λ a b. a * b;
  one = 10;
  smoothing = 3;
  from_f32 = λ a. a;
  to_f32 = λ a. a;
  from_u64 = λ a. a;
  to_u64 = λ a. a;
}

-- Node 1 was heard at time 0 and node 2 at time 50.
abbrev mesh : MeshState whole
mesh = record {
  registry =
      (1, record { info = node 1 0 0; last_seen = 0 })
      ∷ (2, record { info = node 2 0 0; last_seen = 50 })
      ∷ [];
  connections = (attach 2 8 [] (attach 1 7 [] new).0).0;
  catalog =
      (5, record { descriptor = record { id = 5; size_bytes = 9 }; locations = 1 ∷ 2 ∷ [] }) ∷ [];
  nodes_evicted = 0;
}

mesh-IsValid : IsValid whole mesh
unfolding contains_key
mesh-IsValid = record {
  distinct = (refl, (refl, tt));
  keyed = (refl, (refl, tt));
  datasets = (refl, tt);
}

node_one_goes : (evict_stale_nodes whole mesh 100 60).1 ≡ 1 ∷ []
unfolding evict_stale_nodes stale_nodes
node_one_goes = refl

evict_stale_nodes-Evicted_example :
    let r = evict_stale_nodes whole mesh 100 60 in
    let gone = silent whole 100 60 (lookup 1 mesh.registry) in
    Evicted whole mesh r.0 gone 1 × (contains r.1 1 ≡ gone)
evict_stale_nodes-Evicted_example = evict_stale_nodes-Evicted whole mesh 100 60 1 mesh-IsValid

abbrev history : List (Call whole double)
history =
    registers (node 1 0 0) 0
    ∷ registers (node 2 0 0) 5
    ∷ beats 1 (record { cpu_usage = 1; memory_usage = 1; memory_total_bytes = 4 }) 9
    ∷ measures 2 30 (some 7)
    ∷ removes 1
    ∷ []
