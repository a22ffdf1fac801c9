-- ===== src/Registry/Evict.antt =====
-- What the eviction of silent nodes leaves in the registry, the connections and the catalog.
use aether_mesh.Base.{
  ℕ, ◌==◌, ◌≡◌, refl, sym, ap, ◌∙◌, inl, inr, Bool, false, not, ◌&&◌, Bool-cases, if◌then◌else◌,
  List, [], ◌∷◌, Option, none, some, All, contains, arith,
}
use aether_mesh.Base.Assoc.{
  lookup, contains_key, remove, nat_eq, IsMap, lookup-remove, contains_key-lookup,
}
use aether_mesh.Task.{NodeId, DataId}
use aether_mesh.Node.{Float}
use aether_mesh.Catalog.{holds}
use aether_mesh.Catalog.Holds.{holds-forget}
use aether_mesh.Catalog.Run.{forget-IsMap}
use aether_mesh.Connections.{detach, is_connected}
use aether_mesh.Registry.{
  NodeEntry, Registry, MeshState, is_stale, stale_nodes, remove_node, evict_node, evict_each,
  evict_stale_nodes,
}

module _ (float : Float) where
  -- Every node stands once, under its own id, and every dataset once.
  pub record IsValid (state : MeshState float) : Type 0 where
    pub distinct : IsMap state.registry
    pub keyed : All (λ (p : NodeId × NodeEntry float). p.1.info.id ≡ p.0) state.registry
    pub datasets : IsMap state.catalog

  -- Is a node registered and silent for longer than the timeout?
  abbrev pub silent : ℕ → ℕ → Option (NodeEntry float) → Bool
  silent now timeout none = false
  silent now timeout (some entry) = is_stale float now timeout entry

  contains-stale_nodes :
      (now timeout : ℕ) (r : Registry float) (id : NodeId)
      → IsMap r
      → All (λ (p : NodeId × NodeEntry float). p.1.info.id ≡ p.0) r
      → contains (stale_nodes float now timeout r) id ≡ silent now timeout (lookup id r)
  unfolding stale_nodes lookup
  contains-stale_nodes now timeout [] id u k = refl
  contains-stale_nodes now timeout ((j, e) ∷ r) id u k =
      let ih = contains-stale_nodes now timeout r id u.1 k.1 in
      let named = k.0 in
      elim (Bool-cases (j == id)) [
        | inl same ↦
            let p : j ≡ id = ground arith in
            let absent : lookup id r ≡ none =
              ground (arith, contains_key-lookup id r, ap (λ x. contains_key x r) (sym p), u.0) in
            elim (Bool-cases (is_stale float now timeout e)) [
              | inl old ↦ rw (old, same) (ground arith)
              | inr fresh ↦ rw (fresh, same) (ih ∙ ap (silent now timeout) absent ∙ sym fresh)
            ]
        | inr other ↦ elim (Bool-cases (is_stale float now timeout e)) [
          | inl old ↦ rw (old, other) (ground arith)
          | inr fresh ↦ rw (fresh, other) ih
        ]
      ]

  evict_each-lookup :
      (ids : List NodeId) (state : MeshState float) (id : NodeId)
      → lookup id (evict_each float ids state).registry
        ≡ (if contains ids id then none else lookup id state.registry)
  unfolding evict_each remove_node
  evict_each-lookup [] state id = refl
  evict_each-lookup (n ∷ ids) state id = ground (
    arith,
    evict_each-lookup ids (evict_node float n state) id,
    lookup-remove n id state.registry,
  )

  evict_each-is_connected :
      (ids : List NodeId) (state : MeshState float) (id : NodeId)
      → is_connected id (evict_each float ids state).connections
        ≡ (not (contains ids id) && is_connected id state.connections)
  unfolding evict_each is_connected detach
  evict_each-is_connected [] state id = refl
  evict_each-is_connected (n ∷ ids) state id =
      let senders = state.connections.senders in
      ground (
        arith,
        evict_each-is_connected ids (evict_node float n state) id,
        lookup-remove n id senders,
        contains_key-lookup id senders,
        contains_key-lookup id (remove n senders),
      )

  evict_each-holds :
      (ids : List NodeId) (state : MeshState float) (d : DataId) (id : NodeId)
      → IsMap state.catalog
      → holds d id (evict_each float ids state).catalog
        ≡ (not (contains ids id) && holds d id state.catalog)
  unfolding evict_each
  evict_each-holds [] state d id u = refl
  evict_each-holds (n ∷ ids) state d id u = ground (
    arith,
    evict_each-holds ids (evict_node float n state) d id (forget-IsMap n state.catalog u),
    holds-forget n state.catalog d id u,
  )

  -- What the state is after an eviction, for one node.
  pub record Evicted (state after : MeshState float) (gone : Bool) (id : NodeId) : Type 0 where
    pub registered : lookup id after.registry ≡ (if gone then none else lookup id state.registry)
    pub connected :
        is_connected id after.connections ≡ (not gone && is_connected id state.connections)
    pub holding : (d : DataId) → holds d id after.catalog ≡ (not gone && holds d id state.catalog)

  -- On a valid state, evicting stale nodes removes exactly the registered nodes that were silent for longer than the
  -- timeout: such a node is no longer registered, connected or listed as holding any dataset, and
  -- for all other nodes all three stay as they were; the answer lists the nodes that went.
  pub evict_stale_nodes-Evicted :
      (state : MeshState float) (now timeout : ℕ) (id : NodeId)
      → IsValid state
      → let r = evict_stale_nodes float state now timeout in
        let gone = silent now timeout (lookup id state.registry) in
        Evicted state r.0 gone id × (contains r.1 id ≡ gone)
  unfolding evict_stale_nodes
  evict_stale_nodes-Evicted state now timeout id v =
      let stale = stale_nodes float now timeout state.registry in
      let listed = contains-stale_nodes now timeout state.registry id v.distinct v.keyed in
      (
        rw (← listed) (record {
          registered = evict_each-lookup stale state id;
          connected = evict_each-is_connected stale state id;
          holding = λ d. evict_each-holds stale state d id v.datasets;
        }),
        listed,
      )
