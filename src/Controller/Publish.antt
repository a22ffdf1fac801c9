-- ===== src/Controller/Publish.antt =====
-- What is published stays in the store, and each manifest is the split of the bytes that are stored.
use aether_mesh.Base.{
  Bool, ◌⊎◌, ℕ, ◌<◌, ◌^◌, ◌≡◌, refl, sym, ap, ◌∙◌, inl, inr, ◌==◌, ltb, Bool-cases, Option-cases,
  none, some, List, arith,
}
use aether_mesh.Base.Assoc.{lookup, nat_eq, lookup-insert, insert}
use aether_mesh.Base.Result.{Result, ok, err}
use aether_mesh.Task.{DataId, NodeId, Bytes, Hash, DataDescriptor, TaskResult, output}
use aether_mesh.Node.{Float}
use aether_mesh.Store.{DataStore, DataStoreError, put, get, entry_bytes}
use aether_mesh.Store.Grows.{Grows, put-Grows, get-Grows, insert_data-Grows}
use aether_mesh.Chunk.{ChunkManifest, split, size_or_default}
use aether_mesh.Controller.{
  Controller, or_insert, split_published, publish, keep_output, record_output,
}

abbrev pub IsSplit : Hash → DataStore → DataId → ChunkManifest → Type 0
IsSplit hash s id m =
    (bytes : Bytes) × (size : ℕ) × (entry_bytes (lookup id s.blobs) ≡ some bytes)
    × (size_or_default size < 2 ^ 32)
    × (m ≡ split hash bytes size)

or_insert-lookup :
    (id j : DataId) (m n : ChunkManifest) (l : List (DataId × ChunkManifest))
    → lookup j (or_insert id m l) ≡ some n
    → (lookup j l ≡ some n) ⊎ ((id ≡ j) × (m ≡ n))
or_insert-lookup id j m n l h = elim (Option-cases (lookup id l)) [
  | inr (k, old) ↦ inl (rw (or_insert, old) at h)
  | inl fresh ↦
      let found : lookup j (insert id m l) ≡ some n = (rw (or_insert, fresh) at h) in
      elim (Bool-cases (id == j)) [
        | inl same ↦ inr (ground arith, ground (arith, lookup-insert id j m l))
        | inr other ↦ inl (ground (arith, lookup-insert id j m l))
      ]
]

module _ {float : Float} (hash : Hash) where
  -- Nothing is evicted, and each manifest describes the bytes that are stored under its id.
  pub record IsConsistent (c : Controller float) : Type 0 where
    pub unbounded : c.store.budget ≡ none
    pub small : size_or_default c.chunk_size < 2 ^ 32
    pub splits :
        (id : DataId) (m : ChunkManifest)
        → lookup id c.manifests ≡ some m
        → IsSplit hash c.store id m

  pub Grows-IsConsistent :
      (c d : Controller float)
      → IsConsistent c
      → Grows c.store d.store
      → d.chunk_size ≡ c.chunk_size
      → d.manifests ≡ c.manifests
      → IsConsistent d
  Grows-IsConsistent c d v g size same = record {
    unbounded = g.unbounded v.unbounded;
    small = rw size v.small;
    splits = λ id m h.
        let (bytes, n, there, fits, e) =
          v.splits id m (ap (λ (l : List (DataId × ChunkManifest)). lookup id l) (sym same) ∙ h) in
        (bytes, n, g.kept id bytes there, fits, e);
  }

  split_published-IsConsistent :
      (id : DataId) (c : Controller float)
      → IsConsistent c
      → IsConsistent (split_published float hash id c)
  unfolding split_published get
  split_published-IsConsistent id c v =
      let s = (get id c.store).0 in
      let stored = record c { store = s } in
      let w = Grows-IsConsistent c stored v (get-Grows id c.store) refl refl in
      elim (Option-cases (entry_bytes (lookup id s.blobs))) [
        | inl absent ↦ rw (split_published, get, absent) w
        | inr (bytes, found) ↦
            rw (split_published, get, found)
              (record {
                unbounded = w.unbounded;
                small = v.small;
                splits = λ j n h.
                    elim (or_insert-lookup id j (split hash bytes c.chunk_size) n c.manifests h) [
                      | inl old ↦ w.splits j n old
                      | inr (same, made) ↦ (
                        bytes,
                        c.chunk_size,
                        ap (λ k. entry_bytes (lookup k s.blobs)) (sym same) ∙ found,
                        v.small,
                        sym made,
                      )
                    ];
              })
      ]

  -- Publishing keeps a consistent controller consistent.
  pub publish-IsConsistent :
      (bytes : Bytes) (c : Controller float)
      → IsConsistent c
      → IsConsistent (publish float hash bytes c).0
  unfolding publish
  publish-IsConsistent bytes c v =
      let r = put hash bytes c.store in
      let stored = record c { store = r.0 } in
      let w = Grows-IsConsistent c stored v (put-Grows hash bytes c.store v.unbounded) refl refl in
      elim (Bool-cases (ltb c.chunk_size r.1.size_bytes)) [
        | inl large ↦ rw large (split_published-IsConsistent r.1.id stored w)
        | inr tiny ↦ rw tiny w
      ]

  keep_output-IsConsistent :
      (d : DataDescriptor) (n : NodeId) (r : DataStore × Result DataStoreError Bool)
      (c : Controller float)
      → IsConsistent c
      → Grows c.store r.0
      → IsConsistent (keep_output float d n r c)
  keep_output-IsConsistent d n (s, ok fresh) c v g = Grows-IsConsistent c _ v g refl refl
  keep_output-IsConsistent d n (s, err e) c v g = Grows-IsConsistent c _ v g refl refl

  pub record_output-IsConsistent :
      (result : TaskResult) (c : Controller float)
      → IsConsistent c
      → IsConsistent (record_output float hash result c)
  unfolding record_output
  record_output-IsConsistent result c v = elim (Option-cases result.output_id) [
    | inl absent ↦ rw (record_output, absent) v
    | inr (id, named) ↦ elim (Option-cases (output result)) [
      | inl failed ↦ rw (record_output, named, failed) v
      | inr (bytes, given) ↦
          rw (record_output, named, given)
            (keep_output-IsConsistent _ result.node_id _ c v
              (insert_data-Grows hash _ bytes c.store v.unbounded))
    ]
  ]
