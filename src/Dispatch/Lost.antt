-- ===== src/Dispatch/Lost.antt =====
-- A chunked transfer that fails leaves the catalog saying that the node has the chunks.
use aether_mesh.Base.{
  Bool, ℕ, ◌≡◌, refl, sym, ap, subst, ◌∙◌, inl, inr, true, false, ◌&&◌, Bool-cases, List, [], ◌∷◌,
  ◌++◌, Option, All, arith,
}
use aether_mesh.Base.Result.{Result, ok}
use aether_mesh.Task.{NodeId, DataId, Bytes, DataDescriptor}
use aether_mesh.Node.{Float}
use aether_mesh.Catalog.{holds}
use aether_mesh.Catalog.Holds.{holds-record}
use aether_mesh.Chunk.{ChunkManifest, indexed}
use aether_mesh.Controller.{Controller}
use aether_mesh.Dispatch.Transport.{Stop, Encoded, World, State}
use aether_mesh.Dispatch.Inputs.{
  count_chunk_skipped, add_chunk, skip_chunk, encode_chunk, encode_chunks, send_batch, send_chunked,
  has_already,
}
use aether_mesh.Dispatch.Kept.{set_controller, from_transport-state}
use aether_mesh.Dispatch.Cuts.{Cuts}
use aether_mesh.Dispatch.Frame.{Grows}

module _ {float : Float} {W : Type 0} (world : World float W) (n : NodeId) where
  abbrev Listed : State float W → ℕ × DataDescriptor → Type 0
  Listed s p = holds p.1.id n s.controller.catalog ≡ true

  -- The batch of a list of chunks is made: they are all listed, and nothing was sent.
  record Encodes (chunks : List (ℕ × DataDescriptor)) (s : State float W)
      (r : State float W × Result Stop (List Encoded)) : Type 0 where
    after : State float W
    batch : List Encoded
    done : r ≡ (after, ok batch)
    listed : All (Listed after) chunks
    grows : Grows s.controller.catalog after.controller.catalog
    quiet : after.outside ≡ s.outside
    reuse : after.controller.reuse_data ≡ s.controller.reuse_data

  and_right : (a b : Bool) → (a && b) ≡ true → b ≡ true
  and_right true b h = h
  and_right false b h = absurd (ground arith)

  encode_chunk-Encodes :
      (m : ChunkManifest) (bytes : Bytes) (bandwidth : Option ℕ) (p : ℕ × DataDescriptor)
      (s : State float W)
      → Cuts m bytes p
      → Encodes (p ∷ []) s (encode_chunk world n m bytes bandwidth p.0 p.1 s)
  unfolding encode_chunk add_chunk skip_chunk
  encode_chunk-Encodes m bytes bandwidth (i, d) s (slice, cut) =
      elim (Bool-cases (has_already world n d.id s.controller)) [
        | inl here ↦ rw here (record {
          after = _;
          batch = [];
          done = refl;
          listed = (and_right s.controller.reuse_data (holds d.id n s.controller.catalog) here, tt);
          grows = λ k j h. h;
          quiet = refl;
          reuse = refl;
        })
        | inr missing ↦
            rw (missing, add_chunk, cut)
              (record {
                after = _;
                batch = _;
                done = refl;
                listed = (ground (arith, holds-record d n s.controller.catalog d.id n), tt);
                grows = λ k j h. holds-record d n s.controller.catalog k j ∙ ground arith;
                quiet = refl;
                reuse = refl;
              })
      ]

  encode_chunks-Encodes :
      (m : ChunkManifest) (bytes : Bytes) (bandwidth : Option ℕ)
      (chunks : List (ℕ × DataDescriptor)) (s : State float W)
      → All (Cuts m bytes) chunks
      → Encodes chunks s (encode_chunks world n m bytes bandwidth chunks s)
  unfolding encode_chunks
  encode_chunks-Encodes m bytes bandwidth [] s cuts = record {
    after = s;
    batch = [];
    done = refl;
    listed = tt;
    grows = λ k j h. h;
    quiet = refl;
    reuse = refl;
  }
  encode_chunks-Encodes m bytes bandwidth (p ∷ chunks) s cuts =
      let first = encode_chunk-Encodes m bytes bandwidth p s cuts.0 in
      let rest = encode_chunks-Encodes m bytes bandwidth chunks first.after cuts.1 in
      rw (first.done, rest.done)
        (record {
          after = rest.after;
          batch = first.batch ++ rest.batch;
          done = refl;
          listed = (rest.grows p.1.id n first.listed.0, rest.listed);
          grows = λ k j h. rest.grows k j (first.grows k j h);
          quiet = rest.quiet ∙ first.quiet;
          reuse = rest.reuse ∙ first.reuse;
        })

  -- The batch is handed over: only the world outside changes, whatever its answer is.
  send_batch-controller :
      (id : DataId) (batch : List Encoded) (s : State float W)
      → (send_batch world n id batch s).0.controller ≡ s.controller
  send_batch-controller id [] s = refl
  send_batch-controller id (e ∷ batch) s =
      ap (λ (t : State float W). t.controller)
        (from_transport-state s (world.transport.send_chunks n id (e ∷ batch) s.outside))

  -- Once its manifest is accepted, all chunks are listed and reuse is as before.
  record Lists (m : ChunkManifest) (s t : State float W) : Type 0 where
    listed : All (Listed t) (indexed m)
    reuse : t.controller.reuse_data ≡ s.controller.reuse_data

  send_chunked-Lists :
      (m : ChunkManifest) (bytes : Bytes) (bandwidth : Option ℕ) (s : State float W) (w : W)
      → All (Cuts m bytes) (indexed m)
      → world.transport.send_manifest n m s.outside ≡ (w, ok tt)
      → Lists m s (send_chunked world n m bytes bandwidth s).0
  unfolding send_chunked
  send_chunked-Lists m bytes bandwidth s w cuts accepted =
      let announced = record s { outside = w } in
      let e = encode_chunks-Encodes m bytes bandwidth (indexed m) announced cuts in
      let sent = send_batch-controller m.dataset.id e.batch e.after in
      rw (send_chunked, accepted, e.done)
        (record {
          listed =
              subst
                (λ (c : Controller float).
                  All (λ (p : ℕ × DataDescriptor). holds p.1.id n c.catalog ≡ true) (indexed m))
                (sym sent) e.listed;
          reuse = ap (λ (c : Controller float). c.reuse_data) sent ∙ e.reuse;
        })

  -- Chunks that are listed are left out.
  encode_chunks-nothing :
      (m : ChunkManifest) (bytes : Bytes) (bandwidth : Option ℕ)
      (chunks : List (ℕ × DataDescriptor)) (s : State float W)
      → s.controller.reuse_data ≡ true
      → All (Listed s) chunks
      → (t : State float W) × (encode_chunks world n m bytes bandwidth chunks s ≡ (t, ok []))
        × (t.outside ≡ s.outside)
  unfolding encode_chunks encode_chunk skip_chunk
  encode_chunks-nothing m bytes bandwidth [] s reuse listed = (s, refl, refl)
  encode_chunks-nothing m bytes bandwidth (p ∷ chunks) s reuse listed =
      let skipped = set_controller s (count_chunk_skipped world s.controller) in
      let here : has_already world n p.1.id s.controller ≡ true = ground (arith, reuse, listed.0) in
      let (t, done, quiet) =
        encode_chunks-nothing m bytes bandwidth chunks skipped reuse listed.1 in
      (t, rw (here, done) refl, quiet)

  -- After a chunked transfer to a node whose manifest was accepted, whether its chunks arrived or
  -- not, the same transfer again sends the manifest, when that is accepted, and nothing else, and
  -- reports success. The premises are that data is reused and that the chunks can be cut out of the
  -- bytes.
  pub send_chunked-lost :
      (m : ChunkManifest) (bytes : Bytes) (bandwidth : Option ℕ) (s t : State float W) (w v : W)
      → All (Cuts m bytes) (indexed m)
      → s.controller.reuse_data ≡ true
      → world.transport.send_manifest n m s.outside ≡ (w, ok tt)
      → (send_chunked world n m bytes bandwidth s).0 ≡ t
      → world.transport.send_manifest n m t.outside ≡ (v, ok tt)
      → ((send_chunked world n m bytes bandwidth t).1 ≡ ok tt)
        × ((send_chunked world n m bytes bandwidth t).0.outside ≡ v)
  unfolding send_chunked
  send_chunked-lost m bytes bandwidth s t w v cuts reuse accepted ended again =
      let l = subst (Lists m s) ended (send_chunked-Lists m bytes bandwidth s w cuts accepted) in
      let announced = record t { outside = v } in
      let (u, done, quiet) =
        encode_chunks-nothing m bytes bandwidth (indexed m) announced (l.reuse ∙ reuse) l.listed in
      rw (send_chunked, again, done) (refl, quiet)
