-- ===== src/Dispatch/Inputs.antt =====
-- crates/aether-controller/src/dispatch.rs: the transfer of a task's inputs to a node.
use aether_mesh.Base.{
  ℕ, ◌&&◌, if◌then◌else◌, Bool, List, [], ◌∷◌, ◌++◌, Option, none, some, length, take, drop, leb,
  ◌-◌,
}
use aether_mesh.Base.Assoc.{lookup, nat_eq}
use aether_mesh.Base.Result.{Result, ok, err}
use aether_mesh.Task.{DataId, NodeId, Bytes, DataDescriptor}
use aether_mesh.Node.{Float}
use aether_mesh.Catalog.{record_data, holds}
use aether_mesh.Store.{get}
use aether_mesh.Chunk.{ChunkManifest, chunk_range, indexed}
use aether_mesh.Compress.{Codec, encode}
use aether_mesh.Traffic.{record_sent, record_transfer_skipped, record_chunk_skipped}
use aether_mesh.Controller.{Controller, bandwidth_to, lock_transfer, release_transfer}
use aether_mesh.Dispatch.Transport.{
  unknown_input, Stop, failed, Encoded, World, State, M, ◌>>=◌, ◌>>◌, pure, expect, reads, modify,
  call,
}

-- `&bytes[range]` with the range of a chunk; none for a panic.
unfoldable pub slice_of : ChunkManifest → ℕ → Bytes → Option Bytes
slice_of manifest index bytes = elim (chunk_range manifest index) [
  | none ↦ none
  | some (start, end) ↦
      if leb end (length bytes) then some (take (end - start) (drop start bytes)) else none
]

module _ {float : Float} {W : Type 0} (world : World float W) where
  open world use {lz4, transport}

  abbrev pub with_bytes :
      State float W → DataId → Controller float × Option Bytes → State float W × Result Stop Bytes
  with_bytes s data_id (c, none) =
      (record s { controller = c }, err (failed (unknown_input data_id)))
  with_bytes s data_id (c, some bytes) = (record s { controller = c }, ok bytes)

  abbrev pub get_input : DataId → Controller float → Controller float × Option Bytes
  get_input data_id c =
      let (store, found) = get data_id c.store in (record c { store = store }, found)

  unfoldable pub read_input : DataId → M float W Bytes
  read_input data_id s = with_bytes s data_id (get_input data_id s.controller)

  abbrev pub credit_chunk : NodeId → DataDescriptor → ℕ → Controller float → Controller float
  credit_chunk node_id chunk wire_bytes c = record c {
    catalog = record_data chunk node_id c.catalog;
    traffic = record_sent wire_bytes chunk.size_bytes c.traffic;
  }

  abbrev pub count_chunk_skipped : Controller float → Controller float
  count_chunk_skipped c = record c { traffic = record_chunk_skipped c.traffic }

  abbrev pub has_already : NodeId → DataId → Controller float → Bool
  has_already node_id data_id c = c.reuse_data && holds data_id node_id c.catalog

  abbrev pub encode_bytes : Bytes → Option ℕ → Controller float → Codec × Bytes
  encode_bytes bytes bandwidth c = encode float lz4 c.compression bytes bandwidth

  -- A round of the loop of `send_chunked`, with what it adds to the batch.
  unfoldable pub skip_chunk : M float W (List Encoded)
  skip_chunk = do modify count_chunk_skipped; pure []

  unfoldable pub add_chunk :
      NodeId → ChunkManifest → Bytes → Option ℕ → ℕ → DataDescriptor → M float W (List Encoded)
  add_chunk node_id manifest bytes bandwidth index chunk = do
    slice ← expect (slice_of manifest index bytes)
    encoded ← reads (encode_bytes slice bandwidth)
    modify (credit_chunk node_id chunk (length encoded.1))
    pure ((index, encoded.0, encoded.1) ∷ [])

  unfoldable pub encode_chunk :
      NodeId → ChunkManifest → Bytes → Option ℕ → ℕ → DataDescriptor → M float W (List Encoded)
  encode_chunk node_id manifest bytes bandwidth index chunk = do
    here ← reads (has_already node_id chunk.id)
    if here then skip_chunk else add_chunk node_id manifest bytes bandwidth index chunk

  unfoldable pub encode_chunks :
      NodeId
      → ChunkManifest
      → Bytes
      → Option ℕ
      → List (ℕ × DataDescriptor)
      → M float W (List Encoded)
  encode_chunks node_id manifest bytes bandwidth [] = pure []
  encode_chunks node_id manifest bytes bandwidth ((index, chunk) ∷ chunks) = do
    batch ← encode_chunk node_id manifest bytes bandwidth index chunk
    others ← encode_chunks node_id manifest bytes bandwidth chunks
    pure (batch ++ others)

  abbrev pub send_batch : NodeId → DataId → List Encoded → M float W (Unit {0})
  send_batch node_id data_id [] = pure tt
  send_batch node_id data_id (e ∷ batch) = call (transport.send_chunks node_id data_id (e ∷ batch))

  unfoldable pub send_chunked : NodeId → ChunkManifest → Bytes → Option ℕ → M float W (Unit {0})
  send_chunked node_id manifest bytes bandwidth = do
    call (transport.send_manifest node_id manifest)
    batch ← encode_chunks node_id manifest bytes bandwidth (indexed manifest)
    send_batch node_id manifest.dataset.id batch

  abbrev pub count_sent : ℕ → ℕ → Controller float → Controller float
  count_sent wire_bytes original_bytes c = record c {
    traffic = record_sent wire_bytes original_bytes c.traffic;
  }

  unfoldable pub send_whole : NodeId → DataDescriptor → Bytes → Option ℕ → M float W (Unit {0})
  send_whole node_id descriptor bytes bandwidth = do
    encoded ← reads (encode_bytes bytes bandwidth)
    call (transport.send_data node_id descriptor encoded.0 encoded.1)
    modify (count_sent (length encoded.1) descriptor.size_bytes)

  abbrev pub send_bytes :
      NodeId → DataDescriptor → Bytes → Option ℕ → Option ChunkManifest → M float W (Unit {0})
  send_bytes node_id descriptor bytes bandwidth none = send_whole node_id descriptor bytes bandwidth
  send_bytes node_id descriptor bytes bandwidth (some manifest) =
      send_chunked node_id manifest bytes bandwidth

  abbrev pub credit : NodeId → DataDescriptor → Controller float → Controller float
  credit node_id descriptor c = record c { catalog = record_data descriptor node_id c.catalog }

  abbrev pub manifest_of : DataId → Controller float → Option ChunkManifest
  manifest_of data_id c = lookup data_id c.manifests

  -- The transfer of an input that the node lacks.
  unfoldable pub send_input : NodeId → DataId → M float W (Unit {0})
  send_input node_id data_id = do
    bytes ← read_input data_id
    let descriptor : DataDescriptor = record { id = data_id; size_bytes = length bytes }
    bandwidth ← reads (bandwidth_to float node_id)
    manifest ← reads (manifest_of data_id)
    send_bytes node_id descriptor bytes bandwidth manifest
    modify (credit node_id descriptor)

  abbrev pub count_transfer_skipped : Controller float → Controller float
  count_transfer_skipped c = record c { traffic = record_transfer_skipped c.traffic }

  -- A round of the loop of `ensure_inputs`.
  unfoldable pub ensure_input : NodeId → DataId → M float W (Unit {0})
  ensure_input node_id data_id = do
    modify (lock_transfer float node_id data_id)
    here ← reads (has_already node_id data_id)
    if here then modify count_transfer_skipped else send_input node_id data_id
    modify (release_transfer float node_id data_id)

  unfoldable pub ensure_inputs : NodeId → List DataId → M float W (Unit {0})
  ensure_inputs node_id [] = pure tt
  ensure_inputs node_id (data_id ∷ inputs) = do
    ensure_input node_id data_id
    ensure_inputs node_id inputs
