-- ===== src/Dispatch/Kept.antt =====
-- What the transfer of a task's inputs leaves as it is: a predicate on states that each of its
-- elementary steps keeps is kept by the whole transfer.
use aether_mesh.Base.{
  ℕ, ◌≡◌, refl, sym, subst, true, false, Bool, if◌then◌else◌, List, [], ◌∷◌, Option, none, some,
  length,
}
use aether_mesh.Base.Assoc.{nat_eq}
use aether_mesh.Base.Result.{Result, ok, err}
use aether_mesh.Task.{DataId, NodeId, Bytes, DataDescriptor}
use aether_mesh.Node.{Float}
use aether_mesh.Chunk.{ChunkManifest, indexed}
use aether_mesh.Compress.{Codec}
use aether_mesh.Controller.{Controller, lock_transfer, release_transfer, bandwidth_to}
use aether_mesh.Dispatch.Transport.{
  DispatchError, Stop, Encoded, World, State, M, continue, expect, modify, call, from_transport,
}
use aether_mesh.Dispatch.Inputs.{
  read_input, get_input, with_bytes, slice_of, credit_chunk, count_chunk_skipped, has_already,
  encode_bytes, skip_chunk, add_chunk, encode_chunk, encode_chunks, send_batch, send_chunked,
  count_sent, send_whole, send_bytes, credit, manifest_of, send_input, count_transfer_skipped,
  ensure_input, ensure_inputs,
}

module _ {float : Float} {W : Type 0} where
  abbrev pub set_controller : State float W → Controller float → State float W
  set_controller s c = record s { controller = c }

  abbrev pub set_outside : State float W → W → State float W
  set_outside s w = record s { outside = w }

  pub from_transport-state :
      {A : Type 0} (s : State float W) (r : W × Result DispatchError A)
      → (from_transport s r).0 ≡ set_outside s r.0
  from_transport-state s (w, ok a) = refl
  from_transport-state s (w, err e) = refl

  -- The state that a bind ends in.
  pub continue-state :
      {A B : Type 0} (P : State float W → Type 0) (r : State float W × Result Stop A)
      (f : A → M float W B)
      → P r.0
      → ((a : A) (t : State float W) → P t → P (f a t).0)
      → P (continue r f).0
  continue-state P (s, ok a) f p next = next a s p
  continue-state P (s, err e) f p next = p

  -- The same with another predicate for what comes after.
  pub continue-later :
      {A B : Type 0} (P Q : State float W → Type 0) (r : State float W × Result Stop A)
      (f : A → M float W B)
      → P r.0
      → ((t : State float W) → P t → Q t)
      → ((a : A) (t : State float W) → P t → Q (f a t).0)
      → Q (continue r f).0
  continue-later P Q (s, ok a) f p stop next = next a s p
  continue-later P Q (s, err e) f p stop next = stop s p

  expected-state :
      {A B : Type 0} (P : State float W → Type 0) (found : Option A) (f : A → M float W B)
      (s : State float W)
      → P s
      → ((a : A) → P (f a s).0)
      → P (continue (expect found s) f).0
  expected-state P none f s p next = p
  expected-state P (some a) f s p next = next a

  pub if-state :
      {A : Type 0} (P : State float W → Type 0) (b : Bool) (m n : M float W A) (s : State float W)
      → P (m s).0
      → P (n s).0
      → P ((if b then m else n) s).0
  if-state P true m n s p q = p
  if-state P false m n s p q = q

module _ {float : Float} {W : Type 0} (world : World float W) where
  open world use {lz4, transport}

  -- `P` is kept by the elementary steps of a transfer to the node.
  pub record Kept (node_id : NodeId) (P : State float W → Type 0) : Type 0 where
    pub lock :
        (s : State float W) (data_id : DataId)
        → P s
        → P (set_controller s (lock_transfer float node_id data_id s.controller))
    pub release :
        (s : State float W) (data_id : DataId)
        → P s
        → P (set_controller s (release_transfer float node_id data_id s.controller))
    pub skip_transfer :
        (s : State float W) → P s → P (set_controller s (count_transfer_skipped world s.controller))
    pub skip_chunk :
        (s : State float W) → P s → P (set_controller s (count_chunk_skipped world s.controller))
    pub chunk :
        (s : State float W) (d : DataDescriptor) (n : ℕ)
        → P s
        → P (set_controller s (credit_chunk world node_id d n s.controller))
    pub sent :
        (s : State float W) (n m : ℕ)
        → P s
        → P (set_controller s (count_sent world n m s.controller))
    pub credited :
        (s : State float W) (d : DataDescriptor)
        → P s
        → P (set_controller s (credit world node_id d s.controller))
    pub read :
        (s : State float W) (data_id : DataId)
        → P s
        → P (set_controller s (get_input world data_id s.controller).0)
    pub whole :
        (s : State float W) (d : DataDescriptor) (codec : Codec) (bytes : Bytes)
        → P s
        → P (set_outside s (transport.send_data node_id d codec bytes s.outside).0)
    pub manifest :
        (s : State float W) (m : ChunkManifest)
        → P s
        → P (set_outside s (transport.send_manifest node_id m s.outside).0)
    pub batch :
        (s : State float W) (data_id : DataId) (chunks : List Encoded)
        → P s
        → P (set_outside s (transport.send_chunks node_id data_id chunks s.outside).0)

  module _ (node_id : NodeId) (P : State float W → Type 0) (k : Kept node_id P) where
    pub call-keeps :
        {A : Type 0} (f : W → W × Result DispatchError A) (s : State float W)
        → P (set_outside s (f s.outside).0)
        → P (call f s).0
    call-keeps f s p = subst P (sym (from_transport-state s (f s.outside))) p

    with_bytes-state :
        (s : State float W) (data_id : DataId) (r : Controller float × Option Bytes)
        → (with_bytes world s data_id r).0 ≡ set_controller s r.0
    with_bytes-state s data_id (c, none) = refl
    with_bytes-state s data_id (c, some bytes) = refl

    read_input-keeps :
        (data_id : DataId) (s : State float W) → P s → P (read_input world data_id s).0
    unfolding read_input
    read_input-keeps data_id s p =
        subst P (sym (with_bytes-state s data_id (get_input world data_id s.controller)))
          (k.read s data_id p)

    pub encode_chunk-keeps :
        (m : ChunkManifest) (bytes : Bytes) (bandwidth : Option ℕ) (index : ℕ) (d : DataDescriptor)
        (s : State float W)
        → P s
        → P (encode_chunk world node_id m bytes bandwidth index d s).0
    unfolding encode_chunk skip_chunk add_chunk
    encode_chunk-keeps m bytes bandwidth index d s p =
        if-state P (has_already world node_id d.id s.controller) (skip_chunk world)
          (add_chunk world node_id m bytes bandwidth index d) s (k.skip_chunk s p)
          (expected-state P (slice_of m index bytes) _ s p (λ slice. k.chunk s d _ p))

    encode_chunks-keeps :
        (m : ChunkManifest) (bytes : Bytes) (bandwidth : Option ℕ)
        (chunks : List (ℕ × DataDescriptor)) (s : State float W)
        → P s
        → P (encode_chunks world node_id m bytes bandwidth chunks s).0
    unfolding encode_chunks
    encode_chunks-keeps m bytes bandwidth [] s p = p
    encode_chunks-keeps m bytes bandwidth ((index, d) ∷ chunks) s p =
        continue-state P (encode_chunk world node_id m bytes bandwidth index d s) _
          (encode_chunk-keeps m bytes bandwidth index d s p)
          (λ batch t q.
            continue-state P (encode_chunks world node_id m bytes bandwidth chunks t) _
              (encode_chunks-keeps m bytes bandwidth chunks t q) (λ others u r. r))

    send_batch-keeps :
        (data_id : DataId) (batch : List Encoded) (s : State float W)
        → P s
        → P (send_batch world node_id data_id batch s).0
    send_batch-keeps data_id [] s p = p
    send_batch-keeps data_id (e ∷ batch) s p =
        call-keeps (transport.send_chunks node_id data_id (e ∷ batch)) s
          (k.batch s data_id (e ∷ batch) p)

    send_chunked-keeps :
        (m : ChunkManifest) (bytes : Bytes) (bandwidth : Option ℕ) (s : State float W)
        → P s
        → P (send_chunked world node_id m bytes bandwidth s).0
    unfolding send_chunked
    send_chunked-keeps m bytes bandwidth s p =
        continue-state P (call (transport.send_manifest node_id m) s) _
          (call-keeps (transport.send_manifest node_id m) s (k.manifest s m p))
          (λ _ t q.
            continue-state P (encode_chunks world node_id m bytes bandwidth (indexed m) t) _
              (encode_chunks-keeps m bytes bandwidth (indexed m) t q)
              (λ batch u r. send_batch-keeps m.dataset.id batch u r))

    send_bytes-keeps :
        (d : DataDescriptor) (bytes : Bytes) (bandwidth : Option ℕ) (m : Option ChunkManifest)
        (s : State float W)
        → P s
        → P (send_bytes world node_id d bytes bandwidth m s).0
    unfolding send_whole
    send_bytes-keeps d bytes bandwidth none s p =
        let encoded = encode_bytes world bytes bandwidth s.controller in
        continue-state P (call (transport.send_data node_id d encoded.0 encoded.1) s) _
          (call-keeps (transport.send_data node_id d encoded.0 encoded.1) s
            (k.whole s d encoded.0 encoded.1 p))
          (λ _ t q. k.sent t _ _ q)
    send_bytes-keeps d bytes bandwidth (some m) s p = send_chunked-keeps m bytes bandwidth s p

    send_input-keeps :
        (data_id : DataId) (s : State float W) → P s → P (send_input world node_id data_id s).0
    unfolding send_input
    send_input-keeps data_id s p =
        continue-state P (read_input world data_id s) _ (read_input-keeps data_id s p) (λ bytes t q.
          continue-state P
            (send_bytes world node_id (record { id = data_id; size_bytes = length bytes }) bytes
              (bandwidth_to float node_id t.controller) (manifest_of world data_id t.controller) t)
            _ (send_bytes-keeps _ bytes _ (manifest_of world data_id t.controller) t q)
            (λ _ u r. k.credited u _ r))

    pub ensure_input-keeps :
        (data_id : DataId) (s : State float W) → P s → P (ensure_input world node_id data_id s).0
    unfolding ensure_input
    ensure_input-keeps data_id s p =
        let locked = set_controller s (lock_transfer float node_id data_id s.controller) in
        let q : P locked = k.lock s data_id p in
        let here = has_already world node_id data_id locked.controller in
        continue-state P
          ((if here
              then modify (count_transfer_skipped world)
              else send_input world node_id data_id)
            locked)
          _
          (if-state P here (modify (count_transfer_skipped world))
            (send_input world node_id data_id) locked (k.skip_transfer locked q)
            (send_input-keeps data_id locked q))
          (λ _ t r. k.release t data_id r)

    pub ensure_inputs-keeps :
        (inputs : List DataId) (s : State float W)
        → P s
        → P (ensure_inputs world node_id inputs s).0
    unfolding ensure_inputs
    ensure_inputs-keeps [] s p = p
    ensure_inputs-keeps (data_id ∷ inputs) s p =
        continue-state P (ensure_input world node_id data_id s) _ (ensure_input-keeps data_id s p)
          (λ _ t q. ensure_inputs-keeps inputs t q)
