-- ===== src/Dispatch/Calm.antt =====
-- On a consistent controller a submission does not panic, and it leaves a consistent controller.
use aether_mesh.Base.{
  ℕ, ◌≡◌, refl, sym, subst, inl, inr, Bool-cases, Option-cases, if◌then◌else◌, Option, none, some,
  List, [], ◌∷◌, length, All, arith,
}
use aether_mesh.Base.Assoc.{lookup, nat_eq}
use aether_mesh.Base.Result.{Result, ok, err}
use aether_mesh.Task.{DataId, NodeId, Bytes, DataDescriptor}
use aether_mesh.Node.{Float}
use aether_mesh.Store.{get, entry_bytes}
use aether_mesh.Store.Grows.{get-Grows, Grows, Grows-refl}
use aether_mesh.Chunk.{ChunkManifest, indexed}
use aether_mesh.Controller.{Controller, lock_transfer, release_transfer, bandwidth_to}
use aether_mesh.Controller.Publish.{IsConsistent, Grows-IsConsistent}
use aether_mesh.Dispatch.Transport.{
  Encoded, DispatchError, Stop, failed, panicked, World, State, M, continue, call, from_transport,
  modify,
}
use aether_mesh.Dispatch.Inputs.{
  get_input, encode_chunk, encode_chunks, add_chunk, skip_chunk, send_chunked, send_whole,
  send_bytes, send_batch, send_input, ensure_input, ensure_inputs, read_input, has_already,
  manifest_of, encode_bytes, count_transfer_skipped,
}
use aether_mesh.Dispatch.Kept.{Kept, set_controller}
use aether_mesh.Dispatch.Cuts.{Cuts, All-Cuts}

module _ {float : Float} {W : Type 0} where
  -- The computation ends without a panic, in a state with `P`.
  unfoldable pub Calm :
      {A : Type 0} → (State float W → Type 0) → State float W × Result Stop A → Type 0
  Calm P (s, ok a) = P s
  Calm P (s, err (failed e)) = P s
  Calm P (s, err panicked) = ⊥

  pub continue-Calm :
      {A B : Type 0} (P : State float W → Type 0) (r : State float W × Result Stop A)
      (f : A → M float W B)
      → Calm P r
      → ((a : A) (t : State float W) → P t → Calm P (f a t))
      → Calm P (continue r f)
  unfolding Calm
  continue-Calm P (s, ok a) f p next = next a s p
  continue-Calm P (s, err (failed e)) f p next = p
  continue-Calm P (s, err panicked) f p next = p

  pub from_transport-Calm :
      {A : Type 0} (P : State float W → Type 0) (s : State float W) (r : W × Result DispatchError A)
      → ((w : W) → P (record s { outside = w }))
      → Calm P (from_transport s r)
  unfolding Calm
  from_transport-Calm P s (w, ok a) p = p w
  from_transport-Calm P s (w, err e) p = p w

module _ {float : Float} {W : Type 0} (world : World float W) where
  abbrev pub Consistent : State float W → Type 0
  Consistent s = IsConsistent world.hash s.controller

  -- A change of what consistency does not speak of.
  same_store :
      (s : State float W) (d : Controller float)
      → Consistent s
      → d.store ≡ s.controller.store
      → d.chunk_size ≡ s.controller.chunk_size
      → d.manifests ≡ s.controller.manifests
      → IsConsistent world.hash d
  same_store s d v e f g =
      Grows-IsConsistent world.hash s.controller d v
        (subst (Grows s.controller.store) (sym e) (Grows-refl s.controller.store)) f g

  Consistent-Kept : (n : NodeId) → Kept world n Consistent
  unfolding lock_transfer release_transfer
  Consistent-Kept n = record {
    lock = λ s i v. same_store s _ v refl refl refl;
    release = λ s i v. same_store s _ v refl refl refl;
    skip_transfer = λ s v. same_store s _ v refl refl refl;
    skip_chunk = λ s v. same_store s _ v refl refl refl;
    chunk = λ s d k v. same_store s _ v refl refl refl;
    sent = λ s k m v. same_store s _ v refl refl refl;
    credited = λ s d v. same_store s _ v refl refl refl;
    read = λ s i v.
        Grows-IsConsistent world.hash s.controller _ v (get-Grows i s.controller.store) refl refl;
    whole = λ s d codec bytes v. v;
    manifest = λ s m v. v;
    batch = λ s i chunks v. v;
  }

  module _ (n : NodeId) where
    add_chunk-Calm :
        (m : ChunkManifest) (bytes : Bytes) (bandwidth : Option ℕ) (index : ℕ) (d : DataDescriptor)
        (s : State float W)
        → Cuts m bytes (index, d)
        → Consistent s
        → Calm Consistent (add_chunk world n m bytes bandwidth index d s)
    unfolding add_chunk Calm
    add_chunk-Calm m bytes bandwidth index d s (slice, cut) v =
        rw (add_chunk, cut) ((Consistent-Kept n).chunk s d _ v)

    encode_chunk-Calm :
        (m : ChunkManifest) (bytes : Bytes) (bandwidth : Option ℕ) (index : ℕ) (d : DataDescriptor)
        (s : State float W)
        → Cuts m bytes (index, d)
        → Consistent s
        → Calm Consistent (encode_chunk world n m bytes bandwidth index d s)
    unfolding encode_chunk Calm skip_chunk
    encode_chunk-Calm m bytes bandwidth index d s cut v =
        elim (Bool-cases (has_already world n d.id s.controller)) [
          | inl here ↦ rw here ((Consistent-Kept n).skip_chunk s v)
          | inr missing ↦ rw missing (add_chunk-Calm m bytes bandwidth index d s cut v)
        ]

    encode_chunks-Calm :
        (m : ChunkManifest) (bytes : Bytes) (bandwidth : Option ℕ)
        (chunks : List (ℕ × DataDescriptor)) (s : State float W)
        → All (Cuts m bytes) chunks
        → Consistent s
        → Calm Consistent (encode_chunks world n m bytes bandwidth chunks s)
    unfolding encode_chunks Calm
    encode_chunks-Calm m bytes bandwidth [] s cuts v = v
    encode_chunks-Calm m bytes bandwidth ((index, d) ∷ chunks) s cuts v =
        continue-Calm Consistent (encode_chunk world n m bytes bandwidth index d s) _
          (encode_chunk-Calm m bytes bandwidth index d s cuts.0 v)
          (λ batch t w.
            continue-Calm Consistent (encode_chunks world n m bytes bandwidth chunks t) _
              (encode_chunks-Calm m bytes bandwidth chunks t cuts.1 w) (λ others u x. x))

    send_batch-Calm :
        (id : DataId) (batch : List Encoded) (s : State float W)
        → Consistent s
        → Calm Consistent (send_batch world n id batch s)
    unfolding Calm
    send_batch-Calm id [] s v = v
    send_batch-Calm id (e ∷ batch) s v =
        from_transport-Calm Consistent s (world.transport.send_chunks n id (e ∷ batch) s.outside)
          (λ w. v)

    send_bytes-Calm :
        (d : DataDescriptor) (bytes : Bytes) (bandwidth : Option ℕ) (found : Option ChunkManifest)
        (s : State float W)
        → ((m : ChunkManifest) → found ≡ some m → All (Cuts m bytes) (indexed m))
        → Consistent s
        → Calm Consistent (send_bytes world n d bytes bandwidth found s)
    unfolding send_whole send_chunked Calm
    send_bytes-Calm d bytes bandwidth none s cuts v =
        let encoded = encode_bytes world bytes bandwidth s.controller in
        continue-Calm Consistent (call (world.transport.send_data n d encoded.0 encoded.1) s) _
          (from_transport-Calm Consistent s
            (world.transport.send_data n d encoded.0 encoded.1 s.outside) (λ w. v))
          (λ _ t w. (Consistent-Kept n).sent t _ _ w)
    send_bytes-Calm d bytes bandwidth (some m) s cuts v =
        continue-Calm Consistent (call (world.transport.send_manifest n m) s) _
          (from_transport-Calm Consistent s (world.transport.send_manifest n m s.outside) (λ w. v))
          (λ _ t w.
            continue-Calm Consistent (encode_chunks world n m bytes bandwidth (indexed m) t) _
              (encode_chunks-Calm m bytes bandwidth (indexed m) t (cuts m refl) w)
              (λ batch u x. send_batch-Calm m.dataset.id batch u x))

    -- The bytes that are stored are those that the manifest was made from.
    stored-Cuts :
        (id : DataId) (bytes : Bytes) (s : State float W)
        → Consistent s
        → entry_bytes (lookup id s.controller.store.blobs) ≡ some bytes
        → (m : ChunkManifest) → manifest_of world id s.controller ≡ some m
        → All (Cuts m bytes) (indexed m)
    stored-Cuts id bytes s v there m found =
        let (b, size, stored, small, e) = v.splits id m found in
        let same : b ≡ bytes = ground arith in rw (e, same) (All-Cuts world.hash bytes size small)

    send_input-Calm :
        (id : DataId) (s : State float W) → Consistent s → Calm Consistent (send_input world n id s)
    unfolding send_input read_input get Calm
    send_input-Calm id s v =
        let read = set_controller s (get_input world id s.controller).0 in
        let w : Consistent read = (Consistent-Kept n).read s id v in
        elim (Option-cases (entry_bytes (lookup id read.controller.store.blobs))) [
          | inl absent ↦ rw (send_input, read_input, get, absent) w
          | inr (bytes, there) ↦
              let d : DataDescriptor = record { id = id; size_bytes = length bytes } in
              rw (send_input, read_input, get, there)
                (continue-Calm Consistent
                  (send_bytes world n d bytes (bandwidth_to float n read.controller)
                    (manifest_of world id read.controller) read)
                  _
                  (send_bytes-Calm d bytes (bandwidth_to float n read.controller)
                    (manifest_of world id read.controller) read (stored-Cuts id bytes read w there)
                    w)
                  (λ _ t x. (Consistent-Kept n).credited t d x))
        ]

    ensure_input-Calm :
        (id : DataId) (s : State float W)
        → Consistent s
        → Calm Consistent (ensure_input world n id s)
    unfolding ensure_input Calm
    ensure_input-Calm id s v =
        let locked = set_controller s (lock_transfer float n id s.controller) in
        let w : Consistent locked = (Consistent-Kept n).lock s id v in
        let here = has_already world n id locked.controller in
        continue-Calm Consistent
          ((if here then modify (count_transfer_skipped world) else send_input world n id) locked) _
          (elim (Bool-cases here) [
            | inl found ↦ rw found ((Consistent-Kept n).skip_transfer locked w)
            | inr missing ↦ rw missing (send_input-Calm id locked w)
          ])
          (λ _ t x. (Consistent-Kept n).release t id x)

    pub ensure_inputs-Calm :
        (inputs : List DataId) (s : State float W)
        → Consistent s
        → Calm Consistent (ensure_inputs world n inputs s)
    unfolding ensure_inputs Calm
    ensure_inputs-Calm [] s v = v
    ensure_inputs-Calm (id ∷ inputs) s v =
        continue-Calm Consistent (ensure_input world n id s) _ (ensure_input-Calm id s v)
          (λ _ t w. ensure_inputs-Calm inputs t w)
