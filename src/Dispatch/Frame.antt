-- ===== src/Dispatch/Frame.antt =====
-- What a transfer of inputs leaves of the controller, and what it makes of the catalog.
use aether_mesh.Base.{
  ◌≡◌, refl, ◌∙◌, inl, inr, true, false, ◌&&◌, Bool, Bool-cases, if◌then◌else◌, List, [], ◌∷◌,
  length, All, arith,
}
use aether_mesh.Base.Result.{Result, ok, err}
use aether_mesh.Task.{DataId, NodeId, DataDescriptor}
use aether_mesh.Node.{Float}
use aether_mesh.Catalog.{Catalog, holds, record_data}
use aether_mesh.Catalog.Holds.{holds-record}
use aether_mesh.Controller.{Controller, lock_transfer, release_transfer, bandwidth_to}
use aether_mesh.Dispatch.Transport.{Stop, World, State, M, continue, modify}
use aether_mesh.Dispatch.Inputs.{
  has_already, send_input, read_input, send_bytes, manifest_of, credit, count_transfer_skipped,
  ensure_input, ensure_inputs,
}
use aether_mesh.Dispatch.Kept.{Kept, set_controller, ensure_inputs-keeps}

-- Nothing is forgotten.
abbrev pub Grows : Catalog → Catalog → Type 0
Grows c d = (k : DataId) (n : NodeId) → holds k n c ≡ true → holds k n d ≡ true

-- Recording keeps what was held, and adds its own.
record_data-Grows : (d : DataDescriptor) (n : NodeId) (c : Catalog) → Grows c (record_data d n c)
record_data-Grows d n c k m h = holds-record d n c k m ∙ ground arith

and_right : (a b : Bool) → (a && b) ≡ true → b ≡ true
and_right true b h = h
and_right false b h = absurd (ground arith)

module _ {float : Float} where
  pub record Frame (c d : Controller float) : Type 0 where
    pub registry : d.registry ≡ c.registry
    pub in_flight : d.in_flight ≡ c.in_flight
    pub cache : d.cache ≡ c.cache
    pub retry : d.retry ≡ c.retry
    pub reuse_data : d.reuse_data ≡ c.reuse_data
    pub grows : Grows c.catalog d.catalog

  pub Frame-refl : (c : Controller float) → Frame c c
  Frame-refl c = record {
    registry = refl;
    in_flight = refl;
    cache = refl;
    retry = refl;
    reuse_data = refl;
    grows = λ k n h. h;
  }

  -- A step that changes neither these fields nor the catalog.
  Frame-same :
      (c d e : Controller float)
      → Frame c d
      → e.registry ≡ d.registry
      → e.in_flight ≡ d.in_flight
      → e.cache ≡ d.cache
      → e.retry ≡ d.retry
      → e.reuse_data ≡ d.reuse_data
      → Grows d.catalog e.catalog
      → Frame c e
  Frame-same c d e f p q r s t g = record {
    registry = p ∙ f.registry;
    in_flight = q ∙ f.in_flight;
    cache = r ∙ f.cache;
    retry = s ∙ f.retry;
    reuse_data = t ∙ f.reuse_data;
    grows = λ k n h. g k n (f.grows k n h);
  }

module _ {float : Float} {W : Type 0} (world : World float W) where
  pub Frame-Kept :
      (node_id : NodeId) (c : Controller float)
      → Kept world node_id (λ (s : State float W). Frame c s.controller)
  unfolding lock_transfer release_transfer
  Frame-Kept node_id c =
      let keep = λ (s : State float W) (d : Controller float) (f : Frame c s.controller).
        Frame-same c s.controller d f in
      record {
        lock = λ s i f. keep s _ f refl refl refl refl refl (λ k n h. h);
        release = λ s i f. keep s _ f refl refl refl refl refl (λ k n h. h);
        skip_transfer = λ s f. keep s _ f refl refl refl refl refl (λ k n h. h);
        skip_chunk = λ s f. keep s _ f refl refl refl refl refl (λ k n h. h);
        chunk = λ s d n f.
            keep s _ f refl refl refl refl refl (record_data-Grows d node_id s.controller.catalog);
        sent = λ s n m f. keep s _ f refl refl refl refl refl (λ k i h. h);
        credited = λ s d f.
            keep s _ f refl refl refl refl refl (record_data-Grows d node_id s.controller.catalog);
        read = λ s i f. keep s _ f refl refl refl refl refl (λ k n h. h);
        whole = λ s d codec bytes f. f;
        manifest = λ s m f. f;
        batch = λ s i chunks f. f;
      }

  pub ensure_inputs-Frame :
      (node_id : NodeId) (inputs : List DataId) (s : State float W)
      → Frame s.controller (ensure_inputs world node_id inputs s).0.controller
  ensure_inputs-Frame node_id inputs s =
      ensure_inputs-keeps world node_id (λ t. Frame s.controller t.controller)
        (Frame-Kept node_id s.controller) inputs s (Frame-refl s.controller)

  -- `P` holds of the state if the computation ends with a value.
  unfoldable pub OnOk :
      {A : Type 0} → (State float W → Type 0) → State float W × Result Stop A → Type 0
  OnOk P (s, ok a) = P s
  OnOk P (s, err e) = Unit

  pub continue-OnOk :
      {A B : Type 0} (P Q : State float W → Type 0) (r : State float W × Result Stop A)
      (f : A → M float W B)
      → OnOk P r
      → ((a : A) (t : State float W) → P t → OnOk Q (f a t))
      → OnOk Q (continue r f)
  unfolding OnOk
  continue-OnOk P Q (s, ok a) f p next = next a s p
  continue-OnOk P Q (s, err e) f p next = tt

  -- What stands at the end of a computation does, however it began.
  pub finally-OnOk :
      {A B : Type 0} (Q : State float W → Type 0) (r : State float W × Result Stop A)
      (f : A → M float W B)
      → ((a : A) (t : State float W) → OnOk Q (f a t))
      → OnOk Q (continue r f)
  unfolding OnOk
  finally-OnOk Q (s, ok a) f next = next a s
  finally-OnOk Q (s, err e) f next = tt

  pub OnOk-and :
      {A : Type 0} (P Q : State float W → Type 0) (r : State float W × Result Stop A)
      → OnOk P r
      → Q r.0
      → OnOk (λ t. Q t × P t) r
  unfolding OnOk
  OnOk-and P Q (s, ok a) p q = (q, p)
  OnOk-and P Q (s, err e) p q = tt

  module _ (node_id : NodeId) where
    abbrev pub Holds : DataId → State float W → Type 0
    Holds data_id s = holds data_id node_id s.controller.catalog ≡ true

    credit-Holds :
        (d : DataDescriptor) (s : State float W)
        → Holds d.id (set_controller s (credit world node_id d s.controller))
    credit-Holds d s = ground (arith, holds-record d node_id s.controller.catalog d.id node_id)

    send_input-Holds :
        (data_id : DataId) (s : State float W)
        → OnOk (Holds data_id) (send_input world node_id data_id s)
    unfolding send_input OnOk
    send_input-Holds data_id s =
        finally-OnOk (Holds data_id) (read_input world data_id s) _ (λ bytes t.
          finally-OnOk (Holds data_id)
            (send_bytes world node_id (record { id = data_id; size_bytes = length bytes }) bytes
              (bandwidth_to float node_id t.controller) (manifest_of world data_id t.controller) t)
            _ (λ _ u. credit-Holds (record { id = data_id; size_bytes = length bytes }) u))

    ensure_input-Holds :
        (data_id : DataId) (s : State float W)
        → OnOk (Holds data_id) (ensure_input world node_id data_id s)
    unfolding ensure_input release_transfer OnOk
    ensure_input-Holds data_id s =
        let locked = set_controller s (lock_transfer float node_id data_id s.controller) in
        let c = locked.controller in
        let here = has_already world node_id data_id c in
        continue-OnOk (Holds data_id) (Holds data_id)
          ((if here
              then modify (count_transfer_skipped world)
              else send_input world node_id data_id)
            locked)
          _
          (elim (Bool-cases here) [
            | inl found ↦ rw found (and_right c.reuse_data (holds data_id node_id c.catalog) found)
            | inr missing ↦ rw missing (send_input-Holds data_id locked)
          ])
          (λ _ t h. h)

    -- After the inputs of a task have been brought to a node, the catalog lists the node for each of
    -- them.
    pub ensure_inputs-Holds :
        (inputs : List DataId) (s : State float W)
        → OnOk (λ t. All (λ data_id. Holds data_id t) inputs) (ensure_inputs world node_id inputs s)
    unfolding ensure_inputs OnOk
    ensure_inputs-Holds [] s = tt
    ensure_inputs-Holds (data_id ∷ inputs) s =
        continue-OnOk (Holds data_id) (λ t. All (λ i. Holds i t) (data_id ∷ inputs))
          (ensure_input world node_id data_id s) _ (ensure_input-Holds data_id s)
          (λ _ t h.
            OnOk-and (λ u. All (λ i. Holds i u) inputs) (Holds data_id)
              (ensure_inputs world node_id inputs t) (ensure_inputs-Holds inputs t)
              ((ensure_inputs-Frame node_id inputs t).grows data_id node_id h))
