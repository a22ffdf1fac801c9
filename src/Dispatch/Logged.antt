-- ===== src/Dispatch/Logged.antt =====
-- A transport that keeps a log of the nodes a task is handed to, and what one attempt adds to it.
use aether_mesh.Base.{◌⊎◌, ◌≡◌, refl, ◌∙◌, ap, inl, inr, List, [], ◌∷◌, ◌++◌, arith}
use aether_mesh.Base.Result.{Result, ok, err}
use aether_mesh.Task.{Task, TaskResult, NodeId}
use aether_mesh.Node.{Float}
use aether_mesh.Controller.{Controller, begin_on, finished_on}
use aether_mesh.Dispatch.Transport.{
  DispatchError, Stop, failed, panicked, TaskTransport, World, State, from_transport,
}
use aether_mesh.Dispatch.Inputs.{ensure_inputs}
use aether_mesh.Dispatch.Kept.{Kept, set_controller, ensure_inputs-keeps, continue-later}
use aether_mesh.Dispatch.Frame.{ensure_inputs-Frame}
use aether_mesh.Dispatch.{try_once, settle, attempt}

-- Appends each node that a task is handed to.
module _ {W : Type 0} where
  abbrev pub aside :
      {A : Type 0}
      → List NodeId
      → W × Result DispatchError A
      → (W × List NodeId) × Result DispatchError A
  aside l r = ((r.0, l), r.1)

  abbrev pub logged_transport : TaskTransport W → TaskTransport (W × List NodeId)
  logged_transport t = record {
    dispatch = λ n task w. aside (w.1 ++ (n ∷ [])) (t.dispatch n task w.0);
    send_data = λ n d codec bytes w. aside w.1 (t.send_data n d codec bytes w.0);
    send_manifest = λ n m w. aside w.1 (t.send_manifest n m w.0);
    send_chunks = λ n i chunks w. aside w.1 (t.send_chunks n i chunks w.0);
    is_available = λ n w. t.is_available n w.0;
  }

module _ {float : Float} {W : Type 0} where
  abbrev pub logged : World float W → World float (W × List NodeId)
  logged world = record {
    hash = world.hash;
    lz4 = world.lz4;
    scheduler = world.scheduler;
    transport = logged_transport world.transport;
    now = λ w. world.now w.0;
    sleep = λ d w. (world.sleep d w.0, w.1);
  }

  abbrev pub log : State float (W × List NodeId) → List NodeId
  log s = s.outside.1

module _ {float : Float} {W : Type 0} (world : World float W) where
  abbrev S : Type 0
  S = State float (W × List NodeId)

  log-Kept : (n : NodeId) (l : List NodeId) → Kept (logged world) n (λ s. log s ≡ l)
  log-Kept n l = record {
    lock = λ s i p. p;
    release = λ s i p. p;
    skip_transfer = λ s p. p;
    skip_chunk = λ s p. p;
    chunk = λ s d k p. p;
    sent = λ s k m p. p;
    credited = λ s d p. p;
    read = λ s i p. p;
    whole = λ s d codec bytes p. p;
    manifest = λ s m p. p;
    batch = λ s i chunks p. p;
  }

  -- The registry is as it was, and the task was handed to the node at most once.
  pub record Attempted (n : NodeId) (s t : S) : Type 0 where
    pub logs : (log t ≡ log s) ⊎ (log t ≡ log s ++ (n ∷ []))
    pub registry : t.controller.registry ≡ s.controller.registry

  from_transport-Attempted :
      (n : NodeId) (s t : S) (r : (W × List NodeId) × Result DispatchError TaskResult)
      → r.0.1 ≡ log s ++ (n ∷ [])
      → t.controller.registry ≡ s.controller.registry
      → Attempted n s (from_transport t r).0
  from_transport-Attempted n s t (w, ok a) l q = record { logs = inr l; registry = q }
  from_transport-Attempted n s t (w, err e) l q = record { logs = inr l; registry = q }

  try_once-Attempted :
      (n : NodeId) (task : Task) (s : S) → Attempted n s (try_once (logged world) n task s).0
  unfolding try_once
  try_once-Attempted n task s =
      let sent = ensure_inputs (logged world) n task.inputs s in
      continue-later (λ t. (log t ≡ log s) × (t.controller.registry ≡ s.controller.registry))
        (Attempted n s) sent _
        (
          ensure_inputs-keeps (logged world) n (λ t. log t ≡ log s) (log-Kept n (log s)) task.inputs
              s refl,
          (ensure_inputs-Frame (logged world) n task.inputs s).registry,
        )
        (λ t p. record { logs = inl p.0; registry = p.1 })
        (λ _ t p.
          from_transport-Attempted n s t ((logged world).transport.dispatch n task t.outside)
            (ap (λ (l : List NodeId). l ++ (n ∷ [])) p.0) p.1)

  finished_on-registry :
      (n : NodeId) (c : Controller float) → (finished_on float n c).registry ≡ c.registry
  unfolding finished_on
  finished_on-registry n c = ground arith

  settle-Attempted :
      (n : NodeId) (s : S) (r : S × Result Stop TaskResult)
      → Attempted n s r.0
      → Attempted n s (settle (logged world) n r).0
  settle-Attempted n s (t, ok a) p = record {
    logs = p.logs;
    registry = finished_on-registry n t.controller ∙ p.registry;
  }
  settle-Attempted n s (t, err (failed e)) p = record {
    logs = p.logs;
    registry = finished_on-registry n t.controller ∙ p.registry;
  }
  settle-Attempted n s (t, err panicked) p = p

  pub attempt-Attempted :
      (n : NodeId) (task : Task) (s : S) → Attempted n s (attempt (logged world) n task s).0
  unfolding attempt begin_on
  attempt-Attempted n task s =
      let begun = set_controller s (begin_on float n s.controller) in
      let tried = try_once-Attempted n task begun in
      settle-Attempted n s (try_once (logged world) n task begun)
        (record { logs = tried.logs; registry = tried.registry })
