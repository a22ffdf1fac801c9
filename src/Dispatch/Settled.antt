-- ===== src/Dispatch/Settled.antt =====
-- A submission ends without a panic, leaves the controller consistent, and leaves no task behind
-- that would count as unfinished.
use aether_mesh.Base.{
  Bool, ℕ, zero, suc, ◌+◌, ◌^◌, ◌<◌, ◌≡◌, refl, sym, subst, ◌∙◌, inl, inr, ltb, ◌&&◌, ◌==◌,
  Bool-cases, Option-cases, Option, none, some, List, [], ◌∷◌, arith,
}
use aether_mesh.Base.Result.{Result, ok, err}
use aether_mesh.Task.{NodeId, Task, TaskResult, DataDescriptor, output}
use aether_mesh.Node.{Float}
use aether_mesh.Store.{DataStore, DataStoreError, insert_data}
use aether_mesh.Store.Grows.{Grows, Grows-refl}
use aether_mesh.Controller.{
  Controller, pending_on, begin_on, finished_on, record_output, keep_output,
}
use aether_mesh.Controller.InFlight.{finished_on-begin_on, pending_same}
use aether_mesh.Controller.Publish.{IsConsistent, Grows-IsConsistent, record_output-IsConsistent}
use aether_mesh.Dispatch.Transport.{
  DispatchError, Stop, failed, panicked, World, State, M, is_retryable,
}
use aether_mesh.Dispatch.Inputs.{ensure_inputs}
use aether_mesh.Dispatch.Kept.{set_controller}
use aether_mesh.Dispatch.Frame.{ensure_inputs-Frame}
use aether_mesh.Dispatch.Calm.{
  Calm, continue-Calm, from_transport-Calm, Consistent, ensure_inputs-Calm,
}
use aether_mesh.Dispatch.{
  Cache, record_finished, try_once, select, finish, prepare_retry, settle, attempt, attempts,
  respond, on_node, ask_cache, or_attempt, submit,
}

module _ {float : Float} {W : Type 0} where
  Calm-and :
      {A : Type 0} (P Q : State float W → Type 0) (r : State float W × Result Stop A)
      → Calm P r
      → Q r.0
      → Calm (λ t. P t × Q t) r
  unfolding Calm
  Calm-and P Q (s, ok a) p q = (p, q)
  Calm-and P Q (s, err (failed e)) p q = (p, q)
  Calm-and P Q (s, err panicked) p q = p

  Calm-later :
      {A : Type 0} (P Q : State float W → Type 0) (r : State float W × Result Stop A)
      → Calm P r
      → ((t : State float W) → P t → Q t)
      → Calm Q r
  unfolding Calm
  Calm-later P Q (s, ok a) p f = f s p
  Calm-later P Q (s, err (failed e)) p f = f s p
  Calm-later P Q (s, err panicked) p f = p

module _ {float : Float} {W : Type 0} (world : World float W) where
  -- The state is consistent and its counts of unfinished tasks are those of `s`.
  abbrev pub Settled : State float W → State float W → Type 0
  Settled s t =
      Consistent world t
      × ((n : NodeId) → pending_on float n t.controller ≡ pending_on float n s.controller)

  -- The counters have room for one task more on each node.
  abbrev pub HasRoom : State float W → Type 0
  HasRoom s = (n : NodeId) → pending_on float n s.controller + 1 < 2 ^ 32

  -- Consistency does not speak of these fields.
  Settled-same :
      (s t : State float W) (d : Controller float) (w : W)
      → Settled s t
      → d.store ≡ t.controller.store
      → d.chunk_size ≡ t.controller.chunk_size
      → d.manifests ≡ t.controller.manifests
      → d.in_flight ≡ t.controller.in_flight
      → Settled s (record { controller = d; outside = w })
  Settled-same s t d w v e f g h = (
    Grows-IsConsistent world.hash t.controller d v.0
        (subst (Grows t.controller.store) (sym e) (Grows-refl t.controller.store)) f g,
    λ n. pending_same n d t.controller h ∙ v.1 n,
  )

  try_once-Settled :
      (n : NodeId) (task : Task) (s : State float W)
      → Consistent world s
      → Calm
          (λ t. Consistent world t × (t.controller.in_flight ≡ s.controller.in_flight))
          (try_once world n task s)
  unfolding try_once
  try_once-Settled n task s v =
      let P = λ (t : State float W).
        Consistent world t × (t.controller.in_flight ≡ s.controller.in_flight) in
      let sent = ensure_inputs world n task.inputs s in
      continue-Calm P sent _
        (Calm-and (Consistent world) (λ t. t.controller.in_flight ≡ s.controller.in_flight) sent
          (ensure_inputs-Calm world n task.inputs s v)
          (ensure_inputs-Frame world n task.inputs s).in_flight)
        (λ _ t p. from_transport-Calm P t (world.transport.dispatch n task t.outside) (λ w. p))

  finished_on-kept :
      (n : NodeId) (c : Controller float)
      → ((finished_on float n c).store ≡ c.store)
        × ((finished_on float n c).chunk_size ≡ c.chunk_size)
        × ((finished_on float n c).manifests ≡ c.manifests)
  unfolding finished_on
  finished_on-kept n c = (ground arith, ground arith, ground arith)

  finished_on-Consistent :
      (n : NodeId) (t : State float W)
      → Consistent world t
      → IsConsistent world.hash (finished_on float n t.controller)
  finished_on-Consistent n t v =
      let kept = finished_on-kept n t.controller in
      Grows-IsConsistent world.hash t.controller (finished_on float n t.controller) v
        (subst (Grows t.controller.store) (sym kept.0) (Grows-refl t.controller.store)) kept.1
        kept.2

  settle-Settled :
      (n : NodeId) (s : State float W) (r : State float W × Result Stop TaskResult)
      → pending_on float n s.controller + 1 < 2 ^ 32
      → Calm
          (λ t.
            Consistent world t
            × (t.controller.in_flight ≡ (begin_on float n s.controller).in_flight))
          r
      → Calm (Settled s) (settle world n r)
  unfolding Calm
  settle-Settled n s (t, ok a) h (v, same) =
      (finished_on-Consistent n t v, finished_on-begin_on n s.controller t.controller h same)
  settle-Settled n s (t, err (failed e)) h (v, same) =
      (finished_on-Consistent n t v, finished_on-begin_on n s.controller t.controller h same)
  settle-Settled n s (t, err panicked) h p = p

  attempt-Settled :
      (n : NodeId) (task : Task) (s t : State float W)
      → HasRoom s
      → Settled s t
      → Calm (Settled s) (attempt world n task t)
  unfolding attempt begin_on
  attempt-Settled n task s t room v =
      let begun = set_controller t (begin_on float n t.controller) in
      let begins : Consistent world begun =
        Grows-IsConsistent world.hash t.controller _ v.0 (Grows-refl t.controller.store) refl
          refl in
      let small : pending_on float n t.controller + 1 < 2 ^ 32 = (rw (v.1 n) (room n)) in
      Calm-later (Settled t) (Settled s) (attempt world n task t)
        (settle-Settled n t (try_once world n task begun) small
          (try_once-Settled n task begun begins))
        (λ u w. (w.0, λ m. w.1 m ∙ v.1 m))

  keep_output-in_flight :
      (d : DataDescriptor) (n : NodeId) (r : DataStore × Result DataStoreError Bool)
      (c : Controller float)
      → (keep_output float d n r c).in_flight ≡ c.in_flight
  keep_output-in_flight d n (s, ok fresh) c = refl
  keep_output-in_flight d n (s, err e) c = refl

  record_output-in_flight :
      (result : TaskResult) (c : Controller float)
      → (record_output float world.hash result c).in_flight ≡ c.in_flight
  unfolding record_output
  record_output-in_flight result c = elim (Option-cases result.output_id) [
    | inl absent ↦ rw (record_output, absent) refl
    | inr (id, named) ↦ elim (Option-cases (output result)) [
      | inl no_output ↦ rw (record_output, named, no_output) refl
      | inr (bytes, given) ↦
          rw (record_output, named, given)
            (keep_output-in_flight _ result.node_id (insert_data world.hash _ bytes c.store) c)
    ]
  ]

  finish-Settled :
      (task : Task) (result : TaskResult) (s t : State float W)
      → Settled s t
      → Calm (Settled s) (finish world task result t)
  unfolding finish Calm
  finish-Settled task result s t v =
      let c = t.controller in
      let noted = record c {
        history = record_finished task result (world.now t.outside) c.history;
      } in
      let w = Settled-same s t noted t.outside v refl refl refl refl in
      let kept = record_output-IsConsistent world.hash result noted w.0 in
      (
        Grows-IsConsistent world.hash (record_output float world.hash result noted) _ kept
            (Grows-refl _) refl refl,
        λ n. pending_same n _ noted (record_output-in_flight result noted) ∙ w.1 n,
      )

  prepare_retry-Settled :
      (n : NodeId) (s t : State float W) → Settled s t → Calm (Settled s) (prepare_retry world n t)
  unfolding prepare_retry Calm
  prepare_retry-Settled n s t v = elim (Bool-cases (t.controller.retry.backoff == 0)) [
    | inl zero_backoff ↦ rw zero_backoff (Settled-same s t _ t.outside v refl refl refl refl)
    | inr pause ↦ rw pause (
        Settled-same s t _ (world.sleep t.controller.retry.backoff t.outside) v refl refl refl refl)
  ]

  respond-Settled :
      (more : ℕ) (n : NodeId) (task : Task) (later : M float W TaskResult)
      (answer : Result DispatchError TaskResult) (s t : State float W)
      → ((u : State float W) → Settled s u → Calm (Settled s) (later u))
      → Settled s t
      → Calm (Settled s) (respond world more n task later answer t)
  unfolding Calm
  respond-Settled more n task later (ok result) s t ih v = finish-Settled task result s t v
  respond-Settled more n task later (err e) s t ih v =
      elim (Bool-cases (ltb 0 more && is_retryable e)) [
        | inl again ↦ rw again (
            continue-Calm (Settled s) (prepare_retry world n t) _ (prepare_retry-Settled n s t v)
              (λ _ u w. ih u w))
        | inr last ↦ rw last v
      ]

  on_node-Settled :
      (more : ℕ) (task : Task) (later : NodeId → M float W TaskResult) (choice : Option NodeId)
      (s t : State float W)
      → HasRoom s
      → ((n : NodeId) (u : State float W) → Settled s u → Calm (Settled s) (later n u))
      → Settled s t
      → Calm (Settled s) (on_node world more task later choice t)
  unfolding Calm
  on_node-Settled more task later none s t room ih v = v
  on_node-Settled more task later (some n) s t room ih v =
      continue-Calm (Settled s) (attempt world n task t) _ (attempt-Settled n task s t room v)
        (λ answer u w. respond-Settled more n task (later n) answer s u (ih n) w)

  attempts-Settled :
      (fuel : ℕ) (unusable : List NodeId) (task : Task) (s t : State float W)
      → HasRoom s
      → Settled s t
      → Calm (Settled s) (attempts world fuel unusable task t)
  unfolding attempts Calm
  attempts-Settled zero unusable task s t room v = v
  attempts-Settled (suc more) unusable task s t room v =
      on_node-Settled more task (λ n. attempts world more (n ∷ unusable) task)
        (select world unusable task t) s t room
        (λ n u w. attempts-Settled more (n ∷ unusable) task s u room w) v

  ask_cache-Settled :
      (task : Task) (s : State float W) (cache : Option Cache)
      → Consistent world s
      → Settled s (ask_cache world task s cache).0
  ask_cache-Settled task s none v = (v, λ n. refl)
  ask_cache-Settled task s (some cache) v =
      Settled-same s s _ s.outside (v, λ n. refl) refl refl refl refl

  or_attempt-Settled :
      (task : Task) (s : State float W) (r : State float W × Option TaskResult)
      → HasRoom s
      → Settled s r.0
      → Calm (Settled s) (or_attempt world task r)
  unfolding Calm
  or_attempt-Settled task s (t, none) room v =
      attempts-Settled t.controller.retry.max_attempts [] task s t room v
  or_attempt-Settled task s (t, some result) room v = v

  -- On a consistent controller, whose counters have room, a submission ends with a result or an
  -- error and not with a panic; the controller is consistent then, and counts for each node as many
  -- unfinished tasks as before.
  pub submit-Settled :
      (task : Task) (s : State float W)
      → Consistent world s
      → HasRoom s
      → Calm (Settled s) (submit world task s)
  unfolding submit
  submit-Settled task s v room =
      or_attempt-Settled task s (ask_cache world task s s.controller.cache) room
        (ask_cache-Settled task s s.controller.cache v)
