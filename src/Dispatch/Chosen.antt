-- ===== src/Dispatch/Chosen.antt =====
-- The node that the scheduler chooses for an attempt.
use aether_mesh.Base.{
  ℕ, ◌≡◌, refl, sym, ◌∙◌, ap, inl, inr, true, false, not, ◌&&◌, Bool, Bool-cases, List, [], ◌∷◌,
  some, contains, filter, In, map, arith,
}
use aether_mesh.Labels.{satisfies_all}
use aether_mesh.Task.{Task, NodeId}
use aether_mesh.Node.{Float, NodeInfo}
use aether_mesh.Scheduler.{Eligible}
use aether_mesh.Registry.{nodes}
use aether_mesh.Controller.{nodes_with_pending_work, with_pending, pending_on}
use aether_mesh.Dispatch.Transport.{World, State}
use aether_mesh.Dispatch.{candidates, select}
use aether_mesh.Dispatch.Logged.{logged}

module _ {float : Float} {W : Type 0} (world : World float W) where
  abbrev S : Type 0
  S = State float (W × List NodeId)

  -- Nodes that the task may run on, none of them twice or among those set aside.
  abbrev pub MayRun : Task → S → NodeId → Type 0
  MayRun task s id =
      (node : NodeInfo float) × (node.id ≡ id)
      × Eligible float (nodes float s.controller.registry) task node

  In-filter :
      (p : NodeInfo float → Bool) (x : NodeInfo float) (xs : List (NodeInfo float))
      → In x (filter p xs)
      → In x xs × (p x ≡ true)
  In-filter p x [] m = absurd m
  In-filter p x (y ∷ ys) m = elim (Bool-cases (p y)) [
    | inl kept ↦ elim (rw kept at m) [
      | inl e ↦ (inl e, ap p e ∙ kept)
      | inr later ↦ let (there, passes) = In-filter p x ys later in (inr there, passes)
    ]
    | inr gone ↦ let (there, passes) = In-filter p x ys (rw gone at m) in (inr there, passes)
  ]

  In-map :
      (f : NodeInfo float → NodeInfo float) (x : NodeInfo float) (xs : List (NodeInfo float))
      → In x (map f xs)
      → (y : NodeInfo float) × (x ≡ f y) × In y xs
  In-map f x [] m = absurd m
  In-map f x (y ∷ ys) (inl e) = (y, e, inl refl)
  In-map f x (y ∷ ys) (inr m) = let (z, e, there) = In-map f x ys m in (z, e, inr there)

  with_pending-same :
      (k : ℕ) (node : NodeInfo float)
      → ((with_pending float k node).id ≡ node.id)
        × ((with_pending float k node).labels ≡ node.labels)
  unfolding with_pending
  with_pending-same k node = (ground arith, ground arith)

  and_parts : (a b : Bool) → (not a && b) ≡ true → a ≡ false
  and_parts a b h = ground arith

  -- The scheduler chooses a node that is registered, may run the task and is not set aside.
  pub select-MayRun :
      (unusable : List NodeId) (task : Task) (s : S) (n : NodeId)
      → select (logged world) unusable task s ≡ some n
      → (contains unusable n ≡ false) × MayRun task s n
  unfolding select candidates nodes_with_pending_work
  select-MayRun unusable task s n h =
      let (node, same, (member, fits)) =
        (world.scheduler s.controller.catalog).sound (candidates (logged world) unusable s) task n
          h in
      let (offered, passes) =
        In-filter _ node (nodes_with_pending_work float s.controller) member in
      let (known, made, there) = In-map _ node (nodes float s.controller.registry) offered in
      let kept = with_pending-same (pending_on float known.id s.controller) known in
      (
        ap (contains unusable) (sym same)
            ∙ and_parts (contains unusable node.id)
                (world.transport.is_available node.id s.outside.0) passes,
        (
          known,
          sym kept.0 ∙ ap (λ (x : NodeInfo float). x.id) (sym made) ∙ same,
          (
            there,
            ap (λ labels. satisfies_all labels task.constraints)
                  (sym kept.1 ∙ ap (λ (x : NodeInfo float). x.labels) (sym made))
                ∙ fits,
          ),
        ),
      )
