-- ===== src/Scheduler/Placement.antt =====
-- The three schedulers: each picks the best of the nodes that the task may run on.
use Prim.Native.Nat.{compare}
use aether_mesh.Base.{
  In-get_elem?, ℕ, ◌<◌, ◌≤◌, ◌≡◌, refl, ap₂, inl, inr, ◌⊎◌, Bool, true, false, Bool-cases, List, [],
  ◌∷◌, Option, none, some, filter, All, All-In, In, best, best-some, best-nil, best_bound,
  best-get_elem?, arith,
}
use aether_mesh.Labels.{satisfies_all}
use aether_mesh.Task.{Task, NodeId}
use aether_mesh.Node.{Float, NodeInfo}
use aether_mesh.Catalog.{Catalog, local_bytes}
use aether_mesh.Scheduler.{
  eligible, load_order, chosen_id, least_loaded, locality_order, locality, ScoreWeights, score,
  total, score_order, advanced, Eligible, then_with, is_less, is_not_less,
}

In-filter :
    {A : Type 0} (p : A → Bool) (xs : List A) (a : A) → In a (filter p xs) → In a xs × (p a ≡ true)
In-filter p [] a m = absurd m
In-filter p (x ∷ xs) a m = go (p x) refl (λ later. In-filter p xs a later)
  where
    go :
        (b : Bool)
        → p x ≡ b
        → (In a (filter p xs) → In a xs × (p a ≡ true))
        → In a (x ∷ xs) × (p a ≡ true)
    go true e rest = elim (rw e at m) [
      | inl here ↦ (inl here, rw here e)
      | inr later ↦ let (there, passed) = rest later in (inr there, passed)
    ]
    go false e rest = let (there, passed) = rest (rw e at m) in (inr there, passed)

filter-In :
    {A : Type 0} (p : A → Bool) (xs : List A) (a : A) → In a xs → p a ≡ true → In a (filter p xs)
filter-In p [] a m h = m
filter-In p (x ∷ xs) a (inl here) h = let e : p x ≡ true = rw here at h in rw e (inl here)
filter-In p (x ∷ xs) a (inr later) h = elim (Bool-cases (p x)) [
  | inl kept ↦ rw kept (inr (filter-In p xs a later h))
  | inr dropped ↦ rw dropped (filter-In p xs a later h)
]

-- The first of the best, for an order with the relation `R` that it decides.
module _ (float : Float) (better : NodeInfo float → NodeInfo float → Bool)
    (R : NodeInfo float → NodeInfo float → Type 0) (self : (a : NodeInfo float) → R a a)
    (trans : (a b c : NodeInfo float) → R a b → R b c → R a c)
    (wins : (x a : NodeInfo float) → better x a ≡ true → R x a)
    (keeps : (x a : NodeInfo float) → better x a ≡ false → R a x) where
  best_cases :
      (nodes : List (NodeInfo float))
      → ((nodes ≡ []) × (chosen_id float (best better nodes) ≡ none))
        ⊎ ((node : NodeInfo float) × In node nodes
            × All (R node) nodes
            × (chosen_id float (best better nodes) ≡ some node.id))
  best_cases [] = inl (refl, rw (best-nil better))
  best_cases (x ∷ xs) =
      let (i, node, found) = best-some better x xs in
      inr (
        node,
        In-get_elem? (x ∷ xs) i node (best-get_elem? better (x ∷ xs) i node found),
        best_bound better R self trans wins keeps (x ∷ xs) i node found,
        rw found,
      )

module _ (float : Float) where
  open float use {key, total_cmp_lem}

  -- `a` is no busier than `x`: less CPU usage, or the same and no more memory usage.
  abbrev pub NoBusier : NodeInfo float → NodeInfo float → Type 0
  NoBusier a x =
      (key a.metrics.cpu_usage < key x.metrics.cpu_usage)
      ⊎ ((key a.metrics.cpu_usage ≡ key x.metrics.cpu_usage)
          × (key a.metrics.memory_usage ≤ key x.metrics.memory_usage))

  -- A scheduler's answer: a node that the task may run on and that `R` puts before every such
  -- node, or none where there is no such node.
  abbrev pub Picks :
      (NodeInfo float → NodeInfo float → Type 0)
      → List (NodeInfo float)
      → Task
      → Option NodeId
      → Type 0
  Picks R nodes task answer =
      ((answer ≡ none) × ((node : NodeInfo float) → Eligible float nodes task node → ⊥))
      ⊎ ((node : NodeInfo float) × (answer ≡ some node.id)
          × Eligible float nodes task node
          × ((other : NodeInfo float) → Eligible float nodes task other → R node other))

  Picks-of_best :
      (better : NodeInfo float → NodeInfo float → Bool)
      (R : NodeInfo float → NodeInfo float → Type 0) (nodes : List (NodeInfo float)) (task : Task)
      → ((eligible float nodes task ≡ [])
          × (chosen_id float (best better (eligible float nodes task)) ≡ none))
        ⊎ ((node : NodeInfo float) × In node (eligible float nodes task)
            × All (R node) (eligible float nodes task)
            × (chosen_id float (best better (eligible float nodes task)) ≡ some node.id))
      → Picks R nodes task (chosen_id float (best better (eligible float nodes task)))
  unfolding eligible
  Picks-of_best better R nodes task (inl (nil, e)) =
      let p : NodeInfo float → Bool = λ node. satisfies_all node.labels task.constraints in
      inl (
        e,
        λ node (h : Eligible float nodes task node).
            let m : In node (filter p nodes) = filter-In p nodes node h.0 h.1 in
            let m' : In node [] = rw nil at m in m',
      )
  Picks-of_best better R nodes task (inr (node, here, all, e)) =
      let p : NodeInfo float → Bool = λ node. satisfies_all node.labels task.constraints in
      inr (
        node,
        e,
        In-filter p nodes node here,
        λ other (h : Eligible float nodes task other).
            All-In (R node) (filter p nodes) other all (filter-In p nodes other h.0 h.1),
      )

  load_order_lem :
      (a b : NodeInfo float)
      → load_order float a b
        ≡ then_with
            (compare (key a.metrics.cpu_usage) (key b.metrics.cpu_usage))
            (compare (key a.metrics.memory_usage) (key b.metrics.memory_usage))
  unfolding load_order
  load_order_lem a b =
      ap₂ then_with (total_cmp_lem a.metrics.cpu_usage b.metrics.cpu_usage)
        (total_cmp_lem a.metrics.memory_usage b.metrics.memory_usage)

  less_wins : (x a : NodeInfo float) → is_less (load_order float x a) ≡ true → NoBusier x a
  less_wins x a h = ground (arith, load_order_lem x a)

  less_keeps : (x a : NodeInfo float) → is_less (load_order float x a) ≡ false → NoBusier a x
  less_keeps x a h = ground (arith, load_order_lem x a)

  -- `least_loaded` answers with a node that the task may run on and that is no busier than any
  -- other such node, and with none just where there is no such node.
  pub least_loaded-Picks :
      (nodes : List (NodeInfo float)) (task : Task)
      → Picks NoBusier nodes task (least_loaded float nodes task)
  unfolding least_loaded
  least_loaded-Picks nodes task =
      Picks-of_best (λ x a. is_less (load_order float x a)) NoBusier nodes task
        (best_cases float (λ x a. is_less (load_order float x a)) NoBusier
          (λ a. inr (refl, omega arith)) (λ a b c h k. ground arith) less_wins less_keeps
          (eligible float nodes task))

  -- `a` comes before `x` in an order by a number, the smaller first, and then by load.
  abbrev pub Before : (NodeInfo float → ℕ) → NodeInfo float → NodeInfo float → Type 0
  Before cost a x = (cost a < cost x) ⊎ ((cost a ≡ cost x) × NoBusier a x)

  Before-trans :
      (cost : NodeInfo float → ℕ) (a b c : NodeInfo float)
      → Before cost a b
      → Before cost b c
      → Before cost a c
  Before-trans cost a b c h k = ground arith

  -- `a` holds more of the inputs than `x`, or as much and is no busier.
  abbrev pub Nearer : Catalog → Task → NodeInfo float → NodeInfo float → Type 0
  Nearer catalog task a x =
      (local_bytes x.id task.inputs catalog < local_bytes a.id task.inputs catalog)
      ⊎ ((local_bytes a.id task.inputs catalog ≡ local_bytes x.id task.inputs catalog)
          × NoBusier a x)

  module _ (catalog : Catalog) (task : Task) where
    near_wins :
        (x a : NodeInfo float)
        → is_not_less (locality_order float catalog task x a) ≡ true
        → Nearer catalog task x a
    unfolding locality_order
    near_wins x a h = ground (arith, load_order_lem a x)

    near_keeps :
        (x a : NodeInfo float)
        → is_not_less (locality_order float catalog task x a) ≡ false
        → Nearer catalog task a x
    unfolding locality_order
    near_keeps x a h = ground (arith, load_order_lem a x)

    -- `locality` answers with a node that the task may run on such that every other such node
    -- holds fewer bytes of the inputs, or as many and is no less busy, and with none just where
    -- there is no such node.
    pub locality-Picks :
        (nodes : List (NodeInfo float))
        → Picks (Nearer catalog task) nodes task (locality float catalog nodes task)
    unfolding locality
    locality-Picks nodes =
        Picks-of_best (λ x a. is_not_less (locality_order float catalog task x a))
          (Nearer catalog task) nodes task
          (best_cases float (λ x a. is_not_less (locality_order float catalog task x a))
            (Nearer catalog task) (λ a. inr (refl, inr (refl, omega arith)))
            (λ a b c h k. ground arith) near_wins near_keeps (eligible float nodes task))

    module _ (weights : ScoreWeights float) where
      abbrev pub cost : NodeInfo float → ℕ
      cost node = key (total float (score float catalog weights node task))

      cheap_wins :
          (x a : NodeInfo float)
          → is_less (score_order float catalog weights task x a) ≡ true
          → Before cost x a
      unfolding score_order
      cheap_wins x a h = ground (
        arith,
        load_order_lem x a,
        total_cmp_lem (total float (score float catalog weights x task))
            (total float (score float catalog weights a task)),
      )

      cheap_keeps :
          (x a : NodeInfo float)
          → is_less (score_order float catalog weights task x a) ≡ false
          → Before cost a x
      unfolding score_order
      cheap_keeps x a h = ground (
        arith,
        load_order_lem x a,
        total_cmp_lem (total float (score float catalog weights x task))
            (total float (score float catalog weights a task)),
      )

      -- `advanced` answers with a node that the task may run on and whose score is the least
      -- among such nodes, the less busy one among equal scores, and with none just where there is
      -- no such node.
      pub advanced-Picks :
          (nodes : List (NodeInfo float))
          → Picks (Before cost) nodes task (advanced float catalog weights nodes task)
      unfolding advanced
      advanced-Picks nodes =
          Picks-of_best (λ x a. is_less (score_order float catalog weights task x a)) (Before cost)
            nodes task
            (best_cases float (λ x a. is_less (score_order float catalog weights task x a))
              (Before cost) (λ a. inr (refl, inr (refl, omega arith))) (Before-trans cost)
              cheap_wins cheap_keeps (eligible float nodes task))
