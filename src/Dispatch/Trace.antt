-- ===== src/Dispatch/Trace.antt =====
-- The nodes that a submission hands its task to, as a log that is kept outside.
use aether_mesh.Base.{
  ℕ, zero, suc, ◌≤◌, ◌≡◌, refl, sym, subst, ◌∙◌, ap, inl, inr, false, ltb, ◌&&◌, Bool-cases, List,
  [], ◌∷◌, ◌++◌, Option, none, some, length, contains, In, All, All-mono, arith, append_nil_eq,
  append_regroup,
}
use aether_mesh.Base.Result.{Result, ok, err}
use aether_mesh.Task.{Task, TaskResult, NodeId}
use aether_mesh.Node.{Float}
use aether_mesh.Registry.{nodes}
use aether_mesh.Controller.{RetryPolicy}
use aether_mesh.Dispatch.Transport.{DispatchError, World, State, is_retryable}
use aether_mesh.Dispatch.Kept.{continue-later}
use aether_mesh.Dispatch.{
  or_attempt, ask_cache, Cache, on_node, respond, select, finish, prepare_retry, attempt, attempts,
  submit,
}
use aether_mesh.Dispatch.Logged.{logged, log, Attempted, attempt-Attempted}
use aether_mesh.Dispatch.Chosen.{MayRun, select-MayRun}

-- No node stands twice.
abbrev pub Once : List NodeId → Type 0
Once [] = Unit
Once (n ∷ ns) = (contains ns n ≡ false) × Once ns

module _ {float : Float} {W : Type 0} (world : World float W) where
  abbrev S : Type 0
  S = State float (W × List NodeId)

  record Traced (fuel : ℕ) (unusable : List NodeId) (task : Task) (s t : S) : Type 0 where
    tried : List NodeId
    logs : log t ≡ log s ++ tried
    few : length tried ≤ fuel
    fresh : All (λ n. contains unusable n ≡ false) tried
    once : Once tried
    may : All (MayRun world task s) tried

  finish-log :
      (task : Task) (result : TaskResult) (s : S)
      → log (finish (logged world) task result s).0 ≡ log s
  unfolding finish
  finish-log task result s = refl

  prepare_retry-kept :
      (n : NodeId) (s : S)
      → (log (prepare_retry (logged world) n s).0 ≡ log s)
        × ((prepare_retry (logged world) n s).0.controller.registry ≡ s.controller.registry)
  unfolding prepare_retry
  prepare_retry-kept n s = (ground arith, ground arith)

  -- Nothing more is tried.
  stopped :
      (fuel : ℕ) (unusable : List NodeId) (task : Task) (s t : S)
      → log t ≡ log s
      → Traced fuel unusable task s t
  stopped fuel unusable task s t l = record {
    tried = [];
    logs = l ∙ sym (append_nil_eq (log s));
    few = omega arith;
    fresh = tt;
    once = tt;
    may = tt;
  }

  fresh_of_more :
      (n : NodeId) (unusable ns : List NodeId)
      → All (λ m. contains (n ∷ unusable) m ≡ false) ns
      → All (λ m. contains unusable m ≡ false) ns × (contains ns n ≡ false)
  fresh_of_more n unusable [] h = (tt, refl)
  fresh_of_more n unusable (m ∷ ns) h =
      let rest = fresh_of_more n unusable ns h.1 in ((ground arith, rest.0), ground arith)

  MayRun-same :
      (task : Task) (s t : S)
      → t.controller.registry ≡ s.controller.registry
      → (ns : List NodeId) → All (MayRun world task t) ns
      → All (MayRun world task s) ns
  MayRun-same task s t e ns h =
      All-mono (MayRun world task t) (MayRun world task s) ns
        (λ n m. (m.0, m.1, (subst (λ r. In m.0 (nodes float r)) e m.2.0, m.2.1))) h

  -- An attempt, and what is tried after it with its node set aside.
  after_attempt :
      (more : ℕ) (unusable : List NodeId) (task : Task) (n : NodeId) (s t u : S)
      → (contains unusable n ≡ false) × MayRun world task s n
      → Attempted world n s t
      → Traced more (n ∷ unusable) task t u
      → Traced (suc more) unusable task s u
  after_attempt more unusable task n s t u chosen a r =
      let rest = fresh_of_more n unusable r.tried r.fresh in
      let may = MayRun-same task s t a.registry r.tried r.may in
      elim a.logs [
        | inl quiet ↦ record {
          tried = r.tried;
          logs = r.logs ∙ ap (λ l. l ++ r.tried) quiet;
          few = omega (arith, r.few);
          fresh = rest.0;
          once = r.once;
          may = may;
        }
        | inr logged_one ↦ record {
          tried = n ∷ r.tried;
          logs =
              r.logs ∙ ap (λ l. l ++ r.tried) logged_one ∙ append_regroup (log s) (n ∷ []) r.tried;
          few = omega (arith, r.few);
          fresh = (chosen.0, rest.0);
          once = (rest.1, r.once);
          may = (chosen.1, may);
        }
      ]

  retraced :
      (fuel : ℕ) (unusable : List NodeId) (task : Task) (s t u : S)
      → (log t ≡ log s) × (t.controller.registry ≡ s.controller.registry)
      → Traced fuel unusable task t u
      → Traced fuel unusable task s u
  retraced fuel unusable task s t u same r = record {
    tried = r.tried;
    logs = r.logs ∙ ap (λ l. l ++ r.tried) same.0;
    few = r.few;
    fresh = r.fresh;
    once = r.once;
    may = MayRun-same task s t same.1 r.tried r.may;
  }

  respond-Traced :
      (more : ℕ) (unusable : List NodeId) (n : NodeId) (task : Task)
      (answer : Result DispatchError TaskResult) (s : S)
      → ((t : S)
          → Traced more
              (n ∷ unusable)
              task
              t
              (attempts (logged world) more (n ∷ unusable) task t).0)
      → Traced more
          (n ∷ unusable)
          task
          s
          (respond
            (logged world)
            more
            n
            task
            (attempts (logged world) more (n ∷ unusable) task)
            answer
            s).0
  respond-Traced more unusable n task (ok result) s ih =
      stopped more (n ∷ unusable) task s _ (finish-log task result s)
  respond-Traced more unusable n task (err e) s ih =
      elim (Bool-cases (ltb 0 more && is_retryable e)) [
        | inl again ↦ rw again (
            continue-later (λ t. (log t ≡ log s) × (t.controller.registry ≡ s.controller.registry))
              (Traced more (n ∷ unusable) task s) (prepare_retry (logged world) n s) _
              (prepare_retry-kept n s) (λ t same. stopped more (n ∷ unusable) task s t same.0)
              (λ _ t same. retraced more (n ∷ unusable) task s t _ same (ih t)))
        | inr last ↦ rw last (stopped more (n ∷ unusable) task s s refl)
      ]

  on_node-Traced :
      (more : ℕ) (unusable : List NodeId) (task : Task) (s : S) (choice : Option NodeId)
      → select (logged world) unusable task s ≡ choice
      → ((n : NodeId) (t : S)
          → Traced more
              (n ∷ unusable)
              task
              t
              (attempts (logged world) more (n ∷ unusable) task t).0)
      → Traced
          (suc more)
          unusable
          task
          s
          (on_node
            (logged world)
            more
            task
            (λ n. attempts (logged world) more (n ∷ unusable) task)
            choice
            s).0
  on_node-Traced more unusable task s none e ih = stopped (suc more) unusable task s s refl
  on_node-Traced more unusable task s (some n) e ih =
      let allowed = select-MayRun world unusable task s n e in
      continue-later (Attempted world n s) (Traced (suc more) unusable task s)
        (attempt (logged world) n task s) _ (attempt-Attempted world n task s)
        (λ t a.
          after_attempt more unusable task n s t t allowed a
            (stopped more (n ∷ unusable) task t t refl))
        (λ answer t a.
          after_attempt more unusable task n s t _ allowed a
            (respond-Traced more unusable n task answer t (ih n)))

  attempts-Traced :
      (fuel : ℕ) (unusable : List NodeId) (task : Task) (s : S)
      → Traced fuel unusable task s (attempts (logged world) fuel unusable task s).0
  unfolding attempts
  attempts-Traced zero unusable task s = stopped zero unusable task s s refl
  attempts-Traced (suc more) unusable task s =
      on_node-Traced more unusable task s (select (logged world) unusable task s) refl
        (λ n t. attempts-Traced more (n ∷ unusable) task t)

  ask_cache-kept :
      (task : Task) (s : S) (cache : Option Cache)
      → (log (ask_cache (logged world) task s cache).0 ≡ log s)
        × ((ask_cache (logged world) task s cache).0.controller.registry ≡ s.controller.registry)
        × ((ask_cache (logged world) task s cache).0.controller.retry ≡ s.controller.retry)
  ask_cache-kept task s none = (refl, refl, refl)
  ask_cache-kept task s (some cache) = (refl, refl, refl)

  or_attempt-Traced :
      (task : Task) (s : S) (r : S × Option TaskResult)
      → (log r.0 ≡ log s)
        × (r.0.controller.registry ≡ s.controller.registry)
        × (r.0.controller.retry ≡ s.controller.retry)
      → Traced s.controller.retry.max_attempts [] task s (or_attempt (logged world) task r).0
  or_attempt-Traced task s (t, none) (l, g, p) =
      retraced s.controller.retry.max_attempts [] task s t _ (l, g)
        (rw (ap (λ (r : RetryPolicy). r.max_attempts) (sym p))
          (attempts-Traced t.controller.retry.max_attempts [] task t))
  or_attempt-Traced task s (t, some result) (l, g, p) =
      stopped s.controller.retry.max_attempts [] task s t l

  -- Whatever the transport answers, a submission hands its task to at most `max_attempts` nodes,
  -- none of them twice, each of which is registered and has the labels that the task asks for.
  pub submit-Traced :
      (task : Task) (s : S)
      → (tried : List NodeId) × (log (submit (logged world) task s).0 ≡ log s ++ tried)
        × (length tried ≤ s.controller.retry.max_attempts)
        × Once tried
        × All (MayRun world task s) tried
  unfolding submit
  submit-Traced task s =
      let r =
        or_attempt-Traced task s (ask_cache (logged world) task s s.controller.cache)
          (ask_cache-kept task s s.controller.cache) in
      (r.tried, r.logs, r.few, r.once, r.may)
