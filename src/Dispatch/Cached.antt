-- ===== src/Dispatch/Cached.antt =====
-- A success is not worked for twice: the same work submitted again is answered from the cache.
use aether_mesh.Base.{
  ℕ, zero, suc, ◌≡◌, ◌≢◌, refl, sym, subst, ap, ◌∙◌, inl, inr, true, ltb, ◌&&◌, Bool-cases, Option,
  none, some, List, [], ◌∷◌, arith,
}
use aether_mesh.Base.Result.{Result, ok, err}
use aether_mesh.Task.{NodeId, Task, TaskResult, is_success}
use aether_mesh.Node.{Float}
use aether_mesh.Cache.{Cache, work_key}
use aether_mesh.Cache
use aether_mesh.Cache.Again.{Keeps, get-Keeps, get-settings, put-Keeps, get-again}
use aether_mesh.Controller.{Controller, begin_on, finished_on}
use aether_mesh.Dispatch.Transport.{
  DispatchError, Stop, failed, panicked, World, State, M, continue, is_retryable,
}
use aether_mesh.Dispatch.Inputs.{ensure_inputs}
use aether_mesh.Dispatch.Kept.{set_controller, continue-state, from_transport-state}
use aether_mesh.Dispatch.Frame.{ensure_inputs-Frame}
use aether_mesh.Dispatch.{
  put_in_cache, try_once, select, finish, prepare_retry, settle, attempt, attempts, respond,
  on_node, or_attempt, submit,
}

module _ {float : Float} {W : Type 0} where
  -- `P` holds of the value and the state if the computation ends with a value.
  unfoldable pub Yields :
      {A : Type 0} → (A → State float W → Type 0) → State float W × Result Stop A → Type 0
  Yields P (s, ok a) = P a s
  Yields P (s, err e) = Unit

  continue-Yields :
      {A B : Type 0} (P : State float W → Type 0) (Q : B → State float W → Type 0)
      (r : State float W × Result Stop A) (f : A → M float W B)
      → P r.0
      → ((a : A) (t : State float W) → P t → Yields Q (f a t))
      → Yields Q (continue r f)
  unfolding Yields
  continue-Yields P Q (s, ok a) f p next = next a s p
  continue-Yields P Q (s, err e) f p next = tt

module _ {float : Float} {W : Type 0} (world : World float W) where
  abbrev SameCache : State float W → State float W → Type 0
  SameCache s t = t.controller.cache ≡ s.controller.cache

  try_once-SameCache :
      (n : NodeId) (task : Task) (s t : State float W)
      → SameCache s t
      → SameCache s (try_once world n task t).0
  unfolding try_once
  try_once-SameCache n task s t e =
      continue-state (SameCache s) (ensure_inputs world n task.inputs t) _
        ((ensure_inputs-Frame world n task.inputs t).cache ∙ e)
        (λ _ u same.
          subst (SameCache s)
            (sym (from_transport-state u (world.transport.dispatch n task u.outside))) same)

  finished_on-cache : (n : NodeId) (c : Controller float) → (finished_on float n c).cache ≡ c.cache
  unfolding finished_on
  finished_on-cache n c = ground arith

  settle-SameCache :
      (n : NodeId) (s : State float W) (r : State float W × Result Stop TaskResult)
      → SameCache s r.0
      → SameCache s (settle world n r).0
  settle-SameCache n s (t, ok a) e = finished_on-cache n t.controller ∙ e
  settle-SameCache n s (t, err (failed x)) e = finished_on-cache n t.controller ∙ e
  settle-SameCache n s (t, err panicked) e = e

  attempt-SameCache :
      (n : NodeId) (task : Task) (s t : State float W)
      → SameCache s t
      → SameCache s (attempt world n task t).0
  unfolding attempt begin_on
  attempt-SameCache n task s t e =
      let begun = set_controller t (begin_on float n t.controller) in
      settle-SameCache n s (try_once world n task begun) (try_once-SameCache n task s begun e)

  prepare_retry-SameCache :
      (n : NodeId) (s t : State float W) → SameCache s t → SameCache s (prepare_retry world n t).0
  unfolding prepare_retry
  prepare_retry-SameCache n s t e = ground arith

  -- What a fresh result leaves in the cache.
  abbrev Put : Task → State float W → TaskResult → State float W → Type 0
  Put task s result t =
      (now : ℕ) × (t.controller.cache ≡ put_in_cache world task result now s.controller.cache)

  finish-Put :
      (task : Task) (result : TaskResult) (s t : State float W)
      → SameCache s t
      → Yields (Put task s) (finish world task result t)
  unfolding finish Yields
  finish-Put task result s t e =
      (world.now t.outside, ap (put_in_cache world task result (world.now t.outside)) e)

  respond-Put :
      (more : ℕ) (n : NodeId) (task : Task) (later : M float W TaskResult)
      (answer : Result DispatchError TaskResult) (s t : State float W)
      → ((u : State float W) → SameCache s u → Yields (Put task s) (later u))
      → SameCache s t
      → Yields (Put task s) (respond world more n task later answer t)
  unfolding Yields
  respond-Put more n task later (ok result) s t ih e = finish-Put task result s t e
  respond-Put more n task later (err x) s t ih e =
      elim (Bool-cases (ltb 0 more && is_retryable x)) [
        | inl again ↦ rw again (
            continue-Yields (SameCache s) (Put task s) (prepare_retry world n t) _
              (prepare_retry-SameCache n s t e) (λ _ u w. ih u w))
        | inr last ↦ rw last tt
      ]

  on_node-Put :
      (more : ℕ) (task : Task) (later : NodeId → M float W TaskResult) (choice : Option NodeId)
      (s t : State float W)
      → ((n : NodeId) (u : State float W) → SameCache s u → Yields (Put task s) (later n u))
      → SameCache s t
      → Yields (Put task s) (on_node world more task later choice t)
  unfolding Yields
  on_node-Put more task later none s t ih e = tt
  on_node-Put more task later (some n) s t ih e =
      continue-Yields (SameCache s) (Put task s) (attempt world n task t) _
        (attempt-SameCache n task s t e)
        (λ answer u w. respond-Put more n task (later n) answer s u (ih n) w)

  attempts-Put :
      (fuel : ℕ) (unusable : List NodeId) (task : Task) (s t : State float W)
      → SameCache s t
      → Yields (Put task s) (attempts world fuel unusable task t)
  unfolding attempts Yields
  attempts-Put zero unusable task s t e = tt
  attempts-Put (suc more) unusable task s t e =
      on_node-Put more task (λ n. attempts world more (n ∷ unusable) task)
        (select world unusable task t) s t (λ n u w. attempts-Put more (n ∷ unusable) task s u w) e

  -- The controller's cache keeps the result for the work.
  abbrev InCache : Task → TaskResult → State float W → Type 0
  InCache task result t =
      (c : Cache) × (t.controller.cache ≡ some c) × Keeps world.hash task result c

  -- A success that ends a submission is in the cache.
  abbrev Remembers : Task → TaskResult → State float W → Type 0
  Remembers task result t = is_success result ≡ true → InCache task result t

  Yields-map :
      {A : Type 0} (P Q : A → State float W → Type 0) (r : State float W × Result Stop A)
      → Yields P r
      → ((a : A) (t : State float W) → P a t → Q a t)
      → Yields Q r
  unfolding Yields
  Yields-map P Q (s, ok a) p f = f a s p
  Yields-map P Q (s, err e) p f = tt

  Put-Remembers :
      (task : Task) (s : State float W) (c : Cache) (result : TaskResult) (t : State float W)
      → s.controller.cache ≡ some c
      → c.ttl ≡ none
      → c.capacity ≢ 0
      → Put task s result t
      → Remembers task result t
  Put-Remembers task s c result t e endless room (now, put) good = (
    Cache.put world.hash task result now c,
    put ∙ ap (put_in_cache world task result now) e,
    put-Keeps world.hash task result now c endless room good,
  )

  or_attempt-Remembers :
      (task : Task) (s : State float W) (c : Cache) (found : Option TaskResult)
      → s.controller.cache ≡ some c
      → c.ttl ≡ none
      → c.capacity ≢ 0
      → ((result : TaskResult) → found ≡ some result → Keeps world.hash task result c)
      → Yields (Remembers task) (or_attempt world task (s, found))
  unfolding Yields
  or_attempt-Remembers task s c none e endless room kept =
      Yields-map (Put task s) (Remembers task)
        (attempts world s.controller.retry.max_attempts [] task s)
        (attempts-Put s.controller.retry.max_attempts [] task s s refl)
        (λ result t p. Put-Remembers task s c result t e endless room p)
  or_attempt-Remembers task s c (some result) e endless room kept = λ good. (c, e, kept result refl)

  -- The look at the cache, when there is one.
  asked : Task → State float W → Cache → State float W × Option TaskResult
  asked task s c =
      let r = Cache.get world.hash task (world.now s.outside) c in
      (set_controller s (record s.controller { cache = some r.0 }), r.1)

  submit-asks :
      (task : Task) (s : State float W) (c : Cache)
      → s.controller.cache ≡ some c
      → submit world task s ≡ or_attempt world task (asked task s c)
  unfolding submit asked
  submit-asks task s c e = rw (submit, e) refl

  submit-Remembers :
      (task : Task) (s : State float W) (c : Cache)
      → s.controller.cache ≡ some c
      → c.ttl ≡ none
      → c.capacity ≢ 0
      → Yields (Remembers task) (submit world task s)
  unfolding asked
  submit-Remembers task s c e endless room =
      let now = world.now s.outside in
      let looked = Cache.get world.hash task now c in
      let settings = get-settings world.hash task now c in
      rw (submit-asks task s c e) (
        or_attempt-Remembers task (asked task s c).0 looked.0 looked.1 refl (settings.0 ∙ endless)
          (λ h. room (sym settings.1 ∙ h))
          (λ result h. get-Keeps world.hash task result now c endless h))

  Yields-at :
      {A : Type 0} (P : A → State float W → Type 0) (r : State float W × Result Stop A) (a : A)
      (t : State float W)
      → Yields P r
      → r ≡ (t, ok a)
      → P a t
  unfolding Yields
  Yields-at P r a t y e = subst (Yields P) e y

  -- Where the result cache is on and keeps results for good, work that has succeeded is not done
  -- again: submitted at once once more, under whatever id, it is answered with the same result under
  -- that id, and nothing is sent.
  pub submit-again :
      (task again : Task) (s t : State float W) (c : Cache) (result : TaskResult)
      → s.controller.cache ≡ some c
      → c.ttl ≡ none
      → c.capacity ≢ 0
      → submit world task s ≡ (t, ok result)
      → is_success result ≡ true
      → work_key world.hash again ≡ work_key world.hash task
      → ((submit world again t).1 ≡ ok (record result { task_id = again.id }))
        × ((submit world again t).0.outside ≡ t.outside)
  unfolding asked
  submit-again task again s t c result e endless room done good same =
      let (d, there, keeps) =
        Yields-at (Remembers task) (submit world task s) result t
          (submit-Remembers task s c e endless room) done good in
      let hit = get-again world.hash task again result (world.now t.outside) d keeps same in
      rw (submit-asks again t d there, hit) (refl, refl)
