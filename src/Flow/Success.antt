-- ===== src/Flow/Success.antt =====
-- Runs that are not resumed and in which every step succeeds, of workflows that name each
-- dependency once.
use aether_mesh.Base.{
  ℕ, ◌<◌, ◌≡◌, refl, ◌∙◌, ap, sym, inl, inr, true, not, ◌&&◌, ◌==◌, Bool-cases, List, [], ◌∷◌, ◌++◌,
  Option, none, length, contains, contains-count, append_nil_eq, All, count, count-append,
  count-range, filter, get_or, arith,
}
use aether_mesh.Base.Assoc.{lookup, nat_eq}
use aether_mesh.Base.Result.{Result, ok, err, ◌>>=◌}
use aether_mesh.Task.{TaskResult, is_success}
use aether_mesh.Catalog.{Catalog}
use aether_mesh.Checkpoint.{Record}
use aether_mesh.Workflow.{
  Workflow, WorkflowError, depends, dependents_of, dependents_table, order, remaining_of,
}
use aether_mesh.Workflow.Deps.{pending-zero, dependents_lem}
use aether_mesh.Workflow.Rounds.{
  Inv, Inv-same, Inv-todo, left, left_after, dependent_in_range, choose, start-Inv,
}
use aether_mesh.Workflow.Rounds as Rounds
use aether_mesh.Workflow.Order.{IsPlan, Inv-IsPlan, Inv-IsStuck, stuck_steps}
use aether_mesh.Workflow.Acyclic.{order-ok_iff, not_IsStuck}
use aether_mesh.Base.Sort.{sort}
use aether_mesh.Flow.{
  Run, Journaled, FlowError, Released, or_invalid, fresh, with_ready, resume, start, launch, settle,
  finish,
}
use aether_mesh.Flow.Counts.{
  NamesOnce, keys, keys-insert, count-sort, count-without, count-dependents_of, release_all-Kept,
}

-- The steps with a result, in the order in which they finished.
abbrev pub finished : Run → List ℕ
finished st = keys st.results

-- The runs of a workflow that is not resumed, in which each step that finishes succeeds; which of
-- the running steps finishes next is free.
pub data Succeeds (w : Workflow) (journal : Option Journaled) : Run → Type 0 where
  begins :
      (catalog : Catalog) (records : List Record) (st : Run)
      → start w catalog none records ≡ ok st
      → Succeeds w journal st
  goes_on :
      (catalog : Catalog) (st : Run) (step : ℕ) (result : TaskResult)
      → Succeeds w journal st
      → contains (launch st).running step ≡ true
      → is_success result ≡ true
      → Succeeds w journal (settle w catalog journal (launch st) step result)

module _ (w : Workflow) where
  record IsOnTrack (st : Run) : Type 0 where
    inv : Inv w.steps (finished st) [] st.waiting (st.running ++ st.ready)
    clean : st.abandoned ≡ []

  launch-IsOnTrack : (st : Run) → IsOnTrack st → IsOnTrack (launch st)
  unfolding launch
  launch-IsOnTrack st t = record { inv = rw append_nil_eq (t.inv); clean = t.clean }

  module _ (journal : Option Journaled) (catalog : Catalog) (st : Run) (step : ℕ)
      (result : TaskResult) (once : NamesOnce w.steps) (t : IsOnTrack st)
      (here : contains st.running step ≡ true) (good : is_success result ≡ true) where
    others : List ℕ
    others = filter (λ other. not (other == step)) st.running

    step_counts :
        (0 < count step st.running)
        × (count step (finished st) ≡ 0)
        × (count step (st.running ++ st.ready) ≡ 1)
    step_counts =
        let running = contains-count st.running step in
        let both = count-append step st.running st.ready in
        let positive : 0 < count step st.running = ground (arith, running) in
        (positive, ground (arith, t.inv.placed step, both), ground (arith, t.inv.placed step, both))

    taken_out : (i : ℕ) → count i (st.running ++ st.ready) ≡ count i (step ∷ (others ++ st.ready))
    unfolding others
    taken_out i =
        let both = count-append i st.running st.ready in
        let rest = count-append i (filter (λ other. not (other == step)) st.running) st.ready in
        let out = count-without step i st.running in
        elim (Bool-cases (step == i)) [
          | inl same ↦
              let e : step ≡ i = ground arith in
              ground (
                arith,
                both,
                rest,
                out,
                step_counts.2,
                step_counts.0,
                count-append step st.running st.ready,
                ap (λ j. count j st.running) e,
                ap (λ j. count j st.ready) e,
              )
          | inr other ↦ ground (arith, both, rest, out)
        ]

    chosen :
        Inv w.steps
          (finished st ++ (step ∷ []))
          (dependents_of w step)
          st.waiting
          (others ++ st.ready)
    chosen =
        let first =
          Inv-same w.steps (finished st) [] st.waiting _ (step ∷ (others ++ st.ready)) taken_out
            t.inv in
        Inv-todo w.steps (finished st ++ (step ∷ [])) (get_or (dependents_table w.steps) step [])
          (dependents_of w step) st.waiting (others ++ st.ready)
          (λ i.
            dependents_lem w.steps step i (
              Rounds.first_in_range w.steps (finished st) st.waiting (others ++ st.ready) step
                first)
            ∙ sym (count-dependents_of w step i once))
          (choose w.steps (finished st) st.waiting (others ++ st.ready) step first)

    before_loop : Released
    before_loop = record { waiting = st.waiting; ready = st.ready; abandoned = st.abandoned }

    settle-IsOnTrack : IsOnTrack (settle w catalog journal st step result)
    unfolding settle others before_loop
    settle-IsOnTrack =
        let (v, clean) =
          release_all-Kept w step (finished st ++ (step ∷ [])) others (dependents_of w step)
            before_loop t.clean chosen in
        rw good (record {
          inv = rw (keys-insert step result st.results step_counts.1) (
              Inv-same w.steps _ [] _ _ _
                (λ i.
                  omega (
                    arith,
                    count-append i others _,
                    count-append i others (sort _),
                    count-sort i _,
                  ))
                v);
          clean = clean;
        })

  resume_none : (catalog : Catalog) (plan : List ℕ) (st : Run) → resume w catalog [] plan st ≡ st
  unfolding resume lookup
  resume_none catalog [] st = refl
  resume_none catalog (step ∷ plan) st = resume_none catalog plan st

  start-fresh :
      (catalog : Catalog) (records : List Record) (st : Run)
      → start w catalog none records ≡ ok st
      → st ≡ with_ready w (fresh w)
  unfolding start
  start-fresh catalog records st h = go (order w) h
    where
      after : Result WorkflowError (List ℕ) → Result FlowError Run
      after planned =
          or_invalid planned >>= λ plan. ok (with_ready w (resume w catalog [] plan (fresh w)))

      go :
          (planned : Result WorkflowError (List ℕ))
          → after planned ≡ ok st
          → st ≡ with_ready w (fresh w)
      go (ok plan) e =
          let found : with_ready w (resume w catalog [] plan (fresh w)) ≡ st = cc in
          sym found ∙ ap (with_ready w) (resume_none catalog plan (fresh w))
      go (err e) bad = absurd (cc)

  fresh-IsOnTrack : IsOnTrack (with_ready w (fresh w))
  fresh-IsOnTrack =
      let n = length w.steps in
      let waits : ℕ → ℕ = λ i. left w.steps (remaining_of w.steps) i in
      record {
        inv =
            Inv-same w.steps [] [] (remaining_of w.steps) _ _
              (λ i. ground (
                arith,
                count-range (λ j. waits j == 0) n i,
                count-range (λ j. waits j == 0 && true) n i,
              ))
              (start-Inv w.steps);
        clean = refl;
      }

  module _ (journal : Option Journaled) (once : NamesOnce w.steps) where
    Succeeds-IsOnTrack : {st : Run} → Succeeds w journal st → IsOnTrack st
    Succeeds-IsOnTrack (begins catalog records st h) =
        rw (start-fresh catalog records st h) fresh-IsOnTrack
    Succeeds-IsOnTrack (goes_on catalog st step result s here good) =
        settle-IsOnTrack journal catalog (launch st) step result once
          (launch-IsOnTrack st (Succeeds-IsOnTrack s)) here good

    -- In a run that takes nothing from a journal and in which every step that has finished has
    -- succeeded, of a workflow in which no step names a dependency twice, every step that is running
    -- has all its dependencies among the steps with a result.
    pub running-finished :
        (st : Run) (step : ℕ)
        → Succeeds w journal st
        → contains (launch st).running step ≡ true
        → All (λ d. contains (finished st) d ≡ true) (depends w.steps step)
    unfolding launch
    running-finished st step s here =
        let t = Succeeds-IsOnTrack s in
        let v = t.inv in
        let present = contains-count (st.running ++ st.ready) step in
        let placed = v.placed step in
        let low : step < length w.steps = ground arith in
        pending-zero (finished st) (depends w.steps step) (ground (arith, v.counts step low))

    -- A run that takes nothing from a journal and in which every step that has finished has
    -- succeeded, of a workflow with a plan and in which no step names a dependency twice, has
    -- nothing running only when every step has exactly one result, and the order in which the steps
    -- finished has each step behind all that it depends on; nothing is skipped.
    pub success-IsPlan :
        (st : Run) (plan : List ℕ) (bytes_moved : ℕ)
        → order w ≡ ok plan
        → Succeeds w journal st
        → (launch st).running ≡ []
        → IsPlan w.steps (finished st) × ((finish w bytes_moved st).skipped ≡ [])
    unfolding launch finish
    success-IsPlan st plan bytes_moved accepted s idle =
        let t = Succeeds-IsOnTrack s in
        let (rank, falls) = (order-ok_iff w).0 (plan, accepted) in
        let v : Inv w.steps (finished st) [] st.waiting [] = rw idle at (t.inv) in
        elim (Bool-cases (length (finished st) == length w.steps)) [
          | inl all ↦
              (Inv-IsPlan w.steps (finished st) st.waiting v (ground arith), rw t.clean refl)
          | inr fewer ↦ absurd (
              not_IsStuck w.steps rank falls (stuck_steps w.steps (finished st))
                (Inv-IsStuck w.steps (finished st) st.waiting v (λ e. ground arith)))
        ]
