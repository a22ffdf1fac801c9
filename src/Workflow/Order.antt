-- ===== src/Workflow/Order.antt =====
-- What `order` returns: a plan with every step once behind its dependencies, or a cycle.
use aether_mesh.Base.{
  ℕ, ◌<◌, ◌≤◌, ◌≡◌, refl, inl, inr, ◌⊎◌, true, false, not, ltb, ◌==◌, ◌&&◌, if◌then◌else◌,
  Bool-cases, List, [], ◌∷◌, length, contains, count, contains-count, filter, range, count-range,
  Distinct, Distinct-full, length_of_once, ◌≢◌, arith,
}
use aether_mesh.Base.Result.{ok, err}
use aether_mesh.Workflow.{Step, Workflow, cycle, depends, reached, order}
use aether_mesh.Workflow.Deps.{pending}
use aether_mesh.Workflow.Rounds.{IsOrdered, Inv, reached-Inv}

-- Every step stands in the plan once, behind all that it depends on.
pub record IsPlan (steps : List Step) (plan : List ℕ) : Type 0 where
  pub once : (i : ℕ) → count i plan ≡ (if ltb i (length steps) then 1 else 0)
  pub behind : IsOrdered steps [] plan

-- A dependency that some list of steps does not resolve: outside the workflow, or in the list.
abbrev pub Waits : List Step → List ℕ → List ℕ → Type 0
Waits steps stuck [] = ⊥
Waits steps stuck (d ∷ ds) = ((length steps ≤ d) ⊎ (contains stuck d ≡ true)) ⊎ Waits steps stuck ds

-- Steps that can never start: there is one, and each waits for one of them or for a step that
-- does not exist.
pub record IsStuck (steps : List Step) (stuck : List ℕ) : Type 0 where
  pub some_step : 0 < length stuck
  pub waiting :
      (i : ℕ) → contains stuck i ≡ true → (i < length steps) × Waits steps stuck (depends steps i)

module _ (steps : List Step) where
  abbrev pub stuck_steps : List ℕ → List ℕ
  stuck_steps plan = filter (λ i. not (contains plan i)) (range (length steps))

  stuck_lem :
      (plan : List ℕ) (i : ℕ)
      → contains (stuck_steps plan) i ≡ (ltb i (length steps) && not (contains plan i))
  stuck_lem plan i = ground (
    arith,
    contains-count (stuck_steps plan) i,
    count-range (λ j. not (contains plan j)) (length steps) i,
  )

  Waits_of_pending : (plan ds : List ℕ) → 0 < pending plan ds → Waits steps (stuck_steps plan) ds
  Waits_of_pending plan [] h = absurd (omega arith)
  Waits_of_pending plan (d ∷ ds) h = elim (Bool-cases (contains plan d)) [
    | inl known ↦ inr (Waits_of_pending plan ds (ground arith))
    | inr fresh ↦ elim (Bool-cases (ltb d (length steps))) [
      | inl low ↦ inl (inr (ground (arith, stuck_lem plan d)))
      | inr high ↦ inl (inl (ground arith))
    ]
  ]

  module _ (plan final : List ℕ) (v : Inv steps plan [] final []) where
    stuck_waiting :
        (i : ℕ)
        → contains (stuck_steps plan) i ≡ true
        → (i < length steps) × Waits steps (stuck_steps plan) (depends steps i)
    stuck_waiting i h =
        let low : ltb i (length steps) ≡ true = ground (arith, stuck_lem plan i) in
        let absent : contains plan i ≡ false = ground (arith, stuck_lem plan i) in
        (
          ground arith,
          Waits_of_pending plan (depends steps i)
              (ground (arith, v.placed i, v.counts i, contains-count plan i)),
        )

    plan-Distinct : Distinct (length steps) plan
    plan-Distinct i = ground (arith, v.placed i)

    pub Inv-IsPlan : length plan ≡ length steps → IsPlan steps plan
    Inv-IsPlan e = record {
      once = λ i. elim (Bool-cases (ltb i (length steps))) [
        | inl low ↦
            ground (arith, Distinct-full (length steps) plan plan-Distinct e i (ground arith))
        | inr high ↦ ground (arith, v.placed i)
      ];
      behind = v.ordered;
    }

    not_stuck : length (stuck_steps plan) ≡ 0 → length plan ≡ length steps
    not_stuck e = length_of_once (length steps) plan plan-Distinct λ i lt.
        let none_stuck : contains (stuck_steps plan) i ≡ false =
          nil_contains (stuck_steps plan) i e in
        ground (arith, stuck_lem plan i, contains-count plan i, plan-Distinct i)
      where
        nil_contains : (xs : List ℕ) (i : ℕ) → length xs ≡ 0 → contains xs i ≡ false
        nil_contains [] i h = refl
        nil_contains (x ∷ xs) i h = absurd (omega arith)

    pub Inv-IsStuck : length plan ≢ length steps → IsStuck steps (stuck_steps plan)
    Inv-IsStuck e = record {
      some_step = elim (Bool-cases (length (stuck_steps plan) == 0)) [
        | inl nil ↦ absurd (e (not_stuck (ground arith)))
        | inr more ↦ ground arith
      ];
      waiting = stuck_waiting;
    }

-- `order` returns either a plan in which every step stands once and behind all that it depends
-- on, or the error `cycle` with steps that can never start: at least one, each waiting for one of
-- them or for a step that does not exist.
pub order_cases :
    (w : Workflow)
    → ((plan : List ℕ) × (order w ≡ ok plan) × IsPlan w.steps plan)
      ⊎ ((stuck : List ℕ) × (order w ≡ err (cycle stuck)) × IsStuck w.steps stuck)
unfolding order
order_cases w =
    let (final, v) = reached-Inv w.steps in
    elim (Bool-cases (length (reached w.steps) == length w.steps)) [
      | inl all ↦
          inl (reached w.steps, rw all, Inv-IsPlan w.steps (reached w.steps) final v (ground arith))
      | inr not_all ↦ inr (
        stuck_steps w.steps (reached w.steps),
        rw not_all,
        Inv-IsStuck w.steps (reached w.steps) final v (λ e. ground arith),
      )
    ]
