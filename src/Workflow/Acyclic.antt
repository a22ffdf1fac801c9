-- ===== src/Workflow/Acyclic.antt =====
-- Which workflows `order` and `validate` accept: those with no cycle and no unknown step.
use aether_mesh.Base.{
  ℕ, zero, suc, ◌+◌, ◌<◌, ◌≤◌, ◌≡◌, refl, ap, inl, inr, ◌↔◌, true, false, ◌==◌, if◌then◌else◌,
  Bool-cases, List, [], ◌∷◌, ◌++◌, map, length, contains, contains-append, contains-count,
  append_regroup, All, All-mono, count, count-append, subst, length-map, arith,
}
use native.Mathlib.Nat.{add-zero}
use aether_mesh.Base.Result.{ok, err}
use aether_mesh.Task.{Task}
use aether_mesh.Workflow.{
  Step, Workflow, cycle, depends, order, check_dependencies, check_steps, validate, new, parallel,
  chain, chain_steps, new_step, after,
}
use aether_mesh.Workflow.Rounds.{IsOrdered}
use aether_mesh.Workflow.Order.{IsPlan, IsStuck, Waits, order_cases}

-- All dependencies exist, and `rank` falls along each of them: there is no cycle.
abbrev pub Falls : List Step → (ℕ → ℕ) → Type 0
Falls steps rank =
    (i : ℕ) → i < length steps → All (λ d. (d < length steps) × (rank d < rank i)) (depends steps i)

abbrev pub IsAcyclic : List Step → Type 0
IsAcyclic steps = (rank : ℕ → ℕ) × Falls steps rank

module _ (steps : List Step) (rank : ℕ → ℕ) (falls : Falls steps rank) where
  lower_stuck :
      (stuck ds : List ℕ) (i : ℕ)
      → Waits steps stuck ds
      → All (λ d. (d < length steps) × (rank d < rank i)) ds
      → (d : ℕ) × (contains stuck d ≡ true) × (rank d < rank i)
  lower_stuck stuck [] i w h = absurd w
  lower_stuck stuck (d ∷ ds) i (inl (inl out)) h = absurd (omega arith)
  lower_stuck stuck (d ∷ ds) i (inl (inr it)) h = (d, it, h.0.1)
  lower_stuck stuck (d ∷ ds) i (inr w) h = lower_stuck stuck ds i w h.1

  none_stuck :
      (stuck : List ℕ) (bound i : ℕ)
      → IsStuck steps stuck
      → rank i < bound
      → contains stuck i ≡ true
      → ⊥
  none_stuck stuck zero i s h c = absurd (omega arith)
  none_stuck stuck (suc bound) i s h c =
      let (low, waits) = s.waiting i c in
      let (d, stuck_too, lower) = lower_stuck stuck (depends steps i) i waits (falls i low) in
      none_stuck stuck bound d s (omega arith) stuck_too

  pub not_IsStuck : (stuck : List ℕ) → IsStuck steps stuck → ⊥
  not_IsStuck [] s = absurd (omega (arith, s.some_step))
  not_IsStuck (i ∷ is) s = none_stuck (i ∷ is) (suc (rank i)) i s (omega arith) (ground arith)

-- Where a step stands in a plan.
abbrev pub position : ℕ → List ℕ → ℕ
position i [] = 0
position i (x ∷ xs) = if x == i then 0 else suc (position i xs)

position-lt :
    (seen ys : List ℕ) (d : ℕ) → contains seen d ≡ true → position d (seen ++ ys) < length seen
position-lt [] ys d h = absurd (ground arith)
position-lt (x ∷ seen) ys d h = ground (arith, position-lt seen ys d)

position_here :
    (seen ys : List ℕ) (i : ℕ)
    → contains seen i ≡ false
    → position i (seen ++ (i ∷ ys)) ≡ length seen
position_here [] ys i h = ground arith
position_here (x ∷ seen) ys i h = ground (arith, position_here seen ys i)

before-All :
    (seen ys ds : List ℕ) (i : ℕ)
    → contains seen i ≡ false
    → All (λ d. contains seen d ≡ true) ds
    → All
        (λ d.
          (contains (seen ++ (i ∷ ys)) d ≡ true)
          × (position d (seen ++ (i ∷ ys)) < position i (seen ++ (i ∷ ys))))
        ds
before-All seen ys [] i h k = tt
before-All seen ys (d ∷ ds) i h k = (
  (
    ground (arith, contains-append seen (i ∷ ys) d),
    ground (arith, position-lt seen (i ∷ ys) d, position_here seen ys i h),
  ),
  before-All seen ys ds i h k.1,
)

-- In a plan that holds each step once, the dependencies of a step stand at lower positions.
ordered_positions :
    (steps : List Step) (seen is : List ℕ) (i : ℕ)
    → IsOrdered steps seen is
    → count i (seen ++ is) ≤ 1
    → contains is i ≡ true
    → All
        (λ d.
          (contains (seen ++ is) d ≡ true) × (position d (seen ++ is) < position i (seen ++ is)))
        (depends steps i)
ordered_positions steps seen [] i h c m = absurd (ground arith)
ordered_positions steps seen (j ∷ is) i h c m = elim (Bool-cases (j == i)) [
  | inl same ↦
      let e : j ≡ i = ground arith in
      let fresh : contains seen i ≡ false =
        ground (arith, contains-count seen i, count-append i seen (j ∷ is)) in
      rw e (before-All seen is (depends steps i) i fresh (rw e at (h.0)))
  | inr other ↦
      let e = append_regroup seen (j ∷ []) is in
      subst
        (λ (whole : List ℕ).
          All (λ d. (contains whole d ≡ true) × (position d whole < position i whole))
            (depends steps i))
        e (ordered_positions steps (seen ++ (j ∷ [])) is i h.1 (rw e c) (ground arith))
]

IsPlan-Falls :
    (steps : List Step) (plan : List ℕ) → IsPlan steps plan → Falls steps (λ i. position i plan)
IsPlan-Falls steps plan p i low =
    All-mono _ _ (depends steps i)
      (λ d (h : (contains plan d ≡ true) × (position d plan < position i plan)).
        (ground (arith, contains-count plan d, p.once d), h.1))
      (ordered_positions steps [] plan i p.behind (ground (arith, p.once i))
        (ground (arith, contains-count plan i, p.once i)))

-- `order` succeeds exactly on the workflows whose dependencies all exist and have no cycle.
pub order-ok_iff : (w : Workflow) → ((plan : List ℕ) × (order w ≡ ok plan)) ↔ IsAcyclic w.steps
order-ok_iff w = (
  λ (h : (plan : List ℕ) × (order w ≡ ok plan)). elim (order_cases w) [
    | inl (plan, e, p) ↦ ((λ i. position i plan), IsPlan-Falls w.steps plan p)
    | inr (stuck, e, s) ↦ absurd (clash (h.1) e)
  ],
  λ (h : IsAcyclic w.steps). elim (order_cases w) [
    | inl (plan, e, p) ↦ (plan, e)
    | inr (stuck, e, s) ↦ absurd (not_IsStuck w.steps h.0 h.1 stuck s)
  ],
)
  where
    clash : {plan stuck : List ℕ} → order w ≡ ok plan → order w ≡ err (cycle stuck) → ⊥
    clash p q = cc

module _ (n : ℕ) where
  check_dependencies-ok :
      (index : ℕ) (rank : ℕ → ℕ) (ds : List ℕ)
      → All (λ d. (d < n) × (rank d < rank index)) ds
      → check_dependencies n index ds ≡ ok tt
  unfolding check_dependencies
  check_dependencies-ok index rank [] h = refl
  check_dependencies-ok index rank (d ∷ ds) h = elim (Bool-cases (d == index)) [
    | inl same ↦ let e : d ≡ index = ground arith in absurd (omega (arith, ap rank e))
    | inr other ↦ ground (arith, check_dependencies-ok index rank ds h.1)
  ]

  check_steps-ok :
      (index : ℕ) (rank : ℕ → ℕ) (ss : List Step)
      → ((i : ℕ) → i < length ss → All (λ d. (d < n) × (rank d < rank (index + i))) (depends ss i))
      → check_steps n index ss ≡ ok tt
  unfolding check_steps
  check_steps-ok index rank [] h = refl
  check_steps-ok index rank (s ∷ ss) h =
      let here : All (λ d. (d < n) × (rank d < rank index)) s.depends_on =
        rw add-zero at (h 0 (omega arith)) in
      let later = check_steps-ok (suc index) rank ss λ i k.
        let e : suc index + i ≡ index + suc i = omega arith in rw e (h (suc i) (omega arith)) in
      rw (check_dependencies-ok index rank s.depends_on here) later

-- `validate` accepts exactly the workflows with a step, with dependencies that all exist, and with
-- no cycle.
pub validate-ok_iff :
    (w : Workflow) → (validate w ≡ ok tt) ↔ ((0 < length w.steps) × IsAcyclic w.steps)
unfolding validate
validate-ok_iff w = go w.steps refl
  where
    accepted :
        (s : Step) (ss : List Step) → w.steps ≡ s ∷ ss → IsAcyclic w.steps → validate w ≡ ok tt
    accepted s ss e h =
        let (plan, found) = (order-ok_iff w).1 h in
        let checked =
          check_steps-ok (length w.steps) 0 h.0 w.steps
            λ i k. let z : 0 + i ≡ i = omega arith in rw z (h.1 i k) in
        ground arith

    go :
        (ss : List Step)
        → w.steps ≡ ss
        → (validate w ≡ ok tt) ↔ ((0 < length w.steps) × IsAcyclic w.steps)
    go [] e = (λ h. absurd (ground arith), λ h. absurd (omega (arith, h.0, ap length e)))
    go (s ∷ ss) e = (
      λ h. elim (order_cases w) [
        | inl (plan, found, p) ↦ (omega (arith, ap length e), (order-ok_iff w).0 (plan, found))
        | inr (stuck, failed, s) ↦ absurd (ground arith)
      ],
      λ h. accepted s ss e h.1,
    )

-- `new` builds what `validate` accepts and keeps the steps as they are.
new_valid :
    (id : ℕ) (steps : List Step)
    → 0 < length steps
    → IsAcyclic steps
    → new id steps ≡ ok (record { id = id; steps = steps })
unfolding new
new_valid id steps h acyclic =
    rw ((validate-ok_iff (record { id = id; steps = steps })).1 (h, acyclic))

length-chain_steps : (k : ℕ) (tasks : List Task) → length (chain_steps k tasks) ≡ length tasks
unfolding chain_steps
length-chain_steps k [] = refl
length-chain_steps k (t ∷ ts) = ap suc (length-chain_steps (suc k) ts)

-- A link of a chain waits for the link before it.
depends-chain_steps :
    (n k : ℕ) (tasks : List Task) (i : ℕ)
    → k + i < n
    → All (λ d. (d < n) × (d < k + i)) (depends (chain_steps k tasks) i)
unfolding chain_steps after new_step
depends-chain_steps n k [] i h = tt
depends-chain_steps n zero (t ∷ ts) zero h = tt
depends-chain_steps n (suc k) (t ∷ ts) zero h = ((omega arith, omega arith), tt)
depends-chain_steps n k (t ∷ ts) (suc i) h =
    let e : k + suc i ≡ suc k + i = omega arith in
    rw e (depends-chain_steps n (suc k) ts i (omega arith))

-- A chain of at least one task is accepted, with one step for each task, in order.
pub chain-ok :
    (id : ℕ) (tasks : List Task)
    → 0 < length tasks
    → chain id tasks ≡ ok (record { id = id; steps = chain_steps 0 tasks })
unfolding chain
chain-ok id tasks h =
    new_valid id (chain_steps 0 tasks) (omega (arith, length-chain_steps 0 tasks)) (
      (λ i. i),
      λ i low.
          let z : 0 + i ≡ i = omega arith in
          rw z at (depends-chain_steps (length (chain_steps 0 tasks)) 0 tasks i (omega arith)),
    )

depends-parallel : (tasks : List Task) (i : ℕ) → depends (map new_step tasks) i ≡ []
unfolding new_step
depends-parallel [] i = refl
depends-parallel (t ∷ ts) zero = refl
depends-parallel (t ∷ ts) (suc i) = depends-parallel ts i

-- Independent tasks, at least one, are accepted.
pub parallel-ok :
    (id : ℕ) (tasks : List Task)
    → 0 < length tasks
    → parallel id tasks ≡ ok (record { id = id; steps = map new_step tasks })
unfolding parallel
parallel-ok id tasks h =
    new_valid id (map new_step tasks) (omega (arith, length-map new_step tasks))
      ((λ i. i), λ i low. rw (depends-parallel tasks i) tt)
