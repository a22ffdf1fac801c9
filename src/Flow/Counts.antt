-- ===== src/Flow/Counts.antt =====
-- What a step that succeeds releases, and how often each step stands in the lists of a run.
use aether_mesh.Base.{
  suc, ◌<◌, zero, suc, ℕ, ◌+◌, ◌-◌, ◌≤◌, ◌≡◌, refl, ap, sym, subst, inl, inr, true, false, not, ltb,
  ◌==◌, if◌then◌else◌, Bool-cases, List, [], ◌∷◌, ◌++◌, length, contains, contains-count, count,
  count-append, count-range, filter, get_or, update_at, arith,
}
use aether_mesh.Base.Assoc.{insert, nat_eq}
use aether_mesh.Task.{TaskResult}
use aether_mesh.Workflow.{Step, Workflow, depends, dependents_of}
use aether_mesh.Workflow.Deps.{depends_above}
use aether_mesh.Workflow.Rounds.{
  counter_positive, Inv, Inv-same, Inv-todo, left, left_after, dependent_in_range, choose,
  start-Inv,
}
use aether_mesh.Workflow.Rounds as Rounds
use aether_mesh.Base.Sort.{sort, insert_by}
use aether_mesh.Flow.{step_down, Released, release_one, release_all}

-- No step names a dependency twice.
abbrev pub NamesOnce : List Step → Type 0
NamesOnce steps = (i d : ℕ) → count d (depends steps i) ≤ 1

abbrev pub keys : List (ℕ × TaskResult) → List ℕ
keys [] = []
keys ((k, r) ∷ m) = k ∷ keys m

pub keys-insert :
    (k : ℕ) (r : TaskResult) (m : List (ℕ × TaskResult))
    → count k (keys m) ≡ 0
    → keys (insert k r m) ≡ keys m ++ (k ∷ [])
unfolding insert
keys-insert k r [] h = refl
keys-insert k r ((j, s) ∷ m) h = elim (Bool-cases (j == k)) [
  | inl same ↦ absurd (ground arith)
  | inr other ↦ rw other (ap (◌∷◌ j) (keys-insert k r m (ground arith)))
]

count-insert_by :
    (x i : ℕ) (xs : List ℕ)
    → count i (insert_by (λ y. y) x xs) ≡ (if x == i then 1 else 0) + count i xs
count-insert_by x i [] = refl
count-insert_by x i (y ∷ ys) = ground (arith, count-insert_by x i ys)

pub count-sort : (i : ℕ) (xs : List ℕ) → count i (sort xs) ≡ count i xs
count-sort i [] = refl
count-sort i (x ∷ xs) = omega (arith, count-insert_by x i (sort xs), count-sort i xs)

pub count-without :
    (step i : ℕ) (xs : List ℕ)
    → count i (filter (λ other. not (other == step)) xs) ≡ (if i == step then 0 else count i xs)
count-without step i [] = ground arith
count-without step i (x ∷ xs) = ground (arith, count-without step i xs)

pub count-dependents_of :
    (w : Workflow) (step i : ℕ)
    → NamesOnce w.steps
    → count i (dependents_of w step) ≡ count step (depends w.steps i)
unfolding dependents_of
count-dependents_of w step i once =
    let e = count-range (λ j. contains (depends w.steps j) step) (length w.steps) i in
    let m = contains-count (depends w.steps i) step in
    elim (Bool-cases (ltb i (length w.steps))) [
      | inl low ↦ ground (arith, e, m, once i step)
      | inr high ↦
          let none_there : depends w.steps i ≡ [] = depends_above w.steps i (ground arith) in
          ground (arith, e, ap (count step) none_there)
    ]

-- A counter above 0 does not wrap.
update_at-step_down :
    (d : ℕ) (waiting : List ℕ)
    → 0 < get_or waiting d 0
    → update_at d step_down waiting ≡ update_at d (λ n. n - 1) waiting
update_at-step_down d [] h = refl
update_at-step_down zero (n ∷ ns) h = ground arith
update_at-step_down (suc d) (n ∷ ns) h = ap (◌∷◌ n) (update_at-step_down d ns h)

module _ (w : Workflow) where
  waits_on :
      (step : ℕ) (r : Released) (d : ℕ)
      → update_at d step_down r.waiting ≡ update_at d (λ n. n - 1) r.waiting
      → ltb 0 (get_or (update_at d (λ n. n - 1) r.waiting) d 0) ≡ true
      → release_one w true step r d ≡ record r { waiting = update_at d (λ n. n - 1) r.waiting }
  unfolding release_one
  waits_on step r d same h = rw (release_one, same, h) refl

  freed :
      (step : ℕ) (r : Released) (d : ℕ)
      → update_at d step_down r.waiting ≡ update_at d (λ n. n - 1) r.waiting
      → r.abandoned ≡ []
      → ltb 0 (get_or (update_at d (λ n. n - 1) r.waiting) d 0) ≡ false
      → release_one w true step r d
        ≡ record r { waiting = update_at d (λ n. n - 1) r.waiting; ready = r.ready ++ (d ∷ []) }
  unfolding release_one
  freed step r d same clean h = rw (release_one, same, h, clean) refl

  -- Nothing was given up, and the invariant of the plan holds for what runs and is ready.
  abbrev Kept : List ℕ → List ℕ → Released → Type 0
  Kept done base r = Inv w.steps done [] r.waiting (base ++ r.ready) × (r.abandoned ≡ [])

  pub release_all-Kept :
      (step : ℕ) (done base todo : List ℕ) (r : Released)
      → r.abandoned ≡ []
      → Inv w.steps done todo r.waiting (base ++ r.ready)
      → Kept done base (release_all w true step todo r)
  unfolding release_all
  release_all-Kept step done base [] r clean v = (v, clean)
  release_all-Kept step done base (d ∷ todo) r clean v =
      let waiting = update_at d (λ n. n - 1) r.waiting in
      let one = Rounds.release_one w.steps done todo r.waiting (base ++ r.ready) d 0 v in
      let same =
        update_at-step_down d r.waiting
          (counter_positive w.steps done todo r.waiting (base ++ r.ready) d v) in
      let low = dependent_in_range w.steps done todo r.waiting (base ++ r.ready) d v in
      let now = left_after w.steps r.waiting d d (omega (arith, v.sized, low)) in
      elim (Bool-cases (ltb 0 (get_or waiting d 0))) [
        | inl more ↦
            subst (λ (x : Released). Kept done base (release_all w true step todo x))
              (sym (waits_on step r d same more))
              (release_all-Kept step done base todo (record r { waiting = waiting }) clean
                (Inv-same w.steps done todo waiting _ (base ++ r.ready) (λ i. ground (arith, now))
                  one))
        | inr last ↦
            subst (λ (x : Released). Kept done base (release_all w true step todo x))
              (sym (freed step r d same clean last))
              (release_all-Kept step done base todo
                (record r { waiting = waiting; ready = r.ready ++ (d ∷ []) }) clean
                (Inv-same w.steps done todo waiting _ (base ++ (r.ready ++ (d ∷ [])))
                  (λ i. ground (
                    arith,
                    now,
                    count-append i base (r.ready ++ (d ∷ [])),
                    count-append i base r.ready,
                    count-append i r.ready (d ∷ []),
                  ))
                  one))
      ]
