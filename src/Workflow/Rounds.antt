-- ===== src/Workflow/Rounds.antt =====
-- The invariant of Kahn's loop in `order`, for the round and for the release of one dependent.
use aether_mesh.Base.{
  ℕ, zero, suc, ◌+◌, ◌-◌, ◌<◌, ◌≤◌, ◌≡◌, refl, ◌∙◌, ap, inl, inr, true, ltb, ◌==◌, ◌&&◌,
  if◌then◌else◌, Bool-cases, List, [], ◌∷◌, ◌++◌, length, contains, All, count, count-append,
  count-insert_at, insert_at, partition_point, get_or, update_at, get_or-update_at,
  length-update_at, length-map, length-append, append_regroup, append_nil_eq, filter, range,
  count-range, Distinct, Distinct-length, arith,
}
use aether_mesh.Workflow.{Step, depends, dependents_table, remaining_of, release, rounds, reached}
use aether_mesh.Workflow.Deps.{
  pending, pending-nil, pending-snoc, pending-zero, dependents_lem, depends_above,
}

-- Each step stands behind all that it depends on; `seen` is what stands before the list.
abbrev pub IsOrdered : List Step → List ℕ → List ℕ → Type 0
IsOrdered steps seen [] = Unit
IsOrdered steps seen (i ∷ is) =
    All (λ d. contains seen d ≡ true) (depends steps i) × IsOrdered steps (seen ++ (i ∷ [])) is

IsOrdered-snoc :
    (steps : List Step) (seen is : List ℕ) (i : ℕ)
    → IsOrdered steps seen is
    → All (λ d. contains (seen ++ is) d ≡ true) (depends steps i)
    → IsOrdered steps seen (is ++ (i ∷ []))
IsOrdered-snoc steps seen [] i h k = (rw append_nil_eq at k, tt)
IsOrdered-snoc steps seen (j ∷ is) i h k =
    (h.0, IsOrdered-snoc steps (seen ++ (j ∷ [])) is i h.1 (rw append_regroup k))

module _ (steps : List Step) where
  abbrev pub left : List ℕ → ℕ → ℕ
  left remaining i = get_or remaining i 0

  -- `todo` is what is left of the loop over the dependents of the step that went last.
  pub record Inv (order todo remaining ready : List ℕ) : Type 0 where
    pub sized : length remaining ≡ length steps
    pub counts :
        (i : ℕ)
        → i < length steps
        → left remaining i ≡ pending order (depends steps i) + count i todo
    pub inside : (i : ℕ) → length steps ≤ i → count i todo ≡ 0
    pub placed :
        (i : ℕ)
        → count i order + count i ready
          ≡ (if ltb i (length steps) && (left remaining i == 0) then 1 else 0)
    pub ordered : IsOrdered steps [] order

  pub dependent_in_range :
      (order todo remaining ready : List ℕ) (d : ℕ)
      → Inv order (d ∷ todo) remaining ready
      → d < length steps
  dependent_in_range order todo remaining ready d v = elim (Bool-cases (ltb d (length steps))) [
    | inl low ↦ ground arith
    | inr high ↦ absurd (ground (arith, v.inside d))
  ]

  -- The counter of a dependent that is released is above 0: `-= 1` does not underflow.
  pub counter_positive :
      (order todo remaining ready : List ℕ) (d : ℕ)
      → Inv order (d ∷ todo) remaining ready
      → 0 < left remaining d
  counter_positive order todo remaining ready d v =
      ground (arith, v.counts d (dependent_in_range order todo remaining ready d v))

  pub left_after :
      (remaining : List ℕ) (d i : ℕ)
      → d < length remaining
      → left (update_at d (λ r. r - 1) remaining) i
        ≡ (if d == i then left remaining d - 1 else left remaining i)
  left_after remaining d i h =
      let e = get_or-update_at d (λ r. r - 1) remaining i 0 in
      elim (Bool-cases (d == i)) [
        | inl same ↦ let p : d ≡ i = ground arith in ground (arith, e, ap (left remaining) p)
        | inr other ↦ ground (arith, e)
      ]

  module _ (order todo remaining ready : List ℕ) (d k : ℕ)
      (v : Inv order (d ∷ todo) remaining ready) where
    released : ℕ → ℕ
    released i = left (update_at d (λ r. r - 1) remaining) i

    fewer : (i : ℕ) → released i ≡ (if d == i then left remaining d - 1 else left remaining i)
    unfolding released
    fewer i =
        left_after remaining d i
          (omega (arith, v.sized, dependent_in_range order todo remaining ready d v))

    release_counts :
        (i : ℕ) → i < length steps → released i ≡ pending order (depends steps i) + count i todo
    release_counts i lt = elim (Bool-cases (d == i)) [
      | inl same ↦
          let p : d ≡ i = ground arith in
          ground (arith, fewer i, v.counts i lt, ap (left remaining) p)
      | inr other ↦ ground (arith, fewer i, v.counts i lt)
    ]

    release_placed :
        (i : ℕ)
        → count i order + count i (if left remaining d - 1 == 0 then insert_at k d ready else ready)
          ≡ (if ltb i (length steps) && (released i == 0) then 1 else 0)
    release_placed i =
        let low = dependent_in_range order todo remaining ready d v in
        let positive = counter_positive order todo remaining ready d v in
        elim (Bool-cases (d == i)) [
          | inl same ↦
              let p : d ≡ i = ground arith in
              ground
                (arith, fewer i, v.placed i, count-insert_at k d i ready, ap (left remaining) p)
          | inr other ↦ ground (arith, fewer i, v.placed i, count-insert_at k d i ready)
        ]

    -- One dependent is released.
    pub release_one :
        Inv order todo
          (update_at d (λ r. r - 1) remaining)
          (if left remaining d - 1 == 0 then insert_at k d ready else ready)
    unfolding released
    release_one = record {
      sized = length-update_at d (λ r. r - 1) remaining ∙ v.sized;
      counts = release_counts;
      inside = λ i out. ground (arith, v.inside i out);
      placed = release_placed;
      ordered = v.ordered;
    }

  release-Inv :
      (order remaining ready todo : List ℕ)
      → Inv order todo remaining ready
      → Inv order [] (release remaining ready todo).0 (release remaining ready todo).1
  unfolding release
  release-Inv order remaining ready [] v = v
  release-Inv order remaining ready (d ∷ todo) v =
      let k = partition_point (λ waiting. ltb waiting d) ready in
      release-Inv order (update_at d (λ r. r - 1) remaining)
        (if left remaining d - 1 == 0 then insert_at k d ready else ready) todo
        (release_one order todo remaining ready d k v)

  -- Of the ready steps only the number of occurrences of each matters.
  pub Inv-same :
      (order todo remaining ready ready' : List ℕ)
      → ((i : ℕ) → count i ready ≡ count i ready')
      → Inv order todo remaining ready
      → Inv order todo remaining ready'
  Inv-same order todo remaining ready ready' same v = record {
    sized = v.sized;
    counts = v.counts;
    inside = v.inside;
    placed = λ i. omega (arith, v.placed i, same i);
    ordered = v.ordered;
  }

  -- So does it of what is to be released.
  pub Inv-todo :
      (order todo todo' remaining ready : List ℕ)
      → ((i : ℕ) → count i todo ≡ count i todo')
      → Inv order todo remaining ready
      → Inv order todo' remaining ready
  Inv-todo order todo todo' remaining ready same v = record {
    sized = v.sized;
    counts = λ i lt. omega (arith, v.counts i lt, same i);
    inside = λ i out. omega (arith, v.inside i out, same i);
    placed = v.placed;
    ordered = v.ordered;
  }

  -- The first ready step goes to the end of the order, and its dependents are to be released.
  module _ (order remaining rest : List ℕ) (index : ℕ)
      (v : Inv order [] remaining (index ∷ rest)) where
    pub first_in_range : index < length steps
    first_in_range = elim (Bool-cases (ltb index (length steps))) [
      | inl low ↦ ground arith
      | inr high ↦ absurd (ground (arith, v.placed index))
    ]

    first_is_new : count index order ≡ 0
    first_is_new = ground (arith, v.placed index)

    first_waits_for_none : left remaining index ≡ 0
    first_waits_for_none = ground (arith, v.placed index)

    pub choose :
        Inv (order ++ (index ∷ [])) (get_or (dependents_table steps) index []) remaining rest
    choose = record {
      sized = v.sized;
      counts = λ i lt. omega (
        arith,
        v.counts i lt,
        pending-snoc order index (depends steps i) first_is_new,
        dependents_lem steps index i first_in_range,
      );
      inside = λ i out.
          dependents_lem steps index i first_in_range
          ∙ ap (count index) (depends_above steps i out);
      placed = λ i. omega (arith, v.placed i, count-append i order (index ∷ []));
      ordered = IsOrdered-snoc steps [] order index v.ordered (
          pending-zero order (depends steps index)
            (omega (arith, v.counts index first_in_range, first_waits_for_none)));
    }

  pub start-Inv :
      Inv [] []
        (remaining_of steps)
        (filter (λ i. left (remaining_of steps) i == 0) (range (length steps)))
  start-Inv = record {
    sized = length-map (λ (s : Step). length s.depends_on) steps;
    counts = λ i lt. omega (arith, pending-nil (depends steps i), remaining_lem steps i);
    inside = λ i out. refl;
    placed =
        λ i. ground (arith, count-range (λ j. left (remaining_of steps) j == 0) (length steps) i);
    ordered = tt;
  }
    where
      remaining_lem : (ss : List Step) (i : ℕ) → left (remaining_of ss) i ≡ length (depends ss i)
      remaining_lem [] i = refl
      remaining_lem (s ∷ ss) zero = refl
      remaining_lem (s ∷ ss) (suc i) = remaining_lem ss i

  pub placed_once :
      (order todo remaining ready : List ℕ)
      → Inv order todo remaining ready
      → Distinct (length steps) (order ++ ready)
  placed_once order todo remaining ready v i =
      ground (arith, v.placed i, count-append i order ready)

  -- With fuel for the steps that are not in the order yet, the loop ends with nothing ready.
  rounds-Inv :
      (fuel : ℕ) (order remaining ready : List ℕ)
      → length steps ≤ length order + fuel
      → Inv order [] remaining ready
      → (final : List ℕ) × Inv
          (rounds fuel (dependents_table steps) remaining ready order)
          []
          final
          []
  unfolding rounds
  rounds-Inv zero order remaining [] h v = (remaining, v)
  rounds-Inv zero order remaining (index ∷ rest) h v = absurd (
      omega (
        arith,
        Distinct-length (length steps) (order ++ (index ∷ rest))
            (placed_once order [] remaining (index ∷ rest) v),
        length-append order (index ∷ rest),
      ))
  rounds-Inv (suc fuel) order remaining [] h v = (remaining, v)
  rounds-Inv (suc fuel) order remaining (index ∷ rest) h v =
      rounds-Inv fuel (order ++ (index ∷ [])) _ _ (omega (arith, length-append order (index ∷ [])))
        (release-Inv (order ++ (index ∷ [])) remaining rest _ (choose order remaining rest index v))

  pub reached-Inv : (final : List ℕ) × Inv (reached steps) [] final []
  unfolding reached
  reached-Inv = rounds-Inv (length steps) [] _ _ (omega arith) start-Inv
