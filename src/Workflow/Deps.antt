-- ===== src/Workflow/Deps.antt =====
-- The tables that `order` builds: what each step still waits for, and who waits on it.
use aether_mesh.Base.{
  ℕ, zero, suc, ◌+◌, ◌-◌, ◌<◌, ◌≤◌, ◌≡◌, refl, ◌∙◌, ap, inl, inr, true, ltb, leb, ◌==◌, ◌&&◌,
  if◌then◌else◌, Bool-cases, List, [], ◌∷◌, ◌++◌, length, contains, All, count, count-append,
  contains-append, contains-count, get_or, update_at, get_or-update_at, length-update_at, replicate,
  get_or-replicate, length-replicate, arith,
}
use aether_mesh.Workflow.{Step, depends, add_dependents, build_dependents, dependents_table}

-- How many of the dependencies `ds`, repetitions counted, are not in `seen`.
abbrev pub pending : List ℕ → List ℕ → ℕ
pending seen [] = 0
pending seen (d ∷ ds) = (if contains seen d then 0 else 1) + pending seen ds

pub pending-nil : (ds : List ℕ) → pending [] ds ≡ length ds
pending-nil [] = refl
pending-nil (d ∷ ds) = omega (arith, pending-nil ds)

-- A step that was not seen before takes its occurrences out of what is pending.
pub pending-snoc :
    (seen : List ℕ) (a : ℕ) (ds : List ℕ)
    → count a seen ≡ 0
    → pending seen ds ≡ pending (seen ++ (a ∷ [])) ds + count a ds
pending-snoc seen a [] h = refl
pending-snoc seen a (d ∷ ds) h = elim (Bool-cases (d == a)) [
  | inl same ↦
      let e : d ≡ a = ground arith in
      ground (
        arith,
        pending-snoc seen a ds h,
        contains-append seen (a ∷ []) d,
        contains-count seen a,
        ap (contains seen) e,
      )
  | inr other ↦ ground (arith, pending-snoc seen a ds h, contains-append seen (a ∷ []) d)
]

pub pending-zero : (seen ds : List ℕ) → pending seen ds ≡ 0 → All (λ d. contains seen d ≡ true) ds
pending-zero seen [] h = tt
pending-zero seen (d ∷ ds) h = elim (Bool-cases (contains seen d)) [
  | inl known ↦ (known, pending-zero seen ds (ground arith))
  | inr fresh ↦ absurd (ground arith)
]

length-add_dependents :
    (index : ℕ) (ds : List ℕ) (table : List (List ℕ))
    → length (add_dependents index ds table) ≡ length table
unfolding add_dependents
length-add_dependents index [] table = refl
length-add_dependents index (d ∷ ds) table =
    length-add_dependents index ds _ ∙ length-update_at d (λ list. list ++ (index ∷ [])) table

add_dependents_lem :
    (index : ℕ) (ds : List ℕ) (table : List (List ℕ)) (k i : ℕ)
    → k < length table
    → count i (get_or (add_dependents index ds table) k [])
      ≡ (if index == i then count k ds else 0) + count i (get_or table k [])
unfolding add_dependents
add_dependents_lem index [] table k i h = ground arith
add_dependents_lem index (d ∷ ds) table k i h =
    let f : List ℕ → List ℕ = λ list. list ++ (index ∷ []) in
    let ih =
      add_dependents_lem index ds (update_at d f table) k i
        (omega (arith, length-update_at d f table)) in
    elim (Bool-cases (d == k && ltb k (length table))) [
      | inl hit ↦
          let e : get_or (update_at d f table) k [] ≡ get_or table k [] ++ (index ∷ []) =
            get_or-update_at d f table k [] ∙ rw hit in
          ground (arith, ih, ap (count i) e, count-append i (get_or table k []) (index ∷ []))
      | inr miss ↦
          let e : get_or (update_at d f table) k [] ≡ get_or table k [] =
            get_or-update_at d f table k [] ∙ rw miss in
          ground (arith, ih, ap (count i) e)
    ]

length-build_dependents :
    (index : ℕ) (ss : List Step) (table : List (List ℕ))
    → length (build_dependents index ss table) ≡ length table
unfolding build_dependents
length-build_dependents index [] table = refl
length-build_dependents index (s ∷ ss) table =
    length-build_dependents (suc index) ss _ ∙ length-add_dependents index s.depends_on table

build_dependents_lem :
    (index : ℕ) (ss : List Step) (table : List (List ℕ)) (k i : ℕ)
    → k < length table
    → count i (get_or (build_dependents index ss table) k [])
      ≡ (if leb index i then count k (depends ss (i - index)) else 0) + count i (get_or table k [])
unfolding build_dependents
build_dependents_lem index [] table k i h = ground arith
build_dependents_lem index (s ∷ ss) table k i h =
    let ih =
      build_dependents_lem (suc index) ss (add_dependents index s.depends_on table) k i
        (omega (arith, length-add_dependents index s.depends_on table)) in
    let one = add_dependents_lem index s.depends_on table k i h in
    elim (Bool-cases (leb (suc index) i)) [
      | inl later ↦
          let e : i - index ≡ suc (i - suc index) = ground arith in
          let here : depends (s ∷ ss) (i - index) ≡ depends ss (i - suc index) = rw e in
          ground (arith, ih, one, ap (count k) here)
      | inr not_later ↦ elim (Bool-cases (index == i)) [
        | inl same ↦
            let e : i - index ≡ 0 = ground arith in
            let here : depends (s ∷ ss) (i - index) ≡ s.depends_on = rw e in
            ground (arith, ih, one, ap (count k) here)
        | inr other ↦ ground (arith, ih, one)
      ]
    ]

-- In the table, `i` stands under `k` as often as `k` stands among the dependencies of `i`.
pub dependents_lem :
    (steps : List Step) (k i : ℕ)
    → k < length steps
    → count i (get_or (dependents_table steps) k []) ≡ count k (depends steps i)
dependents_lem steps k i h =
    let n = length steps in
    ground (
      arith,
      build_dependents_lem 0 steps (replicate n []) k i
          (omega (arith, length-replicate {A = List ℕ} n [])),
      ap (count i) (get_or-replicate n [] k),
    )

pub depends_above : (steps : List Step) (i : ℕ) → length steps ≤ i → depends steps i ≡ []
depends_above [] i h = refl
depends_above (s ∷ ss) zero h = absurd (omega arith)
depends_above (s ∷ ss) (suc i) h = depends_above ss i (omega arith)
