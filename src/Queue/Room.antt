-- ===== src/Queue/Room.antt =====
-- What `make_room` frees, by policy.
use aether_mesh.Base.{
  ℕ, ◌≤◌, ◌<◌, ◌≡◌, refl, ◌⊎◌, inl, inr, leb, true, false, List, ◌∷◌, Option, none, some, All, best,
  Removes, remove_at-Removes, best_bound, best-get_elem?, best-some, Bool-cases, arith,
}
use aether_mesh.Task.{Task, rank}
use aether_mesh.Queue.{
  Queue, Queued, Platform, Rejection, reject, drop_oldest, drop_lowest_priority, urgency,
  less_urgent, arrived_before, make_room,
}

module _ {ℓ} {T : Type ℓ} where
  abbrev pub Arrived : Queued T → Queued T → Type 0
  Arrived e d = e.sequence ≤ d.sequence

  best-Arrived :
      (es : List (Queued T)) (i : ℕ) (e : Queued T)
      → best arrived_before es ≡ some (i, e)
      → All (Arrived e) es
  best-Arrived =
      best_bound arrived_before Arrived (λ a. omega arith) (λ a b c h k. omega arith)
        (λ x a h. ground arith) (λ x a h. ground arith)

module _ {ℓ} {T : Type ℓ} (platform : Platform) where
  -- `e` goes before `d`: it is less urgent, or as urgent and not a later arrival.
  abbrev pub Yields : (now aging : ℕ) → Queued T → Queued T → Type 0
  Yields now aging e d =
      (urgency platform now aging e < urgency platform now aging d)
      ⊎ ((urgency platform now aging e ≡ urgency platform now aging d) × (e.sequence ≤ d.sequence))

  Yields-trans :
      (now aging : ℕ) (a b c : Queued T)
      → Yields now aging a b
      → Yields now aging b c
      → Yields now aging a c
  Yields-trans now aging a b c h k = ground arith

  Yields-of_wins :
      (now aging : ℕ) (x a : Queued T)
      → less_urgent platform now aging x a ≡ true
      → Yields now aging x a
  unfolding less_urgent
  Yields-of_wins now aging x a h = ground arith

  Yields-of_keeps :
      (now aging : ℕ) (x a : Queued T)
      → less_urgent platform now aging x a ≡ false
      → Yields now aging a x
  unfolding less_urgent
  Yields-of_keeps now aging x a h = ground arith

  best-Yields :
      (now aging : ℕ) (es : List (Queued T)) (i : ℕ) (e : Queued T)
      → best (less_urgent platform now aging) es ≡ some (i, e)
      → All (Yields now aging e) es
  best-Yields now aging =
      best_bound (less_urgent platform now aging) (Yields now aging) (λ a. inr (refl, omega arith))
        (Yields-trans now aging) (Yields-of_wins now aging) (Yields-of_keeps now aging)

  -- The outcome that the policy calls for, on a queue that is not empty.
  pub data Frees (q : Queue T) (incoming : Task) (now : ℕ)
      : Option (Queued T × List (Queued T)) → Type ℓ where
    refuses : q.rejection ≡ reject → Frees q incoming now none
    oldest :
        (e : Queued T) (rest : List (Queued T))
        → q.rejection ≡ drop_oldest
        → Removes q.entries e rest
        → All (Arrived e) q.entries
        → Frees q incoming now (some (e, rest))
    keeps_all :
        (e : Queued T)
        → q.rejection ≡ drop_lowest_priority
        → All (Yields now q.aging e) q.entries
        → rank incoming.priority ≤ urgency platform now q.aging e
        → Frees q incoming now none
    least :
        (e : Queued T) (rest : List (Queued T))
        → q.rejection ≡ drop_lowest_priority
        → Removes q.entries e rest
        → All (Yields now q.aging e) q.entries
        → urgency platform now q.aging e < rank incoming.priority
        → Frees q incoming now (some (e, rest))

  module _ (q : Queue T) (incoming : Task) (now : ℕ) (x : Queued T) (xs : List (Queued T))
      (filled : q.entries ≡ x ∷ xs) where
    free_oldest :
        q.rejection ≡ drop_oldest → Frees q incoming now (make_room platform q incoming now)
    unfolding make_room
    free_oldest policy =
        let (i, e, found) = best-some arrived_before x xs in
        let found' : best arrived_before q.entries ≡ some (i, e) = rw filled found in
        let (rest, removed, r) =
          remove_at-Removes i q.entries e (best-get_elem? _ q.entries i e found') in
        let result : make_room platform q incoming now ≡ some (e, rest) = ground arith in
        rw result (oldest e rest policy r (best-Arrived q.entries i e found'))

    free_least :
        q.rejection ≡ drop_lowest_priority
        → Frees q incoming now (make_room platform q incoming now)
    unfolding make_room
    free_least policy =
        let (i, e, found) = best-some (less_urgent platform now q.aging) x xs in
        let found' : best (less_urgent platform now q.aging) q.entries ≡ some (i, e) =
          rw filled found in
        let (rest, removed, r) =
          remove_at-Removes i q.entries e (best-get_elem? _ q.entries i e found') in
        let order = best-Yields now q.aging q.entries i e found' in
        elim (Bool-cases (leb (rank incoming.priority) (urgency platform now q.aging e))) [
          | inl tie ↦
              let result : make_room platform q incoming now ≡ none = ground arith in
              rw result (keeps_all e policy order (ground arith))
          | inr above ↦
              let result : make_room platform q incoming now ≡ some (e, rest) = ground arith in
              rw result (least e rest policy r order (ground arith))
        ]

    free_none : q.rejection ≡ reject → make_room platform q incoming now ≡ none
    unfolding make_room
    free_none h = ground arith

    pub make_room-Frees : Frees q incoming now (make_room platform q incoming now)
    make_room-Frees = go q.rejection refl
      where
        go :
            (p : Rejection)
            → q.rejection ≡ p
            → Frees q incoming now (make_room platform q incoming now)
        go reject h = rw (free_none h) (refuses h)
        go drop_oldest h = free_oldest h
        go drop_lowest_priority h = free_least h
