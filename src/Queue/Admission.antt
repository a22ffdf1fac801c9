-- ===== src/Queue/Admission.antt =====
-- The invariant of the queue, and what every operation does to it.
use aether_mesh.Base.{
  u64_mod, ℕ, suc, ◌+◌, ◌%◌, ◌≤◌, ◌<◌, ◌≡◌, refl, ap, subst, inl, inr, true, false, ltb, ltb→lt,
  leb→gt, Bool-cases, List, [], ◌∷◌, Option, none, some, length, length-append, Removes, arith,
}
use aether_mesh.Task.{Task}
use aether_mesh.Queue.{
  Queue, Queued, Platform, Admitted, queued, refused, displaced, is_full, make_room, new_entry,
  enqueue, push_with_timeout, new, with_max_size, at_least,
}
use aether_mesh.Queue.Order.{Rising, Rising-snoc, Rising-remove}
use aether_mesh.Queue.Choice.{Pops}
use aether_mesh.Queue.Room.{Frees, refuses, oldest, keeps_all, least, make_room-Frees}

abbrev pub Fits : Option ℕ → ℕ → Type 0
Fits none n = Unit
Fits (some limit) n = (0 < limit) × (n ≤ limit)

-- Entries stand in the order of their numbers, below the counter, and no more than the limit.
pub record IsValid {ℓ} {T : Type ℓ} (q : Queue T) : Type 0 where
  pub ordered : Rising 0 q.next_sequence q.entries
  pub bounded : Fits q.max_size (length q.entries)

pub Fits-fewer : (limit : Option ℕ) (m n : ℕ) → n ≤ m → Fits limit m → Fits limit n
Fits-fewer none m n h f = tt
Fits-fewer (some limit) m n h f = (f.0, omega arith)

abbrev Taken {ℓ} : {T : Type ℓ} → List T → Option (T × List T) → Type ℓ
Taken xs none = Unit
Taken xs (some (dropped, rest)) = Removes xs dropped rest

module _ {ℓ} {T : Type ℓ} where
  pub length-Removes :
      (xs : List T) (a : T) (rest : List T) → Removes xs a rest → length xs ≡ suc (length rest)
  length-Removes xs a rest r = omega (
    arith,
    ap length r.whole,
    ap length r.without,
    length-append r.before (a ∷ r.after),
    length-append r.before r.after,
  )

  pub new-IsValid : IsValid (new {T = T})
  unfolding new
  new-IsValid = record { ordered = omega arith; bounded = tt }

  -- Setting the limit of a fresh queue keeps it valid: a limit of zero is no limit.
  pub with_max_size-IsValid :
      (q : Queue T) (size : ℕ) → q.entries ≡ [] → IsValid q → IsValid (with_max_size q size)
  unfolding with_max_size
  with_max_size-IsValid q size empty v = elim (Bool-cases (ltb 0 size)) [
    | inl positive ↦ record {
      ordered = v.ordered;
      bounded = rw (positive, empty) (ltb→lt 0 size positive, omega arith);
    }
    | inr zero_size ↦ record { ordered = v.ordered; bounded = rw zero_size tt }
  ]

  Rising-Removes :
      (high : ℕ) (xs : List (Queued T)) (e : Queued T) (rest : List (Queued T))
      → Removes xs e rest
      → Rising 0 high xs
      → Rising 0 high rest
  Rising-Removes high xs e rest r h =
      rw r.without (Rising-remove 0 high r.before e r.after (subst (Rising 0 high) r.whole h))

  filled_of_full :
      (q : Queue T)
      → Fits q.max_size (length q.entries)
      → is_full q ≡ true
      → (x : Queued T) × (xs : List (Queued T)) × (q.entries ≡ x ∷ xs)
  unfolding is_full
  filled_of_full q f h = go q.entries refl q.max_size refl
    where
      go :
          (es : List (Queued T))
          → q.entries ≡ es
          → (limit : Option ℕ) → q.max_size ≡ limit
          → (x : Queued T) × (xs : List (Queued T)) × (q.entries ≡ x ∷ xs)
      go (x ∷ xs) e limit m = (x, xs, e)
      go [] e none m = absurd (ground arith)
      go [] e (some limit) m = absurd (ground arith)

module _ {ℓ} {T : Type ℓ} (platform : Platform) (q : Queue T) (task : Task) (payload : T) (now : ℕ)
    (own : Option ℕ) where
  abbrev pub entry : Queued T
  entry = new_entry platform q task payload now own

  -- The three outcomes of an offer, with the queue that each leaves behind.
  pub data Admits : Queue T × Admitted T → Type ℓ where
    joins : is_full q ≡ false → Admits (enqueue platform q q.entries entry, queued)
    turned_away :
        is_full q ≡ true → Frees platform q task now none → Admits (q, refused task payload)
    replaces :
        (dropped : Queued T) (rest : List (Queued T))
        → is_full q ≡ true
        → Frees platform q task now (some (dropped, rest))
        → Admits (enqueue platform q rest entry, displaced dropped)

  push-joins :
      is_full q ≡ false
      → push_with_timeout platform q task payload now own
        ≡ (enqueue platform q q.entries entry, queued)
  unfolding push_with_timeout
  push-joins h = ground arith

  push-turned_away :
      is_full q ≡ true
      → make_room platform q task now ≡ none
      → push_with_timeout platform q task payload now own ≡ (q, refused task payload)
  unfolding push_with_timeout
  push-turned_away h e = ground arith

  push-replaces :
      (dropped : Queued T) (rest : List (Queued T))
      → is_full q ≡ true
      → make_room platform q task now ≡ some (dropped, rest)
      → push_with_timeout platform q task payload now own
        ≡ (enqueue platform q rest entry, displaced dropped)
  unfolding push_with_timeout
  push-replaces dropped rest h e = ground arith

  -- On a valid queue an offer has one of three outcomes: below the limit the task joins at the end;
  -- at the limit it is handed back and the queue stays as it is where the policy frees nothing, or
  -- it joins in place of the entry that the policy frees, which is handed out.
  pub push-Admits : IsValid q → Admits (push_with_timeout platform q task payload now own)
  push-Admits v = elim (Bool-cases (is_full q)) [
    | inr open_queue ↦ rw (push-joins open_queue) (joins open_queue)
    | inl full ↦
        let (x, xs, filled) = filled_of_full q v.bounded full in
        go (make_room platform q task now) refl full
          (make_room-Frees platform q task now x xs filled)
  ]
    where
      go :
          (room : Option (Queued T × List (Queued T)))
          → make_room platform q task now ≡ room
          → is_full q ≡ true
          → Frees platform q task now (make_room platform q task now)
          → Admits (push_with_timeout platform q task payload now own)
      go none e full f =
          rw (push-turned_away full e) (turned_away full (subst (Frees platform q task now) e f))
      go (some (dropped, rest)) e full f =
          rw (push-replaces dropped rest full e)
            (replaces dropped rest full (subst (Frees platform q task now) e f))

  not_full_limit : is_full q ≡ false → at_least q.max_size (length q.entries) ≡ false
  unfolding is_full
  not_full_limit h = h

  Fits-after_join :
      (limit : Option ℕ) (n : ℕ) → Fits limit n → at_least limit n ≡ false → Fits limit (suc n)
  Fits-after_join none n f h = tt
  Fits-after_join (some limit) n f h = (f.0, leb→gt limit n h)

  enqueue-IsValid :
      (rest : List (Queued T))
      → q.next_sequence + 1 < u64_mod
      → Rising 0 q.next_sequence rest
      → Fits q.max_size (suc (length rest))
      → IsValid (enqueue platform q rest entry)
  enqueue-IsValid rest room rising fits =
      let counted : (q.next_sequence + 1) % u64_mod ≡ q.next_sequence + 1 = omega arith in
      record {
        ordered = rw counted (
            Rising-snoc 0 q.next_sequence (q.next_sequence + 1) rest entry rising (omega arith)
              (omega arith));
        bounded = rw (length-append rest (entry ∷ []), one_more (length rest)) fits;
      }
    where
      one_more : (n : ℕ) → n + 1 ≡ suc n
      one_more n = omega arith

  Frees-Taken :
      (room : Option (Queued T × List (Queued T)))
      → Frees platform q task now room
      → Taken q.entries room
  Frees-Taken _ (refuses p) = tt
  Frees-Taken _ (keeps_all d p o h) = tt
  Frees-Taken _ (oldest d rest p removed o) = removed
  Frees-Taken _ (least d rest p removed o h) = removed

  -- Every offer keeps the queue valid, as long as the counter has not run out.
  pub push-IsValid :
      q.next_sequence + 1 < u64_mod
      → IsValid q
      → IsValid (push_with_timeout platform q task payload now own).0
  push-IsValid room v = go (push_with_timeout platform q task payload now own) (push-Admits v)
    where
      go : (result : Queue T × Admitted T) → Admits result → IsValid result.0
      go _ (joins not_full) =
          enqueue-IsValid q.entries room v.ordered
            (Fits-after_join q.max_size (length q.entries) v.bounded (not_full_limit not_full))
      go _ (turned_away full f) = v
      go _ (replaces dropped rest full f) =
          let removed = Frees-Taken (some (dropped, rest)) f in
          enqueue-IsValid rest room
            (Rising-Removes q.next_sequence q.entries dropped rest removed v.ordered)
            (Fits-fewer q.max_size (length q.entries) (suc (length rest))
              (omega (arith, length-Removes q.entries dropped rest removed)) v.bounded)

-- Taking the next entry keeps the queue valid.
pub pop-IsValid {ℓ} :
    {T : Type ℓ} (platform : Platform) (q : Queue T) (now : ℕ) (e : Queued T) (q' : Queue T)
    → Pops platform q now e q'
    → IsValid q
    → IsValid q'
pop-IsValid platform q now e q' p v = rw p.others (record {
  ordered = Rising-Removes q.next_sequence q.entries e q'.entries p.taken v.ordered;
  bounded =
      Fits-fewer q.max_size (length q.entries) (length q'.entries)
        (omega (arith, length-Removes q.entries e q'.entries p.taken)) v.bounded;
})
