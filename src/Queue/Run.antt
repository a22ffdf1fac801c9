-- ===== src/Queue/Run.antt =====
-- Histories of calls on one queue, from its construction on.
use aether_mesh.Base.{
  ℕ, ◌+◌, ◌<◌, ◌≤◌, ◌≡◌, refl, ◌∙◌, lt→ltb, List, [], ◌∷◌, Option, none, some, inl, inr, length,
  arith,
}
use aether_mesh.Task.{Task}
use aether_mesh.Base.{u64_mod}
use aether_mesh.Queue.{
  Queue, Queued, Platform, Admitted, push_with_timeout, pop, expire, new, with_max_size,
  with_rejection, with_aging, with_timeout, Rejection,
}
use aether_mesh.Queue.Choice.{pop_cases}
use aether_mesh.Queue.Order.{Rising}
use aether_mesh.Queue.Admission.{
  IsValid, Fits, Admits, joins, turned_away, replaces, push-Admits, push-IsValid, pop-IsValid,
  new-IsValid, with_max_size-IsValid,
}
use aether_mesh.Queue.Expiry.{expire_lem, expire-IsValid}

pub data Call {ℓ} (T : Type ℓ) : Type ℓ where
  offer : (task : Task) (payload : T) (now : ℕ) (own : Option ℕ) → Call T
  take_next : (now : ℕ) → Call T
  sweep : (now : ℕ) → Call T

module _ {ℓ} {T : Type ℓ} (platform : Platform) where
  abbrev after_pop : Queue T → Option (Queued T × Queue T) → Queue T
  after_pop q none = q
  after_pop q (some (e, q')) = q'

  -- The queue that one call leaves behind.
  unfoldable pub step : Queue T → Call T → Queue T
  step q (offer task payload now own) = (push_with_timeout platform q task payload now own).0
  step q (take_next now) = after_pop q (pop platform q now)
  step q (sweep now) = (expire q now).0

  unfoldable pub run : Queue T → List (Call T) → Queue T
  run q [] = q
  run q (c ∷ cs) = run (step q c) cs

  -- What no call changes, and the counter, which an offer raises by at most one.
  record Steady (q q' : Queue T) : Type 0 where
    limit : q'.max_size ≡ q.max_size
    counter : q'.next_sequence ≤ q.next_sequence + 1

  pop-Steady : (q : Queue T) (now : ℕ) → Steady q (after_pop q (pop platform q now))
  pop-Steady q now = elim (pop_cases platform q now) [
    | inl (empty, nothing) ↦ rw nothing (record { limit = refl; counter = omega arith })
    | inr (e, q', found, p) ↦ rw (found, p.others) (record { limit = refl; counter = omega arith })
  ]

  push-Steady :
      (q : Queue T) (task : Task) (payload : T) (now : ℕ) (own : Option ℕ)
      → IsValid q
      → Steady q (push_with_timeout platform q task payload now own).0
  push-Steady q task payload now own v = go _ (push-Admits platform q task payload now own v)
    where
      go : (r : Queue T × Admitted T) → Admits platform q task payload now own r → Steady q r.0
      go _ (joins not_full) = record { limit = refl; counter = omega arith }
      go _ (turned_away full f) = record { limit = refl; counter = omega arith }
      go _ (replaces dropped rest full f) = record { limit = refl; counter = omega arith }

  step-Steady : (q : Queue T) (c : Call T) → IsValid q → Steady q (step q c)
  unfolding step
  step-Steady q (offer task payload now own) v = push-Steady q task payload now own v
  step-Steady q (take_next now) v = pop-Steady q now
  step-Steady q (sweep now) v =
      rw (expire_lem now q, step) (record { limit = refl; counter = omega arith })

  step-IsValid :
      (q : Queue T) (c : Call T) → q.next_sequence + 1 < u64_mod → IsValid q → IsValid (step q c)
  unfolding step
  step-IsValid q (offer task payload now own) room v =
      push-IsValid platform q task payload now own room v
  step-IsValid q (take_next now) room v = elim (pop_cases platform q now) [
    | inl (empty, nothing) ↦ rw nothing v
    | inr (e, q', found, p) ↦ rw found (pop-IsValid platform q now e q' p v)
  ]
  step-IsValid q (sweep now) room v = expire-IsValid now q v

  run-IsValid :
      (q : Queue T) (calls : List (Call T))
      → q.next_sequence + length calls < u64_mod
      → IsValid q
      → IsValid (run q calls) × ((run q calls).max_size ≡ q.max_size)
  unfolding run
  run-IsValid q [] room v = (v, refl)
  run-IsValid q (c ∷ cs) room v =
      let s = step-Steady q c v in
      let (valid, limit) =
        run-IsValid (step q c) cs (omega (arith, s.counter)) (step-IsValid q c (omega arith) v) in
      (valid, limit ∙ s.limit)

module _ {ℓ} (T : Type ℓ) where
  abbrev pub configured : (size aging timeout : ℕ) → Rejection → Queue T
  configured size aging timeout rejection =
      with_timeout (with_rejection (with_aging (with_max_size new size) aging) rejection) timeout

  configured-IsValid :
      (size aging timeout : ℕ) (rejection : Rejection)
      → IsValid (configured size aging timeout rejection)
  unfolding with_timeout with_rejection with_aging new
  configured-IsValid size aging timeout rejection =
      let v = with_max_size-IsValid (new {T = T}) size refl new-IsValid in
      record { ordered = v.ordered; bounded = v.bounded }

  configured-max_size :
      (size aging timeout : ℕ) (rejection : Rejection)
      → 0 < size
      → (configured size aging timeout rejection).max_size ≡ some size
  unfolding with_timeout with_rejection with_aging with_max_size
  configured-max_size size aging timeout rejection h = rw (lt→ltb 0 size h)

  configured-next_sequence :
      (size aging timeout : ℕ) (rejection : Rejection)
      → (configured size aging timeout rejection).next_sequence ≡ 0
  unfolding with_timeout with_rejection with_aging with_max_size new
  configured-next_sequence size aging timeout rejection = refl

module _ {ℓ} {T : Type ℓ} (platform : Platform) where
  -- After fewer than 2^64 calls on a queue built with a limit of `size` and any aging period,
  -- timeout and policy, no more than `size` entries wait, and the entries stand in the order of
  -- their arrival numbers, all different and below the counter.
  pub run-bounded :
      (size aging timeout : ℕ) (rejection : Rejection) (calls : List (Call T))
      → 0 < size
      → length calls < u64_mod
      → (length (run platform (configured T size aging timeout rejection) calls).entries ≤ size)
        × Rising 0
            (run platform (configured T size aging timeout rejection) calls).next_sequence
            (run platform (configured T size aging timeout rejection) calls).entries
  run-bounded size aging timeout rejection calls h few =
      let start = configured T size aging timeout rejection in
      let (valid, limit) =
        run-IsValid platform start calls
          (omega (arith, configured-next_sequence T size aging timeout rejection))
          (configured-IsValid T size aging timeout rejection) in
      let limited : (run platform start calls).max_size ≡ some size =
        limit ∙ configured-max_size T size aging timeout rejection h in
      let fits : Fits (some size) (length (run platform start calls).entries) =
        rw limited at (valid.bounded) in
      (fits.1, valid.ordered)
