-- ===== src/Queue/Fairness.antt =====
-- Who is served next and who gives way, on a queue whose entries carry their arrival numbers.
use aether_mesh.Base.{
  ℕ, ◌<◌, ◌≡◌, subst, ◌⊎◌, List, ◌∷◌, Option, some, [], All, All-append, All-append_left,
  All-append_right, Removes, arith,
}
use aether_mesh.Task.{Task, rank}
use aether_mesh.Queue.{
  Queue, Queued, Platform, Admitted, displaced, drop_lowest_priority, urgency, push_with_timeout,
  pop,
}
use aether_mesh.Queue.Order.{Rising, Rising-split}
use aether_mesh.Queue.Choice.{Follows, Pops-Follows, pop-Pops}
use aether_mesh.Queue.Room.{Yields, Frees, oldest, least}
use aether_mesh.Queue.Admission.{IsValid, Admits, joins, turned_away, replaces, push-Admits}

module _ {ℓ} {T : Type ℓ} (platform : Platform) where
  -- `pop` takes one entry out of its place and leaves the others as they stand; each of those is
  -- less urgent at that moment than the one taken, or as urgent and a later arrival.
  pub pop-Follows :
      (q : Queue T) (now : ℕ) (e : Queued T) (q' : Queue T)
      → IsValid q
      → pop platform q now ≡ some (e, q')
      → Removes q.entries e q'.entries × All (Follows platform now q.aging e) q'.entries
  pop-Follows q now e q' v h =
      let p = pop-Pops platform q now e q' h in
      (p.taken, Pops-Follows platform q now e q' 0 v.ordered p)

  -- `d` is less urgent than `x`, or as urgent and an earlier arrival.
  abbrev pub GivesWay : (now aging : ℕ) → Queued T → Queued T → Type 0
  GivesWay now aging d x =
      (urgency platform now aging d < urgency platform now aging x)
      ⊎ ((urgency platform now aging d ≡ urgency platform now aging x) × (d.sequence < x.sequence))

  GivesWay-after :
      (now aging : ℕ) (d : Queued T) (xs : List (Queued T))
      → All (Yields platform now aging d) xs
      → All (λ x. d.sequence < x.sequence) xs
      → All (GivesWay now aging d) xs
  GivesWay-after now aging d [] h k = tt
  GivesWay-after now aging d (x ∷ xs) h k = (ground arith, GivesWay-after now aging d xs h.1 k.1)

  GivesWay-before :
      (now aging : ℕ) (d : Queued T) (xs : List (Queued T))
      → All (Yields platform now aging d) xs
      → All (λ x. x.sequence < d.sequence) xs
      → All (GivesWay now aging d) xs
  GivesWay-before now aging d [] h k = tt
  GivesWay-before now aging d (x ∷ xs) h k = (ground arith, GivesWay-before now aging d xs h.1 k.1)

  others_stay :
      (now aging low high : ℕ) (d : Queued T) (es rest : List (Queued T))
      → Rising low high es
      → Removes es d rest
      → All (Yields platform now aging d) es
      → All (GivesWay now aging d) rest
  others_stay now aging low high d es rest rising r h =
      let (earlier, later) =
        Rising-split low high r.before d r.after (subst (Rising low high) r.whole rising) in
      let order = subst (All (Yields platform now aging d)) r.whole h in
      let front = All-append_left (Yields platform now aging d) r.before _ order in
      let back = All-append_right (Yields platform now aging d) r.before _ order in
      rw r.without (
        All-append (GivesWay now aging d) r.before r.after
          (GivesWay-before now aging d r.before front earlier)
          (GivesWay-after now aging d r.after back.1 later))

  -- Under `drop_lowest_priority` an entry is displaced only for a task that is more urgent, and
  -- each entry that stays was more urgent than the displaced one, or as urgent and a later
  -- arrival: among equals the one that has waited longest goes.
  pub push-displaced :
      (q : Queue T) (task : Task) (payload : T) (now : ℕ) (own : Option ℕ) (d : Queued T)
      → IsValid q
      → q.rejection ≡ drop_lowest_priority
      → (push_with_timeout platform q task payload now own).1 ≡ displaced d
      → (urgency platform now q.aging d < rank task.priority)
        × ((rest : List (Queued T)) × Removes q.entries d rest × All (GivesWay now q.aging d) rest)
  push-displaced q task payload now own d v policy h =
      go _ (push-Admits platform q task payload now own v) h
    where
      freed :
          (room : Option (Queued T × List (Queued T))) (e : Queued T) (rest : List (Queued T))
          → room ≡ some (e, rest)
          → Frees platform q task now room
          → (urgency platform now q.aging e < rank task.priority)
            × ((rest : List (Queued T)) × Removes q.entries e rest
                × All (GivesWay now q.aging e) rest)
      freed _ e rest same (Frees.refuses p) = absurd (cc)
      freed _ e rest same (Frees.keeps_all x p o lt) = absurd (cc)
      freed _ e rest same (oldest x xs p r o) = absurd (cc)
      freed _ e rest same (least x xs p r o lt) =
          let it : x ≡ e = cc in
          subst
            (λ (y : Queued T).
              (urgency platform now q.aging y < rank task.priority)
              × ((rest : List (Queued T)) × Removes q.entries y rest
                  × All (GivesWay now q.aging y) rest))
            it (lt, (xs, r, others_stay now q.aging 0 q.next_sequence x q.entries xs v.ordered r o))

      go :
          (r : Queue T × Admitted T)
          → Admits platform q task payload now own r
          → r.1 ≡ displaced d
          → (urgency platform now q.aging d < rank task.priority)
            × ((rest : List (Queued T)) × Removes q.entries d rest
                × All (GivesWay now q.aging d) rest)
      go _ (joins not_full) same = absurd (cc)
      go _ (turned_away full f) same = absurd (cc)
      go _ (replaces dropped rest full f) same = freed _ d rest (cc) f
