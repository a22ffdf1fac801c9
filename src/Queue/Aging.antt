-- ===== src/Queue/Aging.antt =====
-- Aging: what waiting does to the order in which tasks are served.
use aether_mesh.Base.{
  ℕ, zero, suc, ◌+◌, ◌-◌, ◌*◌, ◌≤◌, ◌<◌, ◌≡◌, min, ◌==◌, if◌then◌else◌, some, In, All-In, arith,
}
use aether_mesh.Task.{Priority, rank, promoted, background, low, normal, high, critical}
use aether_mesh.Queue.{Queue, Queued, Platform, promoted_times, effective_priority, urgency, pop}
use aether_mesh.Queue.Choice.{Precedes, pop-Pops}

rank-promoted : (p : Priority) → rank (promoted p) ≡ min (rank p + 1) 4
unfolding rank promoted
rank-promoted background = omega arith
rank-promoted low = omega arith
rank-promoted normal = omega arith
rank-promoted high = omega arith
rank-promoted critical = omega arith

pub rank-le : (p : Priority) → rank p ≤ 4
unfolding rank
rank-le background = omega arith
rank-le low = omega arith
rank-le normal = omega arith
rank-le high = omega arith
rank-le critical = omega arith

rank-promoted_times : (n : ℕ) (p : Priority) → rank (promoted_times n p) ≡ min (rank p + n) 4
unfolding promoted_times
rank-promoted_times zero p = omega (arith, rank-le p)
rank-promoted_times (suc n) p = omega (arith, rank-promoted_times n (promoted p), rank-promoted p)

module _ {ℓ} {T : Type ℓ} (platform : Platform) where
  urgency_lem :
      (now aging : ℕ) (e : Queued T)
      → urgency platform now aging e ≡ (
          if aging == 0
          then rank e.task.priority
          else min (rank e.task.priority + min (platform.levels (now - e.queued_at) aging) 5) 4)
  unfolding effective_priority
  urgency_lem now aging e = ground (
    arith,
    rank-promoted_times (min (platform.levels (now - e.queued_at) aging) 5) e.task.priority,
  )

  urgency-le : (now aging : ℕ) (e : Queued T) → urgency platform now aging e ≤ 4
  urgency-le now aging e = rank-le (effective_priority platform e now aging)

  -- Waiting never makes an entry less urgent than its declared priority.
  pub rank-le-urgency :
      (now aging : ℕ) (e : Queued T) → rank e.task.priority ≤ urgency platform now aging e
  rank-le-urgency now aging e = ground (arith, urgency_lem now aging e, rank-le e.task.priority)

module _ {T : Type 0} (platform : Platform) where
  -- In a queue whose aging period is not zero no entry is overtaken for ever: once an entry has
  -- waited for five aging periods, `pop` takes it or an entry that arrived before it, whatever the
  -- priorities are and whatever arrives later. The premise on the quotient is that it is at least 4
  -- where the period is not zero and the wait is five periods or more.
  pub pop-le_sequence :
      ((waited aging : ℕ) → 0 < aging → 5 * aging ≤ waited → 4 ≤ platform.levels waited aging)
      → (q : Queue T) (now : ℕ) (e d : Queued T) (q' : Queue T) → In e q.entries
      → 0 < q.aging
      → 5 * q.aging ≤ now - e.queued_at
      → pop platform q now ≡ some (d, q')
      → d.sequence ≤ e.sequence
  pop-le_sequence steady q now e d q' here aged long h =
      let p = pop-Pops platform q now d q' h in
      let first : Precedes platform now q.aging d e =
        All-In (Precedes platform now q.aging d) q.entries e p.first here in
      let top : 4 ≤ urgency platform now q.aging e =
        ground (
          arith,
          urgency_lem platform now q.aging e,
          steady (now - e.queued_at) q.aging aged long,
        ) in
      ground (arith, urgency-le platform now q.aging d)
