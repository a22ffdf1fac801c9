-- ===== src/Controller/InFlight.antt =====
-- The count of the tasks that a node has not finished.
use aether_mesh.Base.{
  ℕ, ◌+◌, ◌-◌, ◌%◌, ◌^◌, ◌<◌, ◌≡◌, ap, ◌∙◌, inl, inr, ◌==◌, false, Bool-cases, if◌then◌else◌, some,
  List, arith,
}
use aether_mesh.Base.Assoc.{lookup, nat_eq, lookup-insert, lookup-remove, lookup-insert_self}
use aether_mesh.Task.{NodeId}
use aether_mesh.Node.{Float}
use aether_mesh.Controller.{Controller, count_or_zero, pending_on, begin_on, finished_on}

module _ {float : Float} where
  finished_on-some :
      (n : NodeId) (p : ℕ) (c : Controller float)
      → lookup n c.in_flight ≡ some p
      → (m : NodeId)
      → pending_on float m (finished_on float n c)
        ≡ (if n == m then p - 1 else pending_on float m c)
  unfolding finished_on pending_on
  finished_on-some n p c h m = elim (Bool-cases (p - 1 == 0)) [
    | inl last ↦ rw (finished_on, h, last) (ground (arith, lookup-remove n m c.in_flight))
    | inr more ↦ rw (finished_on, h, more) (ground (arith, lookup-insert n m (p - 1) c.in_flight))
  ]

  begin_on-lookup :
      (n : NodeId) (c : Controller float)
      → pending_on float n c + 1 < 2 ^ 32
      → lookup n (begin_on float n c).in_flight ≡ some (pending_on float n c + 1)
  unfolding begin_on
  begin_on-lookup n c h =
      let small : (pending_on float n c + 1) % 2 ^ 32 ≡ pending_on float n c + 1 = omega arith in
      rw small (lookup-insert_self n (pending_on float n c + 1) c.in_flight)

  begin_on-pending :
      (n m : NodeId) (c : Controller float)
      → (n == m) ≡ false
      → pending_on float m (begin_on float n c) ≡ pending_on float m c
  unfolding begin_on pending_on
  begin_on-pending n m c h =
      ground
        (arith, lookup-insert n m ((count_or_zero (lookup n c.in_flight) + 1) % 2 ^ 32) c.in_flight)

  pub pending_same :
      (m : NodeId) (c d : Controller float)
      → c.in_flight ≡ d.in_flight
      → pending_on float m c ≡ pending_on float m d
  unfolding pending_on
  pending_same m c d h = ap (λ (l : List (NodeId × ℕ)). count_or_zero (lookup m l)) h

  -- A task that has been begun and finished leaves all counts as they were.
  pub finished_on-begin_on :
      (n : NodeId) (c d : Controller float)
      → pending_on float n c + 1 < 2 ^ 32
      → d.in_flight ≡ (begin_on float n c).in_flight
      → (m : NodeId) → pending_on float m (finished_on float n d) ≡ pending_on float m c
  finished_on-begin_on n c d h same m =
      let there = ap (λ (l : List (NodeId × ℕ)). lookup n l) same ∙ begin_on-lookup n c h in
      let counted = finished_on-some n (pending_on float n c + 1) d there m in
      elim (Bool-cases (n == m)) [
        | inl it ↦
            let e : n ≡ m = ground arith in
            ground (arith, counted, ap (λ (k : NodeId). pending_on float k c) e)
        | inr other ↦
            let begun = pending_same m d (begin_on float n c) same ∙ begin_on-pending n m c other in
            ground (arith, counted, begun)
      ]
