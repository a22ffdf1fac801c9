-- ===== src/Registry/Keyed.antt =====
-- The registry keeps every node once, under its own id.
use aether_mesh.Base.{
  ℕ, ◌≡◌, refl, sym, ap, ◌∙◌, inl, inr, Bool-cases, Option-cases, List, [], ◌∷◌, Option, none, some,
  All, arith,
}
use aether_mesh.Base.Assoc.{lookup, insert, remove, nat_eq, IsMap, insert-IsMap, remove-IsMap}
use aether_mesh.Task.{NodeId}
use aether_mesh.Node.{Float, NodeInfo, NodeMetrics, update_metrics}
use aether_mesh.Registry.{
  Double, NodeEntry, Registry, register, remove_node, record_heartbeat, record_link, smooth_latency,
  smooth_bandwidth,
}

module _ (float : Float) where
  abbrev pub IsKeyed : Registry float → Type 0
  IsKeyed r = IsMap r × All (λ (p : NodeId × NodeEntry float). p.1.info.id ≡ p.0) r

  All-insert :
      (id : NodeId) (e : NodeEntry float) (r : Registry float)
      → e.info.id ≡ id
      → All (λ (p : NodeId × NodeEntry float). p.1.info.id ≡ p.0) r
      → All (λ (p : NodeId × NodeEntry float). p.1.info.id ≡ p.0) (insert id e r)
  unfolding insert
  All-insert id e [] h k = (h, tt)
  All-insert id e ((j, f) ∷ r) h k = elim (Bool-cases (nat_eq.beq j id)) [
    | inl same ↦ rw same (h, k.1)
    | inr other ↦ rw other (k.0, All-insert id e r h k.1)
  ]

  All-remove :
      (id : NodeId) (r : Registry float)
      → All (λ (p : NodeId × NodeEntry float). p.1.info.id ≡ p.0) r
      → All (λ (p : NodeId × NodeEntry float). p.1.info.id ≡ p.0) (remove id r)
  unfolding remove
  All-remove id [] k = tt
  All-remove id ((j, f) ∷ r) k = elim (Bool-cases (nat_eq.beq j id)) [
    | inl same ↦ rw same (All-remove id r k.1)
    | inr other ↦ rw other (k.0, All-remove id r k.1)
  ]

  keyed-lookup :
      (id : NodeId) (e : NodeEntry float) (r : Registry float)
      → All (λ (p : NodeId × NodeEntry float). p.1.info.id ≡ p.0) r
      → lookup id r ≡ some e
      → e.info.id ≡ id
  unfolding lookup
  keyed-lookup id e [] k h = absurd (ground arith)
  keyed-lookup id e ((j, f) ∷ r) k h = elim (Bool-cases (nat_eq.beq j id)) [
    | inl same ↦
        let p : j ≡ id = ground (arith, nat_eq.beq_iff j id) in
        let q : some f ≡ some e = (rw same at h) in
        let same_entry : f ≡ e = ground arith in
        ap (λ (x : NodeEntry float). x.info.id) (sym same_entry) ∙ k.0 ∙ p
    | inr other ↦ keyed-lookup id e r k.1 (rw other at h)
  ]

  insert-IsKeyed :
      (id : NodeId) (e : NodeEntry float) (r : Registry float)
      → e.info.id ≡ id
      → IsKeyed r
      → IsKeyed (insert id e r)
  insert-IsKeyed id e r h k = (insert-IsMap id e r k.0, All-insert id e r h k.1)

  smooth_bandwidth-id :
      (double : Double float) (sample : Option ℕ) (info : NodeInfo float)
      → (smooth_bandwidth float double sample info).id ≡ info.id
  smooth_bandwidth-id double none info = refl
  smooth_bandwidth-id double (some x) info = refl

  module _ (double : Double float) where
    -- The calls that change the registry.
    pub data Call : Type 0 where
      registers : (info : NodeInfo float) (now : ℕ) → Call
      removes : (node_id : NodeId) → Call
      beats : (node_id : NodeId) (metrics : NodeMetrics float) (now : ℕ) → Call
      measures : (node_id : NodeId) (latency_ms : float.F) (bandwidth : Option ℕ) → Call

    unfoldable pub step : Registry float → Call → Registry float
    step r (registers info now) = (register float info now r).0
    step r (removes node_id) = (remove_node float node_id r).0
    step r (beats node_id metrics now) = (record_heartbeat float node_id metrics now r).0
    step r (measures node_id latency_ms bandwidth) =
        record_link float double node_id latency_ms bandwidth r

    unfoldable pub run : Registry float → List Call → Registry float
    run r [] = r
    run r (c ∷ calls) = run (step r c) calls

    step-IsKeyed : (r : Registry float) (c : Call) → IsKeyed r → IsKeyed (step r c)
    unfolding step register remove_node record_heartbeat record_link update_metrics
    step-IsKeyed r (registers info now) k =
        insert-IsKeyed info.id (record { info = info; last_seen = now }) r refl k
    step-IsKeyed r (removes node_id) k = (remove-IsMap node_id r k.0, All-remove node_id r k.1)
    step-IsKeyed r (beats node_id metrics now) k = elim (Option-cases (lookup node_id r)) [
      | inl absent ↦ rw (step, record_heartbeat, absent) k
      | inr (e, found) ↦
          rw (step, record_heartbeat, found)
            (insert-IsKeyed node_id _ r (keyed-lookup node_id e r k.1 found) k)
    ]
    step-IsKeyed r (measures node_id latency_ms bandwidth) k =
        elim (Option-cases (lookup node_id r)) [
          | inl absent ↦ rw (step, record_link, absent) k
          | inr (e, found) ↦
              rw (step, record_link, found)
                (insert-IsKeyed node_id _ r
                  (smooth_bandwidth-id double bandwidth
                      (smooth_latency float double latency_ms e.info)
                    ∙ keyed-lookup node_id e r k.1 found)
                  k)
        ]

    -- In a registry that holds every node once and under its own id, registrations, removals,
    -- heartbeats and link measurements keep that so, in any sequence.
    pub run-IsKeyed : (r : Registry float) (calls : List Call) → IsKeyed r → IsKeyed (run r calls)
    unfolding run
    run-IsKeyed r [] k = k
    run-IsKeyed r (c ∷ calls) k = run-IsKeyed (step r c) calls (step-IsKeyed r c k)
