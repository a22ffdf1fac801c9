-- ===== src/Queue/Expiry.antt =====
-- The loop of `expire`, which removes from the vector that it walks over.
use aether_mesh.Base.{
  ℕ, zero, suc, ◌+◌, ◌≤◌, ◌≡◌, refl, ap, ◌∙◌, inl, inr, Bool, true, false, not, Bool-cases, List,
  [], ◌∷◌, ◌++◌, length, length-append, append_nil_eq, append_regroup, filter, get_elem?-append_mid,
  get_elem?-length, remove_at-append_mid, arith,
}
use aether_mesh.Queue.{Queue, Queued, expired, expire_loop, expire}
use aether_mesh.Queue.Order.{Rising, Rising-weaken}
use aether_mesh.Queue.Admission.{IsValid, Fits-fewer}

module _ {ℓ} {T : Type ℓ} (now : ℕ) where
  abbrev pub waits : Queued T → Bool
  waits e = not (expired now e)

  -- One round at the first entry that the loop has not seen.
  round_kept :
      (fuel : ℕ) (seen : List (Queued T)) (e : Queued T) (rest gone : List (Queued T))
      → expired now e ≡ false
      → expire_loop (suc fuel) now (length seen) (seen ++ (e ∷ rest)) gone
        ≡ expire_loop fuel now (length seen + 1) (seen ++ (e ∷ rest)) gone
  unfolding expire_loop
  round_kept fuel seen e rest gone h = ground (arith, get_elem?-append_mid seen e rest)

  round_removed :
      (fuel : ℕ) (seen : List (Queued T)) (e : Queued T) (rest gone : List (Queued T))
      → expired now e ≡ true
      → expire_loop (suc fuel) now (length seen) (seen ++ (e ∷ rest)) gone
        ≡ expire_loop fuel now (length seen) (seen ++ rest) (gone ++ (e ∷ []))
  unfolding expire_loop
  round_removed fuel seen e rest gone h =
      ground (arith, get_elem?-append_mid seen e rest, remove_at-append_mid seen e rest)

  round_end :
      (fuel : ℕ) (seen gone : List (Queued T))
      → expire_loop fuel now (length seen) (seen ++ []) gone ≡ (seen ++ [], gone)
  unfolding expire_loop
  round_end zero seen gone = refl
  round_end (suc fuel) seen gone = ground (arith, get_elem?-length seen)

  expire_loop_lem :
      (fuel : ℕ) (seen rest gone : List (Queued T))
      → length rest ≤ fuel
      → expire_loop fuel now (length seen) (seen ++ rest) gone
        ≡ (seen ++ filter waits rest, gone ++ filter (expired now) rest)
  expire_loop_lem fuel seen [] gone h = rw (round_end fuel seen gone, append_nil_eq gone)
  expire_loop_lem zero seen (e ∷ rest) gone h = absurd (omega arith)
  expire_loop_lem (suc fuel) seen (e ∷ rest) gone h = elim (Bool-cases (expired now e)) [
    | inl over ↦
        rw (round_removed fuel seen e rest gone over, over)
          (expire_loop_lem fuel seen rest (gone ++ (e ∷ [])) (omega arith)
            ∙ ap (λ g. (seen ++ filter waits rest, g)) (append_regroup gone (e ∷ []) _))
    | inr alive ↦
        let next = expire_loop_lem fuel (seen ++ (e ∷ [])) rest gone (omega arith) in
        let index : length (seen ++ (e ∷ [])) ≡ length seen + 1 =
          omega (arith, length-append seen (e ∷ [])) in
        rw (round_kept fuel seen e rest gone alive, alive)
          (rw
            (
              index,
              append_regroup seen (e ∷ []) rest,
              append_regroup seen (e ∷ []) (filter waits rest),
            )
            at next)
  ]

  -- `expire` splits the queue: it hands back every entry whose deadline has passed, in order, and
  -- keeps all others, in order.
  pub expire_lem :
      (q : Queue T)
      → expire q now
        ≡ (record q { entries = filter waits q.entries }, filter (expired now) q.entries)
  unfolding expire
  expire_lem q =
      ap (λ (s : List (Queued T) × List (Queued T)). (record q { entries = s.0 }, s.1))
        (expire_loop_lem (length q.entries) [] q.entries [] (omega arith))

  Rising-filter :
      (p : Queued T → Bool) (low high : ℕ) (es : List (Queued T))
      → Rising low high es
      → Rising low high (filter p es)
  Rising-filter p low high [] r = r
  Rising-filter p low high (e ∷ es) r =
      let ih = Rising-filter p (suc e.sequence) high es r.1 in
      elim (Bool-cases (p e)) [
        | inl kept ↦ rw kept (r.0, ih)
        | inr dropped ↦
            rw dropped (Rising-weaken low (suc e.sequence) high (filter p es) (omega arith) ih)
      ]

  length-filter-le : (p : Queued T → Bool) (es : List (Queued T)) → length (filter p es) ≤ length es
  length-filter-le p [] = omega arith
  length-filter-le p (e ∷ es) = ground (arith, length-filter-le p es)

  pub expire-IsValid : (q : Queue T) → IsValid q → IsValid (expire q now).0
  expire-IsValid q v = rw (expire_lem q) (record {
    ordered = Rising-filter waits 0 q.next_sequence q.entries v.ordered;
    bounded =
        Fits-fewer q.max_size (length q.entries) (length (filter waits q.entries))
          (length-filter-le waits q.entries) v.bounded;
  })
