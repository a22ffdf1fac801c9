-- ===== src/Queue/Order.antt =====
-- The order of the entries: sequence numbers rise along the list and stay below the counter.
use aether_mesh.Base.{ℕ, suc, ◌≤◌, ◌<◌, List, [], ◌∷◌, ◌++◌, All, arith}
use aether_mesh.Queue.{Queued}

module _ {ℓ} {T : Type ℓ} where
  abbrev pub Rising : ℕ → ℕ → List (Queued T) → Type 0
  Rising low high [] = low ≤ high
  Rising low high (e ∷ es) = (low ≤ e.sequence) × Rising (suc e.sequence) high es

  pub Rising-le : (low high : ℕ) (es : List (Queued T)) → Rising low high es → low ≤ high
  Rising-le low high [] r = r
  Rising-le low high (e ∷ es) r = omega (arith, Rising-le (suc e.sequence) high es r.1)

  pub Rising-weaken :
      (low low' high : ℕ) (es : List (Queued T))
      → low ≤ low'
      → Rising low' high es
      → Rising low high es
  Rising-weaken low low' high [] h r = omega arith
  Rising-weaken low low' high (e ∷ es) h r = (omega arith, r.1)

  -- An entry numbered by the counter goes to the end.
  pub Rising-snoc :
      (low high high' : ℕ) (es : List (Queued T)) (e : Queued T)
      → Rising low high es
      → high ≤ e.sequence
      → e.sequence < high'
      → Rising low high' (es ++ (e ∷ []))
  Rising-snoc low high high' [] e r h h' = (omega arith, omega arith)
  Rising-snoc low high high' (d ∷ es) e r h h' =
      (r.0, Rising-snoc (suc d.sequence) high high' es e r.1 h h')

  pub Rising-remove :
      (low high : ℕ) (before : List (Queued T)) (e : Queued T) (after : List (Queued T))
      → Rising low high (before ++ (e ∷ after))
      → Rising low high (before ++ after)
  Rising-remove low high [] e after r =
      Rising-weaken low (suc e.sequence) high after (omega arith) r.1
  Rising-remove low high (d ∷ before) e after r =
      (r.0, Rising-remove (suc d.sequence) high before e after r.1)

  pub Rising-above :
      (low high : ℕ) (es : List (Queued T))
      → Rising low high es
      → All (λ e. (low ≤ e.sequence) × (e.sequence < high)) es
  Rising-above low high [] r = tt
  Rising-above low high (e ∷ es) r = (
    (r.0, Rising-le (suc e.sequence) high es r.1),
    weaken es (Rising-above (suc e.sequence) high es r.1),
  )
    where
      weaken :
          (xs : List (Queued T))
          → All (λ d. (suc e.sequence ≤ d.sequence) × (d.sequence < high)) xs
          → All (λ d. (low ≤ d.sequence) × (d.sequence < high)) xs
      weaken [] h = tt
      weaken (x ∷ xs) h = ((omega arith, omega arith), weaken xs h.1)

  -- All that stand behind an entry came later, and all before it came earlier.
  pub Rising-split :
      (low high : ℕ) (before : List (Queued T)) (e : Queued T) (after : List (Queued T))
      → Rising low high (before ++ (e ∷ after))
      → All (λ d. d.sequence < e.sequence) before × All (λ d. e.sequence < d.sequence) after
  Rising-split low high [] e after r = (tt, later after (Rising-above _ high after r.1))
    where
      later :
          (xs : List (Queued T))
          → All (λ d. (suc e.sequence ≤ d.sequence) × (d.sequence < high)) xs
          → All (λ d. e.sequence < d.sequence) xs
      later [] h = tt
      later (x ∷ xs) h = (h.0.0, later xs h.1)
  Rising-split low high (d ∷ before) e after r =
      let (earlier, later) = Rising-split (suc d.sequence) high before e after r.1 in
      ((bound before r.1, earlier), later)
    where
      bound :
          (xs : List (Queued T))
          → Rising (suc d.sequence) high (xs ++ (e ∷ after))
          → d.sequence < e.sequence
      bound [] h = h.0
      bound (x ∷ xs) h = bound xs (
          Rising-weaken (suc d.sequence) (suc x.sequence) high (xs ++ (e ∷ after)) (omega arith)
            h.1)
