-- ===== src/Autoscale/Cooldown.antt =====
-- Two changes are never recommended within the cooldown.
use aether_mesh.Base.{
  ℕ, ◌≤◌, ◌-◌, ◌≡◌, refl, inl, inr, true, false, Bool-cases, Option, none, some, List, [], ◌∷◌,
  arith,
}
use aether_mesh.Node.{Float}
use aether_mesh.Autoscale.{
  cooling, Real, Signals, Autoscaler, Decision, scale_up, scale_down, no_change, target_nodes,
  evaluate, cooling_down, is_recent, cooldown, decided, decide,
}

module _ (float : Float) (real : Real float) where
  -- The readings of the timer, and the times at which a change was recommended: a panic ends them.
  abbrev pub Reading : Type 0
  Reading = Signals float × ℕ

  abbrev pub note : ℕ → Option ℕ → List ℕ → List ℕ
  note now none times = times
  note now (some to) times = now ∷ times

  abbrev pub noted :
      ℕ → (Autoscaler float real → List ℕ) → Option (Autoscaler float real × Decision) → List ℕ
  noted now later none = []
  noted now later (some (scaler, decision)) = note now (target_nodes decision) (later scaler)

  unfoldable pub changes : Autoscaler float real → List Reading → List ℕ
  changes scaler [] = []
  changes scaler ((signals, now) ∷ rest) =
      noted now (λ next. changes next rest) (decide float real scaler signals now)

  abbrev pub Gap : ℕ → Option ℕ → ℕ → Type 0
  Gap pause none now = Unit
  Gap pause (some last) now = pause ≤ now - last

  -- Each change comes at least a pause after the one before.
  abbrev pub Apart : ℕ → Option ℕ → List ℕ → Type 0
  Apart pause last [] = Unit
  Apart pause last (now ∷ times) = Gap pause last now × Apart pause (some now) times

  Gap-of_recent :
      (pause now : ℕ) (last : Option ℕ)
      → is_recent float real now pause last ≡ false
      → Gap pause last now
  Gap-of_recent pause now none h = tt
  Gap-of_recent pause now (some last) h = ground arith

  Gap-of_rest :
      (scaler : Autoscaler float real) (now : ℕ)
      → cooling_down float real scaler now ≡ false
      → Gap (cooldown float real scaler.policy) scaler.last_change now
  unfolding cooling_down
  Gap-of_rest scaler now h =
      Gap-of_recent (cooldown float real scaler.policy) now scaler.last_change h

  evaluate-cooling :
      (scaler : Autoscaler float real) (signals : Signals float) (now : ℕ)
      → cooling_down float real scaler now ≡ true
      → evaluate float real scaler signals now ≡ some (no_change cooling)
  unfolding evaluate
  evaluate-cooling scaler signals now h = rw h refl

  -- What a decision notes, given what the readings after it do.
  noted-Apart :
      (scaler : Autoscaler float real) (now : ℕ) (answer : Option Decision)
      (later : Autoscaler float real → List ℕ)
      → ((last : Option ℕ)
          → Apart
              (cooldown float real scaler.policy)
              last
              (later (record scaler { last_change = last })))
      → Gap (cooldown float real scaler.policy) scaler.last_change now
      → Apart
          (cooldown float real scaler.policy)
          scaler.last_change
          (noted now later (decided float real now scaler answer))
  unfolding target_nodes
  noted-Apart scaler now none later ih gap = tt
  noted-Apart scaler now (some (scale_up to why)) later ih gap = (gap, ih (some now))
  noted-Apart scaler now (some (scale_down to why)) later ih gap = (gap, ih (some now))
  noted-Apart scaler now (some (no_change why)) later ih gap = ih scaler.last_change

  -- Whatever the readings are, the times at which changes are recommended lie a cooldown apart at
  -- least, the first of them from the last change before.
  pub changes-Apart :
      (scaler : Autoscaler float real) (readings : List Reading)
      → Apart (cooldown float real scaler.policy) scaler.last_change (changes scaler readings)
  unfolding changes decide target_nodes
  changes-Apart scaler [] = tt
  changes-Apart scaler ((signals, now) ∷ rest) =
      let later = λ (next : Autoscaler float real). changes next rest in
      elim (Bool-cases (cooling_down float real scaler now)) [
        | inl settling ↦
            rw (evaluate-cooling scaler signals now settling) (changes-Apart scaler rest)
        | inr free ↦
            noted-Apart scaler now (evaluate float real scaler signals now) later
              (λ last. changes-Apart (record scaler { last_change = last }) rest)
              (Gap-of_rest scaler now free)
      ]
