-- ===== src/Checkpoint/Completed.antt =====
-- What a resumed run takes from the journal.
use aether_mesh.Base.{
  ℕ, ◌==◌, ◌≡◌, ◌≢◌, refl, ap, sym, subst, ◌∙◌, inl, inr, ◌⊎◌, true, false, ◌&&◌, if◌then◌else◌,
  Bool-cases, List, [], ◌∷◌, Option, some, All, In, arith,
}
use aether_mesh.Base.Assoc.{lookup, insert, nat_eq, lookup-insert}
use aether_mesh.Base.Result.{Result, ok, err}
use aether_mesh.Text.{Text, text_eq, text_eq_iff}
use aether_mesh.Checkpoint.{Record, CheckpointError, fingerprint_error, completed_from, completed}

-- The last record of a step in a run, or `found` where there is none.
abbrev pub latest : Text → ℕ → Option Record → List Record → Option Record
latest run s found [] = found
latest run s found (r ∷ rs) =
    latest run s (if text_eq r.run run && r.step == s then some r else found) rs

abbrev pub Agrees : Text → Text → Record → Type 0
Agrees run fingerprint r = r.run ≡ run → r.fingerprint ≡ fingerprint

abbrev pub Outcome :
    Text
    → Text
    → List (ℕ × Record)
    → List Record
    → Result CheckpointError (List (ℕ × Record))
    → Type 0
Outcome run fingerprint start records result =
    ((done : List (ℕ × Record)) × (result ≡ ok done)
      × ((s : ℕ) → lookup s done ≡ latest run s (lookup s start) records)
      × All (Agrees run fingerprint) records)
    ⊎ ((r : Record) × In r records
        × (r.run ≡ run)
        × (r.fingerprint ≢ fingerprint)
        × (result ≡ err (fingerprint_error run r.fingerprint fingerprint)))

module _ (run fingerprint : Text) where
  Outcome-later :
      (start start' : List (ℕ × Record)) (r : Record) (rs : List Record)
      (result : Result CheckpointError (List (ℕ × Record)))
      → Agrees run fingerprint r
      → ((s : ℕ)
          → lookup s start' ≡ (if text_eq r.run run && r.step == s then some r else lookup s start))
      → Outcome run fingerprint start' rs result
      → Outcome run fingerprint start (r ∷ rs) result
  Outcome-later start start' r rs result agrees same (inl (done, e, found, all)) = inl (
    done,
    e,
    λ s. found s ∙ ap (λ (o : Option Record). latest run s o rs) (same s),
    (agrees, all),
  )
  Outcome-later start start' r rs result agrees same (inr (bad, here, mine, other, e)) =
      inr (bad, inr here, mine, other, e)

  module _ (start : List (ℕ × Record)) (r : Record) (rs : List Record) where
    takes :
        text_eq r.run run ≡ true
        → text_eq r.fingerprint fingerprint ≡ true
        → completed_from run fingerprint start (r ∷ rs)
          ≡ completed_from run fingerprint (insert r.step r start) rs
    unfolding completed_from
    takes mine same = ground arith

    refuses :
        text_eq r.run run ≡ true
        → text_eq r.fingerprint fingerprint ≡ false
        → completed_from run fingerprint start (r ∷ rs)
          ≡ err (fingerprint_error run r.fingerprint fingerprint)
    unfolding completed_from
    refuses mine other = ground arith

    passes_over :
        text_eq r.run run ≡ false
        → completed_from run fingerprint start (r ∷ rs) ≡ completed_from run fingerprint start rs
    unfolding completed_from
    passes_over foreign = ground arith

  completed_from-Outcome :
      (start : List (ℕ × Record)) (records : List Record)
      → Outcome run fingerprint start records (completed_from run fingerprint start records)
  completed_from-Outcome start [] = inl (start, unfold completed_from in refl, λ s. refl, tt)
  completed_from-Outcome start (r ∷ rs) =
      let after_insert = completed_from-Outcome (insert r.step r start) rs in
      let after_skip = completed_from-Outcome start rs in
      elim (Bool-cases (text_eq r.run run)) [
        | inl mine ↦ elim (Bool-cases (text_eq r.fingerprint fingerprint)) [
          | inl same ↦
              let agrees : Agrees run fingerprint r =
                λ _. (text_eq_iff r.fingerprint fingerprint).0 same in
              subst (Outcome run fingerprint start (r ∷ rs)) (sym (takes start r rs mine same)) (
                Outcome-later start (insert r.step r start) r rs _ agrees
                  (λ s. rw (lookup-insert r.step s r start, mine)) after_insert)
          | inr other ↦ inr (
            r,
            inl refl,
            (text_eq_iff r.run run).0 mine,
            λ e. let t = (text_eq_iff r.fingerprint fingerprint).1 e in cc,
            refuses start r rs mine other,
          )
        ]
        | inr foreign ↦
            let agrees : Agrees run fingerprint r =
              λ e. let t = (text_eq_iff r.run run).1 e in absurd (cc) in
            subst (Outcome run fingerprint start (r ∷ rs)) (sym (passes_over start r rs foreign))
              (Outcome-later start start r rs _ agrees (λ s. rw foreign) after_skip)
      ]

  -- `completed` either returns for each step the last record of the run with that step, all
  -- records of the run being of the submitted workflow, or the error that names a record of the
  -- run with another fingerprint.
  pub completed-Outcome :
      (records : List Record)
      → Outcome run fingerprint [] records (completed run fingerprint records)
  unfolding completed
  completed-Outcome records = completed_from-Outcome [] records
