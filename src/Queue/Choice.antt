-- ===== src/Queue/Choice.antt =====
-- Which entry `pop` takes.
use aether_mesh.Base.{
  subst, All-append, ℕ, ◌≤◌, ◌<◌, ◌≡◌, refl, ◌⊎◌, inl, inr, true, false, List, [], ◌∷◌, ◌++◌, none,
  some, All, All-append_left, All-append_right, best, Removes, remove_at-Removes, best_bound,
  best-get_elem?, best-some, best-nil, arith,
}
use aether_mesh.Queue.{Queue, Queued, Platform, urgency, runs_before, pop}
use aether_mesh.Queue.Order.{Rising, Rising-split}

module _ {ℓ} {T : Type ℓ} (platform : Platform) (now aging : ℕ) where
  -- `e` is served no later than `d`: it is more urgent, or as urgent and not a later arrival.
  abbrev pub Precedes : Queued T → Queued T → Type 0
  Precedes e d =
      (urgency platform now aging d < urgency platform now aging e)
      ⊎ ((urgency platform now aging d ≡ urgency platform now aging e) × (e.sequence ≤ d.sequence))

  Precedes-refl : (e : Queued T) → Precedes e e
  Precedes-refl e = inr (refl, omega arith)

  Precedes-trans : (a b c : Queued T) → Precedes a b → Precedes b c → Precedes a c
  Precedes-trans a b c h k = ground arith

  Precedes-of_wins : (x a : Queued T) → runs_before platform now aging x a ≡ true → Precedes x a
  unfolding runs_before
  Precedes-of_wins x a h = ground arith

  Precedes-of_keeps : (x a : Queued T) → runs_before platform now aging x a ≡ false → Precedes a x
  unfolding runs_before
  Precedes-of_keeps x a h = ground arith

  pub best-Precedes :
      (es : List (Queued T)) (i : ℕ) (e : Queued T)
      → best (runs_before platform now aging) es ≡ some (i, e)
      → All (Precedes e) es
  best-Precedes =
      best_bound (runs_before platform now aging) Precedes Precedes-refl Precedes-trans
        Precedes-of_wins Precedes-of_keeps

module _ {ℓ} {T : Type ℓ} (platform : Platform) where
  -- What a successful `pop` did.
  pub record Pops (q : Queue T) (now : ℕ) (e : Queued T) (q' : Queue T) : Type ℓ where
    pub taken : Removes q.entries e q'.entries
    pub others : q' ≡ record q { entries = q'.entries }
    pub first : All (Precedes platform now q.aging e) q.entries

  -- `pop` answers nothing on the empty queue; on any other it takes an entry
  -- that runs before all others out of its place, and changes nothing else of the queue.
  pub pop_cases :
      (q : Queue T) (now : ℕ)
      → ((q.entries ≡ []) × (pop platform q now ≡ none))
        ⊎ ((e : Queued T) × (q' : Queue T) × (pop platform q now ≡ some (e, q')) × Pops q now e q')
  unfolding pop
  pop_cases q now = go q.entries refl
    where
      go :
          (es : List (Queued T))
          → q.entries ≡ es
          → ((q.entries ≡ []) × (pop platform q now ≡ none))
            ⊎ ((e : Queued T) × (q' : Queue T) × (pop platform q now ≡ some (e, q'))
                × Pops q now e q')
      go [] h = inl (h, ground (arith, best-nil (runs_before {T = T} platform now q.aging)))
      go (x ∷ xs) h =
          let (i, e, found) = best-some (runs_before platform now q.aging) x xs in
          let found' : best (runs_before platform now q.aging) q.entries ≡ some (i, e) =
            rw h found in
          let (rest, removed, r) =
            remove_at-Removes i q.entries e (best-get_elem? _ q.entries i e found') in
          inr (
            e,
            record q { entries = rest },
            ground arith,
            record {
              taken = r;
              others = refl;
              first = best-Precedes platform now q.aging q.entries i e found';
            },
          )

  -- With numbered entries the order is strict: every entry that stays is less urgent than the one
  -- that `pop` takes, or as urgent and a later arrival.
  abbrev pub Follows : (now aging : ℕ) → Queued T → Queued T → Type 0
  Follows now aging e d =
      (urgency platform now aging d < urgency platform now aging e)
      ⊎ ((urgency platform now aging d ≡ urgency platform now aging e) × (e.sequence < d.sequence))

  follow_after :
      (now aging : ℕ) (e : Queued T) (ds : List (Queued T))
      → All (Precedes platform now aging e) ds
      → All (λ d. e.sequence < d.sequence) ds
      → All (Follows now aging e) ds
  follow_after now aging e [] h k = tt
  follow_after now aging e (d ∷ ds) h k = (ground arith, follow_after now aging e ds h.1 k.1)

  follow_before :
      (now aging : ℕ) (e : Queued T) (ds : List (Queued T))
      → All (Precedes platform now aging e) ds
      → All (λ d. d.sequence < e.sequence) ds
      → All (Follows now aging e) ds
  follow_before now aging e [] h k = tt
  follow_before now aging e (d ∷ ds) h k = (ground arith, follow_before now aging e ds h.1 k.1)

  pub Pops-Follows :
      (q : Queue T) (now : ℕ) (e : Queued T) (q' : Queue T) (low : ℕ)
      → Rising low q.next_sequence q.entries
      → Pops q now e q'
      → All (Follows now q.aging e) q'.entries
  Pops-Follows q now e q' low rising p =
      let split : All (λ d. d.sequence < e.sequence) p.taken.before
          × All (λ d. e.sequence < d.sequence) p.taken.after =
        Rising-split low q.next_sequence p.taken.before e p.taken.after
          (subst (Rising low q.next_sequence) p.taken.whole rising) in
      let first : All (Precedes platform now q.aging e) (p.taken.before ++ (e ∷ p.taken.after)) =
        subst (All (Precedes platform now q.aging e)) p.taken.whole p.first in
      let front = All-append_left (Precedes platform now q.aging e) p.taken.before _ first in
      let back = All-append_right (Precedes platform now q.aging e) p.taken.before _ first in
      rw p.taken.without (
        All-append (Follows now q.aging e) p.taken.before p.taken.after
          (follow_before now q.aging e p.taken.before front split.0)
          (follow_after now q.aging e p.taken.after back.1 split.1))

  pub pop-Pops :
      (q : Queue T) (now : ℕ) (e : Queued T) (q' : Queue T)
      → pop platform q now ≡ some (e, q')
      → Pops q now e q'
  pop-Pops q now e q' h = elim (pop_cases q now) [
    | inl (empty, nothing) ↦ absurd (cc)
    | inr (d, r, found, p) ↦
        let same : ◌≡◌ {A = Queued T × Queue T} (d, r) (e, q') = cc in
        subst (λ (s : Queued T × Queue T). Pops q now s.0 s.1) same p
  ]
