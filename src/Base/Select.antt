-- ===== src/Base/Select.antt =====
-- `Iterator::enumerate` with `min_by_key` or `max_by_key`, and `Vec::remove`.
use Prim.Native.Nat.{ℕ, zero, suc, ◌+◌}
use mathlib.Core.Path.{◌≡◌, refl, ap, subst}
use mathlib.Core.Bool.{Bool, true, false}
use mathlib.Core.Logic.{inl, inr}
use mathlib.Core.List.{List, [], ◌∷◌, ◌++◌}
use mathlib.Core.Option.{Option, none, some}
use native.Mathlib.Omega.{arith}
use aether_mesh.Base.Tests.{if◌then◌else◌, Bool-cases}
use aether_mesh.Base.Lists.{length, All, get_elem?}

module _ {ℓ} {A : Type ℓ} where
  -- The fold behind both: `better x a` says whether the later `x` takes the place of `a`.
  pub best_from : (A → A → Bool) → ℕ × A → ℕ → List A → ℕ × A
  best_from better best j [] = best
  best_from better best j (x ∷ xs) =
      best_from better (if better x best.1 then (j, x) else best) (suc j) xs

  unfoldable pub best : (A → A → Bool) → List A → Option (ℕ × A)
  unfolding best_from
  best better [] = none
  best better (x ∷ xs) = some (best_from better (0, x) 1 xs)

  -- `none` is the panic of `Vec::remove` out of range.
  unfoldable pub remove_at : ℕ → List A → Option (A × List A)
  remove_at i [] = none
  remove_at zero (x ∷ xs) = some (x, xs)
  remove_at (suc i) (x ∷ xs) = elim (remove_at i xs) [
    | none ↦ none
    | some (a, rest) ↦ some (a, x ∷ rest)
  ]

  -- `xs` with `a` taken out of its place is `rest`.
  pub record Removes (xs : List A) (a : A) (rest : List A) : Type ℓ where
    pub before : List A
    pub after : List A
    pub whole : xs ≡ before ++ a ∷ after
    pub without : rest ≡ before ++ after

  pub remove_at-Removes :
      (i : ℕ) (xs : List A) (a : A)
      → get_elem? xs i ≡ some a
      → (rest : List A) × (remove_at i xs ≡ some (a, rest)) × Removes xs a rest
  unfolding remove_at
  remove_at-Removes i [] a h = absurd (ground arith)
  remove_at-Removes zero (x ∷ xs) a h =
      (xs, ground arith, record { before = []; after = xs; whole = ground arith; without = refl })
  remove_at-Removes (suc i) (x ∷ xs) a h =
      let (rest, e, r) = remove_at-Removes i xs a h in
      (
        x ∷ rest,
        rw e refl,
        record {
          before = x ∷ r.before;
          after = r.after;
          whole = ap (◌∷◌ x) r.whole;
          without = ap (◌∷◌ x) r.without;
        },
      )

-- `R a x` reads: `a` is at least as good as `x`.
module _ {ℓ κ} {A : Type ℓ} (better : A → A → Bool) (R : A → A → Type κ) (self : (a : A) → R a a)
    (trans : (a b c : A) → R a b → R b c → R a c) (wins : (x a : A) → better x a ≡ true → R x a)
    (keeps : (x a : A) → better x a ≡ false → R a x) where
  best_from_bound :
      (i : ℕ) (a : A) (j : ℕ) (xs : List A)
      → R (best_from better (i, a) j xs).1 a × All (R (best_from better (i, a) j xs).1) xs
  unfolding best_from
  best_from_bound i a j [] = (self a, tt)
  best_from_bound i a j (x ∷ xs) =
      (elim (better x a)
          as (λ b.
            better x a ≡ b
            → let r = (best_from better (if b then (j, x) else (i, a)) (suc j) xs).1 in
              R r a × (R r x × All (R r) xs)) [
                | true ↦ λ e.
                    let (h, t) = best_from_bound j x (suc j) xs in
                    (trans _ x a h (wins x a e), (h, t))
                | false ↦ λ e.
                    let (h, t) = best_from_bound i a (suc j) xs in
                    (h, (trans _ a x h (keeps x a e), t))
              ])
        refl

  pub best_bound : (xs : List A) (i : ℕ) (a : A) → best better xs ≡ some (i, a) → All (R a) xs
  unfolding best
  best_bound [] i a h = absurd (ground arith)
  best_bound (x ∷ xs) i a h =
      let found : best_from better (0, x) 1 xs ≡ (i, a) = ground arith in
      subst (λ (p : ℕ × A). All (R p.1) (x ∷ xs)) found (best_from_bound 0 x 1 xs)

module _ {ℓ} {A : Type ℓ} (better : A → A → Bool) where
  -- The chosen index holds the chosen element.
  best_from-get_elem? :
      (i : ℕ) (a : A) (j : ℕ) (xs all : List A)
      → get_elem? all i ≡ some a
      → ((k : ℕ) → get_elem? all (j + k) ≡ get_elem? xs k)
      → get_elem? all (best_from better (i, a) j xs).0 ≡ some (best_from better (i, a) j xs).1
  unfolding best_from
  best_from-get_elem? i a j [] all h t = h
  best_from-get_elem? i a j (x ∷ xs) all h t =
      let tail : ((k : ℕ) → get_elem? all (suc j + k) ≡ get_elem? xs k) =
        λ k. let e : suc j + k ≡ j + suc k = omega arith in rw e (t (suc k)) in
      let here : get_elem? all j ≡ some x = let e : j ≡ j + 0 = omega arith in rw e (t 0) in
      elim (Bool-cases (better x a)) [
        | inl e ↦ rw (e, best_from) (best_from-get_elem? j x (suc j) xs all here tail)
        | inr e ↦ rw (e, best_from) (best_from-get_elem? i a (suc j) xs all h tail)
      ]

  pub best-get_elem? :
      (xs : List A) (i : ℕ) (a : A) → best better xs ≡ some (i, a) → get_elem? xs i ≡ some a
  unfolding best
  best-get_elem? [] i a h = absurd (ground arith)
  best-get_elem? (x ∷ xs) i a h =
      let found : best_from better (0, x) 1 xs ≡ (i, a) = ground arith in
      let got =
        best_from-get_elem? 0 x 1 xs (x ∷ xs) refl
          (λ k. let e : 1 + k ≡ suc k = omega arith in rw e) in
      rw (← ap (λ (p : ℕ × A). p.0) found, ← ap (λ (p : ℕ × A). p.1) found) got

  pub best-some : (x : A) (xs : List A) → (i : ℕ) × (a : A) × (best better (x ∷ xs) ≡ some (i, a))
  unfolding best
  best-some x xs = ((best_from better (0, x) 1 xs).0, (best_from better (0, x) 1 xs).1, refl)

  pub best-nil : best better [] ≡ none
  unfolding best
  best-nil = refl

module _ {ℓ} {A : Type ℓ} where
  pub get_elem?-append_mid :
      (before : List A) (a : A) (after : List A)
      → get_elem? (before ++ (a ∷ after)) (length before) ≡ some a
  get_elem?-append_mid [] a after = refl
  get_elem?-append_mid (x ∷ before) a after = get_elem?-append_mid before a after

  pub get_elem?-length : (xs : List A) → get_elem? (xs ++ []) (length xs) ≡ none
  get_elem?-length [] = refl
  get_elem?-length (x ∷ xs) = get_elem?-length xs

  pub remove_at-append_mid :
      (before : List A) (a : A) (after : List A)
      → remove_at (length before) (before ++ (a ∷ after)) ≡ some (a, before ++ after)
  unfolding remove_at
  remove_at-append_mid [] a after = refl
  remove_at-append_mid (x ∷ before) a after = rw (remove_at-append_mid before a after)
