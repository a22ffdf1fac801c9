-- ===== src/Base/Sort.antt =====
-- `sort_unstable_by_key` and `dedup` of `Vec`, on numeric keys.
use Prim.Native.Nat.{ℕ}
use mathlib.Core.List.{List, [], ◌∷◌}
use aether_mesh.Base.Tests.{◌==◌, leb, if◌then◌else◌}

-- `sort_unstable_by_key`.
abbrev pub insert_by {ℓ} : {A : Type ℓ} → (A → ℕ) → A → List A → List A
insert_by key x [] = x ∷ []
insert_by key x (y ∷ ys) = if leb (key x) (key y) then x ∷ y ∷ ys else y ∷ insert_by key x ys

abbrev pub sort_by {ℓ} : {A : Type ℓ} → (A → ℕ) → List A → List A
sort_by key [] = []
sort_by key (x ∷ xs) = insert_by key x (sort_by key xs)

abbrev pub sort : List ℕ → List ℕ
sort xs = sort_by (λ x. x) xs

-- `dedup`: of equal neighbours the first.
abbrev pub keep_new : ℕ → List ℕ → List ℕ
keep_new x [] = x ∷ []
keep_new x (y ∷ ys) = if x == y then y ∷ ys else x ∷ y ∷ ys

abbrev pub dedup : List ℕ → List ℕ
dedup [] = []
dedup (x ∷ xs) = keep_new x (dedup xs)
