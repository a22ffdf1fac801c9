-- ===== src/Base/Vectors.antt =====
-- A `Vec` read and written at an index. A read out of range gives the default; a write out of range
-- changes nothing. The code that is modelled with these stays in range.
use Prim.Native.Nat.{ℕ, zero, suc, ◌+◌}
use mathlib.Core.Path.{◌≡◌, refl, ap}
use mathlib.Core.Bool.{Bool, ◌&&◌}
use mathlib.Core.List.{List, [], ◌∷◌, map}
use native.Mathlib.Omega.{arith}
use aether_mesh.Base.Tests.{ltb, ◌==◌, if◌then◌else◌}
use aether_mesh.Base.Lists.{length}
use aether_mesh.Base.Count.{count}

module _ {ℓ} {A : Type ℓ} where
  abbrev pub get_or : List A → ℕ → A → A
  get_or [] i d = d
  get_or (x ∷ xs) zero d = x
  get_or (x ∷ xs) (suc i) d = get_or xs i d

  abbrev pub update_at : ℕ → (A → A) → List A → List A
  update_at i f [] = []
  update_at zero f (x ∷ xs) = f x ∷ xs
  update_at (suc i) f (x ∷ xs) = x ∷ update_at i f xs

  abbrev pub replicate : ℕ → A → List A
  replicate zero a = []
  replicate (suc n) a = a ∷ replicate n a

  -- `Vec::insert`, for a position up to the length.
  abbrev pub insert_at : ℕ → A → List A → List A
  insert_at zero a xs = a ∷ xs
  insert_at (suc i) a [] = a ∷ []
  insert_at (suc i) a (x ∷ xs) = x ∷ insert_at i a xs

  -- `partition_point`: on a list where `p` holds of a prefix alone, its length.
  abbrev pub partition_point : (A → Bool) → List A → ℕ
  partition_point p [] = 0
  partition_point p (x ∷ xs) = if p x then suc (partition_point p xs) else 0

  pub length-update_at : (i : ℕ) (f : A → A) (xs : List A) → length (update_at i f xs) ≡ length xs
  length-update_at i f [] = refl
  length-update_at zero f (x ∷ xs) = refl
  length-update_at (suc i) f (x ∷ xs) = ap suc (length-update_at i f xs)

  pub get_or-update_at :
      (i : ℕ) (f : A → A) (xs : List A) (j : ℕ) (d : A)
      → get_or (update_at i f xs) j d
        ≡ (if i == j && ltb j (length xs) then f (get_or xs j d) else get_or xs j d)
  get_or-update_at i f [] j d = ground arith
  get_or-update_at zero f (x ∷ xs) zero d = ground arith
  get_or-update_at zero f (x ∷ xs) (suc j) d = ground arith
  get_or-update_at (suc i) f (x ∷ xs) zero d = ground arith
  get_or-update_at (suc i) f (x ∷ xs) (suc j) d = ground (arith, get_or-update_at i f xs j d)

  pub get_or-replicate : (n : ℕ) (a : A) (i : ℕ) → get_or (replicate n a) i a ≡ a
  get_or-replicate zero a i = refl
  get_or-replicate (suc n) a zero = refl
  get_or-replicate (suc n) a (suc i) = get_or-replicate n a i

  pub length-replicate : (n : ℕ) (a : A) → length (replicate n a) ≡ n
  length-replicate zero a = refl
  length-replicate (suc n) a = ap suc (length-replicate n a)

pub get_or-map {ℓ κ} :
    {A : Type ℓ} {B : Type κ} (f : A → B) (xs : List A) (i : ℕ) (d : A)
    → get_or (map f xs) i (f d) ≡ f (get_or xs i d)
get_or-map f [] i d = refl
get_or-map f (x ∷ xs) zero d = refl
get_or-map f (x ∷ xs) (suc i) d = get_or-map f xs i d

pub length-map {ℓ κ} :
    {A : Type ℓ} {B : Type κ} (f : A → B) (xs : List A) → length (map f xs) ≡ length xs
length-map f [] = refl
length-map f (x ∷ xs) = ap suc (length-map f xs)

pub count-insert_at :
    (k a i : ℕ) (xs : List ℕ) → count i (insert_at k a xs) ≡ (if a == i then 1 else 0) + count i xs
count-insert_at zero a i xs = refl
count-insert_at (suc k) a i [] = refl
count-insert_at (suc k) a i (x ∷ xs) = ground (arith, count-insert_at k a i xs)
