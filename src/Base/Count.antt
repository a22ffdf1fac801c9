-- ===== src/Base/Count.antt =====
-- Lists of numbers: how often a number stands in one, ranges, and tables indexed by numbers.
use Prim.Native.Nat.{ℕ, zero, suc, ◌+◌, ◌≤◌, ◌<◌}
use mathlib.Core.Path.{◌≡◌, refl, ap, ◌∙◌}
use mathlib.Core.Logic.{inl, inr}
use mathlib.Core.Bool.{Bool, ◌&&◌, ◌||◌}
use mathlib.Core.List.{List, [], ◌∷◌, ◌++◌}
use native.Mathlib.Omega.{arith}
use aether_mesh.Base.Tests.{ltb, leb, ◌==◌, if◌then◌else◌, Bool-cases}
use aether_mesh.Base.Lists.{length, filter, contains}

abbrev pub count : ℕ → List ℕ → ℕ
count i [] = 0
count i (x ∷ xs) = (if x == i then 1 else 0) + count i xs

pub count-append : (i : ℕ) (xs ys : List ℕ) → count i (xs ++ ys) ≡ count i xs + count i ys
count-append i [] ys = omega arith
count-append i (x ∷ xs) ys = omega (arith, count-append i xs ys)

pub contains-count : (xs : List ℕ) (i : ℕ) → contains xs i ≡ ltb 0 (count i xs)
contains-count [] i = refl
contains-count (x ∷ xs) i = ground (arith, contains-count xs i)

pub contains-append :
    (xs ys : List ℕ) (i : ℕ) → contains (xs ++ ys) i ≡ (contains xs i || contains ys i)
contains-append [] ys i = refl
contains-append (x ∷ xs) ys i = ground (arith, contains-append xs ys i)

-- The numbers from `start` on, `len` of them.
abbrev pub range_from : ℕ → ℕ → List ℕ
range_from start zero = []
range_from start (suc len) = start ∷ range_from (suc start) len

abbrev pub range : ℕ → List ℕ
range n = range_from 0 n

count-range_from :
    (p : ℕ → Bool) (start len i : ℕ)
    → count i (filter p (range_from start len))
      ≡ (if leb start i && ltb i (start + len) && p i then 1 else 0)
count-range_from p start zero i = ground arith
count-range_from p start (suc len) i = elim (Bool-cases (start == i)) [
  | inl same ↦
      let e : start ≡ i = ground arith in
      ground (arith, count-range_from p (suc start) len i, ap p e)
  | inr other ↦ ground (arith, count-range_from p (suc start) len i)
]

pub count-range :
    (p : ℕ → Bool) (n i : ℕ) → count i (filter p (range n)) ≡ (if ltb i n && p i then 1 else 0)
count-range p n i = ground (arith, count-range_from p 0 n i)

-- How many elements of `xs` lie below `n`.
abbrev total : ℕ → List ℕ → ℕ
total zero xs = 0
total (suc n) xs = count n xs + total n xs

total-nil : (n : ℕ) → total n [] ≡ 0
total-nil zero = refl
total-nil (suc n) = omega (arith, total-nil n)

total-cons : (n x : ℕ) (xs : List ℕ) → total n (x ∷ xs) ≡ (if ltb x n then 1 else 0) + total n xs
total-cons zero x xs = ground arith
total-cons (suc n) x xs = ground (arith, total-cons n x xs)

total-length : (n : ℕ) (xs : List ℕ) → ((i : ℕ) → n ≤ i → count i xs ≡ 0) → total n xs ≡ length xs
total-length n [] h = total-nil n
total-length n (x ∷ xs) h =
    let ih = total-length n xs (λ i k. omega (arith, h i k)) in
    elim (Bool-cases (ltb x n)) [
      | inl low ↦ ground (arith, total-cons n x xs, ih)
      | inr high ↦ absurd (ground (arith, h x))
    ]

total-le : (n : ℕ) (xs : List ℕ) → ((i : ℕ) → count i xs ≤ 1) → total n xs ≤ n
total-le zero xs h = omega arith
total-le (suc n) xs h = omega (arith, total-le n xs h, h n)

total_full :
    (n : ℕ) (xs : List ℕ)
    → ((i : ℕ) → count i xs ≤ 1)
    → total n xs ≡ n
    → (i : ℕ) → i < n
    → count i xs ≡ 1
total_full zero xs h e i lt = absurd (omega arith)
total_full (suc n) xs h e i lt = elim (Bool-cases (i == n)) [
  | inl same ↦ let e' : i ≡ n = ground arith in rw e' (omega (arith, total-le n xs h, h n))
  | inr other ↦ total_full n xs h (omega (arith, total-le n xs h, h n)) i (ground arith)
]

-- No number below `n` twice, and none from `n` on.
abbrev pub Distinct : ℕ → List ℕ → Type 0
Distinct n xs = (i : ℕ) → count i xs ≤ (if ltb i n then 1 else 0)

pub Distinct-length : (n : ℕ) (xs : List ℕ) → Distinct n xs → length xs ≤ n
Distinct-length n xs h = omega (
  arith,
  total-length n xs (λ i k. ground (arith, h i)),
  total-le n xs (λ i. ground (arith, h i)),
)

pub Distinct-full :
    (n : ℕ) (xs : List ℕ) → Distinct n xs → length xs ≡ n → (i : ℕ) → i < n → count i xs ≡ 1
Distinct-full n xs h e =
    total_full n xs (λ i. ground (arith, h i)) (total-length n xs (λ i k. ground (arith, h i)) ∙ e)

total_ones : (n : ℕ) (xs : List ℕ) → ((i : ℕ) → i < n → count i xs ≡ 1) → total n xs ≡ n
total_ones zero xs h = refl
total_ones (suc n) xs h =
    omega (arith, h n (omega arith), total_ones n xs (λ i k. h i (omega arith)))

-- A list with each number below `n` once and no others has `n` elements.
pub length_of_once :
    (n : ℕ) (xs : List ℕ) → Distinct n xs → ((i : ℕ) → i < n → count i xs ≡ 1) → length xs ≡ n
length_of_once n xs h k =
    omega (arith, total-length n xs (λ i o. ground (arith, h i)), total_ones n xs k)
