-- ===== src/Chunk/Pieces.antt =====
-- The pieces that `split` cuts a dataset into.
use aether_mesh.Base.{
  ℕ, zero, suc, ◌+◌, ◌-◌, ◌*◌, ◌%◌, ◌^◌, ◌≤◌, ◌<◌, ◌≡◌, refl, sym, ap, ◌∙◌, inl, inr, Option-cases,
  List, [], ◌∷◌, ◌++◌, map, none, some, length, get_elem?, take, drop, arith,
}
use aether_mesh.Task.{Bytes, Hash, DataDescriptor, describe}
use aether_mesh.Chunk.{ChunkManifest, pieces_from, pieces, size_or_default, split, chunk_range}

abbrev pub concat : List Bytes → Bytes
concat [] = []
concat (p ∷ ps) = p ++ concat ps

take-drop : (n : ℕ) (xs : Bytes) → take n xs ++ drop n xs ≡ xs
take-drop zero xs = refl
take-drop (suc n) [] = refl
take-drop (suc n) (x ∷ xs) = ap (◌∷◌ x) (take-drop n xs)

length-drop : (n : ℕ) (xs : Bytes) → length (drop n xs) ≡ length xs - n
length-drop zero xs = omega arith
length-drop (suc n) [] = omega arith
length-drop (suc n) (x ∷ xs) = omega (arith, length-drop n xs)

length-take-drop : (n : ℕ) (xs : Bytes) → length (take n xs) + length (drop n xs) ≡ length xs
length-take-drop zero xs = omega arith
length-take-drop (suc n) [] = omega arith
length-take-drop (suc n) (x ∷ xs) = omega (arith, length-take-drop n xs)

take-take : (n : ℕ) (xs : Bytes) → take (length (take n xs)) xs ≡ take n xs
take-take zero xs = refl
take-take (suc n) [] = refl
take-take (suc n) (x ∷ xs) = ap (◌∷◌ x) (take-take n xs)

drop-nil : (n : ℕ) → drop {A = ℕ} n [] ≡ []
drop-nil zero = refl
drop-nil (suc n) = refl

drop-drop : (m n : ℕ) (xs : Bytes) → drop m (drop n xs) ≡ drop (n + m) xs
drop-drop m zero xs = let e : zero + m ≡ m = omega arith in rw e refl
drop-drop m (suc n) [] = rw (drop-nil m, drop-nil (suc n + m)) refl
drop-drop m (suc n) (x ∷ xs) =
    let e : suc n + m ≡ suc (n + m) = omega arith in rw e (drop-drop m n xs)

pub concat-pieces_from :
    (fuel size : ℕ) (bytes : Bytes)
    → 0 < size
    → length bytes ≤ fuel
    → concat (pieces_from fuel size bytes) ≡ bytes
unfolding pieces_from
concat-pieces_from zero size [] pos h = refl
concat-pieces_from zero size (b ∷ bytes) pos h = absurd (omega arith)
concat-pieces_from (suc fuel) size [] pos h = refl
concat-pieces_from (suc fuel) size (b ∷ bytes) pos h =
    ap (◌++◌ (take size (b ∷ bytes))) (
      concat-pieces_from fuel size (drop size (b ∷ bytes)) pos
        (omega (arith, length-drop size (b ∷ bytes))))
    ∙ take-drop size (b ∷ bytes)

pub pieces_from-get_elem? :
    (fuel size : ℕ) (bytes : Bytes) (i : ℕ) (p : Bytes)
    → get_elem? (pieces_from fuel size bytes) i ≡ some p
    → (p ≡ take size (drop (i * size) bytes)) × (i * size < length bytes)
unfolding pieces_from
pieces_from-get_elem? zero size bytes i p h = absurd (ground arith)
pieces_from-get_elem? (suc fuel) size [] i p h = absurd (ground arith)
pieces_from-get_elem? (suc fuel) size (b ∷ bytes) zero p h =
    let e : zero * size ≡ 0 = omega arith in rw e (ground arith, omega arith)
pieces_from-get_elem? (suc fuel) size (b ∷ bytes) (suc i) p h =
    let ih = pieces_from-get_elem? fuel size (drop size (b ∷ bytes)) i p h in
    let e : suc i * size ≡ size + i * size = omega arith in
    rw e (
      ih.0 ∙ ap (take size) (drop-drop (i * size) size (b ∷ bytes)),
      omega (arith, ih.1, length-drop size (b ∷ bytes)),
    )

pub size_or_default-pos : (n : ℕ) → 0 < size_or_default n
size_or_default-pos n = ground arith

pub concat-pieces : (bytes : Bytes) (n : ℕ) → concat (pieces (size_or_default n) bytes) ≡ bytes
concat-pieces bytes n =
    concat-pieces_from (length bytes) (size_or_default n) bytes (size_or_default-pos n)
      (omega arith)

pub get_elem?-map :
    {A : Type 0} {B : Type 0} (f : A → B) (xs : List A) (i : ℕ) (b : B)
    → get_elem? (map f xs) i ≡ some b
    → (a : A) × (get_elem? xs i ≡ some a) × (f a ≡ b)
get_elem?-map f [] i b h = absurd (ground arith)
get_elem?-map f (x ∷ xs) zero b h = (x, refl, ground arith)
get_elem?-map f (x ∷ xs) (suc i) b h = get_elem?-map f xs i b h

pub map-get_elem? :
    {A : Type 0} {B : Type 0} (f : A → B) (xs : List A) (i : ℕ) (a : A)
    → get_elem? xs i ≡ some a
    → get_elem? (map f xs) i ≡ some (f a)
map-get_elem? f [] i a h = absurd (ground arith)
map-get_elem? f (x ∷ xs) zero a h = ap some (ground arith)
map-get_elem? f (x ∷ xs) (suc i) a h = map-get_elem? f xs i a h

chunk_range-some :
    (m : ChunkManifest) (i : ℕ) (d : DataDescriptor)
    → get_elem? m.chunks i ≡ some d
    → chunk_range m i ≡ some (i * m.chunk_size, i * m.chunk_size + d.size_bytes)
unfolding chunk_range
chunk_range-some m i d h = ground arith

chunk_range-none :
    (m : ChunkManifest) (i : ℕ) → get_elem? m.chunks i ≡ none → chunk_range m i ≡ none
unfolding chunk_range
chunk_range-none m i h = ground arith

-- A slice of the dataset, given the piece that stands there.
slice_of_piece :
    (size at_byte : ℕ) (bytes p : Bytes)
    → p ≡ take size (drop at_byte bytes)
    → at_byte < length bytes
    → (at_byte + length p ≤ length bytes)
      × (p ≡ take (at_byte + length p - at_byte) (drop at_byte bytes))
slice_of_piece size at_byte bytes p e low =
    let n : at_byte + length p - at_byte ≡ length p = omega arith in
    (
      omega (
        arith,
        ap (λ (x : Bytes). length x) e,
        length-take-drop size (drop at_byte bytes),
        length-drop at_byte bytes,
      ),
      rw n (rw e (sym (take-take size (drop at_byte bytes)))),
    )

-- The byte range that a manifest gives for a chunk lies in the dataset and holds the bytes that the
-- chunk's descriptor describes, for a chunk size that fits into 32 bits.
pub chunk_range-slice :
    (hash : Hash) (bytes : Bytes) (n index start stop : ℕ)
    → size_or_default n < 2 ^ 32
    → chunk_range (split hash bytes n) index ≡ some (start, stop)
    → (stop ≤ length bytes)
      × (get_elem? (split hash bytes n).chunks index
          ≡ some (describe hash (take (stop - start) (drop start bytes))))
unfolding chunk_range split
chunk_range-slice hash bytes n index start stop small h =
    let size = size_or_default n in
    let m = split hash bytes n in
    let whole : size % 2 ^ 32 ≡ size = omega arith in
    elim (Option-cases (get_elem? m.chunks index)) [
      | inl absent ↦ let no = chunk_range-none m index absent in absurd (ground arith)
      | inr (d, found) ↦
          let (p, there, described) =
            get_elem?-map (describe hash) (pieces size bytes) index d found in
          let cut = pieces_from-get_elem? (length bytes) size bytes index p there in
          let measured : d.size_bytes ≡ length p =
            ap (λ (x : DataDescriptor). x.size_bytes) (sym described) in
          let range = sym h ∙ chunk_range-some m index d found in
          let begins : start ≡ index * size = ground (arith, range, whole) in
          let ends : stop ≡ index * size + length p = ground (arith, range, whole, measured) in
          let (fits, same) = slice_of_piece size (index * size) bytes p cut.0 cut.1 in
          rw (begins, ends) (fits, found ∙ ap some (sym described ∙ ap (describe hash) same))
    ]
