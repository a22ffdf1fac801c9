-- ===== src/Dispatch/Cuts.antt =====
-- Every chunk of a manifest can be cut out of the bytes that the manifest was made from.
use aether_mesh.Base.{
  get_elem?-some, ◌≤◌, ◌*◌, All-mono, ℕ, suc, ◌+◌, ◌-◌, ◌^◌, ◌<◌, ◌≡◌, refl, true, leb, some, List,
  [], ◌∷◌, length, take, drop, get_elem?, All, arith,
}
use aether_mesh.Base.Assoc.{nat_eq}
use aether_mesh.Task.{Bytes, Hash, DataDescriptor}
use aether_mesh.Chunk.{ChunkManifest, split, size_or_default, chunk_range, indexed, number_from}
use aether_mesh.Dispatch.Inputs.{slice_of}
use aether_mesh.Chunk.Pieces.{chunk_range-slice}

-- A cast index is no larger than the position it stands for.
number_from-below :
    (k n : ℕ) (ds : List DataDescriptor)
    → k + length ds ≤ n
    → All (λ (p : ℕ × DataDescriptor). p.0 < n) (number_from k ds)
number_from-below k n [] h = tt
number_from-below k n (d ∷ ds) h = (omega arith, number_from-below (suc k) n ds (omega arith))

-- A chunk of a manifest can be cut out of the bytes.
abbrev pub Cuts : ChunkManifest → Bytes → ℕ × DataDescriptor → Type 0
Cuts m bytes p = (slice : Bytes) × (slice_of m p.0 bytes ≡ some slice)

slice_of-split :
    (hash : Hash) (bytes : Bytes) (n i : ℕ) (d : DataDescriptor)
    → size_or_default n < 2 ^ 32
    → get_elem? (split hash bytes n).chunks i ≡ some d
    → Cuts (split hash bytes n) bytes (i, d)
unfolding slice_of chunk_range
slice_of-split hash bytes n i d small h =
    let m = split hash bytes n in
    let start = i * m.chunk_size in
    let stop = start + d.size_bytes in
    let range : chunk_range m i ≡ some (start, stop) = (rw (chunk_range, h) refl) in
    let fits : leb stop (length bytes) ≡ true =
      ground (arith, chunk_range-slice hash bytes n i start stop small range) in
    (take (stop - start) (drop start bytes), rw (slice_of, range, fits) refl)

below-Cuts :
    (hash : Hash) (bytes : Bytes) (n : ℕ) (p : ℕ × DataDescriptor)
    → size_or_default n < 2 ^ 32
    → p.0 < length (split hash bytes n).chunks
    → Cuts (split hash bytes n) bytes p
below-Cuts hash bytes n (i, d) small low =
    let (listed, found) = get_elem?-some (split hash bytes n).chunks i low in
    slice_of-split hash bytes n i listed small found

pub All-Cuts :
    (hash : Hash) (bytes : Bytes) (n : ℕ)
    → size_or_default n < 2 ^ 32
    → All (Cuts (split hash bytes n) bytes) (indexed (split hash bytes n))
unfolding indexed
All-Cuts hash bytes n small =
    let m = split hash bytes n in
    All-mono (λ (p : ℕ × DataDescriptor). p.0 < length m.chunks) (Cuts m bytes)
      (number_from 0 m.chunks) (λ p low. below-Cuts hash bytes n p small low)
      (number_from-below 0 (length m.chunks) m.chunks (omega arith))
