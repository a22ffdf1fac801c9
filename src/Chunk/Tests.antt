-- ===== src/Chunk/Tests.antt =====
-- Splits and deliveries of small datasets, and the theorems at them.
use aether_mesh.Base.{
  ℕ, ◌≡◌, refl, true, false, ◌==◌, ◌||◌, ◌<◌, [], ◌∷◌, none, some, sum, contains, length, arith,
}
use aether_mesh.Base.Assoc.{lookup, nat_eq}
use aether_mesh.Base.Result.{ok}
use aether_mesh.Task.{DataId, Bytes, Hash}
use aether_mesh.Chunk.{Assembler, pieces_from, split, begin, chunk_range}
use aether_mesh.Chunk.Reassembly.{deliver, deliver-whole}

abbrev weigh : Hash
weigh bytes = sum bytes

abbrev five : Bytes
five = 1 ∷ 2 ∷ 3 ∷ 4 ∷ 5 ∷ []

three_chunks : length (split weigh five 2).chunks ≡ 3
unfolding split pieces_from
three_chunks = refl

covered : (j : ℕ) → j < 3 → (contains (2 ∷ 0 ∷ 2 ∷ []) j || 1 == j) ≡ true
covered j low = ground arith

-- Chunks 2, 0, 2 again and 1.
deliver-whole_example :
    (a' : Assembler) × (deliver weigh five 2 (2 ∷ 0 ∷ 2 ∷ 1 ∷ []) (begin (split weigh five 2) [])
      ≡ some (a', ok (some five)))
    × (lookup 15 a' ≡ none)
    × ((other : DataId) → (15 == other) ≡ false → lookup other a' ≡ lookup other [])
unfolding pieces_from
deliver-whole_example =
    deliver-whole weigh five 2 [] (2 ∷ 0 ∷ 2 ∷ []) 1 (omega arith)
      (omega arith, (omega arith, (omega arith, tt))) (omega arith) refl covered

last_range : chunk_range (split weigh five 2) 2 ≡ some (4, 5)
unfolding chunk_range split pieces_from
last_range = refl
