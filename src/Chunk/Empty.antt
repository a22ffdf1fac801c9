-- ===== src/Chunk/Empty.antt =====
-- The dataset without bytes, which has no chunks.
use aether_mesh.Base.{ℕ, ◌≡◌, refl, [], none, some}
use aether_mesh.Base.Assoc.{lookup, nat_eq, lookup-insert_self}
use aether_mesh.Base.Result.{ok, err}
use aether_mesh.Task.{Bytes, Hash}
use aether_mesh.Store.{DataStore}
use aether_mesh.Chunk.{
  Pending, Assembler, pieces_from, split, len, begin, begin_with, fill_from_store, known_chunks,
  indexed, add_known, missing, add, add_pending, index_out_of_range,
}

abbrev empty_pending : Hash → ℕ → Pending
empty_pending hash n = record { manifest = split hash [] n; chunks = [] }

begin-lookup :
    (hash : Hash) (n : ℕ) (a : Assembler)
    → lookup (hash []) (begin (split hash [] n) a) ≡ some (empty_pending hash n)
unfolding begin split pieces_from
begin-lookup hash n a = lookup-insert_self (hash []) (empty_pending hash n) a

-- The empty dataset misses no chunk as soon as it is announced, yet `begin_with` hands out nothing,
-- and every chunk that arrives later is out of range: it never completes.
pub begin_with-empty :
    (hash : Hash) (n : ℕ) (a : Assembler) (store : DataStore)
    → let a' = begin (split hash [] n) a in
      (begin_with hash (split hash [] n) a store ≡ some (a', store, ok none))
      × (missing (hash []) a' ≡ [])
      × ((index : ℕ) (bytes : Bytes)
          → add hash (hash []) index bytes a'
            ≡ some (a', err (index_out_of_range (hash []) index 0)))
unfolding begin_with fill_from_store missing add add_pending split pieces_from known_chunks indexed
    add_known len
begin_with-empty hash n a store =
    let found = begin-lookup hash n a in
    (
      rw (begin_with, fill_from_store, found) refl,
      rw (missing, found) refl,
      λ index bytes. rw (add, found, add_pending) refl,
    )
