-- ===== src/Chunk/Safety.antt =====
-- The calls on the assembler and the store together never panic.
use aether_mesh.Base.{
  ℕ, ◌≡◌, refl, inl, inr, Option-cases, List, [], ◌∷◌, Option, none, some, arith,
}
use aether_mesh.Base.Assoc.{lookup, contains_key, nat_eq}
use aether_mesh.Base.Result.{ok, err}
use aether_mesh.Task.{Bytes, DataId, Hash}
use aether_mesh.Chunk.{
  ChunkManifest, Assembler, Answer, begin, add, add_known, known_chunks, indexed, fill_from_store,
  begin_with,
}
use aether_mesh.Store.{DataStore}
use aether_mesh.Chunk.Collect.{AllValid, Answers, insert-AllValid, add-Answers}

add_known-next :
    (hash : Hash) (id : DataId) (index : ℕ) (bytes : Bytes) (known : List (ℕ × Bytes))
    (assembled : Option Bytes) (a a' : Assembler) (answer : Answer)
    → add hash id index bytes a ≡ some (a', answer)
    → AllValid a'
    → ((b : Option Bytes) → Answers (add_known hash id known b a'))
    → Answers (add_known hash id ((index, bytes) ∷ known) assembled a)
unfolding add_known
add_known-next hash id index bytes known assembled a a' (err e) eq h' rest =
    rw (add_known, eq) (a', err e, refl, h')
add_known-next hash id index bytes known assembled a a' (ok b) eq h' rest =
    rw (add_known, eq) (rest b)

add_known-Answers :
    (hash : Hash) (id : DataId) (known : List (ℕ × Bytes)) (assembled : Option Bytes)
    (a : Assembler)
    → AllValid a
    → Answers (add_known hash id known assembled a)
unfolding add_known
add_known-Answers hash id [] assembled a h = (a, ok assembled, refl, h)
add_known-Answers hash id ((index, bytes) ∷ known) assembled a h =
    let (a', answer, eq, h') = add-Answers hash id index bytes a h in
    add_known-next hash id index bytes known assembled a a' answer eq h'
      (λ b. add_known-Answers hash id known b a' h')

-- The same with the store that a call hands back.
abbrev pub AnswersWith : Option (Assembler × DataStore × Answer) → Type 0
AnswersWith r =
    (a : Assembler) × (store : DataStore) × (answer : Answer) × (r ≡ some (a, store, answer))
    × AllValid a

fill_from_store-AnswersWith :
    (hash : Hash) (id : DataId) (a : Assembler) (store : DataStore)
    → AllValid a
    → AnswersWith (fill_from_store hash id a store)
unfolding fill_from_store
fill_from_store-AnswersWith hash id a store h = elim (Option-cases (lookup id a)) [
  | inl absent ↦ rw (fill_from_store, absent) (a, store, ok none, refl, h)
  | inr (p, found) ↦
      let r = known_chunks (indexed p.manifest) p.chunks store in
      let (a', answer, eq, h') = add_known-Answers hash id r.1 none a h in
      rw (fill_from_store, found, eq) (a', r.0, answer, refl, h')
]

begin-AllValid : (m : ChunkManifest) (a : Assembler) → AllValid a → AllValid (begin m a)
unfolding begin contains_key
begin-AllValid m a h =
    insert-AllValid m.dataset.id (record { manifest = m; chunks = [] }) a
      (record { distinct = tt; in_range = λ j no. absurd (ground arith) }) h

-- Whatever manifest is announced, `begin_with` on a valid assembler answers without a panic and
-- leaves it valid: no index of a pending dataset stands twice or outside its manifest.
pub begin_with-AnswersWith :
    (hash : Hash) (m : ChunkManifest) (a : Assembler) (store : DataStore)
    → AllValid a
    → AnswersWith (begin_with hash m a store)
unfolding begin_with
begin_with-AnswersWith hash m a store h =
    fill_from_store-AnswersWith hash m.dataset.id (begin m a) store (begin-AllValid m a h)
