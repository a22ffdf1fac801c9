-- ===== src/Chunk.antt =====
-- crates/aether-core/src/chunk.rs: a dataset as an ordered list of chunks, and putting it together.
-- Where the code would panic (`expect`), the answer is `none`.
pub mod Pieces
mod Collect
mod Safety
mod Reassembly
mod Empty
mod Tests
use aether_mesh.Base.{
  ℕ, zero, suc, ◌+◌, ◌*◌, ◌%◌, ◌^◌, ltb, ◌==◌, if◌then◌else◌, Bool, true, false, not, ◌&&◌, List,
  [], ◌∷◌, ◌++◌, map, Option, none, some, length, filter, get_elem?, take, drop, range,
}
use aether_mesh.Base.Assoc.{lookup, contains_key, insert, remove, nat_eq}
use aether_mesh.Base.Result.{Result, ok, err}
use aether_mesh.Task.{DataId, Bytes, Hash, DataDescriptor, describe}
use aether_mesh.Store.{DataStore, get, put}

abbrev pub default_chunk_size : ℕ
default_chunk_size = 1024 * 1024

pub record ChunkManifest : Type 0 where
  pub dataset : DataDescriptor
  pub chunk_size : ℕ
  pub chunks : List DataDescriptor

-- `slice::chunks` for a positive size: the length of the slice is fuel enough.
unfoldable pub pieces_from : ℕ → ℕ → Bytes → List Bytes
pieces_from zero size bytes = []
pieces_from (suc fuel) size [] = []
pieces_from (suc fuel) size (b ∷ bytes) =
    take size (b ∷ bytes) ∷ pieces_from fuel size (drop size (b ∷ bytes))

abbrev pub pieces : ℕ → Bytes → List Bytes
pieces size bytes = pieces_from (length bytes) size bytes

abbrev pub size_or_default : ℕ → ℕ
size_or_default chunk_size = if chunk_size == 0 then default_chunk_size else chunk_size

-- The size is kept as a `u32`.
unfoldable pub split : Hash → Bytes → ℕ → ChunkManifest
split hash bytes chunk_size =
    let size = size_or_default chunk_size in
    record {
      dataset = describe hash bytes;
      chunk_size = size % 2 ^ 32;
      chunks = map (describe hash) (pieces size bytes);
    }

unfoldable pub len : ChunkManifest → ℕ
len manifest = length manifest.chunks

unfoldable pub chunk_range : ChunkManifest → ℕ → Option (ℕ × ℕ)
chunk_range manifest index = elim (get_elem? manifest.chunks index) [
  | none ↦ none
  | some descriptor ↦
      let start = index * manifest.chunk_size in some (start, start + descriptor.size_bytes)
]

-- `enumerate`, with each index cast to a `u32`.
abbrev pub number_from : ℕ → List DataDescriptor → List (ℕ × DataDescriptor)
number_from index [] = []
number_from index (d ∷ ds) = (index % 2 ^ 32, d) ∷ number_from (suc index) ds

unfoldable pub indexed : ChunkManifest → List (ℕ × DataDescriptor)
indexed manifest = number_from 0 manifest.chunks

pub data ChunkError : Type 0 where
  unknown_data : (data_id : DataId) → ChunkError
  index_out_of_range : (data_id : DataId) (index len : ℕ) → ChunkError
  chunk_mismatch : (data_id : DataId) (index : ℕ) → ChunkError
  data_mismatch : (expected actual : DataId) → ChunkError

pub record Pending : Type 0 where
  pub manifest : ChunkManifest
  pub chunks : List (ℕ × Bytes)

-- `ChunkAssembler`.
abbrev pub Assembler : Type 0
Assembler = List (DataId × Pending)

abbrev pub Answer : Type 0
Answer = Result ChunkError (Option Bytes)

unfoldable pub begin : ChunkManifest → Assembler → Assembler
begin manifest a = insert manifest.dataset.id (record { manifest = manifest; chunks = [] }) a

abbrev pub same_descriptor : DataDescriptor → DataDescriptor → Bool
same_descriptor d e = d.id == e.id && d.size_bytes == e.size_bytes

-- The loop that appends the chunks in order of their index.
unfoldable pub assemble : List ℕ → List (ℕ × Bytes) → Option Bytes
assemble [] chunks = some []
assemble (index ∷ indexes) chunks = elim (lookup index chunks) [
  | none ↦ none
  | some bytes ↦ elim (assemble indexes chunks) [ none ↦ none | some rest ↦ some (bytes ++ rest) ]
]

abbrev pub check_data : Hash → DataId → Bytes → Answer
check_data hash data_id assembled =
    if hash assembled == data_id
    then ok (some assembled)
    else err (data_mismatch data_id (hash assembled))

abbrev pub with_assembler : Assembler → Option Answer → Option (Assembler × Answer)
with_assembler a none = none
with_assembler a (some answer) = some (a, answer)

abbrev pub check_assembled : Hash → DataId → Option Bytes → Option Answer
check_assembled hash data_id none = none
check_assembled hash data_id (some assembled) = some (check_data hash data_id assembled)

-- `0..manifest.len() as u32`.
abbrev pub indexes_of : ChunkManifest → List ℕ
indexes_of manifest = range (len manifest % 2 ^ 32)

-- The end of `add`, with the chunk in `pending`.
unfoldable pub complete : Hash → DataId → Pending → Assembler → Option (Assembler × Answer)
complete hash data_id pending a =
    if ltb (length pending.chunks) (len pending.manifest)
    then some (insert data_id pending a, ok none)
    else with_assembler (remove data_id a)
        (check_assembled hash data_id (assemble (indexes_of pending.manifest) pending.chunks))

abbrev pub put_chunk : ℕ → Bytes → Pending → Pending
put_chunk index bytes pending = record pending { chunks = insert index bytes pending.chunks }

-- `add` for a dataset that is pending.
unfoldable pub add_pending :
    Hash → DataId → ℕ → Bytes → Pending → Assembler → Option (Assembler × Answer)
add_pending hash data_id index bytes pending a = elim (get_elem? pending.manifest.chunks index) [
  | none ↦ some (a, err (index_out_of_range data_id index (len pending.manifest)))
  | some expected ↦
      if not (same_descriptor (describe hash bytes) expected)
      then some (a, err (chunk_mismatch data_id index))
      else complete hash data_id (put_chunk index bytes pending) a
]

unfoldable pub add : Hash → DataId → ℕ → Bytes → Assembler → Option (Assembler × Answer)
add hash data_id index bytes a = elim (lookup data_id a) [
  | none ↦ some (a, err (unknown_data data_id))
  | some pending ↦ add_pending hash data_id index bytes pending a
]

unfoldable pub is_pending : DataId → Assembler → Bool
is_pending data_id a = contains_key data_id a

unfoldable pub missing : DataId → Assembler → List ℕ
missing data_id a = elim (lookup data_id a) [
  | none ↦ []
  | some pending ↦
      filter (λ index. not (contains_key index pending.chunks)) (indexes_of pending.manifest)
]

-- The chunks that the store holds, of those that are missing, and the store after reading them.
unfoldable pub known_chunks :
    List (ℕ × DataDescriptor) → List (ℕ × Bytes) → DataStore → DataStore × List (ℕ × Bytes)
known_chunks [] chunks store = (store, [])
known_chunks ((index, chunk) ∷ rest) chunks store =
    if contains_key index chunks
    then known_chunks rest chunks store
    else let (store', found) = get chunk.id store in
      let (store'', known) = known_chunks rest chunks store' in
      elim found [ none ↦ (store'', known) | some bytes ↦ (store'', (index, bytes) ∷ known) ]

-- The loop over the known chunks, which `?` leaves at the first error.
unfoldable pub add_known :
    Hash → DataId → List (ℕ × Bytes) → Option Bytes → Assembler → Option (Assembler × Answer)
add_known hash data_id [] assembled a = some (a, ok assembled)
add_known hash data_id ((index, bytes) ∷ known) assembled a =
    elim (add hash data_id index bytes a) [
      | none ↦ none
      | some (a', ok answer) ↦ add_known hash data_id known answer a'
      | some (a', err e) ↦ some (a', err e)
    ]

abbrev pub with_store :
    DataStore → Option (Assembler × Answer) → Option (Assembler × DataStore × Answer)
with_store store none = none
with_store store (some (a, answer)) = some (a, store, answer)

unfoldable pub fill_from_store :
    Hash → DataId → Assembler → DataStore → Option (Assembler × DataStore × Answer)
fill_from_store hash data_id a store = elim (lookup data_id a) [
  | none ↦ some (a, store, ok none)
  | some pending ↦
      let (store', known) = known_chunks (indexed pending.manifest) pending.chunks store in
      with_store store' (add_known hash data_id known none a)
]

unfoldable pub begin_with :
    Hash → ChunkManifest → Assembler → DataStore → Option (Assembler × DataStore × Answer)
begin_with hash manifest a store = fill_from_store hash manifest.dataset.id (begin manifest a) store

unfoldable pub add_stored :
    Hash → DataId → ℕ → Bytes → Assembler → DataStore → Option (Assembler × DataStore × Answer)
add_stored hash data_id index bytes a store =
    let (store', descriptor) = put hash bytes store in
    elim (add hash data_id index bytes a) [
      | none ↦ none
      | some (a', err e) ↦ some (a', store', err e)
      | some (a', ok (some assembled)) ↦ some (a', store', ok (some assembled))
      | some (a', ok none) ↦ fill_from_store hash data_id a' store'
    ]
