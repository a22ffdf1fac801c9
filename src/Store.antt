-- ===== src/Store.antt =====
-- crates/aether-core/src/store.rs: blobs under the hash of their bytes, with a byte budget.
-- The blobs are held in memory, so `bytes`, their sum, stays below 2^64. The ids in `HashMap` are
-- distinct keys of an association list.
mod Accounting
mod Evict
mod Budget
mod Put
pub mod Grows
mod Run
mod Tests
use aether_mesh.Base.{
  ℕ, zero, suc, ◌+◌, ◌-◌, ◌%◌, ltb, ◌==◌, if◌then◌else◌, Bool, true, false, not, List, [], ◌∷◌,
  ◌++◌, map, Option, none, some, length, filter, best, u64_mod,
}
use aether_mesh.Base.Assoc.{lookup, contains_key, insert, remove, nat_eq}
use aether_mesh.Base.Sort.{sort_by}
use aether_mesh.Base.Result.{Result, ok, err}
use aether_mesh.Task.{DataId, Bytes, Hash, DataDescriptor, describe}

pub record Entry : Type 0 where
  pub bytes : Bytes
  pub used_at : ℕ

-- `Inner`, the state behind the lock.
pub record DataStore : Type 0 where
  pub blobs : List (DataId × Entry)
  pub bytes : ℕ
  pub budget : Option ℕ
  pub clock : ℕ

pub data DataStoreError : Type 0 where
  hash_mismatch : (expected actual : DataId) → DataStoreError

unfoldable pub new : DataStore
new = record { blobs = []; bytes = 0; budget = none; clock = 0 }

unfoldable pub with_budget : ℕ → DataStore
with_budget budget = record new { budget = some budget }

abbrev pub tick : DataStore → ℕ
tick s = (s.clock + 1) % u64_mod

unfoldable pub touch : DataId → DataStore → DataStore
touch data_id s = elim (lookup data_id s.blobs) [
  | none ↦ record s { clock = tick s }
  | some entry ↦ record s {
    blobs = insert data_id (record entry { used_at = tick s }) s.blobs;
    clock = tick s;
  }
]

unfoldable pub drop_blob : DataId → DataStore → DataStore × Bool
drop_blob data_id s = elim (lookup data_id s.blobs) [
  | none ↦ (s, false)
  | some entry ↦
      (record s { blobs = remove data_id s.blobs; bytes = s.bytes - length entry.bytes }, true)
]

-- `min_by_key` on `used_at`.
abbrev pub older : DataId × Entry → DataId × Entry → Bool
older e b = ltb e.1.used_at b.1.used_at

abbrev pub is_other : DataId → DataId × Entry → Bool
is_other keep blob = not (blob.0 == keep)

unfoldable pub oldest : DataId → DataStore → Option DataId
oldest keep s = elim (best older (filter (is_other keep) s.blobs)) [
  | none ↦ none
  | some (index, blob) ↦ some blob.0
]

-- The `while` loop. Each round drops a blob, so their number is fuel enough.
unfoldable pub evict_loop : ℕ → DataId → ℕ → DataStore → List DataId → DataStore × List DataId
evict_loop zero keep budget s evicted = (s, evicted)
evict_loop (suc fuel) keep budget s evicted = elim (ltb budget s.bytes) [
  | false ↦ (s, evicted)
  | true ↦ elim (oldest keep s) [
    | none ↦ (s, evicted)
    | some id ↦ evict_loop fuel keep budget (drop_blob id s).0 (evicted ++ (id ∷ []))
  ]
]

unfoldable pub evict_over_budget : DataId → DataStore → DataStore × List DataId
evict_over_budget keep s = elim s.budget [
  | none ↦ (s, [])
  | some budget ↦ evict_loop (length s.blobs) keep budget s []
]

-- The new blob of `Inner::store`, before it evicts.
abbrev pub add_blob : DataId → Bytes → DataStore → DataStore
add_blob data_id bytes s = record s {
  blobs = insert data_id (record { bytes = bytes; used_at = tick s }) s.blobs;
  bytes = s.bytes + length bytes;
  clock = tick s;
}

-- `Inner::store`.
unfoldable pub store : DataId → Bytes → DataStore → DataStore × List DataId
store data_id bytes s =
    if contains_key data_id s.blobs
    then (touch data_id s, [])
    else evict_over_budget data_id (add_blob data_id bytes s)

unfoldable pub put_evicting : Hash → Bytes → DataStore → DataStore × (DataDescriptor × List DataId)
put_evicting hash bytes s =
    let descriptor = describe hash bytes in
    let (s', evicted) = store descriptor.id bytes s in (s', (descriptor, evicted))

unfoldable pub put : Hash → Bytes → DataStore → DataStore × DataDescriptor
put hash bytes s = let (s', answer) = put_evicting hash bytes s in (s', answer.0)

-- The answer is `err` on bytes that do not hash to the descriptor's id.
unfoldable pub insert_evicting :
    Hash
    → DataDescriptor
    → Bytes
    → DataStore
    → DataStore × Result DataStoreError (Bool × List DataId)
insert_evicting hash descriptor bytes s =
    let actual = describe hash bytes in
    if not (actual.id == descriptor.id)
    then (s, err (hash_mismatch descriptor.id actual.id))
    else if contains_key descriptor.id s.blobs
    then (touch descriptor.id s, ok (false, []))
    else let (s', evicted) = store descriptor.id bytes s in (s', ok (true, evicted))

abbrev pub stored : Result DataStoreError (Bool × List DataId) → Result DataStoreError Bool
stored (ok (is_new, evicted)) = ok is_new
stored (err e) = err e

-- `DataStore::insert`.
unfoldable pub insert_data :
    Hash → DataDescriptor → Bytes → DataStore → DataStore × Result DataStoreError Bool
insert_data hash descriptor bytes s =
    let (s', answer) = insert_evicting hash descriptor bytes s in (s', stored answer)

abbrev pub entry_bytes : Option Entry → Option Bytes
entry_bytes none = none
entry_bytes (some entry) = some entry.bytes

unfoldable pub get : DataId → DataStore → DataStore × Option Bytes
get data_id s = let s' = touch data_id s in (s', entry_bytes (lookup data_id s'.blobs))

unfoldable pub contains : DataId → DataStore → Bool
contains data_id s = contains_key data_id s.blobs

unfoldable pub len : DataStore → ℕ
len s = length s.blobs

unfoldable pub descriptors : DataStore → List DataDescriptor
descriptors s =
    sort_by (λ (d : DataDescriptor). d.id)
      (map (λ (blob : DataId × Entry). record { id = blob.0; size_bytes = length blob.1.bytes })
        s.blobs)
