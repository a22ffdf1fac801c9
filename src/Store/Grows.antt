-- ===== src/Store/Grows.antt =====
-- A store without a budget only grows.
use aether_mesh.Base.{◌≡◌, ap, inl, inr, ◌==◌, Bool-cases, Option-cases, none, some, [], arith}
use aether_mesh.Base.Assoc.{lookup, contains_key, nat_eq, lookup-insert, contains_key-lookup}
use aether_mesh.Task.{DataId, Bytes, Hash, DataDescriptor}
use aether_mesh.Store.{
  Entry, DataStore, tick, touch, add_blob, store, evict_over_budget, put, put_evicting, insert_data,
  insert_evicting, get, entry_bytes,
}
use aether_mesh.Store.Put.{store-new, store-old}

-- No blob is lost or altered, and there is still no budget.
pub record Grows (s t : DataStore) : Type 0 where
  pub unbounded : s.budget ≡ none → t.budget ≡ none
  pub kept :
      (id : DataId) (bytes : Bytes)
      → entry_bytes (lookup id s.blobs) ≡ some bytes
      → entry_bytes (lookup id t.blobs) ≡ some bytes

pub Grows-refl : (s : DataStore) → Grows s s
Grows-refl s = record { unbounded = λ h. h; kept = λ id bytes h. h }

touch-Grows : (id : DataId) (s : DataStore) → Grows s (touch id s)
unfolding touch
touch-Grows id s = elim (Option-cases (lookup id s.blobs)) [
  | inl absent ↦ rw (touch, absent) (record { unbounded = λ h. h; kept = λ j bytes h. h })
  | inr (e, found) ↦
      rw (touch, found)
        (record {
          unbounded = λ h. h;
          kept = λ j bytes h. elim (Bool-cases (id == j)) [
            | inl same ↦
                let p : id ≡ j = ground arith in
                ground (
                  arith,
                  h,
                  ap (λ (k : DataId). lookup k s.blobs) p,
                  found,
                  lookup-insert id j (record e { used_at = tick s }) s.blobs,
                )
            | inr other ↦ ground (arith, lookup-insert id j (record e { used_at = tick s }) s.blobs)
          ];
        })
]

evict_over_budget-none :
    (keep : DataId) (s : DataStore) → s.budget ≡ none → evict_over_budget keep s ≡ (s, [])
unfolding evict_over_budget
evict_over_budget-none keep s h = ground arith

store-Grows :
    (id : DataId) (bytes : Bytes) (s : DataStore) → s.budget ≡ none → Grows s (store id bytes s).0
store-Grows id bytes s free = elim (Bool-cases (contains_key id s.blobs)) [
  | inl old ↦ rw (store-old id bytes s old) (touch-Grows id s)
  | inr new ↦
      let added : Entry = record { bytes = bytes; used_at = tick s } in
      rw (store-new id bytes s new, evict_over_budget-none id (add_blob id bytes s) free)
        (record {
          unbounded = λ h. h;
          kept = λ j b h. elim (Bool-cases (id == j)) [
            | inl same ↦
                let p : id ≡ j = ground arith in
                ground (
                  arith,
                  h,
                  ap (λ (k : DataId). lookup k s.blobs) p,
                  contains_key-lookup id s.blobs,
                )
            | inr other ↦ ground (arith, lookup-insert id j added s.blobs)
          ];
        })
]

pub get-Grows : (id : DataId) (s : DataStore) → Grows s (get id s).0
unfolding get
get-Grows id s = touch-Grows id s

pub put-Grows :
    (hash : Hash) (bytes : Bytes) (s : DataStore) → s.budget ≡ none → Grows s (put hash bytes s).0
unfolding put put_evicting
put-Grows hash bytes s free = store-Grows (hash bytes) bytes s free

pub insert_data-Grows :
    (hash : Hash) (d : DataDescriptor) (bytes : Bytes) (s : DataStore)
    → s.budget ≡ none
    → Grows s (insert_data hash d bytes s).0
unfolding insert_data insert_evicting
insert_data-Grows hash d bytes s free = elim (Bool-cases (hash bytes == d.id)) [
  | inr other ↦ rw (insert_data, insert_evicting, other) (Grows-refl s)
  | inl same ↦ elim (Bool-cases (contains_key d.id s.blobs)) [
    | inl old ↦ rw (insert_data, insert_evicting, same, old) (touch-Grows d.id s)
    | inr new ↦ rw (insert_data, insert_evicting, same, new) (store-Grows d.id bytes s free)
  ]
]
