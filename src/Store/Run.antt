-- ===== src/Store/Run.antt =====
-- What holds of a store after any sequence of calls.
use aether_mesh.Base.{
  ℕ, ◌≤◌, ◌==◌, ◌≡◌, refl, sym, ap, ◌∙◌, inl, inr, ◌⊎◌, Bool-cases, Option-cases, List, [], ◌∷◌,
  Option, none, some, length, All, arith,
}
use aether_mesh.Base.Assoc.{lookup, contains_key, nat_eq, IsMap, lookup-insert}
use aether_mesh.Task.{DataId, Bytes, Hash, DataDescriptor}
use aether_mesh.Store.{
  DataStore, Entry, tick, touch, drop_blob, add_blob, store, put_evicting, insert_evicting, get,
  entry_bytes, with_budget, new,
}
use aether_mesh.Store.Accounting.{
  IsValid, total-insert_same, total-remove, touch-IsValid, drop_blob-IsValid, drop_blob-some,
  drop_blob-none, add_blob-IsValid,
}
use aether_mesh.Store.Budget.{drop_blob-lookup}
use aether_mesh.Store.Put.{evict_over_budget-Evicts, store-new, store-old}

-- The calls that change the store.
pub data Call : Type 0 where
  put : (bytes : Bytes) → Call
  insert_bytes : (descriptor : DataDescriptor) (bytes : Bytes) → Call
  read : (data_id : DataId) → Call
  discard : (data_id : DataId) → Call

unfoldable pub step : Hash → DataStore → Call → DataStore
step hash s (put bytes) = (put_evicting hash bytes s).0
step hash s (insert_bytes descriptor bytes) = (insert_evicting hash descriptor bytes s).0
step hash s (read data_id) = (get data_id s).0
step hash s (discard data_id) = (drop_blob data_id s).0

unfoldable pub run : Hash → DataStore → List Call → DataStore
run hash s [] = s
run hash s (c ∷ calls) = run hash (step hash s c) calls

-- Every blob stands under the hash of its bytes.
abbrev pub IsHashed : Hash → DataStore → Type 0
IsHashed hash s = (id : DataId) (e : Entry) → lookup id s.blobs ≡ some e → hash e.bytes ≡ id

-- Within the budget, or with one blob.
abbrev pub IsWithin : DataStore → Type 0
IsWithin s = (b : ℕ) → s.budget ≡ some b → (s.bytes ≤ b) ⊎ (length s.blobs ≤ 1)

pub record IsSound (hash : Hash) (s : DataStore) : Type 0 where
  pub valid : IsValid s
  pub hashed : IsHashed hash s
  pub within : IsWithin s

keys-length :
    (keep : DataId) (m : List (DataId × Entry))
    → IsMap m
    → All (λ (b : DataId × Entry). b.0 ≡ keep) m
    → length m ≤ 1
unfolding contains_key
keys-length keep [] u h = omega arith
keys-length keep ((i, e) ∷ []) u h = omega arith
keys-length keep ((i, e) ∷ (j, f) ∷ m) u h =
    let p : i ≡ keep = h.0 in let q : j ≡ keep = h.1.0 in let no = u.0 in absurd (ground arith)

touch-IsSound :
    (hash : Hash) (id : DataId) (s : DataStore) → IsSound hash s → IsSound hash (touch id s)
unfolding touch
touch-IsSound hash id s v = elim (Option-cases (lookup id s.blobs)) [
  | inl h ↦ record {
    valid = touch-IsValid id s v.valid;
    hashed = rw (h, touch) v.hashed;
    within = rw (h, touch) v.within;
  }
  | inr (e, h) ↦
      let used = record e { used_at = tick s } in
      let same = total-insert_same id used e s.blobs h refl in
      record {
        valid = touch-IsValid id s v.valid;
        hashed =
            rw (h, touch)
              (λ j f held.
                ground (arith, lookup-insert id j used s.blobs, v.hashed id e h, v.hashed j f));
        within =
            rw (h, touch)
              (λ b eq. elim (v.within b eq) [
                | inl fits ↦ inl fits
                | inr single ↦ inr (omega (arith, same.1, single))
              ]);
      }
]

drop_blob-IsSound :
    (hash : Hash) (id : DataId) (s : DataStore) → IsSound hash s → IsSound hash (drop_blob id s).0
drop_blob-IsSound hash id s v = elim (Option-cases (lookup id s.blobs)) [
  | inl h ↦ rw (drop_blob-none id s h) v
  | inr (e, h) ↦
      let less = total-remove id e s.blobs v.valid.distinct h in
      record {
        valid = drop_blob-IsValid id s v.valid;
        hashed = λ j f held. ground (arith, drop_blob-lookup id j s, v.hashed j f);
        within = rw (drop_blob-some id s e h) (λ b eq. elim (v.within b eq) [
          | inl fits ↦ inl (omega (arith, fits))
          | inr single ↦ inr (omega (arith, less.1, single))
        ]);
      }
]

store-IsSound :
    (hash : Hash) (id : DataId) (bytes : Bytes) (s : DataStore)
    → hash bytes ≡ id
    → IsSound hash s
    → IsSound hash (store id bytes s).0
store-IsSound hash id bytes s here v = elim (Bool-cases (contains_key id s.blobs)) [
  | inl old ↦ rw (store-old id bytes s old) (touch-IsSound hash id s v)
  | inr fresh ↦
      let added = add_blob id bytes s in
      let blob : Entry = record { bytes = bytes; used_at = tick s } in
      let r = evict_over_budget-Evicts id added (add_blob-IsValid id bytes s fresh v.valid) in
      rw (store-new id bytes s fresh, r.answer)
        (record {
          valid = r.valid;
          hashed = λ j f held.
              ground (arith, r.eviction.rest j, lookup-insert id j blob s.blobs, v.hashed j f);
          within = λ b eq. elim (r.tight b (sym r.eviction.same_budget ∙ eq)) [
            | inl fits ↦ inl fits
            | inr alone ↦ inr (keys-length id r.final.blobs r.valid.distinct alone)
          ];
        })
]

insert_evicting-step :
    (hash : Hash) (d : DataDescriptor) (bytes : Bytes) (s : DataStore)
    → IsSound hash s
    → IsSound hash (insert_evicting hash d bytes s).0
unfolding insert_evicting
insert_evicting-step hash d bytes s v = elim (Bool-cases (hash bytes == d.id)) [
  | inr differs ↦ rw (insert_evicting, differs) v
  | inl same ↦ elim (Bool-cases (contains_key d.id s.blobs)) [
    | inl old ↦ rw (insert_evicting, same, old) (touch-IsSound hash d.id s v)
    | inr fresh ↦
        rw (insert_evicting, same, fresh) (store-IsSound hash d.id bytes s (ground arith) v)
  ]
]

step-IsSound :
    (hash : Hash) (s : DataStore) (c : Call) → IsSound hash s → IsSound hash (step hash s c)
unfolding step put_evicting get
step-IsSound hash s (put bytes) v = store-IsSound hash (hash bytes) bytes s refl v
step-IsSound hash s (insert_bytes d bytes) v = insert_evicting-step hash d bytes s v
step-IsSound hash s (read data_id) v = touch-IsSound hash data_id s v
step-IsSound hash s (discard data_id) v = drop_blob-IsSound hash data_id s v

-- Any sequence of calls keeps a sound store sound: distinct keys, `bytes` the sum over the blobs, every
-- blob under the hash of its bytes, and the budget met unless a single blob is left.
pub run-IsSound :
    (hash : Hash) (s : DataStore) (calls : List Call)
    → IsSound hash s
    → IsSound hash (run hash s calls)
unfolding run
run-IsSound hash s [] v = v
run-IsSound hash s (c ∷ calls) v = run-IsSound hash (step hash s c) calls (step-IsSound hash s c v)

pub with_budget-IsSound : (hash : Hash) (budget : ℕ) → IsSound hash (with_budget budget)
unfolding with_budget new lookup
with_budget-IsSound hash budget = record {
  valid = record { distinct = tt; counted = refl };
  hashed = λ j f held. absurd (ground arith);
  within = λ b eq. inl (omega arith);
}

entry_bytes-some :
    (o : Option Entry) (bytes : Bytes)
    → entry_bytes o ≡ some bytes
    → (e : Entry) × (o ≡ some e) × (e.bytes ≡ bytes)
entry_bytes-some none bytes h = absurd (ground arith)
entry_bytes-some (some e) bytes h = (e, refl, ground arith)

-- Whatever was called on a fresh store with a budget, the bytes that `get` hands out hash to the
-- id it was asked for.
pub get-run :
    (hash : Hash) (budget : ℕ) (calls : List Call) (id : DataId) (bytes : Bytes)
    → (get id (run hash (with_budget budget) calls)).1 ≡ some bytes
    → hash bytes ≡ id
unfolding get
get-run hash budget calls id bytes h =
    let s = run hash (with_budget budget) calls in
    let sound = run-IsSound hash (with_budget budget) calls (with_budget-IsSound hash budget) in
    let after = touch-IsSound hash id s sound in
    let (e, found, same) = entry_bytes-some (lookup id (touch id s).blobs) bytes h in
    ap hash (sym same) ∙ after.hashed id e found
