-- ===== src/Store/Accounting.antt =====
-- The byte count of the store, and that an operation keeps it and the keys of the map distinct.
use aether_mesh.Base.{
  ℕ, suc, ◌+◌, ◌-◌, ◌==◌, ◌≡◌, refl, sym, ap, ◌∙◌, inl, inr, false, Bool-cases, List, [], ◌∷◌,
  Option, none, some, length, arith,
}
use aether_mesh.Base.Assoc.{
  lookup, contains_key, insert, remove, nat_eq, IsMap, insert-IsMap, remove-IsMap,
}
use aether_mesh.Task.{DataId, Bytes}
use aether_mesh.Store.{DataStore, Entry, tick, touch, drop_blob, add_blob}

abbrev pub total : List (DataId × Entry) → ℕ
total [] = 0
total ((id, entry) ∷ m) = length entry.bytes + total m

pub total-insert_fresh :
    (k : DataId) (v : Entry) (m : List (DataId × Entry))
    → contains_key k m ≡ false
    → total (insert k v m) ≡ total m + length v.bytes
unfolding insert contains_key
total-insert_fresh k v [] h = omega arith
total-insert_fresh k v ((i, w) ∷ m) h = ground (arith, total-insert_fresh k v m)

pub length-insert_fresh :
    (k : DataId) (v : Entry) (m : List (DataId × Entry))
    → contains_key k m ≡ false
    → length (insert k v m) ≡ suc (length m)
unfolding insert contains_key
length-insert_fresh k v [] h = refl
length-insert_fresh k v ((i, w) ∷ m) h = ground (arith, length-insert_fresh k v m)

pub total-insert_same :
    (k : DataId) (v old : Entry) (m : List (DataId × Entry))
    → lookup k m ≡ some old
    → length v.bytes ≡ length old.bytes
    → (total (insert k v m) ≡ total m) × (length (insert k v m) ≡ length m)
unfolding insert lookup
total-insert_same k v old [] h e = absurd (ground arith)
total-insert_same k v old ((i, w) ∷ m) h e = elim (Bool-cases (i == k)) [
  | inl same ↦
      let p : w ≡ old = ground arith in
      rw same (omega (arith, ap (λ (x : Entry). length x.bytes) p), refl)
  | inr other ↦
      let found : lookup k m ≡ some old = ground arith in
      let ih = total-insert_same k v old m found e in rw other (omega (arith, ih.0), ap suc ih.1)
]

pub remove_absent :
    (k : DataId) (m : List (DataId × Entry)) → contains_key k m ≡ false → remove k m ≡ m
unfolding remove contains_key
remove_absent k [] h = refl
remove_absent k ((i, w) ∷ m) h = ground (arith, remove_absent k m)

pub total-remove :
    (k : DataId) (old : Entry) (m : List (DataId × Entry))
    → IsMap m
    → lookup k m ≡ some old
    → (total (remove k m) + length old.bytes ≡ total m) × (suc (length (remove k m)) ≡ length m)
unfolding remove lookup
total-remove k old [] u h = absurd (ground arith)
total-remove k old ((i, w) ∷ m) u h = elim (Bool-cases (i == k)) [
  | inl same ↦
      let p : w ≡ old = ground arith in
      let q : i ≡ k = ground arith in
      let gone : remove k m ≡ m = remove_absent k m (ap (λ x. contains_key x m) (sym q) ∙ u.0) in
      rw (same, gone) (omega (arith, ap (λ (x : Entry). length x.bytes) p), refl)
  | inr other ↦
      let found : lookup k m ≡ some old = ground arith in
      let ih = total-remove k old m u.1 found in rw other (omega (arith, ih.0), ap suc ih.1)
]

-- The keys are distinct and `bytes` is what the blobs hold together.
pub record IsValid (s : DataStore) : Type 0 where
  pub distinct : IsMap s.blobs
  pub counted : s.bytes ≡ total s.blobs

pub touch-IsValid : (id : DataId) (s : DataStore) → IsValid s → IsValid (touch id s)
unfolding touch
touch-IsValid id s v = go (lookup id s.blobs) refl
  where
    go : (o : Option Entry) → lookup id s.blobs ≡ o → IsValid (touch id s)
    go none h = rw (h, touch) (record { distinct = v.distinct; counted = v.counted })
    go (some e) h =
        rw (h, touch)
          (record {
            distinct = insert-IsMap id _ s.blobs v.distinct;
            counted =
                v.counted
                ∙ sym (total-insert_same id (record e { used_at = tick s }) e s.blobs h refl).0;
          })

pub drop_blob-some :
    (id : DataId) (s : DataStore) (e : Entry)
    → lookup id s.blobs ≡ some e
    → (drop_blob id s).0 ≡ record s { blobs = remove id s.blobs; bytes = s.bytes - length e.bytes }
unfolding drop_blob
drop_blob-some id s e h = rw (h, drop_blob) refl

pub drop_blob-none :
    (id : DataId) (s : DataStore) → lookup id s.blobs ≡ none → (drop_blob id s).0 ≡ s
unfolding drop_blob
drop_blob-none id s h = rw (h, drop_blob) refl

pub drop_blob-IsValid : (id : DataId) (s : DataStore) → IsValid s → IsValid (drop_blob id s).0
drop_blob-IsValid id s v = go (lookup id s.blobs) refl
  where
    go : (o : Option Entry) → lookup id s.blobs ≡ o → IsValid (drop_blob id s).0
    go none h = rw (drop_blob-none id s h) v
    go (some e) h = rw (drop_blob-some id s e h) (record {
      distinct = remove-IsMap id s.blobs v.distinct;
      counted = omega (arith, v.counted, (total-remove id e s.blobs v.distinct h).0);
    })

pub add_blob-IsValid :
    (id : DataId) (bytes : Bytes) (s : DataStore)
    → contains_key id s.blobs ≡ false
    → IsValid s
    → IsValid (add_blob id bytes s)
add_blob-IsValid id bytes s h v = record {
  distinct = insert-IsMap id _ s.blobs v.distinct;
  counted = omega (
    arith,
    v.counted,
    total-insert_fresh id (record { bytes = bytes; used_at = tick s }) s.blobs h,
  );
}
