-- ===== src/Store/Evict.antt =====
-- The choice of the next blob to drop.
use aether_mesh.Base.{
  ℕ, ◌≤◌, ◌==◌, ◌≡◌, refl, sym, ap, ◌∙◌, inl, inr, true, false, Bool-cases, List, [], ◌∷◌, Option,
  none, some, filter, All, In, best, best_bound, best-get_elem?, best-some, In-get_elem?, arith,
}
use aether_mesh.Base.Assoc.{lookup, contains_key, nat_eq, IsMap, contains_key-lookup}
use aether_mesh.Task.{DataId}
use aether_mesh.Store.{DataStore, Entry, older, is_other, oldest}

pub filter-nil :
    (keep : DataId) (m : List (DataId × Entry))
    → filter (is_other keep) m ≡ []
    → All (λ (b : DataId × Entry). b.0 ≡ keep) m
filter-nil keep [] h = tt
filter-nil keep ((i, e) ∷ m) h = elim (Bool-cases (i == keep)) [
  | inl same ↦ (ground arith, filter-nil keep m (ground arith))
  | inr other ↦ absurd (ground arith)
]

lookup-contains_key :
    (k : DataId) (e : Entry) (m : List (DataId × Entry))
    → lookup k m ≡ some e
    → contains_key k m ≡ true
lookup-contains_key k e m h = ground (arith, contains_key-lookup k m)

-- An element of the map that is not the one to keep is found under its key.
In-filter-lookup :
    (keep : DataId) (m : List (DataId × Entry)) (i : DataId) (e : Entry)
    → IsMap m
    → In (i, e) (filter (is_other keep) m)
    → (lookup i m ≡ some e) × ((i == keep) ≡ false)
unfolding lookup
In-filter-lookup keep [] i e u h = absurd h
In-filter-lookup keep ((j, f) ∷ m) i e u h = elim (Bool-cases (j == keep)) [
  | inl same ↦
      let ih = In-filter-lookup keep m i e u.1 (rw same at h) in (ground (arith, ih.0, ih.1), ih.1)
  | inr other ↦ (elim (rw other at h) [
    | inl here ↦
        let p : i ≡ j = ap (λ (b : DataId × Entry). b.0) here in
        let q : e ≡ f = ap (λ (b : DataId × Entry). b.1) here in (ground arith, ground arith)
    | inr later ↦
        let ih = In-filter-lookup keep m i e u.1 later in
        let present = lookup-contains_key i e m ih.0 in
        let absent : ((j == i) ≡ true) → contains_key i m ≡ false =
          λ eq. let p : j ≡ i = ground arith in ap (λ x. contains_key x m) (sym p) ∙ u.0 in
        elim (Bool-cases (j == i)) [
          | inl eq ↦ let no = absent eq in absurd (ground arith)
          | inr apart ↦ rw apart ih
        ]
  ])
]

pub All-filter-lookup :
    (keep : DataId) (P : DataId × Entry → Type 0) (m : List (DataId × Entry)) (i : DataId)
    (e : Entry)
    → All P (filter (is_other keep) m)
    → lookup i m ≡ some e
    → (i == keep) ≡ false
    → P (i, e)
unfolding lookup
All-filter-lookup keep P [] i e a h apart = absurd (ground arith)
All-filter-lookup keep P ((j, f) ∷ m) i e a h apart = elim (Bool-cases (j == i)) [
  | inl same ↦
      let p : j ≡ i = ground arith in
      let q : f ≡ e = ground arith in
      let other : (j == keep) ≡ false = ground arith in
      let all = (rw other at a) in rw (← p, ← q) all.0
  | inr differ ↦
      let found : lookup i m ≡ some e = ground arith in
      elim (Bool-cases (j == keep)) [
        | inl kept ↦ All-filter-lookup keep P m i e (rw kept at a) found apart
        | inr other ↦ let all = (rw other at a) in All-filter-lookup keep P m i e all.1 found apart
      ]
]

-- What `oldest` finds: a blob of the store that may go, used no later than any other such blob.
pub record IsOldest (keep : DataId) (s : DataStore) (id : DataId) : Type 0 where
  pub entry : Entry
  pub found : lookup id s.blobs ≡ some entry
  pub other : (id == keep) ≡ false
  pub first :
      All (λ (b : DataId × Entry). entry.used_at ≤ b.1.used_at) (filter (is_other keep) s.blobs)

pub oldest-IsOldest :
    (keep : DataId) (s : DataStore) (id : DataId)
    → IsMap s.blobs
    → oldest keep s ≡ some id
    → IsOldest keep s id
unfolding oldest
oldest-IsOldest keep s id u h = go (best older (filter (is_other keep) s.blobs)) refl
  where
    go :
        (o : Option (ℕ × (DataId × Entry)))
        → best older (filter (is_other keep) s.blobs) ≡ o
        → IsOldest keep s id
    go none e = absurd (ground arith)
    go (some (index, (i, entry))) e =
        let p : i ≡ id = ground arith in
        let at_index = best-get_elem? older (filter (is_other keep) s.blobs) index (i, entry) e in
        let member = In-get_elem? (filter (is_other keep) s.blobs) index (i, entry) at_index in
        let held = In-filter-lookup keep s.blobs i entry u member in
        let bound =
          best_bound older (λ (a x : DataId × Entry). a.1.used_at ≤ x.1.used_at) (λ a. omega arith)
            (λ a b c h1 h2. omega arith) (λ x a h1. ground arith) (λ x a h1. ground arith)
            (filter (is_other keep) s.blobs) index (i, entry) e in
        rw (← p) (record { entry = entry; found = held.0; other = held.1; first = bound })

pub oldest-none :
    (keep : DataId) (s : DataStore) → oldest keep s ≡ none → filter (is_other keep) s.blobs ≡ []
unfolding oldest
oldest-none keep s h = go (filter (is_other keep) s.blobs) refl
  where
    go :
        (m : List (DataId × Entry))
        → filter (is_other keep) s.blobs ≡ m
        → filter (is_other keep) s.blobs ≡ []
    go [] e = e
    go (b ∷ m) e =
        let (index, blob, found) = best-some older b m in
        let whole : best older (filter (is_other keep) s.blobs) ≡ some (index, blob) =
          ap (best older) e ∙ found in
        absurd (ground arith)
