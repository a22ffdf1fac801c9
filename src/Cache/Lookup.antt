-- ===== src/Cache/Lookup.antt =====
-- Maps from work to entries: filtered, and with room made.
use aether_mesh.Base.{
  suc, ◌-◌, ◌≤◌, ◌<◌, ◌≡◌, refl, sym, ap, ap₂, ◌∙◌, inl, inr, Bool, true, false, Bool-cases,
  Option-cases, List, [], ◌∷◌, some, length, filter, In, best, best-nil, best-some, best-get_elem?,
  In-get_elem?, arith,
}
use aether_mesh.Base.Assoc.{
  lookup, contains_key, insert, remove, IsMap, lookup-remove, contains_key-lookup, remove-IsMap,
}
use aether_mesh.Cache.Keys.{WorkKey, work_key_eq}
use aether_mesh.Cache.{Entry, stored_before, drop_oldest}

abbrev pub Entries : Type 0
Entries = List (WorkKey × Entry)

contains_key-filter :
    (p : WorkKey × Entry → Bool) (k : WorkKey) (m : Entries)
    → contains_key k m ≡ false
    → contains_key k (filter p m) ≡ false
unfolding contains_key
contains_key-filter p k [] h = refl
contains_key-filter p k ((j, e) ∷ m) h = ground (arith, contains_key-filter p k m)

pub filter-IsMap : (p : WorkKey × Entry → Bool) (m : Entries) → IsMap m → IsMap (filter p m)
filter-IsMap p [] u = tt
filter-IsMap p ((j, e) ∷ m) u = elim (Bool-cases (p (j, e))) [
  | inl kept ↦ rw kept (contains_key-filter p j m u.0, filter-IsMap p m u.1)
  | inr gone ↦ rw gone (filter-IsMap p m u.1)
]

-- An entry that is left is one that was there, and it passes the test.
pub lookup-filter :
    (p : WorkKey × Entry → Bool) (k : WorkKey) (e : Entry) (m : Entries)
    → IsMap m
    → lookup k (filter p m) ≡ some e
    → (lookup k m ≡ some e) × (p (k, e) ≡ true)
unfolding lookup
lookup-filter p k e [] u h = absurd (ground arith)
lookup-filter p k e ((j, f) ∷ m) u h = elim (Bool-cases (work_key_eq.beq j k)) [
  | inl same ↦
      let q : j ≡ k = (work_key_eq.beq_iff j k).0 same in
      let absent : contains_key k m ≡ false = ap (λ x. contains_key x m) (sym q) ∙ u.0 in
      let left = contains_key-filter p k m absent in
      let none_left = contains_key-lookup k (filter p m) in
      elim (Bool-cases (p (j, f))) [
        | inl kept ↦
            let found : some f ≡ some e = (rw (kept, same) at h) in
            let r : f ≡ e = ground arith in
            (rw same found, ap₂ (λ x y. p (x, y)) (sym q) (sym r) ∙ kept)
        | inr gone ↦
            let found : lookup k (filter p m) ≡ some e = (rw gone at h) in absurd (ground arith)
      ]
  | inr other ↦ elim (Bool-cases (p (j, f))) [
    | inl kept ↦ rw other (lookup-filter p k e m u.1 (rw (kept, other) at h))
    | inr gone ↦ rw other (lookup-filter p k e m u.1 (rw gone at h))
  ]
]

pub length-filter : (p : WorkKey × Entry → Bool) (m : Entries) → length (filter p m) ≤ length m
length-filter p [] = omega arith
length-filter p (e ∷ m) = ground (arith, length-filter p m)

pub length-insert : (k : WorkKey) (e : Entry) (m : Entries) → length (insert k e m) ≤ suc (length m)
unfolding insert
length-insert k e [] = omega arith
length-insert k e ((j, f) ∷ m) = ground (arith, length-insert k e m)

length-remove : (k : WorkKey) (m : Entries) → length (remove k m) ≤ length m
unfolding remove
length-remove k [] = omega arith
length-remove k ((j, f) ∷ m) = ground (arith, length-remove k m)

length-remove-In :
    (k : WorkKey) (e : Entry) (m : Entries) → In (k, e) m → length (remove k m) < length m
unfolding remove
length-remove-In k e [] h = absurd h
length-remove-In k e ((j, f) ∷ m) (inl h) =
    let p : k ≡ j = ap (λ (x : WorkKey × Entry). x.0) h in
    let same : work_key_eq.beq j k ≡ true = (work_key_eq.beq_iff j k).1 (sym p) in
    ground (arith, length-remove k m)
length-remove-In k e ((j, f) ∷ m) (inr h) =
    ground (arith, length-remove k m, length-remove-In k e m h)

-- Making room frees a place.
pub length-drop_oldest : (m : Entries) → length (drop_oldest m) ≤ length m - 1
unfolding drop_oldest
length-drop_oldest [] = rw (drop_oldest, best-nil stored_before) (omega arith)
length-drop_oldest (e ∷ m) =
    let (index, oldest, found) = best-some stored_before e m in
    let member =
      In-get_elem? (e ∷ m) index oldest (best-get_elem? stored_before (e ∷ m) index oldest found) in
    let less = length-remove-In oldest.0 oldest.1 (e ∷ m) member in
    rw (drop_oldest, found) (omega arith)

pub drop_oldest-IsMap : (m : Entries) → IsMap m → IsMap (drop_oldest m)
unfolding drop_oldest
drop_oldest-IsMap m u = elim (Option-cases (best stored_before m)) [
  | inl nothing ↦ rw (drop_oldest, nothing) u
  | inr ((index, oldest), found) ↦ rw (drop_oldest, found) (remove-IsMap oldest.0 m u)
]

-- Making room adds nothing.
pub lookup-drop_oldest :
    (k : WorkKey) (e : Entry) (m : Entries)
    → lookup k (drop_oldest m) ≡ some e
    → lookup k m ≡ some e
unfolding drop_oldest
lookup-drop_oldest k e m h = elim (Option-cases (best stored_before m)) [
  | inl nothing ↦ rw (drop_oldest, nothing) at h
  | inr ((index, oldest), found) ↦
      let left : lookup k (remove oldest.0 m) ≡ some e = (rw (drop_oldest, found) at h) in
      ground (arith, lookup-remove oldest.0 k m)
]
