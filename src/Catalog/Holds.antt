-- ===== src/Catalog/Holds.antt =====
-- The catalog as a relation between datasets and nodes, and its invariant.
use aether_mesh.Base.{
  ◌==◌, ◌≡◌, refl, ap, sym, ◌∙◌, inl, inr, if◌then◌else◌, true, false, not, ◌&&◌, ◌||◌, Bool-cases,
  List, [], ◌∷◌, Option, none, some, contains, arith,
}
use aether_mesh.Base.Assoc.{
  lookup, contains_key, nat_eq, IsMap, lookup-insert, lookup-remove, contains_key-lookup,
}
use aether_mesh.Task.{DataId, NodeId, DataDescriptor}
use aether_mesh.Catalog.{
  Catalog, Entry, add_location, drop_location, no_locations, entry_or_new, entry_locations,
  record_data, remove_data, put_or_drop, forget_node, holds,
}

contains-add :
    (m n : NodeId) (ns : List NodeId) → contains (add_location m ns) n ≡ (m == n || contains ns n)
unfolding add_location
contains-add m n ns = elim (Bool-cases (m == n)) [
  | inl same ↦ let e : m ≡ n = ground arith in ground (arith, ap (contains ns) e)
  | inr other ↦ ground arith
]

contains-drop :
    (m n : NodeId) (ns : List NodeId)
    → contains (drop_location m ns) n ≡ (not (n == m) && contains ns n)
unfolding drop_location
contains-drop m n [] = ground arith
contains-drop m n (x ∷ ns) = ground (arith, contains-drop m n ns)

no_locations-contains :
    (n : NodeId) (ns : List NodeId) → no_locations ns ≡ true → contains ns n ≡ false
no_locations-contains n [] h = refl
no_locations-contains n (x ∷ ns) h = absurd (ground arith)

entry_or_new-locations :
    (d : DataDescriptor) (o : Option Entry) → (entry_or_new d o).locations ≡ entry_locations o
entry_or_new-locations d none = refl
entry_or_new-locations d (some e) = refl

-- A node holds a dataset after `record` exactly if it did before or is the one recorded.
pub holds-record :
    (d : DataDescriptor) (m : NodeId) (c : Catalog) (k : DataId) (n : NodeId)
    → holds k n (record_data d m c) ≡ ((d.id == k && m == n) || holds k n c)
unfolding holds record_data
holds-record d m c k n =
    let old = entry_or_new d (lookup d.id c) in
    let new = record old { locations = add_location m old.locations } in
    let found = lookup-insert d.id k new c in
    let added = contains-add m n old.locations in
    let before = entry_or_new-locations d (lookup d.id c) in
    elim (Bool-cases (d.id == k)) [
      | inl same ↦
          let e : d.id ≡ k = ground arith in
          let same_lookup = ap (λ (x : DataId). contains (entry_locations (lookup x c)) n) e in
          rw (found, same, added, before, same_lookup) refl
      | inr other ↦ rw (found, other) refl
    ]

abbrev unless_empty : Entry → Option Entry
unless_empty e = if no_locations e.locations then none else some e

lookup-put_or_drop :
    (d k : DataId) (e : Entry) (c : Catalog)
    → lookup k (put_or_drop d e c) ≡ (if d == k then unless_empty e else lookup k c)
lookup-put_or_drop d k e c = elim (Bool-cases (no_locations e.locations)) [
  | inl gone ↦ rw (gone, lookup-remove d k c) refl
  | inr kept ↦ rw (kept, lookup-insert d k e c) refl
]

contains-unless_empty :
    (n : NodeId) (e : Entry)
    → contains (entry_locations (unless_empty e)) n ≡ contains e.locations n
contains-unless_empty n e = elim (Bool-cases (no_locations e.locations)) [
  | inl gone ↦ rw (gone, no_locations-contains n e.locations gone) refl
  | inr kept ↦ rw kept refl
]

pub remove_data-none :
    (d : DataId) (m : NodeId) (c : Catalog) → lookup d c ≡ none → remove_data d m c ≡ c
unfolding remove_data
remove_data-none d m c h = ground arith

pub remove_data-some :
    (d : DataId) (m : NodeId) (c : Catalog) (e : Entry)
    → lookup d c ≡ some e
    → remove_data d m c ≡ put_or_drop d (record e { locations = drop_location m e.locations }) c
unfolding remove_data
remove_data-some d m c e h = ground arith

-- A node holds a dataset after `remove` exactly if it did before and is not the one removed.
pub holds-remove :
    (d : DataId) (m : NodeId) (c : Catalog) (k : DataId) (n : NodeId)
    → holds k n (remove_data d m c) ≡ (not (d == k && n == m) && holds k n c)
unfolding holds
holds-remove d m c k n = go (lookup d c) refl
  where
    go :
        (o : Option Entry)
        → lookup d c ≡ o
        → holds k n (remove_data d m c) ≡ (not (d == k && n == m) && holds k n c)
    go none h = elim (Bool-cases (d == k)) [
      | inl same ↦
          let e : d ≡ k = ground arith in
          let absent : lookup k c ≡ none = ap (λ (x : DataId). lookup x c) (sym e) ∙ h in
          rw (remove_data-none d m c h, absent) (ground arith)
      | inr other ↦ rw (remove_data-none d m c h, other) refl
    ]
    go (some e) h =
        let new = record e { locations = drop_location m e.locations } in
        elim (Bool-cases (d == k)) [
          | inl same ↦
              let p : d ≡ k = ground arith in
              let found : lookup k c ≡ some e = ap (λ (x : DataId). lookup x c) (sym p) ∙ h in
              rw
                (
                  remove_data-some d m c e h,
                  lookup-put_or_drop d k new c,
                  same,
                  found,
                  contains-unless_empty n new,
                  contains-drop m n e.locations,
                )
                (ground arith)
          | inr other ↦ rw (remove_data-some d m c e h, lookup-put_or_drop d k new c, other) refl
        ]

lookup_absent : (k : DataId) (c : Catalog) → contains_key k c ≡ false → lookup k c ≡ none
lookup_absent k c h = ground (arith, contains_key-lookup k c)

pub forget-contains_key :
    (m : NodeId) (k : DataId) (c : Catalog)
    → contains_key k c ≡ false
    → contains_key k (forget_node m c) ≡ false
unfolding forget_node contains_key
forget-contains_key m k [] h = refl
forget-contains_key m k ((d, e) ∷ c) h = ground (arith, forget-contains_key m k c)

-- A node holds a dataset after `forget_node` exactly if it did before and is not the one
-- forgotten.
pub holds-forget :
    (m : NodeId) (c : Catalog) (k : DataId) (n : NodeId)
    → IsMap c
    → holds k n (forget_node m c) ≡ (not (n == m) && holds k n c)
unfolding holds forget_node lookup
holds-forget m [] k n u = ground arith
holds-forget m ((d, e) ∷ c) k n u =
    let new = record e { locations = drop_location m e.locations } in
    let dropped = contains-drop m n e.locations in
    let ih = holds-forget m c k n u.1 in
    elim (Bool-cases (d == k)) [
      | inl same ↦
          let p : d ≡ k = ground arith in
          let absent : lookup k (forget_node m c) ≡ none =
            lookup_absent k (forget_node m c)
              (forget-contains_key m k c (ap (λ (x : DataId). contains_key x c) (sym p) ∙ u.0)) in
          elim (Bool-cases (no_locations new.locations)) [
            | inl gone ↦
                rw (gone, same, absent)
                  (ground (arith, dropped, no_locations-contains n new.locations gone))
            | inr kept ↦ rw (kept, same, dropped) refl
          ]
      | inr other ↦ elim (Bool-cases (no_locations new.locations)) [
        | inl gone ↦ rw (gone, other) ih
        | inr kept ↦ rw (kept, other) ih
      ]
    ]
