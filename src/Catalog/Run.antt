-- ===== src/Catalog/Run.antt =====
-- Histories of calls on the catalog, and the relation that they stand for.
use aether_mesh.Base.{
  ◌==◌, ◌≡◌, refl, ap, sym, ◌∙◌, inl, inr, if◌then◌else◌, Bool, true, false, ◌&&◌, Bool-cases, List,
  [], ◌∷◌, Option, none, some, arith,
}
use aether_mesh.Base.Assoc.{lookup, insert, remove, nat_eq, IsMap, insert-IsMap, remove-IsMap}
use aether_mesh.Task.{DataId, NodeId, DataDescriptor}
use aether_mesh.Catalog.{
  Catalog, Entry, add_location, drop_location, no_locations, entry_or_new, record_data, remove_data,
  forget_node, holds,
}
use aether_mesh.Catalog.Holds.{
  holds-record, holds-remove, holds-forget, forget-contains_key, remove_data-none, remove_data-some,
}

pub data Op : Type 0 where
  records : (descriptor : DataDescriptor) (node_id : NodeId) → Op
  removes : (data_id : DataId) (node_id : NodeId) → Op
  forgets : (node_id : NodeId) → Op

unfoldable pub step : Op → Catalog → Catalog
step (records d m) c = record_data d m c
step (removes d m) c = remove_data d m c
step (forgets m) c = forget_node m c

-- The catalog after a history, whose latest call stands first.
unfoldable pub run : List Op → Catalog
run [] = []
run (op ∷ older) = step op (run older)

-- Whether a node holds a dataset after a history, told by the latest call that speaks of both.
abbrev pub held : List Op → DataId → NodeId → Bool
held [] k n = false
held (records d m ∷ older) k n = if d.id == k && m == n then true else held older k n
held (removes d m ∷ older) k n = if d == k && n == m then false else held older k n
held (forgets m ∷ older) k n = if n == m then false else held older k n

-- An entry has a location, and is the descriptor of its own key.
abbrev pub IsLocated : DataId → Entry → Type 0
IsLocated k e = (no_locations e.locations ≡ false) × (e.descriptor.id ≡ k)

abbrev pub AllLocated : Catalog → Type 0
AllLocated [] = Unit
AllLocated ((k, e) ∷ c) = IsLocated k e × AllLocated c

pub record IsValid (c : Catalog) : Type 0 where
  pub distinct : IsMap c
  pub located : AllLocated c

insert-AllLocated :
    (k : DataId) (e : Entry) (c : Catalog)
    → IsLocated k e
    → AllLocated c
    → AllLocated (insert k e c)
unfolding insert
insert-AllLocated k e [] h all = (h, tt)
insert-AllLocated k e ((j, w) ∷ c) h all = elim (Bool-cases (j == k)) [
  | inl same ↦ rw same (h, all.1)
  | inr other ↦ rw other (all.0, insert-AllLocated k e c h all.1)
]

remove-AllLocated : (k : DataId) (c : Catalog) → AllLocated c → AllLocated (remove k c)
unfolding remove
remove-AllLocated k [] all = tt
remove-AllLocated k ((j, w) ∷ c) all = elim (Bool-cases (j == k)) [
  | inl same ↦ rw same (remove-AllLocated k c all.1)
  | inr other ↦ rw other (all.0, remove-AllLocated k c all.1)
]

forget-AllLocated : (m : NodeId) (c : Catalog) → AllLocated c → AllLocated (forget_node m c)
unfolding forget_node
forget-AllLocated m [] all = tt
forget-AllLocated m ((k, e) ∷ c) all =
    let ih = forget-AllLocated m c all.1 in
    elim (Bool-cases (no_locations (drop_location m e.locations))) [
      | inl gone ↦ rw gone ih
      | inr kept ↦ rw kept ((kept, all.0.1), ih)
    ]

pub forget-IsMap : (m : NodeId) (c : Catalog) → IsMap c → IsMap (forget_node m c)
unfolding forget_node
forget-IsMap m [] u = tt
forget-IsMap m ((k, e) ∷ c) u =
    let ih = forget-IsMap m c u.1 in
    elim (Bool-cases (no_locations (drop_location m e.locations))) [
      | inl gone ↦ rw gone ih
      | inr kept ↦ rw kept (forget-contains_key m k c u.0, ih)
    ]

lookup-IsLocated :
    (k : DataId) (c : Catalog) (e : Entry) → AllLocated c → lookup k c ≡ some e → IsLocated k e
unfolding lookup
lookup-IsLocated k [] e all h = absurd (ground arith)
lookup-IsLocated k ((j, w) ∷ c) e all h = elim (Bool-cases (j == k)) [
  | inl same ↦
      let p : j ≡ k = ground arith in
      let q : w ≡ e = ground arith in
      (
        ap (λ (x : Entry). no_locations x.locations) (sym q) ∙ all.0.0,
        ap (λ (x : Entry). x.descriptor.id) (sym q) ∙ all.0.1 ∙ p,
      )
  | inr other ↦ lookup-IsLocated k c e all.1 (ground arith)
]

add-no_locations : (m : NodeId) (ns : List NodeId) → no_locations (add_location m ns) ≡ false
unfolding add_location
add-no_locations m [] = refl
add-no_locations m (n ∷ ns) = ground arith

entry_or_new-id :
    (d : DataDescriptor) (c : Catalog) (o : Option Entry)
    → AllLocated c
    → lookup d.id c ≡ o
    → (entry_or_new d o).descriptor.id ≡ d.id
entry_or_new-id d c none all h = refl
entry_or_new-id d c (some e) all h = (lookup-IsLocated d.id c e all h).1

step-IsValid : (op : Op) (c : Catalog) → IsValid c → IsValid (step op c)
unfolding step record_data
step-IsValid (records d m) c v =
    let old = entry_or_new d (lookup d.id c) in
    let new = record old { locations = add_location m old.locations } in
    record {
      distinct = insert-IsMap d.id new c v.distinct;
      located =
          insert-AllLocated d.id new c
            (add-no_locations m old.locations, entry_or_new-id d c (lookup d.id c) v.located refl)
            v.located;
    }
step-IsValid (removes d m) c v = go (lookup d c) refl
  where
    go : (o : Option Entry) → lookup d c ≡ o → IsValid (remove_data d m c)
    go none h = rw (remove_data-none d m c h) v
    go (some e) h =
        let new = record e { locations = drop_location m e.locations } in
        rw (remove_data-some d m c e h) (elim (Bool-cases (no_locations new.locations)) [
          | inl gone ↦ rw gone (record {
            distinct = remove-IsMap d c v.distinct;
            located = remove-AllLocated d c v.located;
          })
          | inr kept ↦ rw kept (record {
            distinct = insert-IsMap d new c v.distinct;
            located =
                insert-AllLocated d new c (kept, (lookup-IsLocated d c e v.located h).1) v.located;
          })
        ])
step-IsValid (forgets m) c v = record {
  distinct = forget-IsMap m c v.distinct;
  located = forget-AllLocated m c v.located;
}

-- After any history the keys are distinct, every entry has a location, and its descriptor is that
-- of its key: a dataset that no node holds is not remembered.
pub run-IsValid : (history : List Op) → IsValid (run history)
unfolding run
run-IsValid [] = record { distinct = tt; located = tt }
run-IsValid (op ∷ older) = step-IsValid op (run older) (run-IsValid older)

-- After any history a node holds a dataset exactly if the latest call that speaks of that node
-- and that dataset, or that forgets that node, recorded it.
pub holds-run :
    (history : List Op) (k : DataId) (n : NodeId) → holds k n (run history) ≡ held history k n
unfolding run step
holds-run [] k n = unfold holds lookup in refl
holds-run (records d m ∷ older) k n =
    ground (arith, holds-record d m (run older) k n, holds-run older k n)
holds-run (removes d m ∷ older) k n =
    ground (arith, holds-remove d m (run older) k n, holds-run older k n)
holds-run (forgets m ∷ older) k n =
    ground (arith, holds-forget m (run older) k n (run-IsValid older).distinct, holds-run older k n)
