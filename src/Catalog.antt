-- ===== src/Catalog.antt =====
-- crates/aether-scheduler/src/locality.rs: which node holds which dataset.
-- The `HashMap` is an association list and the `HashSet` a list; each method of the shared,
-- locked catalog is one step on that state.
pub mod Holds
pub mod Run
mod Tests
use aether_mesh.Base.{
  ℕ, ◌+◌, ◌==◌, if◌then◌else◌, Bool, true, false, not, List, [], ◌∷◌, Option, none, some, length,
  contains, filter,
}
use aether_mesh.Base.Assoc.{lookup, insert, remove, nat_eq}
use aether_mesh.Task.{DataId, NodeId, DataDescriptor}

pub record Entry : Type 0 where
  pub descriptor : DataDescriptor
  pub locations : List NodeId

abbrev pub Catalog : Type 0
Catalog = List (DataId × Entry)

-- `HashSet::insert`, `HashSet::remove` and `HashSet::is_empty`.
unfoldable pub add_location : NodeId → List NodeId → List NodeId
add_location node_id locations =
    if contains locations node_id then locations else node_id ∷ locations

unfoldable pub drop_location : NodeId → List NodeId → List NodeId
drop_location node_id locations = filter (λ n. not (n == node_id)) locations

abbrev pub no_locations : List NodeId → Bool
no_locations [] = true
no_locations (n ∷ ns) = false

abbrev pub entry_or_new : DataDescriptor → Option Entry → Entry
entry_or_new descriptor none = record { descriptor = descriptor; locations = [] }
entry_or_new descriptor (some entry) = entry

-- `DataCatalog::record`.
unfoldable pub record_data : DataDescriptor → NodeId → Catalog → Catalog
record_data descriptor node_id catalog =
    let entry = entry_or_new descriptor (lookup descriptor.id catalog) in
    insert descriptor.id (record entry { locations = add_location node_id entry.locations }) catalog

abbrev pub put_or_drop : DataId → Entry → Catalog → Catalog
put_or_drop data_id entry catalog =
    if no_locations entry.locations then remove data_id catalog else insert data_id entry catalog

-- `DataCatalog::remove`.
unfoldable pub remove_data : DataId → NodeId → Catalog → Catalog
remove_data data_id node_id catalog = elim (lookup data_id catalog) [
  | none ↦ catalog
  | some entry ↦
      put_or_drop data_id (record entry { locations = drop_location node_id entry.locations })
        catalog
]

-- `retain` keeps an entry that still has a location.
abbrev pub keep_located : DataId → Entry → Catalog → Catalog
keep_located data_id entry rest =
    if no_locations entry.locations then rest else (data_id, entry) ∷ rest

unfoldable pub forget_node : NodeId → Catalog → Catalog
forget_node node_id [] = []
forget_node node_id ((data_id, entry) ∷ rest) =
    keep_located data_id (record entry { locations = drop_location node_id entry.locations })
      (forget_node node_id rest)

abbrev pub entry_descriptor : Option Entry → Option DataDescriptor
entry_descriptor none = none
entry_descriptor (some entry) = some entry.descriptor

unfoldable pub descriptor : DataId → Catalog → Option DataDescriptor
descriptor data_id catalog = entry_descriptor (lookup data_id catalog)

abbrev pub entry_locations : Option Entry → List NodeId
entry_locations none = []
entry_locations (some entry) = entry.locations

unfoldable pub locations : DataId → Catalog → List NodeId
locations data_id catalog = entry_locations (lookup data_id catalog)

unfoldable pub holds : DataId → NodeId → Catalog → Bool
holds data_id node_id catalog = contains (entry_locations (lookup data_id catalog)) node_id

abbrev pub bytes_at : NodeId → Option Entry → ℕ
bytes_at node_id none = 0
bytes_at node_id (some entry) =
    if contains entry.locations node_id then entry.descriptor.size_bytes else 0

unfoldable pub local_bytes : NodeId → List DataId → Catalog → ℕ
local_bytes node_id [] catalog = 0
local_bytes node_id (data_id ∷ inputs) catalog =
    bytes_at node_id (lookup data_id catalog) + local_bytes node_id inputs catalog

unfoldable pub held_by : NodeId → Catalog → ℕ × ℕ
held_by node_id [] = (0, 0)
held_by node_id ((data_id, entry) ∷ rest) =
    let (count, bytes) = held_by node_id rest in
    if contains entry.locations node_id
    then (count + 1, bytes + entry.descriptor.size_bytes)
    else (count, bytes)

unfoldable pub total_bytes : Catalog → ℕ
total_bytes [] = 0
total_bytes ((data_id, entry) ∷ rest) = entry.descriptor.size_bytes + total_bytes rest

unfoldable pub totals : Catalog → ℕ × ℕ
totals catalog = (length catalog, total_bytes catalog)
