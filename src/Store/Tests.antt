-- ===== src/Store/Tests.antt =====
-- Runs of the store, and the theorems of Put and Run applied to them.
use aether_mesh.Base.{◌≡◌, refl, false, List, [], ◌∷◌, some, sum, best}
use aether_mesh.Base.Assoc.{lookup, contains_key, insert, remove, nat_eq}
use aether_mesh.Task.{Hash}
use aether_mesh.Store.{
  DataStore, touch, drop_blob, oldest, evict_loop, evict_over_budget, store, put_evicting, get,
  with_budget, new,
}
use aether_mesh.Store.Put.{Stores, put-Stores}
use aether_mesh.Store.Run.{Call, put, read, step, run, IsSound, run-IsSound, with_budget-IsSound}

-- A stand-in for the hash.
abbrev weigh : Hash
weigh bytes = sum bytes

-- Two blobs of two bytes each, the first of them read again.
abbrev filled : List Call
filled = put (1 ∷ 1 ∷ []) ∷ put (3 ∷ 3 ∷ []) ∷ read 2 ∷ []

abbrev small : DataStore
small = run weigh (with_budget 5) filled

-- The blob under 6 was used least recently, and goes when a third one comes.
evicts_oldest : (put_evicting weigh (5 ∷ 5 ∷ []) small).1.1 ≡ 6 ∷ []
unfolding put_evicting store evict_over_budget evict_loop oldest drop_blob touch get step run
    with_budget new lookup contains_key insert remove best
evicts_oldest = refl

still_fits : (run weigh (with_budget 5) filled).bytes ≡ 4
unfolding put_evicting store evict_over_budget evict_loop oldest drop_blob touch get step run
    with_budget new lookup contains_key insert remove
still_fits = refl

not_held : contains_key (weigh (5 ∷ 5 ∷ [])) small.blobs ≡ false
unfolding put_evicting store evict_over_budget evict_loop oldest drop_blob touch get step run
    with_budget new lookup contains_key insert remove
not_held = refl

reads_back : (get 2 small).1 ≡ some (1 ∷ 1 ∷ [])
unfolding put_evicting store evict_over_budget evict_loop oldest drop_blob touch get step run
    with_budget new lookup contains_key insert remove
reads_back = refl

small-IsSound : IsSound weigh small
small-IsSound = run-IsSound weigh (with_budget 5) filled (with_budget-IsSound weigh 5)

run-IsSound_example : IsSound weigh small
run-IsSound_example = run-IsSound weigh (with_budget 5) filled (with_budget-IsSound weigh 5)

put-Stores_example :
    let r = put_evicting weigh (5 ∷ 5 ∷ []) small in Stores weigh (5 ∷ 5 ∷ []) small r.0 r.1.1
put-Stores_example = put-Stores weigh (5 ∷ 5 ∷ []) small small-IsSound.valid not_held
