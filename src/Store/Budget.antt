-- ===== src/Store/Budget.antt =====
-- The loop of `evict_over_budget`: what it drops, and that the number of blobs is fuel enough.
use aether_mesh.Base.{
  ◌<◌, ℕ, zero, suc, ◌≤◌, ◌==◌, ◌≡◌, refl, sym, ap, ◌∙◌, inl, inr, ◌⊎◌, true, false, Bool-cases,
  Option-cases, ltb, if◌then◌else◌, List, [], ◌∷◌, ◌++◌, Option, none, some, length, All, All-mono,
  contains, append_nil_eq, append_regroup, arith,
}
use aether_mesh.Base.Assoc.{lookup, nat_eq, lookup-remove}
use aether_mesh.Task.{DataId}
use aether_mesh.Store.{DataStore, Entry, drop_blob, oldest, evict_loop}
use aether_mesh.Store.Accounting.{IsValid, total-remove, drop_blob-some, drop_blob-IsValid}
use aether_mesh.Store.Evict.{IsOldest, oldest-IsOldest, oldest-none, filter-nil, All-filter-lookup}

-- Within the budget, or holding nothing but the blob to keep.
abbrev pub IsTight : DataId → ℕ → DataStore → Type 0
IsTight keep budget s = (s.bytes ≤ budget) ⊎ All (λ (b : DataId × Entry). b.0 ≡ keep) s.blobs

-- A dropped blob was held, and no blob that stays, other than the one to keep, was used before it.
abbrev pub IsOutlived : DataId → DataStore → DataStore → DataId → Type 0
IsOutlived keep s s' id =
    (old : Entry) × (lookup id s.blobs ≡ some old)
    × ((j : DataId) (e : Entry)
        → lookup j s'.blobs ≡ some e
        → (j == keep) ≡ false
        → old.used_at ≤ e.used_at)

-- The store is over the budget whenever one of the blobs is dropped, one after the other.
abbrev pub Overran : ℕ → DataStore → List DataId → Type 0
Overran budget s [] = Unit
Overran budget s (id ∷ gone) = (budget < s.bytes) × Overran budget (drop_blob id s).0 gone

-- `s'` is `s` without the blobs of `gone`, which are the ones used least recently.
pub record Evicted (keep : DataId) (s s' : DataStore) (gone : List DataId) : Type 0 where
  pub rest : (j : DataId) → lookup j s'.blobs ≡ (if contains gone j then none else lookup j s.blobs)
  pub kept : contains gone keep ≡ false
  pub by_use : All (IsOutlived keep s s') gone
  pub same_budget : s'.budget ≡ s.budget
  pub same_clock : s'.clock ≡ s.clock

pub Evicted-refl : (keep : DataId) (s : DataStore) → Evicted keep s s []
Evicted-refl keep s = record {
  rest = λ j. refl;
  kept = refl;
  by_use = tt;
  same_budget = refl;
  same_clock = refl;
}

pub drop_blob-lookup :
    (id j : DataId) (s : DataStore)
    → lookup j (drop_blob id s).0.blobs ≡ (if id == j then none else lookup j s.blobs)
unfolding drop_blob
drop_blob-lookup id j s = go (lookup id s.blobs) refl
  where
    go :
        (o : Option Entry)
        → lookup id s.blobs ≡ o
        → lookup j (drop_blob id s).0.blobs ≡ (if id == j then none else lookup j s.blobs)
    go none h = elim (Bool-cases (id == j)) [
      | inl same ↦
          let p : id ≡ j = ground arith in
          rw (h, drop_blob, same) (ap (λ x. lookup x s.blobs) (sym p) ∙ h)
      | inr apart ↦ rw (h, drop_blob, apart) refl
    ]
    go (some e) h = rw (h, drop_blob) (lookup-remove id j s.blobs)

-- One round, then the others.
Evicted-step :
    (keep id : DataId) (s s' : DataStore) (gone : List DataId)
    → IsOldest keep s id
    → Evicted keep (drop_blob id s).0 s' gone
    → Evicted keep s s' (id ∷ gone)
Evicted-step keep id s s' gone o v =
    let dropped = drop_blob-some id s o.entry o.found in
    let rest : (j : DataId)
        → lookup j s'.blobs ≡ (if contains (id ∷ gone) j then none else lookup j s.blobs) =
      λ j. ground (arith, v.rest j, drop_blob-lookup id j s) in
    record {
      rest = rest;
      kept = ground (arith, v.kept, o.other);
      by_use = (
        (
          o.entry,
          o.found,
          λ j e held apart.
              let there : lookup j s.blobs ≡ some e = ground (arith, rest j) in
              All-filter-lookup keep (λ b. o.entry.used_at ≤ b.1.used_at) s.blobs j e o.first there
                apart,
        ),
        All-mono (IsOutlived keep (drop_blob id s).0 s') (IsOutlived keep s s') gone
            (λ i h. (h.0, ground (arith, h.1, drop_blob-lookup id i s), h.2)) v.by_use,
      );
      same_budget = v.same_budget ∙ ap (λ (x : DataStore). x.budget) dropped;
      same_clock = v.same_clock ∙ ap (λ (x : DataStore). x.clock) dropped;
    }

module _ (keep : DataId) (budget : ℕ) where
  evict_loop-within :
      (fuel : ℕ) (s : DataStore) (evicted : List DataId)
      → ltb budget s.bytes ≡ false
      → evict_loop fuel keep budget s evicted ≡ (s, evicted)
  unfolding evict_loop
  evict_loop-within zero s evicted h = refl
  evict_loop-within (suc fuel) s evicted h = ground arith

  evict_loop-last :
      (fuel : ℕ) (s : DataStore) (evicted : List DataId)
      → oldest keep s ≡ none
      → evict_loop fuel keep budget s evicted ≡ (s, evicted)
  unfolding evict_loop
  evict_loop-last zero s evicted h = refl
  evict_loop-last (suc fuel) s evicted h = ground arith

  evict_loop-next :
      (fuel : ℕ) (s : DataStore) (evicted : List DataId) (id : DataId)
      → ltb budget s.bytes ≡ true
      → oldest keep s ≡ some id
      → evict_loop (suc fuel) keep budget s evicted
        ≡ evict_loop fuel keep budget (drop_blob id s).0 (evicted ++ (id ∷ []))
  unfolding evict_loop
  evict_loop-next fuel s evicted id h o = ground arith

  -- The outcome of the loop from `s`, with what it adds to `evicted`.
  pub record Outcome (fuel : ℕ) (s : DataStore) (evicted : List DataId) : Type 0 where
    pub final : DataStore
    pub gone : List DataId
    pub answer : evict_loop fuel keep budget s evicted ≡ (final, evicted ++ gone)
    pub valid : IsValid final
    pub tight : IsTight keep budget final
    pub eviction : Evicted keep s final gone
    pub needed : Overran budget s gone

  stop :
      (fuel : ℕ) (s : DataStore) (evicted : List DataId)
      → evict_loop fuel keep budget s evicted ≡ (s, evicted)
      → IsValid s
      → IsTight keep budget s
      → Outcome fuel s evicted
  stop fuel s evicted h v t = record {
    final = s;
    gone = [];
    answer = h ∙ ap (λ g. (s, g)) (sym (append_nil_eq evicted));
    valid = v;
    tight = t;
    eviction = Evicted-refl keep s;
    needed = tt;
  }

  last :
      (fuel : ℕ) (s : DataStore) (evicted : List DataId)
      → IsValid s
      → oldest keep s ≡ none
      → Outcome fuel s evicted
  last fuel s evicted v e =
      stop fuel s evicted (evict_loop-last fuel s evicted e) v
        (inr (filter-nil keep s.blobs (oldest-none keep s e)))

  length-drop_blob :
      (id : DataId) (s : DataStore)
      → IsValid s
      → IsOldest keep s id
      → suc (length (drop_blob id s).0.blobs) ≡ length s.blobs
  length-drop_blob id s v o =
      rw (drop_blob-some id s o.entry o.found)
        (total-remove id o.entry s.blobs v.distinct o.found).1

  pub evict_loop-Outcome :
      (fuel : ℕ) (s : DataStore) (evicted : List DataId)
      → length s.blobs ≤ fuel
      → IsValid s
      → Outcome fuel s evicted
  evict_loop-Outcome zero s evicted h v = elim (Option-cases (oldest keep s)) [
    | inl e ↦ last zero s evicted v e
    | inr (id, e) ↦
        let o = oldest-IsOldest keep s id v.distinct e in
        absurd (omega (arith, length-drop_blob id s v o, h))
  ]
  evict_loop-Outcome (suc n) s evicted h v = elim (Bool-cases (ltb budget s.bytes)) [
    | inr within ↦
        stop (suc n) s evicted (evict_loop-within (suc n) s evicted within) v (inl (ground arith))
    | inl over ↦ elim (Option-cases (oldest keep s)) [
      | inl e ↦ last (suc n) s evicted v e
      | inr (id, e) ↦
          let o = oldest-IsOldest keep s id v.distinct e in
          let r =
            evict_loop-Outcome n (drop_blob id s).0 (evicted ++ (id ∷ []))
              (omega (arith, length-drop_blob id s v o)) (drop_blob-IsValid id s v) in
          record {
            final = r.final;
            gone = id ∷ r.gone;
            answer =
                evict_loop-next n s evicted id over e
                ∙ r.answer
                ∙ ap (λ g. (r.final, g)) (append_regroup evicted (id ∷ []) r.gone);
            valid = r.valid;
            tight = r.tight;
            eviction = Evicted-step keep id s r.final r.gone o r.eviction;
            needed = (ground arith, r.needed);
          }
    ]
  ]
