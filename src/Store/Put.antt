-- ===== src/Store/Put.antt =====
-- What storing new bytes does.
use aether_mesh.Base.{
  ℕ, ◌≡◌, refl, ◌∙◌, inl, inr, true, false, Option-cases, List, [], none, some, length, arith,
}
use aether_mesh.Base.Assoc.{lookup, contains_key, nat_eq, lookup-insert_self}
use aether_mesh.Task.{DataId, Bytes, Hash}
use aether_mesh.Store.{
  DataStore, tick, touch, add_blob, evict_loop, evict_over_budget, store, put_evicting,
}
use aether_mesh.Store.Accounting.{IsValid, add_blob-IsValid}
use aether_mesh.Store.Budget.{Overran, IsTight, Evicted, Evicted-refl, evict_loop-Outcome}

-- The eviction from `s` for `keep` ends in `final`, having dropped `gone`.
pub record Evicts (keep : DataId) (s : DataStore) : Type 0 where
  pub final : DataStore
  pub gone : List DataId
  pub answer : evict_over_budget keep s ≡ (final, gone)
  pub valid : IsValid final
  pub tight : (budget : ℕ) → s.budget ≡ some budget → IsTight keep budget final
  pub unbounded : s.budget ≡ none → gone ≡ []
  pub eviction : Evicted keep s final gone
  pub needed : (budget : ℕ) → s.budget ≡ some budget → Overran budget s gone

evict_over_budget-none :
    (keep : DataId) (s : DataStore) → s.budget ≡ none → evict_over_budget keep s ≡ (s, [])
unfolding evict_over_budget
evict_over_budget-none keep s h = ground arith

evict_over_budget-some :
    (keep : DataId) (s : DataStore) (budget : ℕ)
    → s.budget ≡ some budget
    → evict_over_budget keep s ≡ evict_loop (length s.blobs) keep budget s []
unfolding evict_over_budget
evict_over_budget-some keep s budget h = ground arith

pub evict_over_budget-Evicts : (keep : DataId) (s : DataStore) → IsValid s → Evicts keep s
evict_over_budget-Evicts keep s v = elim (Option-cases s.budget) [
  | inl h ↦ record {
    final = s;
    gone = [];
    answer = evict_over_budget-none keep s h;
    valid = v;
    tight = λ budget h1. absurd (ground arith);
    unbounded = λ h1. refl;
    eviction = Evicted-refl keep s;
    needed = λ budget h1. tt;
  }
  | inr (budget, h) ↦
      let r = evict_loop-Outcome keep budget (length s.blobs) s [] (omega arith) v in
      record {
        final = r.final;
        gone = r.gone;
        answer = evict_over_budget-some keep s budget h ∙ r.answer;
        valid = r.valid;
        tight = λ b h1. let p : budget ≡ b = ground arith in rw (← p) r.tight;
        unbounded = λ h1. absurd (ground arith);
        eviction = r.eviction;
        needed = λ b h1. let p : budget ≡ b = ground arith in rw (← p) r.needed;
      }
]

-- What `put_evicting` does with bytes that the store does not hold yet.
pub record Stores (hash : Hash) (bytes : Bytes) (s s' : DataStore) (gone : List DataId)
    : Type 0 where
  pub found : lookup (hash bytes) s'.blobs ≡ some (record { bytes = bytes; used_at = tick s })
  pub tight : (budget : ℕ) → s.budget ≡ some budget → IsTight (hash bytes) budget s'
  pub unbounded : s.budget ≡ none → gone ≡ []
  pub eviction : Evicted (hash bytes) (add_blob (hash bytes) bytes s) s' gone
  pub needed :
      (budget : ℕ) → s.budget ≡ some budget → Overran budget (add_blob (hash bytes) bytes s) gone

pub store-new :
    (id : DataId) (bytes : Bytes) (s : DataStore)
    → contains_key id s.blobs ≡ false
    → store id bytes s ≡ evict_over_budget id (add_blob id bytes s)
unfolding store
store-new id bytes s h = rw (h, store) refl

pub store-old :
    (id : DataId) (bytes : Bytes) (s : DataStore)
    → contains_key id s.blobs ≡ true
    → store id bytes s ≡ (touch id s, [])
unfolding store
store-old id bytes s h = rw (h, store) refl

-- Storing new bytes keeps them. Without a budget nothing is dropped. With one, blobs are dropped one
-- by one, those used least recently: each while the bytes held are more than the budget, and at the
-- end they are not, or nothing but the new bytes is left. All other blobs stay as they are. The
-- premises are that the store is valid and does not hold the bytes yet.
pub put-Stores :
    (hash : Hash) (bytes : Bytes) (s : DataStore)
    → IsValid s
    → contains_key (hash bytes) s.blobs ≡ false
    → let r = put_evicting hash bytes s in Stores hash bytes s r.0 r.1.1
unfolding put_evicting
put-Stores hash bytes s v h =
    let id = hash bytes in
    let r = evict_over_budget-Evicts id (add_blob id bytes s) (add_blob-IsValid id bytes s h v) in
    rw (put_evicting, store-new id bytes s h, r.answer)
      (record {
        found = ground (
          arith,
          r.eviction.rest id,
          r.eviction.kept,
          lookup-insert_self id (record { bytes = bytes; used_at = tick s }) s.blobs,
        );
        tight = r.tight;
        unbounded = r.unbounded;
        eviction = r.eviction;
        needed = r.needed;
      })
