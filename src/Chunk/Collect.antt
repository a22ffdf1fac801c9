-- ===== src/Chunk/Collect.antt =====
-- What the assembler keeps of a pending dataset, and that its `expect` calls never fail.
use aether_mesh.Base.{
  ◌%◌, ◌^◌, ℕ, zero, suc, ◌+◌, ◌≤◌, ◌<◌, ◌==◌, ◌≡◌, refl, sym, ap, ◌∙◌, inl, inr, true, false, ltb,
  Bool-cases, Option-cases, if◌then◌else◌, List, [], ◌∷◌, ◌++◌, Option, none, some, length,
  get_elem?, get_elem?-lt, count, Distinct, Distinct-length, Distinct-full, length_of_once,
  range_from, arith,
}
use aether_mesh.Base.Assoc.{
  lookup, contains_key, insert, remove, nat_eq, IsMap, lookup-insert, lookup-remove,
  contains_key-lookup, contains_key-insert, insert-IsMap,
}
use aether_mesh.Base.Result.{ok, err}
use aether_mesh.Task.{Bytes, DataId, Hash, describe}
use aether_mesh.Chunk.{
  Pending, Assembler, Answer, len, assemble, check_data, same_descriptor, complete, put_chunk,
  add_pending, add,
}

-- Distinct indexes, all below the number of chunks.
pub record IsValid (p : Pending) : Type 0 where
  pub distinct : IsMap p.chunks
  pub in_range : (j : ℕ) → contains_key j p.chunks ≡ true → j < len p.manifest

abbrev keys : List (ℕ × Bytes) → List ℕ
keys [] = []
keys ((k, v) ∷ m) = k ∷ keys m

length-keys : (m : List (ℕ × Bytes)) → length (keys m) ≡ length m
length-keys [] = refl
length-keys ((k, v) ∷ m) = ap suc (length-keys m)

count-keys :
    (j : ℕ) (m : List (ℕ × Bytes))
    → IsMap m
    → count j (keys m) ≡ (if contains_key j m then 1 else 0)
unfolding contains_key
count-keys j [] u = refl
count-keys j ((k, v) ∷ m) u = elim (Bool-cases (k == j)) [
  | inl same ↦
      let p : k ≡ j = ground arith in
      let absent : contains_key j m ≡ false = ap (λ x. contains_key x m) (sym p) ∙ u.0 in
      ground (arith, count-keys j m u.1)
  | inr other ↦ ground (arith, count-keys j m u.1)
]

keys-Distinct : (p : Pending) → IsValid p → Distinct (len p.manifest) (keys p.chunks)
keys-Distinct p v j = ground (arith, count-keys j p.chunks v.distinct, v.in_range j)

-- As many chunks as the manifest lists are all of them.
pub full-contains_key :
    (p : Pending)
    → IsValid p
    → ltb (length p.chunks) (len p.manifest) ≡ false
    → (j : ℕ) → j < len p.manifest
    → contains_key j p.chunks ≡ true
full-contains_key p v h j low =
    let d = keys-Distinct p v in
    let most = Distinct-length (len p.manifest) (keys p.chunks) d in
    let n = length-keys p.chunks in
    let exact : length (keys p.chunks) ≡ len p.manifest = ground arith in
    ground (
      arith,
      Distinct-full (len p.manifest) (keys p.chunks) d exact j low,
      count-keys j p.chunks v.distinct,
    )

-- All of them are as many as the manifest lists.
pub length-full :
    (p : Pending)
    → IsValid p
    → ((j : ℕ) → j < len p.manifest → contains_key j p.chunks ≡ true)
    → length p.chunks ≡ len p.manifest
length-full p v h =
    sym (length-keys p.chunks)
    ∙ length_of_once (len p.manifest) (keys p.chunks) (keys-Distinct p v)
        (λ j low. ground (arith, count-keys j p.chunks v.distinct, h j low))

assemble-some :
    (n start : ℕ) (m : List (ℕ × Bytes))
    → ((j : ℕ) → start ≤ j → j < start + n → contains_key j m ≡ true)
    → (b : Bytes) × (assemble (range_from start n) m ≡ some b)
unfolding assemble
assemble-some zero start m h = ([], refl)
assemble-some (suc n) start m h =
    let (rest, e) = assemble-some n (suc start) m (λ j a b. h j (omega arith) (omega arith)) in
    elim (Option-cases (lookup start m)) [
      | inl absent ↦
          let here = h start (omega arith) (omega arith) in
          absurd (ground (arith, contains_key-lookup start m))
      | inr (b, found) ↦ (b ++ rest, ground arith)
    ]

pub put_chunk-IsValid :
    (i : ℕ) (bytes : Bytes) (p : Pending)
    → i < len p.manifest
    → IsValid p
    → IsValid (put_chunk i bytes p)
put_chunk-IsValid i bytes p low v = record {
  distinct = insert-IsMap i bytes p.chunks v.distinct;
  in_range = λ j h. ground (arith, contains_key-insert i j bytes p.chunks, v.in_range j);
}

abbrev pub AllValid : Assembler → Type 0
AllValid a = (id : DataId) (p : Pending) → lookup id a ≡ some p → IsValid p

-- The call answers, and leaves an assembler that is valid again.
abbrev pub Answers : Option (Assembler × Answer) → Type 0
Answers r = (a : Assembler) × (answer : Answer) × (r ≡ some (a, answer)) × AllValid a

pub insert-AllValid :
    (id : DataId) (p : Pending) (a : Assembler) → IsValid p → AllValid a → AllValid (insert id p a)
insert-AllValid id p a v h j q e = elim (Bool-cases (id == j)) [
  | inl same ↦ let eq : p ≡ q = ground (arith, lookup-insert id j p a) in rw (← eq) v
  | inr other ↦ h j q (ground (arith, lookup-insert id j p a))
]

complete-Answers :
    (hash : Hash) (id : DataId) (p : Pending) (a : Assembler)
    → IsValid p
    → AllValid a
    → Answers (complete hash id p a)
unfolding complete
complete-Answers hash id p a v h = elim (Bool-cases (ltb (length p.chunks) (len p.manifest))) [
  | inl short ↦ rw (short, complete) (insert id p a, ok none, refl, insert-AllValid id p a v h)
  | inr full ↦
      let (b, e) =
        assemble-some (len p.manifest % 2 ^ 32) 0 p.chunks
          (λ j low high. full-contains_key p v full j (omega arith)) in
      rw (full, complete, e)
        (
          remove id a,
          check_data hash id b,
          refl,
          λ j q found. h j q (ground (arith, lookup-remove id j a)),
        )
]

pub add-Answers :
    (hash : Hash) (id : DataId) (index : ℕ) (bytes : Bytes) (a : Assembler)
    → AllValid a
    → Answers (add hash id index bytes a)
unfolding add add_pending len
add-Answers hash id index bytes a h = elim (Option-cases (lookup id a)) [
  | inl absent ↦ rw (absent, add) (a, err _, refl, h)
  | inr (p, found) ↦ elim (Option-cases (get_elem? p.manifest.chunks index)) [
    | inl outside ↦ rw (found, add, add_pending, outside) (a, err _, refl, h)
    | inr (d, expected) ↦ elim (Bool-cases (same_descriptor (describe hash bytes) d)) [
      | inr differs ↦ rw (found, add, add_pending, expected, differs) (a, err _, refl, h)
      | inl same ↦
          rw (found, add, add_pending, expected, same)
            (complete-Answers hash id (put_chunk index bytes p) a
              (put_chunk-IsValid index bytes p (get_elem?-lt p.manifest.chunks index d expected)
                (h id p found))
              h)
    ]
  ]
]
