-- ===== src/Chunk/Reassembly.antt =====
-- A dataset that is split and delivered in any order comes back as it was.
use aether_mesh.Base.{
  ◌%◌, ◌^◌, ℕ, zero, suc, ◌+◌, ◌<◌, ◌==◌, ◌≡◌, refl, sym, ap, ◌∙◌, inl, inr, true, false, ◌||◌, ltb,
  Bool-cases, if◌then◌else◌, List, [], ◌∷◌, ◌++◌, map, Option, none, some, length, contains,
  get_elem?, get_or, range, range_from, length-map, All, arith,
}
use aether_mesh.Base.Assoc.{
  lookup, contains_key, insert, remove, nat_eq, lookup-insert, lookup-remove, lookup-insert_self,
  lookup-remove_self, contains_key-lookup,
}
use aether_mesh.Base.Result.{ok}
use aether_mesh.Task.{Bytes, DataId, Hash, describe}
use aether_mesh.Chunk.{
  ChunkManifest, Pending, Assembler, Answer, pieces, size_or_default, split, len, begin, assemble,
  same_descriptor, complete, put_chunk, add_pending, add, add_known,
}
use aether_mesh.Chunk.Pieces.{concat, concat-pieces, map-get_elem?}
use aether_mesh.Chunk.Collect.{IsValid, full-contains_key, length-full, put_chunk-IsValid}

assemble-concat :
    (ps : List Bytes) (start : ℕ) (m : List (ℕ × Bytes))
    → ((j : ℕ) → j < length ps → lookup (start + j) m ≡ get_elem? ps j)
    → assemble (range_from start (length ps)) m ≡ some (concat ps)
unfolding assemble
assemble-concat [] start m h = refl
assemble-concat (p ∷ ps) start m h =
    let here : start + 0 ≡ start = omega arith in
    let first : lookup start m ≡ some p = ap (λ k. lookup k m) (sym here) ∙ h 0 (omega arith) in
    let rest : assemble (range_from (suc start) (length ps)) m ≡ some (concat ps) =
      assemble-concat ps (suc start) m (λ j low.
        let e : suc start + j ≡ start + suc j = omega arith in rw e (h (suc j) (omega arith))) in
    ground arith

same_descriptor_self :
    (hash : Hash) (b : Bytes) → same_descriptor (describe hash b) (describe hash b) ≡ true
same_descriptor_self hash b = ground arith

get_or-get_elem? :
    (ps : List Bytes) (i : ℕ) → i < length ps → get_elem? ps i ≡ some (get_or ps i [])
get_or-get_elem? [] i h = absurd (omega arith)
get_or-get_elem? (p ∷ ps) zero h = refl
get_or-get_elem? (p ∷ ps) (suc i) h = get_or-get_elem? ps i (omega arith)

module _ (hash : Hash) (bytes : Bytes) (chunk_size : ℕ) where
  -- The chunk that a sender sends for an index.
  abbrev pub chunks_of : List Bytes
  chunks_of = pieces (size_or_default chunk_size) bytes

  abbrev pub sent : ℕ → ℕ × Bytes
  sent i = (i, get_or chunks_of i [])

  abbrev pub id_of : DataId
  id_of = hash bytes

  -- The assembler holds exactly the chunks whose indexes are in `seen`.
  record Collecting (seen : List ℕ) (a : Assembler) : Type 0 where
    pending : Pending
    found : lookup id_of a ≡ some pending
    announced : pending.manifest ≡ split hash bytes chunk_size
    valid : IsValid pending
    holds :
        (j : ℕ)
        → lookup j pending.chunks ≡ (if contains seen j then get_elem? chunks_of j else none)

  len-split : len (split hash bytes chunk_size) ≡ length chunks_of
  unfolding len split
  len-split = length-map (describe hash) chunks_of

  -- Up to `complete`.
  add-expected :
      (seen : List ℕ) (a : Assembler) (i : ℕ) (c : Collecting seen a)
      → i < length chunks_of
      → add hash id_of i (get_or chunks_of i []) a
        ≡ complete hash id_of (put_chunk i (get_or chunks_of i []) c.pending) a
  unfolding add add_pending split
  add-expected seen a i c low =
      let piece = get_or chunks_of i [] in
      let listed : get_elem? c.pending.manifest.chunks i ≡ some (describe hash piece) =
        ap (λ (m : ChunkManifest). get_elem? m.chunks i) c.announced
        ∙ map-get_elem? (describe hash) chunks_of i piece (get_or-get_elem? chunks_of i low) in
      let same = same_descriptor_self hash piece in
      rw (add, add_pending, c.found, listed, same) refl

  put-holds :
      (seen : List ℕ) (a : Assembler) (i : ℕ) (c : Collecting seen a)
      → i < length chunks_of
      → (j : ℕ)
      → lookup j (put_chunk i (get_or chunks_of i []) c.pending).chunks
        ≡ (if contains (i ∷ seen) j then get_elem? chunks_of j else none)
  put-holds seen a i c low j =
      let put = lookup-insert i j (get_or chunks_of i []) c.pending.chunks in
      elim (Bool-cases (i == j)) [
        | inl same ↦
            let e : i ≡ j = ground arith in
            let piece = ap (get_elem? chunks_of) (sym e) ∙ get_or-get_elem? chunks_of i low in
            ground (arith, put, piece)
        | inr other ↦ ground (arith, put, c.holds j)
      ]

  put-IsValid :
      (seen : List ℕ) (a : Assembler) (i : ℕ) (c : Collecting seen a)
      → i < length chunks_of
      → IsValid (put_chunk i (get_or chunks_of i []) c.pending)
  put-IsValid seen a i c low =
      put_chunk-IsValid i (get_or chunks_of i []) c.pending
        (omega (arith, ap len c.announced, len-split)) c.valid

  -- A chunk that is not the last missing one is kept.
  add-more :
      (seen : List ℕ) (a : Assembler) (i last : ℕ) (c : Collecting seen a)
      → i < length chunks_of
      → last < length chunks_of
      → contains (i ∷ seen) last ≡ false
      → (a' : Assembler) × (add hash id_of i (get_or chunks_of i []) a ≡ some (a', ok none))
        × Collecting (i ∷ seen) a'
        × ((other : DataId) → (id_of == other) ≡ false → lookup other a' ≡ lookup other a)
  unfolding complete
  add-more seen a i last c low last_low still =
      let p = put_chunk i (get_or chunks_of i []) c.pending in
      let v = put-IsValid seen a i c low in
      let h = put-holds seen a i c low in
      elim (Bool-cases (ltb (length p.chunks) (len p.manifest))) [
        | inr full ↦
            let all =
              full-contains_key p v full last
                (omega (arith, ap len c.announced, len-split, last_low)) in
            absurd (ground (arith, contains_key-lookup last p.chunks, h last))
        | inl short ↦
            let step = add-expected seen a i c low in
            (
              insert id_of p a,
              step ∙ (rw (complete, short) refl),
              record {
                pending = p;
                found = lookup-insert_self id_of p a;
                announced = c.announced;
                valid = v;
                holds = h;
              },
              λ other apart. ground (arith, lookup-insert id_of other p a),
            )
      ]

  -- The last missing chunk completes the dataset.
  add-last :
      (seen : List ℕ) (a : Assembler) (last : ℕ) (c : Collecting seen a)
      → length chunks_of < 2 ^ 32
      → last < length chunks_of
      → ((j : ℕ) → j < length chunks_of → contains (last ∷ seen) j ≡ true)
      → add hash id_of last (get_or chunks_of last []) a ≡ some (remove id_of a, ok (some bytes))
  unfolding complete
  add-last seen a last c few low all =
      let p = put_chunk last (get_or chunks_of last []) c.pending in
      let h = put-holds seen a last c low in
      let size : len p.manifest ≡ length chunks_of = ap len c.announced ∙ len-split in
      let cast : length chunks_of % 2 ^ 32 ≡ length chunks_of = omega arith in
      let whole : assemble (range (length chunks_of)) p.chunks ≡ some bytes =
        assemble-concat chunks_of 0 p.chunks (λ j under. ground (arith, h j, all j under))
        ∙ ap some (concat-pieces bytes chunk_size) in
      let present : (j : ℕ) → j < len p.manifest → contains_key j p.chunks ≡ true = λ j under.
        let low_j : j < length chunks_of = omega (arith, size) in
        ground (
          arith,
          contains_key-lookup j p.chunks,
          h j,
          all j low_j,
          get_or-get_elem? chunks_of j low_j,
        ) in
      let count = length-full p (put-IsValid seen a last c low) present in
      let hashed : (hash bytes == id_of) ≡ true = ground arith in
      add-expected seen a last c low ∙ (elim (Bool-cases (ltb (length p.chunks) (len p.manifest))) [
        | inl short ↦ absurd (ground arith)
        | inr full ↦ rw (complete, full, size, cast, whole, hashed) refl
      ])

  begin-Collecting : (a : Assembler) → Collecting [] (begin (split hash bytes chunk_size) a)
  unfolding begin split lookup contains_key
  begin-Collecting a =
      let m = split hash bytes chunk_size in
      let p : Pending = record { manifest = m; chunks = [] } in
      record {
        pending = p;
        found = lookup-insert_self id_of p a;
        announced = refl;
        valid = record { distinct = tt; in_range = λ j no. absurd (ground arith) };
        holds = λ j. refl;
      }

  -- The chunks of `order` arrive in that order.
  abbrev pub deliver : List ℕ → Assembler → Option (Assembler × Answer)
  deliver order a = add_known hash id_of (map sent order) none a

  deliver_from :
      (front seen : List ℕ) (a : Assembler) (last : ℕ) (assembled : Option Bytes)
      → Collecting seen a
      → length chunks_of < 2 ^ 32
      → All (λ i. i < length chunks_of) front
      → last < length chunks_of
      → contains seen last ≡ false
      → contains front last ≡ false
      → ((j : ℕ)
          → j < length chunks_of
          → (contains seen j || (contains front j || last == j)) ≡ true)
      → (a' : Assembler) × (add_known hash id_of (map sent (front ++ (last ∷ []))) assembled a
          ≡ some (a', ok (some bytes)))
        × (lookup id_of a' ≡ none)
        × ((other : DataId) → (id_of == other) ≡ false → lookup other a' ≡ lookup other a)
  unfolding add_known
  deliver_from [] seen a last assembled c few range low fresh absent all =
      let done = add-last seen a last c few low (λ j under. ground (arith, all j under)) in
      (
        remove id_of a,
        rw (add_known, done) refl,
        lookup-remove_self id_of a,
        λ other apart. ground (arith, lookup-remove id_of other a),
      )
  deliver_from (i ∷ front) seen a last assembled c few range low fresh absent all =
      let still : contains (i ∷ seen) last ≡ false = ground arith in
      let (a1, one, c1, others1) = add-more seen a i last c range.0 low still in
      let (a2, rest, gone, others2) =
        deliver_from front (i ∷ seen) a1 last none c1 few range.1 low still (ground arith)
          (λ j under. ground (arith, all j under)) in
      (a2, rw (add_known, one) rest, gone, λ other apart. others2 other apart ∙ others1 other apart)

  -- A dataset that is split into fewer than 2^32 chunks, announced and delivered chunk by chunk, in
  -- any order and with repeats, comes back byte for byte with the chunk that completes it and is
  -- pending no more; the other datasets of the assembler are untouched.
  pub deliver-whole :
      (a : Assembler) (front : List ℕ) (last : ℕ)
      → length chunks_of < 2 ^ 32
      → All (λ i. i < length chunks_of) front
      → last < length chunks_of
      → contains front last ≡ false
      → ((j : ℕ) → j < length chunks_of → (contains front j || last == j) ≡ true)
      → (a' : Assembler) × (deliver (front ++ (last ∷ [])) (begin (split hash bytes chunk_size) a)
          ≡ some (a', ok (some bytes)))
        × (lookup id_of a' ≡ none)
        × ((other : DataId) → (id_of == other) ≡ false → lookup other a' ≡ lookup other a)
  unfolding begin split
  deliver-whole a front last few range low absent all =
      let m = split hash bytes chunk_size in
      let (a', answer, gone, others) =
        deliver_from front [] (begin m a) last none (begin-Collecting a) few range low refl absent
          all in
      (
        a',
        answer,
        gone,
        λ other apart. ground (
          arith,
          others other apart,
          lookup-insert id_of other (record { manifest = m; chunks = [] }) a,
        ),
      )
