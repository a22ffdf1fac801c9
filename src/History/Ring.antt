-- ===== src/History/Ring.antt =====
-- The ring of finished tasks keeps the newest ones, and what it shows is printable.
use aether_mesh.Base.{
  ℕ, zero, suc, ◌+◌, ◌-◌, ◌≤◌, ◌<◌, ◌≡◌, refl, sym, ap, ◌∙◌, inl, inr, true, ltb, leb, min, max,
  Bool-cases, ◌⊎◌, List, [], ◌∷◌, map, length, take, All, All-append, arith, length-append,
}
use aether_mesh.Task.{Bytes, Task, TaskResult}
use aether_mesh.History.{
  Finished, History, is_printable, shown, ellipsis, preview, preview_bytes, entry_of, pop_back,
  drop_oldest, record_finished, new, recent,
}

length-pop_back : (es : List Finished) → length (pop_back es) ≡ length es - 1
length-pop_back [] = omega arith
length-pop_back (e ∷ []) = omega arith
length-pop_back (e ∷ f ∷ es) = omega (arith, length-pop_back (f ∷ es))

-- Dropping the last of more than `n` entries leaves the first `n` alone.
take-pop_back : (n : ℕ) (es : List Finished) → n < length es → take n (pop_back es) ≡ take n es
take-pop_back zero es h = refl
take-pop_back (suc n) [] h = absurd (omega arith)
take-pop_back (suc n) (e ∷ []) h = absurd (omega arith)
take-pop_back (suc n) (e ∷ f ∷ es) h = ap (◌∷◌ e) (take-pop_back n (f ∷ es) (omega arith))

take_all : (n : ℕ) (es : List Finished) → length es ≤ n → take n es ≡ es
take_all zero [] h = refl
take_all zero (e ∷ es) h = absurd (omega arith)
take_all (suc n) [] h = refl
take_all (suc n) (e ∷ es) h = ap (◌∷◌ e) (take_all n es (omega arith))

drop_oldest-take :
    (fuel limit : ℕ) (es : List Finished)
    → length es ≤ fuel
    → drop_oldest fuel limit es ≡ take limit es
unfolding drop_oldest
drop_oldest-take zero limit [] h = sym (take_all limit [] (omega arith))
drop_oldest-take zero limit (e ∷ es) h = absurd (omega arith)
drop_oldest-take (suc fuel) limit es h = elim (Bool-cases (ltb limit (length es))) [
  | inr fits ↦ rw fits (sym (take_all limit es (ground arith)))
  | inl over ↦
      let fuelled : length (pop_back es) ≤ fuel = omega (arith, length-pop_back es) in
      rw over
        (drop_oldest-take fuel limit (pop_back es) fuelled ∙ take-pop_back limit es (ground arith))
]

-- The finished tasks of a history that starts with `new limit`, the latest one first.
abbrev pub Finish : Type 0
Finish = Task × TaskResult × ℕ

unfoldable pub run : List Finish → History → History
run [] h = h
run ((task, result, now) ∷ earlier) h = record_finished task result now (run earlier h)

abbrev entry : Finish → Finished
entry f = entry_of f.0 f.1 f.2

take-take : (n m : ℕ) (es : List Finished) → n ≤ m → take n (take m es) ≡ take n es
take-take zero m es h = refl
take-take (suc n) zero es h = absurd (omega arith)
take-take (suc n) (suc m) [] h = refl
take-take (suc n) (suc m) (e ∷ es) h = ap (◌∷◌ e) (take-take n m es (omega arith))

take_within : (n m : ℕ) (es : List Finished) → m ≤ n → take n (take m es) ≡ take m es
take_within zero zero es h = refl
take_within zero (suc m) es h = absurd (omega arith)
take_within (suc n) zero es h = refl
take_within (suc n) (suc m) [] h = refl
take_within (suc n) (suc m) (e ∷ es) h = ap (◌∷◌ e) (take_within n m es (omega arith))

take-cons-take :
    (n : ℕ) (e : Finished) (es : List Finished) → take n (e ∷ take n es) ≡ take n (e ∷ es)
take-cons-take zero e es = refl
take-cons-take (suc n) e es = ap (◌∷◌ e) (take-take n (suc n) es (omega arith))

record_finished-entries :
    (f : Finish) (h : History)
    → (record_finished f.0 f.1 f.2 h).entries ≡ take h.limit (entry f ∷ h.entries)
unfolding record_finished
record_finished-entries f h =
    let fuelled : length (entry f ∷ h.entries) ≤ length (entry f ∷ h.entries) = omega arith in
    drop_oldest-take (length (entry f ∷ h.entries)) h.limit (entry f ∷ h.entries) fuelled

record_finished-limit : (f : Finish) (h : History) → (record_finished f.0 f.1 f.2 h).limit ≡ h.limit
unfolding record_finished
record_finished-limit f h = refl

run-limit : (fs : List Finish) (h : History) → (run fs h).limit ≡ h.limit
unfolding run
run-limit [] h = refl
run-limit (f ∷ fs) h = record_finished-limit f (run fs h) ∙ run-limit fs h

run-entries :
    (fs : List Finish) (limit : ℕ)
    → (run fs (new limit)).entries ≡ take (max limit 1) (map entry fs)
unfolding run new
run-entries [] limit = sym (take_all (max limit 1) [] (ground arith))
run-entries (f ∷ fs) limit =
    record_finished-entries f (run fs (new limit))
    ∙ (rw (run-limit fs (new limit), run-entries fs limit)
        (take-cons-take (max limit 1) (entry f) (map entry fs)))

take-take-min : (n m : ℕ) (es : List Finished) → take n (take m es) ≡ take (min n m) es
take-take-min n m es = elim (Bool-cases (leb n m)) [
  | inl below ↦ let e : min n m ≡ n = ground arith in rw e (take-take n m es (ground arith))
  | inr above ↦ let e : min n m ≡ m = ground arith in rw e (take_within n m es (ground arith))
]

-- However many tasks have finished, the history that was built for `limit` entries shows, when it
-- is asked for `count`, the entries of the tasks that finished last, the latest first: `count` of
-- them, no more than the limit, which counts as one if it is zero, and no more than there are.
pub run-recent :
    (fs : List Finish) (limit count : ℕ)
    → recent count (run fs (new limit)) ≡ take (min count (max limit 1)) (map entry fs)
unfolding recent
run-recent fs limit count =
    rw (run-entries fs limit) (take-take-min count (max limit 1) (map entry fs))

-- A character that a terminal prints, or the mark behind a text that was cut.
abbrev pub Prints : ℕ → Type 0
Prints c = (is_printable c ≡ true) ⊎ (c ≡ ellipsis)

shown-Prints : (b : ℕ) → Prints (shown b)
shown-Prints b = elim (Bool-cases (is_printable b)) [
  | inl clear ↦ rw clear (inl clear)
  | inr other ↦ rw other (inl refl)
]

map-shown-Prints : (bytes : Bytes) → All Prints (map shown bytes)
map-shown-Prints [] = tt
map-shown-Prints (b ∷ bytes) = (shown-Prints b, map-shown-Prints bytes)

length-map-shown : (n : ℕ) (bytes : Bytes) → length (map shown (take n bytes)) ≤ n
length-map-shown zero bytes = omega arith
length-map-shown (suc n) [] = omega arith
length-map-shown (suc n) (b ∷ bytes) = omega (arith, length-map-shown n bytes)

-- Whatever bytes a task put out, its preview has at most 49 characters, each of which is printable
-- ASCII or the ellipsis.
pub preview-Prints :
    (bytes : Bytes) → All Prints (preview bytes) × (length (preview bytes) ≤ preview_bytes + 1)
unfolding preview
preview-Prints bytes =
    let text = map shown (take preview_bytes bytes) in
    let clear : All Prints text = map-shown-Prints (take preview_bytes bytes) in
    let short : length text ≤ preview_bytes = length-map-shown preview_bytes bytes in
    elim (Bool-cases (ltb preview_bytes (length bytes))) [
      | inl cut ↦ rw cut (
        All-append Prints text (ellipsis ∷ []) clear (inr refl, tt),
        omega (arith, length-append text (ellipsis ∷ [])),
      )
      | inr whole ↦ rw whole (clear, omega arith)
    ]
