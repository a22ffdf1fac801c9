-- ===== src/Digest/RoundTrip.antt =====
-- Printing an id and parsing it again.
use aether_mesh.Base.{
  ℕ, zero, suc, ◌+◌, ◌*◌, ◌/◌, ◌%◌, ◌^◌, ◌≤◌, ◌<◌, ◌==◌, ◌≡◌, refl, ap, ◌∙◌, true, false, [], ◌∷◌,
  ◌++◌, none, some, length, length-append, All, All-append, arith,
}
use aether_mesh.Base.Result.{ok}
use aether_mesh.Task.{Bytes, DataId}
use aether_mesh.Digest.{
  be_bytes, hex_digit, hex, display_id, hex_value, pair_value, splits, parse_pairs, from_str,
}

-- The number that bytes stand for, highest first, after `value`.
abbrev from_bytes : DataId → Bytes → DataId
from_bytes value [] = value
from_bytes value (b ∷ bs) = from_bytes (value * 256 + b) bs

from_bytes-append :
    (value : DataId) (bs : Bytes) (b : ℕ)
    → from_bytes value (bs ++ (b ∷ [])) ≡ from_bytes value bs * 256 + b
from_bytes-append value [] b = refl
from_bytes-append value (c ∷ bs) b = from_bytes-append (value * 256 + c) bs b

from_bytes-be_bytes : (len : ℕ) (n : ℕ) → n < 256 ^ len → from_bytes 0 (be_bytes len n) ≡ n
from_bytes-be_bytes zero n h = omega arith
from_bytes-be_bytes (suc len) n h =
    let ih = from_bytes-be_bytes len (n / 256) (omega arith) in
    from_bytes-append 0 (be_bytes len (n / 256)) (n % 256) ∙ omega (arith, ih)

be_bytes-All : (len n : ℕ) → All (λ b. b < 256) (be_bytes len n)
be_bytes-All zero n = tt
be_bytes-All (suc len) n =
    All-append (λ b. b < 256) (be_bytes len (n / 256)) ((n % 256) ∷ []) (be_bytes-All len (n / 256))
      (omega arith, tt)

length-be_bytes : (len n : ℕ) → length (be_bytes len n) ≡ len
length-be_bytes zero n = refl
length-be_bytes (suc len) n =
    omega (
      arith,
      length-append (be_bytes len (n / 256)) ((n % 256) ∷ []),
      length-be_bytes len (n / 256),
    )

length-hex : (bs : Bytes) → length (hex bs) ≡ 2 * length bs
length-hex [] = refl
length-hex (b ∷ bs) = omega (arith, length-hex bs)

hex_value-hex_digit : (d : ℕ) → d < 16 → hex_value (hex_digit d) ≡ some d
hex_value-hex_digit d h = ground arith

pair_value-digits :
    (b : ℕ) → b < 256 → pair_value (hex_digit (b / 16)) (hex_digit (b % 16)) ≡ some b
pair_value-digits b h =
    let high = hex_value-hex_digit (b / 16) (omega arith) in
    let low = hex_value-hex_digit (b % 16) (omega arith) in
    let plain : (hex_digit (b / 16) == b'+') ≡ false = ground arith in
    rw (plain, high, low) (ap some (omega arith))

splits-hex : (bs : Bytes) → All (λ b. b < 256) bs → splits (hex bs) ≡ false
splits-hex [] h = refl
splits-hex (b ∷ bs) h = let small = h.0 in ground arith

parse_pairs-hex :
    (bs : Bytes) (index : ℕ) (value : DataId)
    → All (λ b. b < 256) bs
    → parse_pairs index (hex bs) value ≡ some (ok (from_bytes value bs))
unfolding parse_pairs
parse_pairs-hex [] index value h = refl
parse_pairs-hex (b ∷ bs) index value h =
    rw (splits-hex bs h.1, pair_value-digits b h.0)
      (parse_pairs-hex bs (suc index) (value * 256 + b) h.1)

from_str-hex :
    (bs : Bytes)
    → length bs ≡ 32
    → All (λ b. b < 256) bs
    → from_str (hex bs) ≡ some (ok (from_bytes 0 bs))
unfolding from_str
from_str-hex bs n h =
    let long : (length (hex bs) == 64) ≡ true = ground (arith, length-hex bs) in
    rw (from_str, long) (parse_pairs-hex bs 0 0 h)

-- Every 256-bit id is read back from the text it prints as.
pub from_str-display_id : (id : DataId) → id < 256 ^ 32 → from_str (display_id id) ≡ some (ok id)
from_str-display_id id h =
    from_str-hex (be_bytes 32 id) (length-be_bytes 32 id) (be_bytes-All 32 id)
    ∙ ap (λ n. some (ok n)) (from_bytes-be_bytes 32 id h)

-- A text of 64 bytes whose third byte continues a character makes `from_str` panic, since its first
-- slice ends inside that character.
pub from_str-panics :
    (first lead next : ℕ) (rest : Bytes)
    → 128 ≤ next
    → next < 192
    → length rest ≡ 61
    → from_str (first ∷ lead ∷ next ∷ rest) ≡ none
unfolding from_str parse_pairs
from_str-panics first lead next rest low high h =
    let long : (suc (suc (suc (length rest))) == 64) ≡ true = ground arith in
    let cut : splits (next ∷ rest) ≡ true = ground arith in
    rw (from_str, long, parse_pairs, cut) refl
