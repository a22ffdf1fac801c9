-- ===== src/Digest.antt =====
-- crates/aether-core/src/data.rs: content addresses as 64 hexadecimal characters.
-- A text is its UTF-8 bytes here, as `str` slices it. Where the code would panic, the answer is
-- `none`.
mod RoundTrip
mod Tests
use aether_mesh.Base.{
  ℕ, zero, suc, ◌+◌, ◌-◌, ◌*◌, ◌/◌, ◌%◌, ◌==◌, ltb, leb, if◌then◌else◌, Bool, true, false, ◌&&◌,
  List, [], ◌∷◌, ◌++◌, Option, none, some, length,
}
use aether_mesh.Base.Result.{Result, ok, err}
use aether_mesh.Text.{Text}
use aether_mesh.Task.{Bytes, DataId}

-- The `len` bytes of a number, highest first.
abbrev pub be_bytes : ℕ → ℕ → Bytes
be_bytes zero n = []
be_bytes (suc len) n = be_bytes len (n / 256) ++ ((n % 256) ∷ [])

abbrev pub hex_digit : ℕ → ℕ
hex_digit d = if ltb d 10 then b'0' + d else b'a' + (d - 10)

abbrev pub hex : Bytes → Text
hex [] = []
hex (b ∷ bs) = hex_digit (b / 16) ∷ hex_digit (b % 16) ∷ hex bs

-- `DataId::as_bytes` and `DataId::to_string`.
abbrev pub as_bytes : DataId → Bytes
as_bytes id = be_bytes 32 id

abbrev pub display_id : DataId → Text
display_id id = hex (as_bytes id)

pub data DataIdParseError : Type 0 where
  wrong_length : (length : ℕ) → DataIdParseError
  invalid_hex : (index : ℕ) → DataIdParseError

abbrev pub hex_value : ℕ → Option ℕ
hex_value c =
    if leb b'0' c && leb c b'9'
    then some (c - b'0')
    else if leb b'a' c && leb c b'f'
    then some (c - b'a' + 10)
    else if leb b'A' c && leb c b'F'
    then some (c - b'A' + 10)
    else none

abbrev pub two_digits : Option ℕ → Option ℕ → Option ℕ
two_digits none low = none
two_digits (some high) none = none
two_digits (some high) (some low) = some (high * 16 + low)

-- `u8::from_str_radix(pair, 16)`, which also takes a plus sign in front of the digits.
abbrev pub pair_value : ℕ → ℕ → Option ℕ
pair_value a b = if a == b'+' then hex_value b else two_digits (hex_value a) (hex_value b)

-- A slice that ends here cuts a character in two: the next byte continues one.
abbrev pub splits : Bytes → Bool
splits [] = false
splits (b ∷ bs) = leb 128 b && ltb b 192

-- The loop of `from_str` from one pair on, with the value of the bytes before it.
unfoldable pub parse_pairs : ℕ → Bytes → DataId → Option (Result DataIdParseError DataId)
parse_pairs index [] value = some (ok value)
parse_pairs index (a ∷ []) value = none
parse_pairs index (a ∷ b ∷ rest) value = if splits rest then none else elim (pair_value a b) [
  | none ↦ some (err (invalid_hex index))
  | some byte ↦ parse_pairs (suc index) rest (value * 256 + byte)
]

unfoldable pub from_str : Bytes → Option (Result DataIdParseError DataId)
from_str s = if length s == 64 then parse_pairs 0 s 0 else some (err (wrong_length (length s)))
