-- ===== src/Digest/Tests.antt =====
-- Ids printed and parsed, and the theorems at them.
use aether_mesh.Base.{◌*◌, ◌^◌, ◌≡◌, refl, none, some, ◌∷◌, replicate, arith}
use aether_mesh.Base.Result.{ok, err}
use aether_mesh.Digest.{display_id, from_str, parse_pairs, wrong_length}
use aether_mesh.Digest.RoundTrip.{from_str-display_id, from_str-panics}

too_short : from_str (replicate 63 b'0') ≡ some (err (wrong_length 63))
unfolding from_str
too_short = refl

-- A plus sign takes the place of a digit.
signs : from_str (b'+' ∷ b'f' ∷ replicate 62 b'0') ≡ some (ok (15 * 256 ^ 31))
unfolding from_str parse_pairs
signs = refl

from_str-display_id_example : from_str (display_id 1000) ≡ some (ok 1000)
from_str-display_id_example = from_str-display_id 1000 (omega arith)

from_str-panics_example : from_str (b'0' ∷ 0xc3 ∷ 0xa9 ∷ replicate 61 b'0') ≡ none
from_str-panics_example =
    from_str-panics b'0' 0xc3 0xa9 (replicate 61 b'0') (omega arith) (omega arith) refl
