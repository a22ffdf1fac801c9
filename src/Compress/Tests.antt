-- ===== src/Compress/Tests.antt =====
-- Compression with the identity in the place of LZ4, on whole numbers in the place of floats.
use aether_mesh.Base.{◌≡◌, refl, [], ◌∷◌, Option, some}
use aether_mesh.Task.{Bytes}
use aether_mesh.Node.Whole.{whole}
use aether_mesh.Compress.{Codec, Lz4, CompressionPolicy, choose, compress, encode, saving}

-- Marks what it packed.
abbrev unmark : Bytes → Option Bytes
unmark [] = Option.none
unmark (b ∷ bytes) = some bytes

abbrev marking : Lz4
marking = record { pack = λ bytes. 4 ∷ bytes; unpack = unmark; unpack-pack = λ bytes. refl }

abbrev always : CompressionPolicy whole
always = record { min_size_bytes = 1; fast_link_bytes_per_sec = 100; min_saving = 0 }

abbrev sample : Bytes
sample = 1 ∷ 2 ∷ []

slow_link : encode whole marking always sample (some 99) ≡ (Codec.lz4, 4 ∷ sample)
unfolding encode choose compress saving
slow_link = refl

fast_link : encode whole marking always sample (some 100) ≡ (Codec.none, sample)
unfolding encode choose
fast_link = refl
