-- ===== src/Compress.antt =====
-- crates/aether-core/src/compress.rs: whether a transfer is compressed, and the two codecs.
-- LZ4 is not code of the repository: it is the parameter `Lz4`, with the law of its block format
-- that what it compressed is restored. The text of its errors is not modelled.
mod RoundTrip
mod Tests
use aether_mesh.Base.{
  ℕ, ◌-◌, ◌*◌, ◌^◌, ◌≡◌, ltb, leb, if◌then◌else◌, Bool, true, false, Option, some, length,
}
use aether_mesh.Base.Result.{Result, ok, err}
use aether_mesh.Task.{Bytes}
use aether_mesh.Node.{Float}

pub data Codec : Type 0 where
  none lz4 : Codec

-- `lz4_flex::compress_prepend_size` and `decompress_size_prepended`.
pub record Lz4 : Type 0 where
  pub pack : Bytes → Bytes
  pub unpack : Bytes → Option Bytes
  pub unpack-pack : (bytes : Bytes) → unpack (pack bytes) ≡ some bytes

pub data CompressError : Type 0 where
  lz4 : CompressError

unfoldable pub compress : Lz4 → Codec → Bytes → Bytes
compress l Codec.none bytes = bytes
compress l Codec.lz4 bytes = l.pack bytes

abbrev pub unpacked : Option Bytes → Result CompressError Bytes
unpacked Option.none = err CompressError.lz4
unpacked (some bytes) = ok bytes

unfoldable pub decompress : Lz4 → Codec → Bytes → Result CompressError Bytes
decompress l Codec.none bytes = ok bytes
decompress l Codec.lz4 bytes = unpacked (l.unpack bytes)

-- A bandwidth that is known and at least `fast`.
abbrev pub is_fast : ℕ → Option ℕ → Bool
is_fast fast Option.none = false
is_fast fast (some bandwidth) = leb fast bandwidth

module _ (float : Float) where
  open float use {F, div, ge, from_u64}

  pub record CompressionPolicy : Type 0 where
    pub min_size_bytes : ℕ
    pub fast_link_bytes_per_sec : ℕ
    pub min_saving : F

  -- 0.05 is the float nearest to 5 / 100, as is the quotient of their floats.
  unfoldable pub default_policy : CompressionPolicy
  default_policy = record {
    min_size_bytes = 4 * 1024;
    fast_link_bytes_per_sec = 100 * 1024 * 1024;
    min_saving = div (from_u64 5) (from_u64 100);
  }

  unfoldable pub disabled : CompressionPolicy
  disabled = record default_policy { min_size_bytes = 2 ^ 64 - 1 }

  unfoldable pub choose : CompressionPolicy → ℕ → Option ℕ → Codec
  choose policy size bandwidth =
      if ltb size policy.min_size_bytes
      then Codec.none
      else if is_fast policy.fast_link_bytes_per_sec bandwidth
      then Codec.none
      else Codec.lz4

  -- `-` on ℕ is `saturating_sub`.
  unfoldable pub saving : Bytes → Bytes → F
  saving bytes compressed =
      div (from_u64 (length bytes - length compressed)) (from_u64 (length bytes))

  abbrev pub encode_with : Lz4 → F → Codec → Bytes → Codec × Bytes
  encode_with l min_saving Codec.none bytes = (Codec.none, bytes)
  encode_with l min_saving Codec.lz4 bytes =
      let compressed = compress l Codec.lz4 bytes in
      if ge (saving bytes compressed) min_saving
      then (Codec.lz4, compressed)
      else (Codec.none, bytes)

  unfoldable pub encode : Lz4 → CompressionPolicy → Bytes → Option ℕ → Codec × Bytes
  encode l policy bytes bandwidth =
      encode_with l policy.min_saving (choose policy (length bytes) bandwidth) bytes
