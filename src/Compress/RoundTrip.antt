-- ===== src/Compress/RoundTrip.antt =====
-- What is encoded is decoded again, and compression is used where it saves.
use aether_mesh.Base.{ℕ, ◌^◌, ◌-◌, ◌<◌, ◌≡◌, refl, ltb, true, false, Option, length, arith}
use aether_mesh.Task.{Bytes}
use aether_mesh.Node.{Float}
use aether_mesh.Compress.{Codec, Lz4, is_fast, CompressionPolicy, disabled, choose, saving, encode}

module _ (float : Float) (l : Lz4) where
  -- What the codec of an encoded payload says of the payload and of the decision.
  abbrev pub Encodes : CompressionPolicy float → Bytes → Option ℕ → Codec → Bytes → Type 0
  Encodes policy bytes bandwidth Codec.none payload = payload ≡ bytes
  Encodes policy bytes bandwidth Codec.lz4 payload =
      (float.ge (saving float bytes payload) policy.min_saving ≡ true)
      × (ltb (length bytes) policy.min_size_bytes ≡ false)
      × (is_fast policy.fast_link_bytes_per_sec bandwidth ≡ false)

  -- A disabled policy sends whatever fits into the address space as it is.
  pub encode-disabled :
      (bytes : Bytes) (bandwidth : Option ℕ)
      → length bytes < 2 ^ 64 - 1
      → encode float l (disabled float) bytes bandwidth ≡ (Codec.none, bytes)
  unfolding encode disabled choose
  encode-disabled bytes bandwidth h =
      let short : ltb (length bytes) (2 ^ 64 - 1) ≡ true = ground arith in rw short refl
