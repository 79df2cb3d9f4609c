-- ===== src/Common/Codec.antt =====
-- The serialisation libraries (Boost archives, Protocol Buffers): code outside the repository, so a
-- codec is an argument of the definitions that use one. Its law is the round trip.
use kvstorage.Base.{Bytes, ◌≡◌, ◌≢◌, [], some, Option}

pub record Codec (A : Type 0) : Type 0 where
  pub encode : A → Bytes
  pub decode : Bytes → Option A
  pub decode-encode : (a : A) → decode (encode a) ≡ some a
  -- No archive is the empty string.
  pub encode-ne-nil : (a : A) → encode a ≢ []
