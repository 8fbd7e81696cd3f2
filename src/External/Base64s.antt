-- ===== src/External/Base64s.antt =====
-- `base64::prelude::BASE64_STANDARD`. Its alphabet is letters, digits, `+`, `/` and `=`, so its
-- output is ASCII and holds no white space.
use rust_osshkeys.Prelude.{◌≡◌, ◌≢◌, ◌<◌, Bytes, [], All, Outcome, ok}

pub record Base64s : Type 0 where
  pub encode : Bytes → Bytes
  pub decode : Bytes → Outcome Unit Bytes
  pub decode-encode : (b : Bytes) → decode (encode b) ≡ ok b
  pub encode_printable : (b : Bytes) → All (λ c. (32 < c) × (c < 127)) (encode b)
  pub encode-ne-nil : (b : Bytes) → b ≢ [] → encode b ≢ []
