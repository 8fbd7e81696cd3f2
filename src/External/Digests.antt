-- ===== src/External/Digests.antt =====
-- `digest::DynDigest`: a hash function that is fed piece by piece.
use rust_osshkeys.Prelude.{◌≡◌, ◌<◌, Bytes, [], ◌++◌, length}

pub record Digests : Type 1 where
  pub Digest : Type 0
  pub reset : Digest → Digest
  pub update : Digest → Bytes → Digest
  pub finalize_reset : Digest → Bytes × Digest
  -- What a digest was fed with since it was reset last, and the hash of it.
  pub fed : Digest → Bytes
  pub hash : Bytes → Bytes
  pub fed-reset : (d : Digest) → fed (reset d) ≡ []
  pub fed-update : (d : Digest) (b : Bytes) → fed (update d b) ≡ fed d ++ b
  pub hashed : (d : Digest) → (finalize_reset d).0 ≡ hash (fed d)
  pub emptied : (d : Digest) → fed (finalize_reset d).1 ≡ []
  pub length-hash : (b : Bytes) → 0 < length (hash b)
