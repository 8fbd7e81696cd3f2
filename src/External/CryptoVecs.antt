-- ===== src/External/CryptoVecs.antt =====
-- `cryptovec::CryptoVec`, a vector of bytes. `write_all_from` makes one `write` call on the
-- destination, here a slice with room for a number of bytes, and may hand over fewer bytes than
-- there is room for.
use rust_osshkeys.Prelude.{ℕ, ◌≤◌, ◌<◌, ◌≡◌, Bytes, [], ◌++◌, length, replicate, take, drop, ok}
use rust_osshkeys.Error.{IoResult}

pub record CryptoVecs : Type 1 where
  pub CryptoVec : Type 0
  pub as_slice : CryptoVec → Bytes
  pub new : CryptoVec
  pub from_slice : Bytes → CryptoVec
  pub extend : CryptoVec → Bytes → CryptoVec
  pub resize : CryptoVec → ℕ → CryptoVec
  -- What the vector is after its slice was overwritten through `DerefMut`.
  pub set_slice : CryptoVec → Bytes → CryptoVec
  pub write_all_from : CryptoVec → ℕ → ℕ → IoResult Bytes
  pub as_slice-new : as_slice new ≡ []
  pub as_slice-from_slice : (b : Bytes) → as_slice (from_slice b) ≡ b
  pub as_slice-extend : (v : CryptoVec) (b : Bytes) → as_slice (extend v b) ≡ as_slice v ++ b
  pub as_slice-resize_new : (n : ℕ) → as_slice (resize new n) ≡ replicate n 0
  pub as_slice-resize_le :
      (v : CryptoVec) (n : ℕ)
      → n ≤ length (as_slice v)
      → as_slice (resize v n) ≡ take n (as_slice v)
  pub as_slice-set_slice :
      (v : CryptoVec) (b : Bytes) → length b ≡ length (as_slice v) → as_slice (set_slice v b) ≡ b
  pub write_all_from_lem :
      (v : CryptoVec) (offset room : ℕ)
      → offset < length (as_slice v)
      → 0 < room
      → (n : ℕ) × (0 < n)
        × (n ≤ room)
        × (n ≤ length (drop offset (as_slice v)))
        × (write_all_from v offset room ≡ ok (take n (drop offset (as_slice v))))
