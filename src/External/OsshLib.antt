-- ===== src/External/OsshLib.antt =====
-- The third-party crates that the private key format needs, with the choice of the cipher backend.
use rust_osshkeys.Prelude.{ℕ, ◌≡◌, [], ◌∷◌, Step}
use rust_osshkeys.Error.{IoError}
use rust_osshkeys.Sshbuf.Reader.{Writer}
use rust_osshkeys.External.CryptoVecs.{CryptoVecs}
use rust_osshkeys.External.Crypters.{Kdfs}
use rust_osshkeys.Cipher.Backend.{Backend}
use rust_osshkeys.External.KeyTypes.{KeyLib}

-- `byteorder::WriteBytesExt::write_u8`.
pub record ByteOrders : Type 1 where
  pub write_u8 : (W : Type 0) → Writer W → ℕ → Step IoError W Unit
  pub write_u8_lem : (W : Type 0) (wr : Writer W) (b : ℕ) → write_u8 W wr b ≡ wr.write_all (b ∷ [])

pub record OsshLib : Type 1 where
  pub keys : KeyLib
  pub cv : CryptoVecs
  pub cipher : Backend
  pub kdf : Kdfs
  pub bo : ByteOrders
