-- ===== src/Format.antt =====
-- src/format: the file formats.
pub mod Wire
pub mod Pubkey
pub mod Privkey
pub mod Trim
pub mod Pem
pub mod PemRoundTrip
pub mod Kdf
pub mod KdfReference
pub mod PemDecrypt
pub mod Pkcs8
pub mod Keystr
pub mod PublicRoundTrip
pub mod OpensshRoundTrip
pub mod Display
