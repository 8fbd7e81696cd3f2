-- ===== src/Keys.antt =====
-- src/keys: the key types.
pub mod Rsa
pub mod Dsa
pub mod Ecdsa
pub mod Ed25519
pub mod Container
pub mod Pkey
pub mod PkeyRoundTrip
pub mod Sign
pub mod SignRoundTrip
pub mod Equality
pub mod RandomArt
pub mod Generation
pub mod GeneratedPair
