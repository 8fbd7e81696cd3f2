-- ===== src/Format/Pubkey.antt =====
-- src/format/ossh_pubkey.rs: public keys in the OpenSSH format.
pub mod Encode
pub mod Decode
pub mod Integers
pub mod Curves
pub mod Words
pub mod Line
pub mod LineRoundTrip
pub mod SameRules
pub mod SameBlob
