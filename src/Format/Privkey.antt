-- ===== src/Format/Privkey.antt =====
-- src/format/ossh_privkey.rs: private keys in the OpenSSH format.
pub mod Key
pub mod Encode
pub mod Decode
pub mod Parts
pub mod KeyRoundTrip
pub mod Padding
pub mod Secret
pub mod Sealed
pub mod Body
pub mod FileParts
pub mod File
pub mod NoCipher
pub mod Cloning
pub mod Armor
