-- ===== src/Cipher.antt =====
-- src/cipher.rs: the ciphers of OpenSSH key files.
pub mod Table
pub mod Impl
pub mod Openssl
pub mod Rustcrypto
pub mod Backend
pub mod Crypt
pub mod Names
pub mod OpensslImplements
pub mod RustcryptoImplements
pub mod RoundTrip
