-- ===== src/Sshbuf.antt =====
-- src/sshbuf.rs: reading and writing of the data types of RFC 4251.
pub mod Endian
pub mod Utf8
pub mod Reader
pub mod Rules
pub mod Read
pub mod Write
pub mod Mpint
pub mod RoundTrip
pub mod Overflow
pub mod Memory
pub mod Buffer
pub mod Queue
pub mod Fails
