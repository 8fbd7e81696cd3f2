-- ===== src/External.antt =====
-- The third-party crates that the program calls, each as a record of the operations that it uses
-- and of the documented facts about them that the theorems need.
pub mod BigNums
pub mod CryptoVecs
pub mod KeyTypes
pub mod Base64s
pub mod BlockModes
pub mod Crypters
pub mod PKeys
pub mod Pems
pub mod Signers
pub mod Equals
pub mod OsshLib
pub mod PemLib
pub mod Digests
pub mod Regexes
