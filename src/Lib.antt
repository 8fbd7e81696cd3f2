-- ===== src/Lib.antt =====
-- osshkeys: reading, writing and converting SSH keys.
--
-- The crate keeps a key in a container (src/keys/mod.rs) over the objects of OpenSSL and
-- ed25519-dalek (src/keys/{rsa,dsa,ecdsa,ed25519}.rs), and converts it to and from the formats in
-- src/format. The formats write and read the data types of RFC 4251 through the traits of
-- src/sshbuf.rs, and the private key format encrypts with src/cipher.rs. All of them return the
-- error type of src/error.rs.
--
-- Prelude: bytes, lists measured by native numbers, `Outcome` (a result, an error, or a panic) and
-- `Step`, a stateful action that may fail. A panic is a value, so that a theorem about a result
-- also says that there is no panic.
-- Error: src/error.rs. `OsshResult` is `OsshResult`, `fail kind` is `Err(kind.into())`, and
-- `on_io`, `on_unit` are the conversions that `?` applies. A description is its ASCII bytes. The
-- error that is boxed in `inner` is modelled by its type.
-- Sshbuf: src/sshbuf.rs. Read and Write have the methods of `SshReadExt` and `SshWriteExt` over an
-- interface, `Reader` and `Writer` in Sshbuf/Reader, for `std::io::Read` and `Write`. Memory
-- implements it as the standard library does for a cursor and a vector, and Buffer for `SshBuf`
-- itself. `read_exact` is the standard library's loop over `SshBuf::read`; its fuel is the number
-- of bytes asked for, which is enough since a round that goes on has read a byte. Queue has the runs
-- of a buffer as a step relation, and Overflow the strings that are too long for their prefix.
-- External: the interfaces of the third-party crates, with their documented behaviour as laws:
-- openssl (big numbers, keys, ciphers, PKey, PEM texts, signatures, comparison), ed25519-dalek,
-- RustCrypto's block modes and digests, cryptovec, base64, bcrypt_pbkdf, pem, regex. Random choices
-- are arguments.
-- Cipher: src/cipher.rs. Table has the enum, Crypt its operations over `InternalImpl` (in Impl),
-- the interface of the inner module `internal_impl`, whose specification is `Implements`. Openssl
-- and Rustcrypto are the two inner modules, and Backend is the choice that a feature makes.
-- Keys: the key types in Rsa, Dsa, Ecdsa and Ed25519; in Container the container of
-- src/keys/mod.rs; in Pkey the conversions from and to `PKey` of OpenSSL; in Sign the methods
-- `sign` and `verify`; in Equality `PartialEq`; in RandomArt the fingerprints and their pictures,
-- where an index out of bounds is a panic. That the numbers of a key belong together is a predicate
-- of the interface to OpenSSL, which its generators establish.
-- Format/Pubkey: src/format/ossh_pubkey.rs. Encode and Decode have the binary form, Line the line of
-- text. A string of Rust is its UTF-8 bytes.
-- Format/Privkey: src/format/ossh_privkey.rs. Key has `encode_key` and `decode_key`, Encode and
-- Decode the file around them, Armor the text form; the salt and the checksum are arguments. The
-- loop that pads has the block size as fuel, which is enough since it adds less than a block, and
-- the loop that checks the padding one round more than there are bytes. File has the theorems on
-- whole files.
-- Format/Pem, Pkcs8 and Keystr: src/format/{pem,pkcs8,mod}.rs, and the methods of the containers
-- that read and write texts. `parse_keystr` looks at the tag of the text and hands it to one of the
-- formats. Trim is `str::trim`, and Display the text of `fmt::Display`.
-- Format/Kdf and PemDecrypt: the functions of src/format/pem.rs behind the feature `experimental`.
-- The loop of `openssl_kdf` has the length of the key as fuel, which is enough since a round adds a
-- byte at least where a digest is not empty; the result `none` stands for fuel that is used up.
-- Tests: concrete versions of the interfaces, and the theorems applied to them.
--
-- Not modelled: src/lib.rs, which declares the modules; `Debug`, and the backtrace and the chain of
-- sources of an error. That secrets are erased from memory is not visible in the model.
pub mod Prelude
pub mod Error
pub mod Sshbuf
pub mod External
pub mod Cipher
pub mod Keys
pub mod Format
pub mod Tests
