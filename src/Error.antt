-- ===== src/Error.antt =====
-- src/error.rs: the error type of the crate and the conversions that `?` makes into it.
-- The backtrace is not modelled. The error that is boxed in `inner` is modelled by its type, and
-- for an I/O error by its own kind.
use rust_osshkeys.Prelude.{Outcome, map_err, Option, none, some, Bytes, ascii, Step, convert}

-- `std::io::ErrorKind`, as far as the crate's readers meet it.
pub data IoError : Type 0 where
  unexpected_eof invalid_data : IoError

-- `enum ErrorKind`.
pub data ErrorKind : Type 0 where
  open_ssl_error ed25519_error io_error fmt_error base64_error invalid_argument : ErrorKind
  invalid_key_format invalid_format invalid_key invalid_key_size invalid_length : ErrorKind
  unsupport_curve unsupport_cipher incorrect_pass type_not_match unsupport_type : ErrorKind
  invalid_pem_format invalid_key_iv_length unknown : ErrorKind

-- `ErrorKind::description`, which is also what `Display` writes.
unfoldable pub description : ErrorKind → Bytes
description open_ssl_error = ascii "OpenSSL Error"
description ed25519_error = ascii "Ed25519 Error"
description io_error = ascii "I/O Error"
description fmt_error = ascii "Formatter Error"
description base64_error = ascii "Base64 Error"
description invalid_argument = ascii "Invalid Argument"
description invalid_key_format = ascii "Invalid Key Format"
description invalid_format = ascii "Invalid Format"
description invalid_key = ascii "Invalid Key"
description invalid_key_size = ascii "Invalid Key Size"
description invalid_length = ascii "Invalid Length"
description unsupport_curve = ascii "Unsupported Elliptic Curve"
description unsupport_cipher = ascii "Unsupported Cipher"
description incorrect_pass = ascii "Incorrect Passphrase"
description type_not_match = ascii "Key Type Not Match"
description unsupport_type = ascii "Unsupported Key Type"
description invalid_pem_format = ascii "Invalid PEM Format"
description invalid_key_iv_length = ascii "Invalid Key/IV Length"
description unknown = ascii "Unknown Error"

-- `bcrypt_pbkdf::Error`; `other` stands for the variants that the crate does not name.
pub data BcryptError : Type 0 where
  invalid_param_len invalid_rounds other : BcryptError

-- The type of the error that an `Error` wraps.
pub data Cause : Type 0 where
  io : IoError → Cause
  bcrypt : BcryptError → Cause
  fmt openssl signature base64 slice_length utf8 : Cause
  key_length pad unpad stream_cipher : Cause

-- `struct Error`.
pub record Error : Type 0 where
  pub kind : ErrorKind
  pub inner : Option Cause

-- `Error::from_kind`, and `From<ErrorKind>`.
abbrev pub from_kind : ErrorKind → Error
from_kind k = record { kind = k; inner = none }

-- `Error::with_error`.
abbrev pub with_error : ErrorKind → Cause → Error
with_error k c = record { kind = k; inner = some c }

-- The `From` implementations, by the error that they convert.
abbrev pub from_io : IoError → Error
from_io e = with_error io_error (io e)

abbrev pub from_fmt : Error
from_fmt = with_error fmt_error fmt

abbrev pub from_openssl : Unit {0} → Error
from_openssl _ = with_error open_ssl_error openssl

abbrev pub from_signature : Unit {0} → Error
from_signature _ = with_error ed25519_error signature

abbrev pub from_base64 : Unit {0} → Error
from_base64 _ = with_error base64_error base64

abbrev pub from_bcrypt : BcryptError → Error
from_bcrypt invalid_param_len = with_error invalid_length (bcrypt invalid_param_len)
from_bcrypt invalid_rounds = with_error invalid_argument (bcrypt invalid_rounds)
from_bcrypt other = with_error unknown (bcrypt other)

-- The errors of RustCrypto's ciphers: `InvalidLength`, `PadError`, `StreamCipherError` and
-- `UnpadError`.
abbrev pub from_key_length : Unit {0} → Error
from_key_length _ = with_error invalid_key_iv_length key_length

abbrev pub from_pad : Unit {0} → Error
from_pad _ = with_error invalid_length pad

abbrev pub from_stream : Unit {0} → Error
from_stream _ = with_error invalid_length stream_cipher

abbrev pub from_unpad : Unit {0} → Error
from_unpad _ = with_error incorrect_pass unpad

-- `From<pem::PemError>` drops the error.
abbrev pub from_pem : Unit {0} → Error
from_pem _ = from_kind invalid_pem_format

abbrev pub from_slice_length : Error
from_slice_length = with_error invalid_length slice_length

-- `OsshResult`, and `io::Result`.
abbrev pub OsshResult : Type 0 → Type 0
OsshResult = Outcome Error

abbrev pub IoResult : Type 0 → Type 0
IoResult = Outcome IoError

-- `return Err(kind.into())`.
abbrev pub fail : {A : Type 0} → ErrorKind → OsshResult A
fail k = Outcome.err (from_kind k)

-- `?` on an I/O step inside a function that returns `OsshResult`.
abbrev pub on_io : {S A : Type 0} → Step IoError S A → Step Error S A
on_io = convert from_io

-- `?` on a call whose error carries no data in the model, with the conversion of its error type.
abbrev pub on_unit : {A : Type 0} → (Unit {0} → Error) → Outcome (Unit {0}) A → OsshResult A
on_unit = map_err
