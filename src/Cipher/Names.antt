-- ===== src/Cipher/Names.antt =====
-- The names of the ciphers: what `from_str` accepts, and `name`.
use rust_osshkeys.Prelude.{
  sym, ◌≡◌, ◌↔◌, ◌⊎◌, inl, inr, refl, arith, ap, ◌∙◌, Bytes, ascii, bytes_eq_iff, ok,
}
use rust_osshkeys.Cipher.Table.{
  Cipher, aes128_cbc, aes192_cbc, aes256_cbc, aes128_ctr, aes192_ctr, aes256_ctr, tdes_cbc, null,
  name, from_str,
}

abbrev pub rijndael : Bytes
rijndael = ascii "rijndael-cbc@lysator.liu.se"

pub from_str-name : (c : Cipher) → from_str (name c) ≡ ok c
unfolding from_str name
from_str-name aes128_cbc = refl
from_str-name aes192_cbc = refl
from_str-name aes256_cbc = refl
from_str-name aes128_ctr = refl
from_str-name aes192_ctr = refl
from_str-name aes256_ctr = refl
from_str-name tdes_cbc = refl
from_str-name null = refl

from_str-rijndael : from_str rijndael ≡ ok aes256_cbc
unfolding from_str
from_str-rijndael = refl

-- What a name that is accepted can be.
abbrev pub IsNameOf : Bytes → Cipher → Type 0
IsNameOf s c = (s ≡ name c) ⊎ ((s ≡ rijndael) × (c ≡ aes256_cbc))

from_str-IsNameOf : (s : Bytes) (c : Cipher) → from_str s ≡ ok c → IsNameOf s c
unfolding from_str name
from_str-IsNameOf s c h = ground (
  arith,
  bytes_eq_iff s (ascii "3des-cbc"),
  bytes_eq_iff s (ascii "aes128-cbc"),
  bytes_eq_iff s (ascii "aes192-cbc"),
  bytes_eq_iff s (ascii "aes256-cbc"),
  bytes_eq_iff s rijndael,
  bytes_eq_iff s (ascii "aes128-ctr"),
  bytes_eq_iff s (ascii "aes192-ctr"),
  bytes_eq_iff s (ascii "aes256-ctr"),
  bytes_eq_iff s (ascii "none"),
)

IsNameOf-from_str : (s : Bytes) (c : Cipher) → IsNameOf s c → from_str s ≡ ok c
IsNameOf-from_str s c (inl e) = ap from_str e ∙ from_str-name c
IsNameOf-from_str s c (inr (e, a)) = ap from_str e ∙ from_str-rijndael ∙ ap ok (sym a)

-- `from_str` accepts exactly the name of each cipher, and the old name of AES-256 in CBC mode, and
-- returns the cipher that has it.
pub from_str_iff : (s : Bytes) (c : Cipher) → (from_str s ≡ ok c) ↔ IsNameOf s c
from_str_iff s c = (from_str-IsNameOf s c, IsNameOf-from_str s c)
