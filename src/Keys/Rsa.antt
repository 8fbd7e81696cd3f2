-- ===== src/Keys/Rsa.antt =====
-- src/keys/rsa.rs: RSA keys and the signature hash that they carry.
use rust_osshkeys.Prelude.{
  ℕ, Bytes, ascii, bytes_eq, ◌&&◌, leb, ◌==◌, if◌then◌else◌, Option, none, some, ok, and_then,
}
use rust_osshkeys.Error.{OsshResult, fail, from_openssl, invalid_key_size, on_unit}
use rust_osshkeys.External.KeyTypes.{KeyLib}

abbrev pub rsa_def_size : ℕ
rsa_def_size = 2048

abbrev pub rsa_min_size : ℕ
rsa_min_size = 1024

abbrev pub rsa_max_size : ℕ
rsa_max_size = 16384

abbrev pub rsa_name : Bytes
rsa_name = ascii "ssh-rsa"

abbrev pub rsa_sha256_name : Bytes
rsa_sha256_name = ascii "rsa-sha2-256"

abbrev pub rsa_sha512_name : Bytes
rsa_sha512_name = ascii "rsa-sha2-512"

abbrev pub rsa_short_name : Bytes
rsa_short_name = ascii "RSA"

pub data RsaSignature : Type 0 where
  sha1 sha2_256 sha2_512 : RsaSignature

-- `RsaSignature::from_name`, `name` and `default`.
unfoldable pub from_name : Bytes → Option RsaSignature
unfolding bytes_eq
from_name s =
    if bytes_eq s rsa_name
    then some sha1
    else if bytes_eq s rsa_sha256_name
    then some sha2_256
    else if bytes_eq s rsa_sha512_name
    then some sha2_512
    else none

unfoldable pub signature_name : RsaSignature → Bytes
signature_name sha1 = rsa_name
signature_name sha2_256 = rsa_sha256_name
signature_name sha2_512 = rsa_sha512_name

abbrev pub default_signature : RsaSignature
default_signature = sha2_512

module _ (lib : KeyLib) where
  pub record RsaPublicKey : Type 0 where
    pub rsa : lib.rsa.Public
    pub signhash : RsaSignature

  pub record RsaKeyPair : Type 0 where
    pub rsa : lib.rsa.Private
    pub signhash : RsaSignature

  -- `RsaPublicKey::new_with_signhash` and `RsaPublicKey::new`. The error of OpenSSL is converted
  -- here already, as every caller does.
  unfoldable pub new_with_signhash :
      lib.bn.BigNum → lib.bn.BigNum → RsaSignature → OsshResult RsaPublicKey
  new_with_signhash n e sig_hash =
      and_then (on_unit from_openssl (lib.rsa.from_public_components n e))
        (λ rsa. ok (record { rsa = rsa; signhash = sig_hash }))

  unfoldable pub new : lib.bn.BigNum → lib.bn.BigNum → OsshResult RsaPublicKey
  unfolding new_with_signhash
  new n e = new_with_signhash n e default_signature

  -- `Key::size` of both types.
  unfoldable pub public_size : RsaPublicKey → ℕ
  public_size k = lib.bn.num_bits (lib.rsa.n k.rsa)

  unfoldable pub pair_size : RsaKeyPair → ℕ
  pair_size k = lib.bn.num_bits (lib.rsa.private_n k.rsa)

  -- `from_ossl_rsa` of both types.
  unfoldable pub public_from_ossl_rsa : lib.rsa.Public → RsaSignature → OsshResult RsaPublicKey
  public_from_ossl_rsa key signhash =
      let rsa : RsaPublicKey = record { rsa = key; signhash = signhash } in
      if leb rsa_min_size (public_size rsa) && leb (public_size rsa) rsa_max_size
      then ok rsa
      else fail invalid_key_size

  unfoldable pub pair_from_ossl_rsa : lib.rsa.Private → RsaSignature → OsshResult RsaKeyPair
  pair_from_ossl_rsa key signhash =
      let rsa : RsaKeyPair = record { rsa = key; signhash = signhash } in
      if leb rsa_min_size (pair_size rsa) && leb (pair_size rsa) rsa_max_size
      then ok rsa
      else fail invalid_key_size

  -- `set_sign_type` of both types.
  unfoldable pub set_sign_type : RsaPublicKey → RsaSignature → RsaPublicKey
  set_sign_type k sig = record k { signhash = sig }

  unfoldable pair_set_sign_type : RsaKeyPair → RsaSignature → RsaKeyPair
  pair_set_sign_type k sig = record k { signhash = sig }

  -- `RsaKeyPair::generate`; zero stands for the default size.
  unfoldable pub generate : lib.rsa.Seed → ℕ → OsshResult RsaKeyPair
  generate seed bits =
      let size = if bits == 0 then rsa_def_size else bits in
      if leb rsa_min_size size && leb size rsa_max_size
      then and_then (on_unit from_openssl (lib.rsa.generate seed size))
          (λ rsa. ok (record { rsa = rsa; signhash = default_signature }))
      else fail invalid_key_size

  -- `RsaKeyPair::clone_public_key`.
  unfoldable pub clone_public_key : RsaKeyPair → OsshResult RsaPublicKey
  unfolding new_with_signhash
  clone_public_key k =
      new_with_signhash (lib.rsa.private_n k.rsa) (lib.rsa.private_e k.rsa) k.signhash
