-- ===== src/Keys/Dsa.antt =====
-- src/keys/dsa.rs: DSA keys.
use rust_osshkeys.Prelude.{ℕ, Bytes, ascii, not, ◌==◌, if◌then◌else◌, ok, and_then}
use rust_osshkeys.Error.{OsshResult, fail, from_openssl, invalid_key_size, on_unit}
use rust_osshkeys.External.KeyTypes.{KeyLib}

abbrev pub dsa_name : Bytes
dsa_name = ascii "ssh-dss"

abbrev pub dsa_short_name : Bytes
dsa_short_name = ascii "DSA"

module _ (lib : KeyLib) where
  pub record DsaPublicKey : Type 0 where
    pub dsa : lib.dsa.Public

  pub record DsaKeyPair : Type 0 where
    pub dsa : lib.dsa.Private

  -- `DsaPublicKey::new`, with the error of OpenSSL converted.
  unfoldable pub new :
      lib.bn.BigNum → lib.bn.BigNum → lib.bn.BigNum → lib.bn.BigNum → OsshResult DsaPublicKey
  new p q g pub_key =
      and_then (on_unit from_openssl (lib.dsa.from_public_components p q g pub_key))
        (λ dsa. ok (record { dsa = dsa }))

  -- `DsaPublicKey::from_ossl_dsa` and `DsaKeyPair::from_ossl_dsa`.
  unfoldable pub public_from_ossl_dsa : lib.dsa.Public → DsaPublicKey
  public_from_ossl_dsa key = record { dsa = key }

  unfoldable pub from_ossl_dsa : lib.dsa.Private → DsaKeyPair
  from_ossl_dsa key = record { dsa = key }

  -- `Key::size` of both types.
  unfoldable pub public_size : DsaPublicKey → ℕ
  public_size k = lib.bn.num_bits (lib.dsa.p k.dsa)

  unfoldable pub pair_size : DsaKeyPair → ℕ
  pair_size k = lib.bn.num_bits (lib.dsa.private_p k.dsa)

  -- `DsaKeyPair::generate`; zero stands for the default size.
  unfoldable pub generate : lib.dsa.Seed → ℕ → OsshResult DsaKeyPair
  generate seed bits =
      let size = if bits == 0 then 1024 else bits in
      if not (size == 1024)
      then fail invalid_key_size
      else and_then (on_unit from_openssl (lib.dsa.generate seed size))
          (λ dsa. ok (record { dsa = dsa }))

  -- `DsaKeyPair::clone_public_key`.
  unfoldable pub clone_public_key : DsaKeyPair → OsshResult DsaPublicKey
  unfolding new
  clone_public_key k =
      new (lib.dsa.private_p k.dsa) (lib.dsa.private_q k.dsa) (lib.dsa.private_g k.dsa)
        (lib.dsa.private_pub_key k.dsa)
