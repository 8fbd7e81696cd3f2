-- ===== src/Format/Privkey/Key.antt =====
-- src/format/ossh_privkey.rs: `encode_key` and `decode_key`, the private parts of a key.
use rust_osshkeys.Prelude.{
  Bytes, bytes_eq, ◌||◌, if◌then◌else◌, Option, none, some, ok, panic, and_then, Step, ◌>>=◌, ◌>>◌,
  pure, lift,
}
use rust_osshkeys.Error.{
  Error, OsshResult, fail, from_openssl, on_io, on_unit, type_not_match, unsupport_type,
}
use rust_osshkeys.External.KeyTypes.{KeyLib}
use rust_osshkeys.Sshbuf.Reader.{Reader, Writer}
use rust_osshkeys.Sshbuf.Read.{read_utf8, read_string, read_mpint}
use rust_osshkeys.Sshbuf.Write.{write_utf8, write_string, write_mpint}
use rust_osshkeys.Keys.Rsa
use rust_osshkeys.Keys.Rsa.{
  RsaSignature, sha1, sha2_256, sha2_512, rsa_name, rsa_sha256_name, rsa_sha512_name,
}
use rust_osshkeys.Keys.Dsa
use rust_osshkeys.Keys.Dsa.{dsa_name}
use rust_osshkeys.Keys.Ecdsa
use rust_osshkeys.Keys.Ecdsa.{
  from_name, from_str, curve_eq, ident, nist_p256_name, nist_p384_name, nist_p521_name,
}
use rust_osshkeys.Keys.Ed25519
use rust_osshkeys.Keys.Ed25519.{ed25519_name}
use rust_osshkeys.Keys.Container.{KeyPairType, pair_keyname}
use rust_osshkeys.Format.Wire.{check}

-- `Option::unwrap`.
abbrev pub unwrap : {A : Type 0} → Option A → OsshResult A
unwrap none = panic
unwrap (some a) = ok a

module _ (lib : KeyLib) {W : Type 0} (wr : Writer W) where
  abbrev put_mpint : lib.bn.BigNum → Step Error W Unit
  put_mpint v = on_io (write_mpint wr lib.bn v)

  -- The match of `encode_key`.
  unfoldable pub encode_parts : KeyPairType lib → Step Error W Unit
  unfolding ident
  encode_parts (KeyPairType.rsa k) = do
    put_mpint (lib.rsa.private_n k.rsa)
    put_mpint (lib.rsa.private_e k.rsa)
    put_mpint (lib.rsa.private_d k.rsa)
    iqmp ← lift (unwrap (lib.rsa.private_iqmp k.rsa))
    put_mpint iqmp
    p ← lift (unwrap (lib.rsa.private_p k.rsa))
    put_mpint p
    q ← lift (unwrap (lib.rsa.private_q k.rsa))
    put_mpint q
  encode_parts (KeyPairType.dsa k) = do
    put_mpint (lib.dsa.private_p k.dsa)
    put_mpint (lib.dsa.private_q k.dsa)
    put_mpint (lib.dsa.private_g k.dsa)
    put_mpint (lib.dsa.private_pub_key k.dsa)
    put_mpint (lib.dsa.priv_key k.dsa)
  encode_parts (KeyPairType.ecdsa k) = do
    on_io (write_utf8 wr (ident k.curve))
    point ← lift (
        on_unit from_openssl
          (lib.ec.point_to_bytes (lib.ec.private_group k.key) (lib.ec.private_public_key k.key)))
    on_io (write_string wr point)
    put_mpint (lib.ec.private_key k.key)
  encode_parts (KeyPairType.ed25519 k) = do
    on_io (write_string wr (lib.ed.to_bytes (lib.ed.verifying_key k.key)))
    on_io (write_string wr (lib.ed.to_keypair_bytes k.key))

  unfoldable pub encode_key : KeyPairType lib → Step Error W Unit
  unfolding encode_parts pair_keyname
  encode_key k = do on_io (write_utf8 wr (pair_keyname lib k)); encode_parts k

module _ (lib : KeyLib) where
  -- `&d % &(&p - &one)`.
  unfoldable pub reduced : lib.bn.BigNum → lib.bn.BigNum → lib.bn.BigNum → OsshResult lib.bn.BigNum
  reduced d p one = on_unit from_openssl (and_then (lib.bn.sub p one) (λ m. lib.bn.rem d m))

module _ (lib : KeyLib) {R : Type 0} (rd : Reader R) where
  abbrev get_mpint : Step Error R lib.bn.BigNum
  get_mpint = on_io (read_mpint lib.bn rd)

  unfoldable pub decode_rsa : RsaSignature → Step Error R (KeyPairType lib)
  unfolding reduced Rsa.pair_from_ossl_rsa
  decode_rsa sig = do
    n ← get_mpint
    e ← get_mpint
    d ← get_mpint
    iqmp ← get_mpint
    p ← get_mpint
    q ← get_mpint
    one ← lift (on_unit from_openssl (lib.bn.from_u32 1))
    dmp1 ← lift (reduced lib d p one)
    dmq1 ← lift (reduced lib d q one)
    rsa ← lift (on_unit from_openssl (lib.rsa.from_private_components n e d p q dmp1 dmq1 iqmp))
    key ← lift (Rsa.pair_from_ossl_rsa lib rsa sig)
    pure (KeyPairType.rsa key)

  unfoldable pub decode_dsa : Step Error R (KeyPairType lib)
  unfolding Dsa.from_ossl_dsa
  decode_dsa = do
    p ← get_mpint
    q ← get_mpint
    g ← get_mpint
    pubkey ← get_mpint
    privkey ← get_mpint
    dsa ← lift (on_unit from_openssl (lib.dsa.from_private_components p q g privkey pubkey))
    pure (KeyPairType.dsa (Dsa.from_ossl_dsa lib dsa))

  unfoldable pub decode_ecdsa : Bytes → Step Error R (KeyPairType lib)
  unfolding from_name from_str curve_eq Ecdsa.pair_from_bytes
  decode_ecdsa keyname = do
    curvename ← on_io (read_utf8 rd)
    curvehint ← lift (from_name keyname)
    curve ← lift (from_str curvename)
    _ ← check (curve_eq curve curvehint) type_not_match
    pubkey ← on_io (read_string rd)
    privkey ← get_mpint
    key ← lift (Ecdsa.pair_from_bytes lib curve pubkey privkey)
    pure (KeyPairType.ecdsa key)

  unfoldable pub decode_ed25519 : Step Error R (KeyPairType lib)
  unfolding Ed25519.from_bytes
  decode_ed25519 = do
    pk ← on_io (read_string rd)
    sk ← on_io (read_string rd)
    key ← lift (Ed25519.from_bytes lib pk sk)
    pure (KeyPairType.ed25519 key)

  -- The match of `decode_key`; the three names of RSA keys select the signature hash.
  unfoldable pub decode_parts : Bytes → Step Error R (KeyPairType lib)
  unfolding bytes_eq
  decode_parts keyname =
      if bytes_eq keyname rsa_name
      then decode_rsa sha1
      else if bytes_eq keyname rsa_sha256_name
      then decode_rsa sha2_256
      else if bytes_eq keyname rsa_sha512_name
      then decode_rsa sha2_512
      else if bytes_eq keyname dsa_name
      then decode_dsa
      else if bytes_eq keyname nist_p256_name
          || bytes_eq keyname nist_p384_name
          || bytes_eq keyname nist_p521_name
      then decode_ecdsa keyname
      else if bytes_eq keyname ed25519_name
      then decode_ed25519
      else lift (fail unsupport_type)

  unfoldable pub decode_key : Step Error R (KeyPairType lib)
  unfolding decode_parts
  decode_key = do keyname ← on_io (read_utf8 rd); decode_parts keyname
