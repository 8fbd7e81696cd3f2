-- ===== src/Format/Pubkey/Encode.antt =====
-- src/format/ossh_pubkey.rs: the public key blobs, and `PublicParts::blob` of the key types.
use rust_osshkeys.Prelude.{Bytes, Step, ◌>>=◌, ◌>>◌, lift}
use rust_osshkeys.Error.{Error, OsshResult, from_openssl, on_io, on_unit}
use rust_osshkeys.Format.Wire.{into_vec}
use rust_osshkeys.External.KeyTypes.{KeyLib}
use rust_osshkeys.Sshbuf.Memory.{vec_writer}
use rust_osshkeys.Sshbuf.Write.{write_utf8, write_string, write_mpint}
use rust_osshkeys.Keys.Rsa.{rsa_name}
use rust_osshkeys.Keys.Dsa.{dsa_name}
use rust_osshkeys.Keys.Ecdsa.{EcCurve, name, ident}
use rust_osshkeys.Keys.Ed25519.{ed25519_name}
use rust_osshkeys.Keys.Container.{PublicKeyType, KeyPairType}

abbrev put_text : Bytes → Step Error Bytes Unit
put_text b = on_io (write_utf8 vec_writer b)

abbrev put_string : Bytes → Step Error Bytes Unit
put_string b = on_io (write_string vec_writer b)

module _ (lib : KeyLib) where
  abbrev put_mpint : lib.bn.BigNum → Step Error Bytes Unit
  put_mpint v = on_io (write_mpint vec_writer lib.bn v)

  -- The arguments are `key.e()` and `key.n()`.
  unfoldable pub encode_rsa_pubkey : lib.bn.BigNum → lib.bn.BigNum → OsshResult Bytes
  unfolding into_vec
  encode_rsa_pubkey e n = into_vec (do put_text rsa_name; put_mpint e; put_mpint n)

  -- The arguments are `key.p()`, `key.q()`, `key.g()` and `key.pub_key()`.
  unfoldable pub encode_dsa_pubkey :
      lib.bn.BigNum → lib.bn.BigNum → lib.bn.BigNum → lib.bn.BigNum → OsshResult Bytes
  unfolding into_vec
  encode_dsa_pubkey p q g y =
      into_vec (do put_text dsa_name; put_mpint p; put_mpint q; put_mpint g; put_mpint y)

  -- The arguments are the curve, `key.group()` and `key.public_key()`.
  unfoldable pub encode_ecdsa_pubkey : EcCurve → lib.ec.Group → lib.ec.Point → OsshResult Bytes
  unfolding into_vec name ident
  encode_ecdsa_pubkey curve group point = into_vec (do
    put_text (name curve)
    put_text (ident curve)
    bytes ← lift (on_unit from_openssl (lib.ec.point_to_bytes group point))
    put_string bytes)

  unfoldable pub encode_ed25519_pubkey : lib.ed.VerifyingKey → OsshResult Bytes
  unfolding into_vec
  encode_ed25519_pubkey pub_key =
      into_vec (do put_text ed25519_name; put_string (lib.ed.to_bytes pub_key))

  -- `PublicParts::blob` through `inner_key`.
  unfoldable pub public_blob : PublicKeyType lib → OsshResult Bytes
  public_blob (PublicKeyType.rsa k) = encode_rsa_pubkey (lib.rsa.e k.rsa) (lib.rsa.n k.rsa)
  public_blob (PublicKeyType.dsa k) =
      encode_dsa_pubkey (lib.dsa.p k.dsa) (lib.dsa.q k.dsa) (lib.dsa.g k.dsa)
        (lib.dsa.pub_key k.dsa)
  public_blob (PublicKeyType.ecdsa k) =
      encode_ecdsa_pubkey k.curve (lib.ec.group k.key) (lib.ec.public_key k.key)
  public_blob (PublicKeyType.ed25519 k) = encode_ed25519_pubkey k.key

  unfoldable pub pair_blob : KeyPairType lib → OsshResult Bytes
  pair_blob (KeyPairType.rsa k) =
      encode_rsa_pubkey (lib.rsa.private_e k.rsa) (lib.rsa.private_n k.rsa)
  pair_blob (KeyPairType.dsa k) =
      encode_dsa_pubkey (lib.dsa.private_p k.dsa) (lib.dsa.private_q k.dsa)
        (lib.dsa.private_g k.dsa) (lib.dsa.private_pub_key k.dsa)
  pair_blob (KeyPairType.ecdsa k) =
      encode_ecdsa_pubkey k.curve (lib.ec.private_group k.key) (lib.ec.private_public_key k.key)
  pair_blob (KeyPairType.ed25519 k) = encode_ed25519_pubkey (lib.ed.verifying_key k.key)
