-- ===== src/Keys/PkeyRoundTrip.antt =====
-- What `from_ossl_pkey` makes of the `PKey` of a key.
use rust_osshkeys.Prelude.{
  ◌≡◌, ◌≤◌, ◌==◌, refl, arith, Bytes, true, false, leb, some, length, ok, err, map_err-eq-ok,
}
use rust_osshkeys.Error.{OsshResult, from_openssl, from_slice_length}
use rust_osshkeys.External.KeyTypes.{KeyLib}
use rust_osshkeys.External.PKeys.{PKeys, PkeyId}
use rust_osshkeys.Keys.Rsa
use rust_osshkeys.Keys.Rsa.{sha1, rsa_min_size, rsa_max_size, RsaSignature}
use rust_osshkeys.Keys.Dsa
use rust_osshkeys.Keys.Ecdsa
use rust_osshkeys.Keys.Ecdsa.{EcCurve, nistp256, nistp384, nistp521, nid, curve_of_nid}
use rust_osshkeys.Keys.Ed25519
use rust_osshkeys.Keys.Ed25519.{try_into}
use rust_osshkeys.Keys.Container.{
  PublicKeyType, KeyPairType, PublicKey, KeyPair, public_from, pair_from,
}
use rust_osshkeys.Keys.Pkey.{
  ossl_pkey, ed25519_pair_ossl_pkey, pair_of_id, pair_from_ossl_pkey, public_of_id,
  public_from_ossl_pkey,
}

curve_of_nid_self : (c : EcCurve) → curve_of_nid (some (nid c)) ≡ ok c
unfolding curve_of_nid nid
curve_of_nid_self nistp256 = refl
curve_of_nid_self nistp384 = refl
curve_of_nid_self nistp521 = refl

module _ (lib : KeyLib) (pk : PKeys lib) where
  -- The sizes that an RSA key may have, and for ECDSA a key in the group of its curve.
  abbrev pub CanImportPair : KeyPairType lib → Type 0
  CanImportPair (KeyPairType.rsa k) =
      (rsa_min_size ≤ lib.bn.num_bits (lib.rsa.private_n k.rsa))
      × (lib.bn.num_bits (lib.rsa.private_n k.rsa) ≤ rsa_max_size)
  CanImportPair (KeyPairType.ecdsa k) =
      lib.ec.from_curve_name (nid k.curve) ≡ ok (lib.ec.private_group k.key)
  CanImportPair _ = Unit

  -- What is imported in place of a key pair: the key with SHA-1 as the hash of RSA and without the
  -- comment, but never an Ed25519 key.
  abbrev pub imported_pair : KeyPairType lib → OsshResult (KeyPair lib)
  imported_pair (KeyPairType.rsa k) =
      ok (pair_from lib (KeyPairType.rsa (record { rsa = k.rsa; signhash = sha1 })))
  imported_pair (KeyPairType.dsa k) = ok (pair_from lib (KeyPairType.dsa k))
  imported_pair (KeyPairType.ecdsa k) = ok (pair_from lib (KeyPairType.ecdsa k))
  imported_pair (KeyPairType.ed25519 k) = err from_slice_length

  -- A `PKey` with the key in it.
  abbrev pub HoldsPair : KeyPairType lib → pk.Private → Type 0
  HoldsPair (KeyPairType.rsa k) p = (pk.private_id p ≡ PkeyId.rsa) × (pk.private_rsa p ≡ ok k.rsa)
  HoldsPair (KeyPairType.dsa k) p = (pk.private_id p ≡ PkeyId.dsa) × (pk.private_dsa p ≡ ok k.dsa)
  HoldsPair (KeyPairType.ecdsa k) p =
      (pk.private_id p ≡ PkeyId.ec) × (pk.private_ec_key p ≡ ok k.key)
  HoldsPair (KeyPairType.ed25519 k) p =
      (b : Bytes) × (pk.private_id p ≡ PkeyId.ed25519) × (pk.raw_private_key p ≡ ok b)

  -- The raw private key of OpenSSL has 32 bytes, but `from_ossl_ed25519` wants 64: whatever the key,
  -- `from_ossl_pkey` fails with InvalidLength on an Ed25519 key pair.
  pub pair_from_ossl_pkey_ed25519 :
      (p : pk.Private) (b : Bytes)
      → pk.private_id p ≡ PkeyId.ed25519
      → pk.raw_private_key p ≡ ok b
      → pair_from_ossl_pkey lib pk p ≡ err from_slice_length
  unfolding pair_from_ossl_pkey pair_of_id Ed25519.from_ossl_ed25519 try_into
  pair_from_ossl_pkey_ed25519 p b id raw =
      let size = pk.length-raw_private_key p b id raw in
      let short : (length b == 64) ≡ false = ground (arith, size) in rw (id, raw, short) refl

  pub pair_from_ossl_pkey-HoldsPair :
      (k : KeyPairType lib) (p : pk.Private)
      → CanImportPair k
      → HoldsPair k p
      → pair_from_ossl_pkey lib pk p ≡ imported_pair k
  unfolding pair_from_ossl_pkey pair_of_id Rsa.pair_from_ossl_rsa Rsa.pair_size Dsa.from_ossl_dsa
      Ecdsa.pair_from_ossl_ec
  pair_from_ossl_pkey-HoldsPair (KeyPairType.rsa k) p (lo, hi) (id, has) =
      let least : leb rsa_min_size (lib.bn.num_bits (lib.rsa.private_n k.rsa)) ≡ true =
        ground (arith, lo) in
      let most : leb (lib.bn.num_bits (lib.rsa.private_n k.rsa)) rsa_max_size ≡ true =
        ground (arith, hi) in
      rw (id, has, least, most) refl
  pair_from_ossl_pkey-HoldsPair (KeyPairType.dsa k) p h (id, has) = rw (id, has) refl
  pair_from_ossl_pkey-HoldsPair (KeyPairType.ecdsa k) p h (id, has) =
      let named = lib.ec.curve_name_lem (nid k.curve) (lib.ec.private_group k.key) h in
      rw (id, has, named, curve_of_nid_self k.curve) refl
  pair_from_ossl_pkey-HoldsPair (KeyPairType.ed25519 k) p h (b, id, raw) =
      pair_from_ossl_pkey_ed25519 p b id raw

  pub ossl_pkey-HoldsPair :
      (k : KeyPairType lib) (p : pk.Private) → ossl_pkey lib pk k ≡ ok p → HoldsPair k p
  unfolding ossl_pkey ed25519_pair_ossl_pkey
  ossl_pkey-HoldsPair (KeyPairType.rsa k) p h =
      pk.private_of_rsa k.rsa p (map_err-eq-ok from_openssl _ h)
  ossl_pkey-HoldsPair (KeyPairType.dsa k) p h =
      pk.private_of_dsa k.dsa p (map_err-eq-ok from_openssl _ h)
  ossl_pkey-HoldsPair (KeyPairType.ecdsa k) p h =
      pk.private_of_ec_key k.key p (map_err-eq-ok from_openssl _ h)
  ossl_pkey-HoldsPair (KeyPairType.ed25519 k) p h =
      let (id, raw) = pk.private_of_raw_bytes _ p (map_err-eq-ok from_openssl _ h) in (_, id, raw)

  -- The same for public keys; these can all be imported.
  abbrev pub CanImport : PublicKeyType lib → Type 0
  CanImport (PublicKeyType.rsa k) =
      (rsa_min_size ≤ lib.bn.num_bits (lib.rsa.n k.rsa))
      × (lib.bn.num_bits (lib.rsa.n k.rsa) ≤ rsa_max_size)
  CanImport (PublicKeyType.ecdsa k) = lib.ec.from_curve_name (nid k.curve) ≡ ok (lib.ec.group k.key)
  CanImport _ = Unit

  -- The key with SHA-1 as the hash of RSA and without the comment.
  abbrev pub imported : PublicKeyType lib → PublicKey lib
  imported (PublicKeyType.rsa k) =
      public_from lib (PublicKeyType.rsa (record { rsa = k.rsa; signhash = sha1 }))
  imported k = public_from lib k

  pub public_of_dsa_lem :
      (k : Dsa.DsaPublicKey lib) (p : pk.Public)
      → pk.public_from_dsa k.dsa ≡ ok p
      → public_from_ossl_pkey lib pk p ≡ ok (public_from lib (PublicKeyType.dsa k))
  unfolding public_from_ossl_pkey public_of_id Dsa.public_from_ossl_dsa
  public_of_dsa_lem k p h = let (id, has) = pk.public_of_dsa k.dsa p h in rw (id, has) refl

  pub public_of_ecdsa_lem :
      (k : Ecdsa.EcDsaPublicKey lib) (p : pk.Public)
      → lib.ec.from_curve_name (nid k.curve) ≡ ok (lib.ec.group k.key)
      → pk.public_from_ec_key k.key ≡ ok p
      → public_from_ossl_pkey lib pk p ≡ ok (public_from lib (PublicKeyType.ecdsa k))
  unfolding public_from_ossl_pkey public_of_id Ecdsa.public_from_ossl_ec
  public_of_ecdsa_lem k p c h =
      let (id, has) = pk.public_of_ec_key k.key p h in
      let named = lib.ec.curve_name_lem (nid k.curve) (lib.ec.group k.key) c in
      rw (id, has, named, curve_of_nid_self k.curve) refl

  pub public_of_ed25519_lem :
      (k : Ed25519.Ed25519PublicKey lib) (p : pk.Public)
      → pk.public_key_from_raw_bytes (lib.ed.to_bytes k.key) ≡ ok p
      → public_from_ossl_pkey lib pk p ≡ ok (public_from lib (PublicKeyType.ed25519 k))
  unfolding public_from_ossl_pkey public_of_id Ed25519.public_from_ossl_ed25519
  public_of_ed25519_lem k p h =
      let (id, has) = pk.public_of_raw_bytes (lib.ed.to_bytes k.key) p h in
      rw (id, has, lib.ed.from_bytes-to_bytes k.key) refl
