-- ===== src/Keys/Container.antt =====
-- src/keys/mod.rs: the types that hold a key of any kind with its comment.
use rust_osshkeys.Prelude.{ℕ, Bytes, [], ok, and_then}
use rust_osshkeys.Error.{OsshResult}
use rust_osshkeys.External.KeyTypes.{KeyLib}
use rust_osshkeys.Keys.Rsa
use rust_osshkeys.Keys.Rsa.{RsaPublicKey, RsaKeyPair, signature_name}
use rust_osshkeys.Keys.Dsa
use rust_osshkeys.Keys.Dsa.{DsaPublicKey, DsaKeyPair}
use rust_osshkeys.Keys.Ecdsa
use rust_osshkeys.Keys.Ecdsa.{EcDsaPublicKey, EcDsaKeyPair, curve_size}
use rust_osshkeys.Keys.Ed25519
use rust_osshkeys.Keys.Ed25519.{Ed25519PublicKey, Ed25519KeyPair}

pub data KeyType : Type 0 where
  rsa dsa ecdsa ed25519 : KeyType

pub data PublicKeyType (lib : KeyLib) : Type 0 where
  rsa : RsaPublicKey lib → PublicKeyType lib
  dsa : DsaPublicKey lib → PublicKeyType lib
  ecdsa : EcDsaPublicKey lib → PublicKeyType lib
  ed25519 : Ed25519PublicKey lib → PublicKeyType lib

pub data KeyPairType (lib : KeyLib) : Type 0 where
  rsa : RsaKeyPair lib → KeyPairType lib
  dsa : DsaKeyPair lib → KeyPairType lib
  ecdsa : EcDsaKeyPair lib → KeyPairType lib
  ed25519 : Ed25519KeyPair lib → KeyPairType lib

module _ (lib : KeyLib) where
  pub record PublicKey : Type 0 where
    pub key : PublicKeyType lib
    pub comment : Bytes

  pub record KeyPair : Type 0 where
    pub key : KeyPairType lib
    pub comment : Bytes

  -- The `From` implementations: a key with an empty comment.
  abbrev pub public_from : PublicKeyType lib → PublicKey
  public_from k = record { key = k; comment = [] }

  abbrev pub pair_from : KeyPairType lib → KeyPair
  pair_from k = record { key = k; comment = [] }

  -- A write through `comment_mut`.
  unfoldable public_set_comment : Bytes → PublicKey → PublicKey
  public_set_comment comment k = record k { comment = comment }

  unfoldable pair_set_comment : Bytes → KeyPair → KeyPair
  pair_set_comment comment k = record k { comment = comment }

  -- `PublicKey::keytype` and `KeyPair::keytype`.
  unfoldable pub public_keytype : PublicKeyType lib → KeyType
  public_keytype (rsa _) = rsa
  public_keytype (dsa _) = dsa
  public_keytype (ecdsa _) = ecdsa
  public_keytype (ed25519 _) = ed25519

  unfoldable pub pair_keytype : KeyPairType lib → KeyType
  pair_keytype (rsa _) = rsa
  pair_keytype (dsa _) = dsa
  pair_keytype (ecdsa _) = ecdsa
  pair_keytype (ed25519 _) = ed25519

  -- `Key::keyname` through `inner_key`.
  unfoldable pub public_keyname : PublicKeyType lib → Bytes
  unfolding signature_name Ecdsa.name
  public_keyname (rsa k) = signature_name k.signhash
  public_keyname (dsa _) = Dsa.dsa_name
  public_keyname (ecdsa k) = Ecdsa.name k.curve
  public_keyname (ed25519 _) = Ed25519.ed25519_name

  unfoldable pub pair_keyname : KeyPairType lib → Bytes
  unfolding signature_name Ecdsa.name
  pair_keyname (rsa k) = signature_name k.signhash
  pair_keyname (dsa _) = Dsa.dsa_name
  pair_keyname (ecdsa k) = Ecdsa.name k.curve
  pair_keyname (ed25519 _) = Ed25519.ed25519_name

  -- `Key::short_keyname` through `inner_key`.
  unfoldable pub short_keyname : KeyType → Bytes
  short_keyname rsa = Rsa.rsa_short_name
  short_keyname dsa = Dsa.dsa_short_name
  short_keyname ecdsa = Ecdsa.ecdsa_short_name
  short_keyname ed25519 = Ed25519.ed25519_short_name

  -- `Key::size` through `inner_key`.
  unfoldable pub public_size : PublicKeyType lib → ℕ
  unfolding Rsa.public_size Dsa.public_size curve_size
  public_size (rsa k) = Rsa.public_size lib k
  public_size (dsa k) = Dsa.public_size lib k
  public_size (ecdsa k) = curve_size k.curve
  public_size (ed25519 _) = 256

  unfoldable pub pair_size : KeyPairType lib → ℕ
  unfolding Rsa.pair_size Dsa.pair_size curve_size
  pair_size (rsa k) = Rsa.pair_size lib k
  pair_size (dsa k) = Dsa.pair_size lib k
  pair_size (ecdsa k) = curve_size k.curve
  pair_size (ed25519 _) = 256

  -- The random choices of the four generators.
  pub record Seeds : Type 0 where
    pub rsa_seed : lib.rsa.Seed
    pub dsa_seed : lib.dsa.Seed
    pub ec_seed : lib.ec.Seed
    pub ed_seed : lib.ed.Seed

  -- `KeyPair::generate`.
  unfoldable pub generate : Seeds → KeyType → ℕ → OsshResult KeyPair
  unfolding Rsa.generate Dsa.generate Ecdsa.generate Ed25519.generate
  generate s rsa bits = and_then (Rsa.generate lib s.rsa_seed bits) (λ k. ok (pair_from (rsa k)))
  generate s dsa bits = and_then (Dsa.generate lib s.dsa_seed bits) (λ k. ok (pair_from (dsa k)))
  generate s ecdsa bits =
      and_then (Ecdsa.generate lib s.ec_seed bits) (λ k. ok (pair_from (ecdsa k)))
  generate s ed25519 bits =
      and_then (Ed25519.generate lib s.ed_seed bits) (λ k. ok (pair_from (ed25519 k)))

  -- The match of `KeyPair::clone_public_key`.
  unfoldable pub clone_key : KeyPairType lib → OsshResult (PublicKeyType lib)
  unfolding Rsa.clone_public_key Dsa.clone_public_key Ecdsa.clone_public_key
      Ed25519.clone_public_key
  clone_key (rsa k) = and_then (Rsa.clone_public_key lib k) (λ p. ok (rsa p))
  clone_key (dsa k) = and_then (Dsa.clone_public_key lib k) (λ p. ok (dsa p))
  clone_key (ecdsa k) = and_then (Ecdsa.clone_public_key lib k) (λ p. ok (ecdsa p))
  clone_key (ed25519 k) = and_then (Ed25519.clone_public_key lib k) (λ p. ok (ed25519 p))

  -- `KeyPair::clone_public_key` keeps the comment.
  unfoldable pub clone_public_key : KeyPair → OsshResult PublicKey
  unfolding clone_key
  clone_public_key k =
      and_then (clone_key k.key) (λ p. ok (record { key = p; comment = k.comment }))
