-- ===== src/Keys/RandomArt/Fingerprint.antt =====
-- src/keys/mod.rs: the fingerprints of keys. The hash functions are arguments.
use rust_osshkeys.Prelude.{◌+◌, ◌≤◌, ◌≡◌, arith, Bytes, ascii, length, All, ok, and_then}
use rust_osshkeys.Error.{OsshResult}
use rust_osshkeys.External.KeyTypes.{KeyLib}
use rust_osshkeys.Keys.Container.{
  KeyType, PublicKeyType, KeyPairType, public_keytype, pair_keytype, public_size, pair_size,
  short_keyname,
}
use rust_osshkeys.Format.Pubkey.Encode.{public_blob, pair_blob}
use rust_osshkeys.Keys.RandomArt.Walk.{fldsize_x}
use rust_osshkeys.Keys.RandomArt.Picture.{randomart}
use rust_osshkeys.Keys.RandomArt.Lines.{IsPrintable, IsPicture, randomart_lem}

pub data FingerprintHash : Type 0 where
  md5 sha256 sha512 : FingerprintHash

unfoldable pub fingerprint_name : FingerprintHash → Bytes
fingerprint_name FingerprintHash.md5 = ascii "MD5"
fingerprint_name FingerprintHash.sha256 = ascii "SHA256"
fingerprint_name FingerprintHash.sha512 = ascii "SHA512"

-- The hash functions of the crates md-5 and sha2.
pub record Hashers : Type 0 where
  pub hash : FingerprintHash → Bytes → Bytes

module _ (lib : KeyLib) (hs : Hashers) where
  -- `PublicParts::fingerprint`, from the result of `blob`.
  unfoldable pub fingerprint : OsshResult Bytes → FingerprintHash → OsshResult Bytes
  fingerprint blob hash = and_then blob (λ b. ok (hs.hash hash b))

  -- `PublicParts::fingerprint_randomart` of both containers.
  unfoldable pub public_randomart : PublicKeyType lib → FingerprintHash → OsshResult Bytes
  unfolding fingerprint public_blob short_keyname public_keytype public_size fingerprint_name
      randomart
  public_randomart k hash = and_then (fingerprint (public_blob lib k) hash) (λ digest.
      randomart (short_keyname lib (public_keytype lib k)) (public_size lib k)
        (fingerprint_name hash) digest)

  unfoldable pub pair_randomart : KeyPairType lib → FingerprintHash → OsshResult Bytes
  unfolding fingerprint pair_blob short_keyname pair_keytype pair_size fingerprint_name randomart
  pair_randomart k hash = and_then (fingerprint (pair_blob lib k) hash) (λ digest.
      randomart (short_keyname lib (pair_keytype lib k)) (pair_size lib k) (fingerprint_name hash)
        digest)

  -- A name that fits between the brackets of a border.
  abbrev IsShort : Bytes → Type 0
  IsShort name = (length name + 2 ≤ fldsize_x) × All IsPrintable name

  short_keyname-IsShort : (t : KeyType) → IsShort (short_keyname lib t)
  unfolding short_keyname
  short_keyname-IsShort KeyType.rsa = (omega arith, ground arith)
  short_keyname-IsShort KeyType.dsa = (omega arith, ground arith)
  short_keyname-IsShort KeyType.ecdsa = (omega arith, ground arith)
  short_keyname-IsShort KeyType.ed25519 = (omega arith, ground arith)

  fingerprint_name-IsShort : (h : FingerprintHash) → IsShort (fingerprint_name h)
  unfolding fingerprint_name
  fingerprint_name-IsShort FingerprintHash.md5 = (omega arith, ground arith)
  fingerprint_name-IsShort FingerprintHash.sha256 = (omega arith, ground arith)
  fingerprint_name-IsShort FingerprintHash.sha512 = (omega arith, ground arith)

  -- If the blob of a key can be written, there is a picture of its fingerprint, for every hash
  -- function and without a panic: 11 lines of 19 printable characters with line feeds between them,
  -- the first and the last between plus signs and the other 9 between bars. This holds for public
  -- keys and for key pairs.
  pub randomart_total :
      (k : PublicKeyType lib) (p : KeyPairType lib) (hash : FingerprintHash) (b c : Bytes)
      → public_blob lib k ≡ ok b
      → pair_blob lib p ≡ ok c
      → ((art : Bytes) × (public_randomart k hash ≡ ok art) × IsPicture art)
        × ((art : Bytes) × (pair_randomart p hash ≡ ok art) × IsPicture art)
  unfolding public_randomart pair_randomart fingerprint
  randomart_total k p hash b c hk hp =
      let (name_fits, name_prints) = fingerprint_name-IsShort hash in
      let (kf, kp) = short_keyname-IsShort (public_keytype lib k) in
      let (pf, pp) = short_keyname-IsShort (pair_keytype lib p) in
      let (art, e, lines) =
        randomart_lem _ (public_size lib k) _ (hs.hash hash b) kf kp name_fits name_prints in
      let (art₂, e₂, lines₂) =
        randomart_lem _ (pair_size lib p) _ (hs.hash hash c) pf pp name_fits name_prints in
      ((art, rw hk e, lines), (art₂, rw hp e₂, lines₂))
