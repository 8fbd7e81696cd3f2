-- ===== src/Format/PemRoundTrip.antt =====
-- Keys that are written as PEM or PKCS#8 and read again.
use rust_osshkeys.Prelude.{
  ◌≡◌, Bool, true, false, if◌then◌else◌, err, ◌∙◌, refl, ap, Bytes, ascii, bytes_eq, Option, none,
  some, ok, and_then, and_then-eq-ok, map_err-eq-ok,
}
use rust_osshkeys.Error.{Error, from_openssl}
use rust_osshkeys.External.Crypters.{aes_128_cbc}
use rust_osshkeys.External.Pems.{PrivateText, IsPassphrase}
use rust_osshkeys.External.PemLib.{PemLib}
use rust_osshkeys.Sshbuf.Utf8.{is_utf8}
use rust_osshkeys.Keys.Ed25519.{Ed25519KeyPair}
use rust_osshkeys.Keys.Container.{KeyPairType, KeyPair}
use rust_osshkeys.Keys.Pkey.{ossl_pkey, ed25519_pair_ossl_pkey, pair_from_ossl_pkey}
use rust_osshkeys.Keys.PkeyRoundTrip.{
  CanImportPair, imported_pair, HoldsPair, pair_from_ossl_pkey-HoldsPair, ossl_pkey-HoldsPair,
}
use rust_osshkeys.Format.Pem.{from_utf8, parse_pem_privkey, privkey_pem, stringify_pem_privkey}
use rust_osshkeys.Format.Pkcs8.{pkcs8_pem, serialize_pkcs8_privkey}
use rust_osshkeys.Format.Keystr.{parse_keystr, is_pem_tag}

checked-eq-ok :
    (b : Bool) (t : Bytes) (e : Error) {s : Bytes} → (if b then ok t else err e) ≡ ok s → t ≡ s
checked-eq-ok true t e h = cc
checked-eq-ok false t e h = cc

pub from_utf8-eq-ok : (t : Bytes) {s : Bytes} → from_utf8 t ≡ ok s → t ≡ s
unfolding from_utf8
from_utf8-eq-ok t h = checked-eq-ok (is_utf8 t) t _ h

-- There is no passphrase, or one that OpenSSL takes whole.
abbrev pub PassphraseFits : Option Bytes → Type 0
PassphraseFits none = Unit
PassphraseFits (some pass) = IsPassphrase pass

module _ (lib : PemLib) where
  abbrev TextOf : Bytes → Bytes → Option Bytes → lib.pk.Private → Type 0
  TextOf t tag pass p =
      PrivateText lib.pems.parse lib.pems.private_key_from_pem
        lib.pems.private_key_from_pem_passphrase t tag pass p

  -- A text that OpenSSL reads as the key, with a tag that `parse_keystr` hands to OpenSSL.
  abbrev Reads : KeyPairType lib.ossh.keys → Option Bytes → Bytes → Type 0
  Reads k pass t =
      (p : lib.pk.Private) × (tag : Bytes) × HoldsPair lib.ossh.keys lib.pk k p
      × TextOf t tag pass p
      × (bytes_eq tag (ascii "OPENSSH PRIVATE KEY") ≡ false)
      × (is_pem_tag tag ≡ true)

  parse_pem_privkey_lem :
      (t tag : Bytes) (pass : Option Bytes) (p : lib.pk.Private)
      → TextOf t tag pass p
      → parse_pem_privkey lib t pass ≡ pair_from_ossl_pkey lib.ossh.keys lib.pk p
  unfolding parse_pem_privkey
  parse_pem_privkey_lem t tag none p h = rw h.reads refl
  parse_pem_privkey_lem t tag (some pass) p h = rw h.reads refl

  parse_keystr-Reads :
      (k : KeyPairType lib.ossh.keys) (pass : Option Bytes) (t : Bytes)
      → CanImportPair lib.ossh.keys lib.pk k
      → Reads k pass t
      → parse_keystr lib t pass ≡ imported_pair lib.ossh.keys lib.pk k
  unfolding parse_keystr
  parse_keystr-Reads k pass t can (p, tag, holds, h, not_openssh, by_openssl) =
      rw (h.parsed, h.tagged, not_openssh, by_openssl)
        (parse_pem_privkey_lem t tag pass p h
          ∙ pair_from_ossl_pkey-HoldsPair lib.ossh.keys lib.pk k p can holds)

  pkcs8_pem-Reads :
      (k : KeyPairType lib.ossh.keys) (pass : Option Bytes) (p : lib.pk.Private) (t : Bytes)
      → PassphraseFits pass
      → HoldsPair lib.ossh.keys lib.pk k p
      → pkcs8_pem lib p pass ≡ ok t
      → Reads k pass t
  unfolding pkcs8_pem is_pem_tag bytes_eq
  pkcs8_pem-Reads k none p t fits holds h =
      (p, _, holds, lib.pems.pkcs8_text p t (map_err-eq-ok from_openssl _ h), refl, refl)
  pkcs8_pem-Reads k (some pass) p t fits holds h = (
    p,
    _,
    holds,
    lib.pems.pkcs8_passphrase_text p aes_128_cbc pass t fits (map_err-eq-ok from_openssl _ h),
    refl,
    refl,
  )

  ed25519_pair_ossl_pkey-HoldsPair :
      (k : Ed25519KeyPair lib.ossh.keys) (p : lib.pk.Private)
      → ed25519_pair_ossl_pkey lib.ossh.keys lib.pk k ≡ ok p
      → HoldsPair lib.ossh.keys lib.pk (KeyPairType.ed25519 k) p
  ed25519_pair_ossl_pkey-HoldsPair k p h =
      ossl_pkey-HoldsPair lib.ossh.keys lib.pk (KeyPairType.ed25519 k) p (unfold ossl_pkey in h)

  privkey_pem-Reads :
      (k : KeyPairType lib.ossh.keys) (pass : Option Bytes) (t : Bytes)
      → PassphraseFits pass
      → privkey_pem lib k pass ≡ ok t
      → Reads k pass t
  unfolding privkey_pem is_pem_tag bytes_eq ed25519_pair_ossl_pkey
  privkey_pem-Reads (KeyPairType.rsa k) none t fits h =
      let (p, text, id, has) = lib.pems.rsa_text k.rsa t (map_err-eq-ok from_openssl _ h) in
      (p, _, (id, has), text, refl, refl)
  privkey_pem-Reads (KeyPairType.dsa k) none t fits h =
      let (p, text, id, has) = lib.pems.dsa_text k.dsa t (map_err-eq-ok from_openssl _ h) in
      (p, _, (id, has), text, refl, refl)
  privkey_pem-Reads (KeyPairType.ecdsa k) none t fits h =
      let (p, text, id, has) = lib.pems.ec_text k.key t (map_err-eq-ok from_openssl _ h) in
      (p, _, (id, has), text, refl, refl)
  privkey_pem-Reads (KeyPairType.ed25519 k) none t fits h =
      let (p, made, written) = and_then-eq-ok (ed25519_pair_ossl_pkey lib.ossh.keys lib.pk k) _ h in
      pkcs8_pem-Reads (KeyPairType.ed25519 k) none p t fits
        (ed25519_pair_ossl_pkey-HoldsPair k p made) (unfold pkcs8_pem in written)
  privkey_pem-Reads (KeyPairType.rsa k) (some pass) t fits h =
      let (p, text, id, has) =
        lib.pems.rsa_passphrase_text k.rsa aes_128_cbc pass t fits
          (map_err-eq-ok from_openssl _ h) in
      (p, _, (id, has), text, refl, refl)
  privkey_pem-Reads (KeyPairType.dsa k) (some pass) t fits h =
      let (p, text, id, has) =
        lib.pems.dsa_passphrase_text k.dsa aes_128_cbc pass t fits
          (map_err-eq-ok from_openssl _ h) in
      (p, _, (id, has), text, refl, refl)
  privkey_pem-Reads (KeyPairType.ecdsa k) (some pass) t fits h =
      let (p, text, id, has) =
        lib.pems.ec_passphrase_text k.key aes_128_cbc pass t fits
          (map_err-eq-ok from_openssl _ h) in
      (p, _, (id, has), text, refl, refl)
  privkey_pem-Reads (KeyPairType.ed25519 k) (some pass) t fits h =
      let (p, made, written) = and_then-eq-ok (ed25519_pair_ossl_pkey lib.ossh.keys lib.pk k) _ h in
      pkcs8_pem-Reads (KeyPairType.ed25519 k) (some pass) p t fits
        (ed25519_pair_ossl_pkey-HoldsPair k p made) (unfold pkcs8_pem in written)

  -- If `stringify_pem_privkey` writes a key pair, then `from_keystr` reads an RSA, DSA or ECDSA key
  -- back with the same passphrase, but its comment is lost, and the signature hash of RSA becomes
  -- SHA-1. An Ed25519 key is never read back: this fails with InvalidLength. This is for an RSA key
  -- whose size is allowed, for an ECDSA key in the group of its curve, and for a passphrase, if there
  -- is one, of 1 to 1024 bytes without NUL.
  pub parse_keystr-stringify_pem_privkey :
      (k : KeyPair lib.ossh.keys) (pass : Option Bytes) (t : Bytes)
      → CanImportPair lib.ossh.keys lib.pk k.key
      → PassphraseFits pass
      → stringify_pem_privkey lib k pass ≡ ok t
      → parse_keystr lib t pass ≡ imported_pair lib.ossh.keys lib.pk k.key
  unfolding stringify_pem_privkey
  parse_keystr-stringify_pem_privkey k pass t can fits h =
      let (s, written, is) = and_then-eq-ok (privkey_pem lib k.key pass) from_utf8 h in
      parse_keystr-Reads k.key pass t can
        (privkey_pem-Reads k.key pass t fits (written ∙ ap ok (from_utf8-eq-ok s is)))

  -- If `serialize_pkcs8_privkey` writes a key pair, then `from_keystr` reads an RSA, DSA or ECDSA key
  -- back with the same passphrase, without its comment and with SHA-1 as the signature hash of RSA,
  -- and refuses an Ed25519 key with InvalidLength. This is for an RSA key whose size is allowed, for
  -- an ECDSA key in the group of its curve, and for a passphrase, if there is one, of 1 to 1024 bytes
  -- without NUL.
  pub parse_keystr-serialize_pkcs8_privkey :
      (k : KeyPair lib.ossh.keys) (pass : Option Bytes) (t : Bytes)
      → CanImportPair lib.ossh.keys lib.pk k.key
      → PassphraseFits pass
      → serialize_pkcs8_privkey lib k pass ≡ ok t
      → parse_keystr lib t pass ≡ imported_pair lib.ossh.keys lib.pk k.key
  unfolding serialize_pkcs8_privkey
  parse_keystr-serialize_pkcs8_privkey k pass t can fits h =
      let (p, made, rest) =
        and_then-eq-ok (ossl_pkey lib.ossh.keys lib.pk k.key)
          (λ pkey. and_then (pkcs8_pem lib pkey pass) from_utf8) h in
      let (s, written, is) = and_then-eq-ok (pkcs8_pem lib p pass) from_utf8 rest in
      let holds = ossl_pkey-HoldsPair lib.ossh.keys lib.pk k.key p made in
      parse_keystr-Reads k.key pass t can
        (pkcs8_pem-Reads k.key pass p t fits holds (written ∙ ap ok (from_utf8-eq-ok s is)))
