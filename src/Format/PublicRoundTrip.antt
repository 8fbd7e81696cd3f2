-- ===== src/Format/PublicRoundTrip.antt =====
-- Public keys that are written as a text and read again by `PublicKey::from_keystr`.
use rust_osshkeys.Prelude.{
  ◌≡◌, ◌==◌, ℕ, sym, err, panic, ◌∙◌, ◌<◌, refl, ap, arith, Bytes, [], ◌∷◌, ascii, bytes_eq,
  bytes_eq_refl, true, false, take-append_left, ◌++◌, ok, and_then-eq-ok, map_err-eq-ok, leb,
}
use rust_osshkeys.Error.{OsshResult, from_openssl, on_unit}
use rust_osshkeys.External.Base64s.{Base64s}
use rust_osshkeys.External.KeyTypes.{KeyLib}
use rust_osshkeys.Format.Pubkey.Encode.{public_blob}
use rust_osshkeys.Format.Pubkey.Words.{split_ascii_whitespace}
use rust_osshkeys.External.Pems.{begin_of}
use rust_osshkeys.External.PemLib.{PemLib}
use rust_osshkeys.Keys.Rsa
use rust_osshkeys.Keys.Rsa.{
  RsaSignature, sha1, sha2_256, sha2_512, rsa_min_size, rsa_max_size, signature_name,
}
use rust_osshkeys.Keys.Ecdsa.{EcCurve, nistp256, nistp384, nistp521, name}
use rust_osshkeys.Keys.Container.{PublicKeyType, PublicKey, public_keyname}
use rust_osshkeys.Keys.Pkey.{
  public_from_ossl_pkey, dsa_ossl_pkey, ecdsa_ossl_pkey, ed25519_ossl_pkey,
}
use rust_osshkeys.Keys.PkeyRoundTrip.{
  CanImport, imported, public_of_dsa_lem, public_of_ecdsa_lem, public_of_ed25519_lem,
}
use rust_osshkeys.Format.Pubkey.Line.{serialize_ossh_pubkey}
use rust_osshkeys.Format.Pubkey.LineRoundTrip.{CanEncode, parsed_as, parse-serialize}
use rust_osshkeys.Format.Pem.{
  from_utf8, starts_with, parse_pem_pubkey, pubkey_pem, stringify_pem_pubkey,
}
use rust_osshkeys.Format.PemRoundTrip.{from_utf8-eq-ok}
use rust_osshkeys.Format.Trim.{trim, trim_end, trim-visible, trim_end-All}
use rust_osshkeys.Format.Keystr.{public_from_keystr, serialize}

starts_with-append : (p s : Bytes) → starts_with (p ++ s) p ≡ true
unfolding starts_with
starts_with-append p s = ap (λ t. bytes_eq t p) (take-append_left p s) ∙ bytes_eq_refl p

-- The name of a key starts with a letter.
abbrev StartsWithLetter : Bytes → Type 0
StartsWithLetter s = (c : ℕ) × (cs : Bytes) × (s ≡ c ∷ cs) × (96 < c) × (c < 127)

signature_head : (s : RsaSignature) → StartsWithLetter (signature_name s)
unfolding signature_name
signature_head sha1 = (_, _, refl, omega arith, omega arith)
signature_head sha2_256 = (_, _, refl, omega arith, omega arith)
signature_head sha2_512 = (_, _, refl, omega arith, omega arith)

curve_head : (c : EcCurve) → StartsWithLetter (name c)
unfolding name
curve_head nistp256 = (_, _, refl, omega arith, omega arith)
curve_head nistp384 = (_, _, refl, omega arith, omega arith)
curve_head nistp521 = (_, _, refl, omega arith, omega arith)

keyname_head : (keys : KeyLib) (k : PublicKeyType keys) → StartsWithLetter (public_keyname keys k)
unfolding public_keyname
keyname_head keys (PublicKeyType.rsa k) = signature_head k.signhash
keyname_head keys (PublicKeyType.dsa k) = (_, _, refl, omega arith, omega arith)
keyname_head keys (PublicKeyType.ecdsa k) = curve_head k.curve
keyname_head keys (PublicKeyType.ed25519 k) = (_, _, refl, omega arith, omega arith)

-- The line starts as the name of the key.
serialize_head :
    (b64 : Base64s) (c : ℕ) (cs comment : Bytes) (blob : OsshResult Bytes) {line : Bytes}
    → serialize_ossh_pubkey b64 (c ∷ cs) blob comment ≡ ok line
    → (rest : Bytes) × (line ≡ c ∷ rest)
unfolding serialize_ossh_pubkey bytes_eq
serialize_head b64 c cs [] (ok b) {line} h =
    let same : c ∷ (cs ++ (32 ∷ b64.encode b)) ≡ line = cc in (_, sym same)
serialize_head b64 c cs (d ∷ comment) (ok b) {line} h =
    let same : c ∷ ((cs ++ (32 ∷ b64.encode b)) ++ (32 ∷ d ∷ comment)) ≡ line = cc in (_, sym same)
serialize_head b64 c cs comment (err e) h = cc
serialize_head b64 c cs comment panic h = cc

not_begin :
    (c : ℕ) (rest : Bytes)
    → 96 < c
    → c < 127
    → starts_with (trim (c ∷ rest)) (ascii "-----BEGIN") ≡ false
unfolding starts_with bytes_eq
not_begin c rest lo hi =
    let other : (c == 45) ≡ false = ground arith in
    rw (trim-visible c (omega arith) hi rest, other) refl

module _ (lib : PemLib) where
  parse_rsa_lem :
      (k : Rsa.RsaPublicKey lib.ossh.keys) (t : Bytes)
      → CanImport lib.ossh.keys lib.pk (PublicKeyType.rsa k)
      → lib.pems.public_key_to_pem_pkcs1 k.rsa ≡ ok t
      → parse_pem_pubkey lib t ≡ ok (imported lib.ossh.keys lib.pk (PublicKeyType.rsa k))
  unfolding parse_pem_pubkey Rsa.public_from_ossl_rsa Rsa.public_size
  parse_rsa_lem k t (lo, hi) h =
      let (rest, starts, _, back) = lib.pems.pkcs1_text k.rsa t h in
      let named : starts_with t (ascii "-----BEGIN RSA PUBLIC KEY-----") ≡ true =
        ap (λ s. starts_with s (begin_of (ascii "RSA PUBLIC KEY"))) starts
        ∙ starts_with-append (begin_of (ascii "RSA PUBLIC KEY")) rest in
      let least : leb rsa_min_size (lib.ossh.keys.bn.num_bits (lib.ossh.keys.rsa.n k.rsa)) ≡ true =
        ground (arith, lo) in
      let most : leb (lib.ossh.keys.bn.num_bits (lib.ossh.keys.rsa.n k.rsa)) rsa_max_size ≡ true =
        ground (arith, hi) in
      rw (named, back, least, most) refl

  parse_pkey_lem :
      (p : lib.pk.Public) (t : Bytes)
      → lib.pems.public_key_to_pem p ≡ ok t
      → parse_pem_pubkey lib t ≡ public_from_ossl_pkey lib.ossh.keys lib.pk p
  unfolding parse_pem_pubkey
  parse_pkey_lem p t h =
      let (rest, starts, _, back) = lib.pems.public_text p t h in
      let named : starts_with t (ascii "-----BEGIN RSA PUBLIC KEY-----") ≡ false =
        ap (λ s. starts_with s (begin_of (ascii "RSA PUBLIC KEY"))) starts
        ∙ unfold starts_with bytes_eq in refl in
      rw (named, back) refl

  pem_start :
      (tag rest : Bytes) → starts_with (trim (begin_of tag ++ rest)) (ascii "-----BEGIN") ≡ true
  pem_start tag rest =
      let dashes = ascii "----BEGIN" in
      let more = 32 ∷ ((tag ++ ascii "-----") ++ rest) in
      ap (λ s. starts_with s (ascii "-----BEGIN"))
        (trim-visible 45 (omega arith) (omega arith) (dashes ++ more)
          ∙ ap (◌∷◌ 45) (trim_end-All dashes more (ground arith)))
      ∙ starts_with-append (ascii "-----BEGIN") (trim_end more)

  -- A text that starts as PEM does, and that is read as the key.
  abbrev IsPemOf : PublicKeyType lib.ossh.keys → Bytes → Type 0
  IsPemOf k t =
      (starts_with (trim t) (ascii "-----BEGIN") ≡ true)
      × (parse_pem_pubkey lib t ≡ ok (imported lib.ossh.keys lib.pk k))

  IsPemOf-pkey :
      (k : PublicKeyType lib.ossh.keys) (p : lib.pk.Public) (t : Bytes)
      → public_from_ossl_pkey lib.ossh.keys lib.pk p ≡ ok (imported lib.ossh.keys lib.pk k)
      → on_unit from_openssl (lib.pems.public_key_to_pem p) ≡ ok t
      → IsPemOf k t
  IsPemOf-pkey k p t read written =
      let made = map_err-eq-ok from_openssl _ written in
      let (rest, starts, _, _) = lib.pems.public_text p t made in
      (
        ap (λ s. starts_with (trim s) (ascii "-----BEGIN")) starts
            ∙ pem_start (ascii "PUBLIC KEY") rest,
        parse_pkey_lem p t made ∙ read,
      )

  pubkey_pem-IsPemOf :
      (k : PublicKeyType lib.ossh.keys) (t : Bytes)
      → CanImport lib.ossh.keys lib.pk k
      → pubkey_pem lib k ≡ ok t
      → IsPemOf k t
  unfolding pubkey_pem dsa_ossl_pkey ecdsa_ossl_pkey ed25519_ossl_pkey
  pubkey_pem-IsPemOf (PublicKeyType.rsa k) t can h =
      let made = map_err-eq-ok from_openssl _ h in
      let (rest, starts, _, _) = lib.pems.pkcs1_text k.rsa t made in
      (
        ap (λ s. starts_with (trim s) (ascii "-----BEGIN")) starts
            ∙ pem_start (ascii "RSA PUBLIC KEY") rest,
        parse_rsa_lem k t can made,
      )
  pubkey_pem-IsPemOf (PublicKeyType.dsa k) t can h =
      let (p, made, written) =
        and_then-eq-ok (on_unit from_openssl (lib.pk.public_from_dsa k.dsa)) _ h in
      IsPemOf-pkey (PublicKeyType.dsa k) p t
        (public_of_dsa_lem lib.ossh.keys lib.pk k p (map_err-eq-ok from_openssl _ made)) written
  pubkey_pem-IsPemOf (PublicKeyType.ecdsa k) t can h =
      let (p, made, written) =
        and_then-eq-ok (on_unit from_openssl (lib.pk.public_from_ec_key k.key)) _ h in
      IsPemOf-pkey (PublicKeyType.ecdsa k) p t
        (public_of_ecdsa_lem lib.ossh.keys lib.pk k p can (map_err-eq-ok from_openssl _ made))
        written
  pubkey_pem-IsPemOf (PublicKeyType.ed25519 k) t can h =
      let (p, made, written) =
        and_then-eq-ok
          (on_unit from_openssl
            (lib.pk.public_key_from_raw_bytes (lib.ossh.keys.ed.to_bytes k.key)))
          _ h in
      IsPemOf-pkey (PublicKeyType.ed25519 k) p t
        (public_of_ed25519_lem lib.ossh.keys lib.pk k p (map_err-eq-ok from_openssl _ made)) written

  -- If `stringify_pem_pubkey` writes a public key, then `from_keystr` reads it back, without its
  -- comment and with SHA-1 as the signature hash of RSA. This is for an RSA key whose size is
  -- allowed, and for an ECDSA key in the group of its curve.
  pub public_from_keystr-stringify_pem_pubkey :
      (k : PublicKey lib.ossh.keys) (t : Bytes)
      → CanImport lib.ossh.keys lib.pk k.key
      → stringify_pem_pubkey lib k ≡ ok t
      → public_from_keystr lib t ≡ ok (imported lib.ossh.keys lib.pk k.key)
  unfolding stringify_pem_pubkey public_from_keystr
  public_from_keystr-stringify_pem_pubkey k t can h =
      let (s, written, is) = and_then-eq-ok (pubkey_pem lib k.key) from_utf8 h in
      let (pem, read) = pubkey_pem-IsPemOf k.key t can (written ∙ ap ok (from_utf8-eq-ok s is)) in
      rw pem read

  -- `serialize` and `from_keystr` on a public key that can be encoded: the line is never taken for
  -- PEM, and reading it gives the key with its signature hash, with the comment if that is one word
  -- and with none if it is empty; a comment of two words or more makes the line be refused with
  -- InvalidKeyFormat.
  pub public_from_keystr-serialize :
      (k : PublicKey lib.ossh.keys)
      → CanEncode lib.ossh.keys k.key
      → (line : Bytes) × (serialize lib k ≡ ok line)
        × (public_from_keystr lib line
            ≡ parsed_as lib.ossh.keys k.key (split_ascii_whitespace k.comment))
  unfolding serialize public_from_keystr
  public_from_keystr-serialize k can =
      let (line, written, read) = parse-serialize lib.ossh.keys lib.b64 k.key k.comment can in
      let (c, cs, named, lo, hi) = keyname_head lib.ossh.keys k.key in
      let (rest, starts) = serialize_head lib.b64 c cs k.comment _ (
        ap (λ n. serialize_ossh_pubkey lib.b64 n (public_blob lib.ossh.keys k.key) k.comment)
          (sym named)
        ∙ written) in
      let not_pem : starts_with (trim line) (ascii "-----BEGIN") ≡ false =
        ap (λ s. starts_with (trim s) (ascii "-----BEGIN")) starts ∙ not_begin c rest lo hi in
      (line, written, rw not_pem read)
