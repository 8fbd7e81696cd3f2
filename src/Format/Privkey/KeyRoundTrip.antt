-- ===== src/Format/Privkey/KeyRoundTrip.antt =====
-- `decode_key` on what `encode_key` writes.
use rust_osshkeys.Prelude.{◌≡◌, refl, arith, Bytes, ◌++◌, true, ok, and_then, leb}
use rust_osshkeys.Error.{type_not_match}
use rust_osshkeys.External.KeyTypes.{KeyLib}
use rust_osshkeys.Sshbuf.Utf8.{IsText, is_utf8}
use rust_osshkeys.Sshbuf.Rules.{Reads-bind, Reads-bind_end, Reads-pure, Reads-lift_bind, Writes-seq}
use rust_osshkeys.Sshbuf.Reader.{Reader, Reads, Writer, Writes}
use rust_osshkeys.Sshbuf.RoundTrip.{Fits, string_bytes, RoundTrips}
use rust_osshkeys.Format.Wire.{Writes-text, Reads-text, Reads-string, Reads-mpint, Reads-check}
use rust_osshkeys.Keys.Rsa
use rust_osshkeys.Keys.Rsa.{
  RsaKeyPair, RsaSignature, sha1, sha2_256, sha2_512, signature_name, rsa_min_size, rsa_max_size,
}
use rust_osshkeys.Keys.Dsa.{DsaKeyPair}
use rust_osshkeys.Keys.Ecdsa.{
  EcCurve, EcDsaKeyPair, nistp256, nistp384, nistp521, name, ident, from_name, curve_eq,
  pair_from_bytes,
}
use rust_osshkeys.Keys.Ed25519
use rust_osshkeys.Keys.Ed25519.{Ed25519KeyPair, ed25519_name, try_into}
use rust_osshkeys.Keys.Container.{KeyPairType, pair_keyname}
use rust_osshkeys.Format.Pubkey.Curves.{names_lem, Fits-names}
use rust_osshkeys.Format.Privkey.Parts.{
  IsPrivateRsa, IsPrivateDsa, IsPrivateEc, CanEncodePair, parts_bytes, Writes-encode_parts,
}
use rust_osshkeys.Format.Privkey.Key.{
  encode_key, reduced, decode_rsa, decode_dsa, decode_ecdsa, decode_ed25519, decode_parts,
  decode_key,
}

module _ (lib : KeyLib) where
  reduced-eq-ok :
      (d p one : lib.bn.BigNum) {m : lib.bn.BigNum}
      → and_then (lib.bn.sub p one) (λ m. lib.bn.rem d m) ≡ ok m
      → reduced lib d p one ≡ ok m
  unfolding reduced
  reduced-eq-ok d p one h = rw h refl

  size_allowed :
      (k : RsaKeyPair lib) → IsPrivateRsa lib k → Rsa.pair_from_ossl_rsa lib k.rsa k.signhash ≡ ok k
  unfolding Rsa.pair_from_ossl_rsa Rsa.pair_size
  size_allowed k h =
      let lo : leb rsa_min_size (lib.bn.num_bits (lib.rsa.private_n k.rsa)) ≡ true =
        ground (arith, h.min_size) in
      let hi : leb (lib.bn.num_bits (lib.rsa.private_n k.rsa)) rsa_max_size ≡ true =
        ground (arith, h.max_size) in
      rw (lo, hi) refl

  module _ {R : Type 0} (rd : Reader R) where
    Reads-decode_rsa :
        (k : RsaKeyPair lib) (h : IsPrivateRsa lib k)
        → Reads rd
            (decode_rsa lib rd k.signhash)
            (parts_bytes lib (KeyPairType.rsa k) h)
            (KeyPairType.rsa k)
    unfolding decode_rsa parts_bytes
    Reads-decode_rsa k h =
        let get = Reads-mpint rd lib.bn in
        let made =
          lib.rsa.private_self k.rsa h.p h.q h.dmp1 h.dmq1 h.iqmp h.has_p h.has_q h.has_dmp1
            h.has_dmq1 h.has_iqmp in
        Reads-bind _ _ (get _ h.n_writable) (
          Reads-bind _ _ (get _ h.e_writable) (
            Reads-bind _ _ (get _ h.d_writable) (
              Reads-bind _ _ (get h.iqmp h.iqmp_writable) (
                Reads-bind _ _ (get h.p h.p_writable) (
                  Reads-bind_end _ _ (get h.q h.q_writable) (
                    Reads-lift_bind _ _ (rw h.is_one refl) (
                      Reads-lift_bind _ _ (reduced-eq-ok _ _ _ h.reduced_p) (
                        Reads-lift_bind _ _ (reduced-eq-ok _ _ _ h.reduced_q) (
                          Reads-lift_bind _ _ (rw made refl)
                            (Reads-lift_bind _ _ (size_allowed k h) (Reads-pure _)))))))))))

    Reads-decode_dsa :
        (k : DsaKeyPair lib) (h : IsPrivateDsa lib k)
        → Reads rd (decode_dsa lib rd) (parts_bytes lib (KeyPairType.dsa k) h) (KeyPairType.dsa k)
    unfolding decode_dsa parts_bytes
    Reads-decode_dsa k h =
        let get = Reads-mpint rd lib.bn in
        Reads-bind _ _ (get _ h.p) (
          Reads-bind _ _ (get _ h.q) (
            Reads-bind _ _ (get _ h.g) (
              Reads-bind _ _ (get _ h.pub_key) (
                Reads-bind_end _ _ (get _ h.priv_key)
                  (Reads-lift_bind _ _ (rw (lib.dsa.private_self k.dsa) refl) (Reads-pure _))))))

    pair_from_bytes_lem :
        (k : EcDsaKeyPair lib) (h : IsPrivateEc lib k)
        → pair_from_bytes lib k.curve h.point (lib.ec.private_key k.key) ≡ ok k
    unfolding pair_from_bytes
    pair_from_bytes_lem k h =
        let back =
          lib.ec.point_bytes (lib.ec.private_group k.key) (lib.ec.private_public_key k.key) h.point
            h.encoded in
        rw (h.in_group, back) (rw (lib.ec.private_self k.key) refl)

    curve_named : (c : EcCurve) → (from_name (name c) ≡ ok c) × (curve_eq c c ≡ true)
    unfolding from_name name curve_eq
    curve_named nistp256 = (refl, refl)
    curve_named nistp384 = (refl, refl)
    curve_named nistp521 = (refl, refl)

    Reads-decode_ecdsa :
        (k : EcDsaKeyPair lib) (h : IsPrivateEc lib k)
        → Reads rd
            (decode_ecdsa lib rd (name k.curve))
            (parts_bytes lib (KeyPairType.ecdsa k) h)
            (KeyPairType.ecdsa k)
    unfolding decode_ecdsa parts_bytes
    Reads-decode_ecdsa k h =
        let (_, ti, _, back) = names_lem lib k.curve in
        let (named, same) = curve_named k.curve in
        Reads-bind _ _ (Reads-text rd (ident k.curve) (Fits-names lib k.curve).1 ti) (
          Reads-lift_bind _ _ named (
            Reads-lift_bind _ _ back (
              Reads-bind _ _ (Reads-check rd _ type_not_match same) (
                Reads-bind _ _ (Reads-string rd h.point h.fits) (
                  Reads-bind_end _ _ (Reads-mpint rd lib.bn (lib.ec.private_key k.key) h.number)
                    (Reads-lift_bind _ _ (pair_from_bytes_lem k h) (Reads-pure _)))))))

    from_bytes_lem :
        (k : lib.ed.SigningKey)
        → Ed25519.from_bytes lib
            (lib.ed.to_bytes (lib.ed.verifying_key k))
            (lib.ed.to_keypair_bytes k)
          ≡ ok (record { key = k })
    unfolding Ed25519.from_bytes
    from_bytes_lem k =
        let vk = lib.ed.verifying_key k in
        rw (lib.ed.from_bytes-to_bytes vk, lib.ed.length-to_keypair_bytes k)
          (rw (lib.ed.from_keypair_bytes-to_keypair_bytes k, (lib.ed.key_eq_iff vk vk).1 refl) refl)

    Reads-decode_ed25519 :
        (k : Ed25519KeyPair lib)
        → Reads rd
            (decode_ed25519 lib rd)
            (parts_bytes lib (KeyPairType.ed25519 k) tt)
            (KeyPairType.ed25519 k)
    unfolding decode_ed25519 parts_bytes
    Reads-decode_ed25519 k =
        let vk = lib.ed.verifying_key k.key in
        Reads-bind _ _
          (Reads-string rd (lib.ed.to_bytes vk) (omega (arith, lib.ed.length-to_bytes vk)))
          (Reads-bind_end _ _
            (Reads-string rd (lib.ed.to_keypair_bytes k.key)
              (omega (arith, lib.ed.length-to_keypair_bytes k.key)))
            (Reads-lift_bind _ _ (from_bytes_lem k.key) (Reads-pure _)))

    decode_parts_rsa :
        (s : RsaSignature) → decode_parts lib rd (signature_name s) ≡ decode_rsa lib rd s
    unfolding decode_parts signature_name
    decode_parts_rsa sha1 = refl
    decode_parts_rsa sha2_256 = refl
    decode_parts_rsa sha2_512 = refl

    decode_parts_ecdsa : (c : EcCurve) → decode_parts lib rd (name c) ≡ decode_ecdsa lib rd (name c)
    unfolding decode_parts name
    decode_parts_ecdsa nistp256 = refl
    decode_parts_ecdsa nistp384 = refl
    decode_parts_ecdsa nistp521 = refl

    Reads-decode_parts :
        (k : KeyPairType lib) (h : CanEncodePair lib k)
        → Reads rd (decode_parts lib rd (pair_keyname lib k)) (parts_bytes lib k h) k
    unfolding pair_keyname
    Reads-decode_parts (KeyPairType.rsa k) h =
        rw (decode_parts_rsa k.signhash) (Reads-decode_rsa k h)
    Reads-decode_parts (KeyPairType.dsa k) h = unfold decode_parts in Reads-decode_dsa k h
    Reads-decode_parts (KeyPairType.ecdsa k) h =
        rw (decode_parts_ecdsa k.curve) (Reads-decode_ecdsa k h)
    Reads-decode_parts (KeyPairType.ed25519 k) h = unfold decode_parts in Reads-decode_ed25519 k

signature_name-IsText : (s : RsaSignature) → Fits (signature_name s) × IsText (signature_name s)
unfolding signature_name is_utf8
signature_name-IsText sha1 = (omega arith, refl)
signature_name-IsText sha2_256 = (omega arith, refl)
signature_name-IsText sha2_512 = (omega arith, refl)

pair_keyname-IsText :
    (lib : KeyLib) (k : KeyPairType lib) → Fits (pair_keyname lib k) × IsText (pair_keyname lib k)
unfolding pair_keyname is_utf8
pair_keyname-IsText lib (KeyPairType.rsa k) = signature_name-IsText k.signhash
pair_keyname-IsText lib (KeyPairType.dsa k) = (omega arith, refl)
pair_keyname-IsText lib (KeyPairType.ecdsa k) =
    ((Fits-names lib k.curve).0, (names_lem lib k.curve).0)
pair_keyname-IsText lib (KeyPairType.ed25519 k) = (omega arith, refl)

-- What `encode_key` writes.
unfoldable pub key_bytes : (lib : KeyLib) (k : KeyPairType lib) → CanEncodePair lib k → Bytes
key_bytes lib k h = string_bytes (pair_keyname lib k) ++ parts_bytes lib k h

pub Writes-encode_key :
    (lib : KeyLib) {W : Type 0} (wr : Writer W) (k : KeyPairType lib) (h : CanEncodePair lib k)
    → Writes wr (encode_key lib wr k) (key_bytes lib k h) tt
unfolding encode_key key_bytes
Writes-encode_key lib wr k h =
    Writes-seq _ _ (Writes-text wr (pair_keyname lib k) (pair_keyname-IsText lib k).0)
      (Writes-encode_parts lib wr k h)

pub Reads-decode_key :
    (lib : KeyLib) {R : Type 0} (rd : Reader R) (k : KeyPairType lib) (h : CanEncodePair lib k)
    → Reads rd (decode_key lib rd) (key_bytes lib k h) k
unfolding decode_key key_bytes
Reads-decode_key lib rd k h =
    let (fits, text) = pair_keyname-IsText lib k in
    Reads-bind _ _ (Reads-text rd (pair_keyname lib k) fits text) (Reads-decode_parts lib rd k h)

-- `decode_key` returns the key that `encode_key` wrote, for keys of all four types that can be
-- encoded: their numbers are positive and have 2048 bytes at most, an ECDSA key lies in the group of
-- its curve, and an RSA key has all its parts, a size that is allowed and the exponents that belong
-- to its primes.
pub key-RoundTrips :
    (lib : KeyLib) {W R : Type 0} (wr : Writer W) (rd : Reader R) (k : KeyPairType lib)
    → CanEncodePair lib k
    → RoundTrips wr rd (encode_key lib wr k) (decode_key lib rd) k
key-RoundTrips lib wr rd k h =
    (key_bytes lib k h, Writes-encode_key lib wr k h, Reads-decode_key lib rd k h)
