-- ===== src/Format/Pubkey/SameBlob.antt =====
-- `PartialEq` of the public keys (src/keys) against their blobs (src/format/ossh_pubkey.rs).
use rust_osshkeys.Prelude.{
  ◌≡◌, ◌↔◌, ◌∙◌, refl, sym, ap, Bytes, Bool, true, false, ok, Outcome, none,
}
use rust_osshkeys.Error.{OsshResult}
use rust_osshkeys.External.KeyTypes.{KeyLib}
use rust_osshkeys.External.Equals.{Equals}
use rust_osshkeys.Keys.Rsa.{RsaPublicKey}
use rust_osshkeys.Keys.Dsa.{DsaPublicKey}
use rust_osshkeys.Keys.Ed25519.{Ed25519PublicKey}
use rust_osshkeys.Keys.Ecdsa.{EcDsaPublicKey, nid}
use rust_osshkeys.Keys.Equality.{rsa_eq, dsa_eq, ecdsa_eq, ed25519_eq}
use rust_osshkeys.Keys.Container.{PublicKeyType, public_keytype}
use rust_osshkeys.Format.Pubkey.Encode.{
  public_blob, encode_rsa_pubkey, encode_dsa_pubkey, encode_ecdsa_pubkey, encode_ed25519_pubkey,
}
use rust_osshkeys.Format.Pubkey.Decode.{
  decode_rsa_pubkey, decode_dsa_pubkey, decode_ecdsa_pubkey, decode_ed25519_pubkey, matches_hint,
}
use rust_osshkeys.Format.Pubkey.Integers.{
  encode_rsa_pubkey_lem, decode-rsa_blob, dsa_blob, IsWritableDsa, encode_dsa_pubkey_lem,
  decode-dsa_blob,
}
use rust_osshkeys.Format.Pubkey.Curves.{
  IsOnCurve, encode_ecdsa_pubkey_lem, decode-ecdsa_blob, encode_ed25519_pubkey_lem,
  decode-ed25519_blob,
}
use rust_osshkeys.Format.Pubkey.LineRoundTrip.{CanEncode}
use rust_osshkeys.Format.Pubkey.SameRules.{
  both, both_true, curve_eq_iff, unwrap-eq-ok, same_decoded, ok_true, if-eq-true,
}

module _ (lib : KeyLib) (eq : Equals lib) where
  -- What `==` says of two keys of one type.
  abbrev pub compared : PublicKeyType lib → PublicKeyType lib → OsshResult Bool
  compared (PublicKeyType.rsa a) (PublicKeyType.rsa b) = ok (rsa_eq lib eq a b)
  compared (PublicKeyType.dsa a) (PublicKeyType.dsa b) = ok (dsa_eq lib eq a b)
  compared (PublicKeyType.ecdsa a) (PublicKeyType.ecdsa b) = ecdsa_eq lib eq a b
  compared (PublicKeyType.ed25519 a) (PublicKeyType.ed25519 b) = ok (ed25519_eq lib eq a b)
  compared _ _ = ok false

  -- The statement for two keys.
  abbrev EqualAsBlobs : PublicKeyType lib → PublicKeyType lib → Type 0
  EqualAsBlobs a b = (compared a b ≡ ok true) ↔ (public_blob lib a ≡ public_blob lib b)

  rsa_lem :
      (a b : RsaPublicKey lib)
      → CanEncode lib (PublicKeyType.rsa a)
      → CanEncode lib (PublicKeyType.rsa b)
      → EqualAsBlobs (PublicKeyType.rsa a) (PublicKeyType.rsa b)
  unfolding rsa_eq public_blob
  rsa_lem a b (ea, na) (eb, nb) =
      let same_e = eq.bn_eq_iff (lib.rsa.e a.rsa) (lib.rsa.e b.rsa) in
      let same_n = eq.bn_eq_iff (lib.rsa.n a.rsa) (lib.rsa.n b.rsa) in
      (
        λ h.
            let (he, hn) = both _ _ (ok_true _ h) in
            λ i. encode_rsa_pubkey lib (same_e.0 he i) (same_n.0 hn i),
        λ h.
            let same =
              same_decoded (decode_rsa_pubkey lib) _ _ _ _
                (encode_rsa_pubkey_lem lib (lib.rsa.e a.rsa) (lib.rsa.n a.rsa) ea na)
                (encode_rsa_pubkey_lem lib (lib.rsa.e b.rsa) (lib.rsa.n b.rsa) eb nb)
                (decode-rsa_blob lib a.rsa ea na) (decode-rsa_blob lib b.rsa eb nb) h in
            ap ok (
              both_true _ _ (same_e.1 (ap (λ k. lib.rsa.e k.rsa) same))
                (same_n.1 (ap (λ k. lib.rsa.n k.rsa) same))),
      )

  dsa_encoded :
      (k : DsaPublicKey lib)
      → IsWritableDsa lib k.dsa
      → public_blob lib (PublicKeyType.dsa k)
        ≡ ok (
            dsa_blob lib
              (lib.dsa.p k.dsa)
              (lib.dsa.q k.dsa)
              (lib.dsa.g k.dsa)
              (lib.dsa.pub_key k.dsa))
  unfolding public_blob
  dsa_encoded k h = encode_dsa_pubkey_lem lib _ _ _ _ h.p h.q h.g h.pub_key

  groups :
      (a b : EcDsaPublicKey lib) (p q : Bytes)
      → IsOnCurve lib a p
      → IsOnCurve lib b q
      → a.curve ≡ b.curve
      → lib.ec.group a.key ≡ lib.ec.group b.key
  groups a b p q ha hb h =
      let all : ◌≡◌ {A = Outcome Unit lib.ec.Group} (ok (lib.ec.group a.key))
          (ok (lib.ec.group b.key)) =
        sym ha.in_group ∙ ap (λ c. lib.ec.from_curve_name (nid c)) h ∙ hb.in_group in
      cc

  dsa_lem :
      (a b : DsaPublicKey lib)
      → CanEncode lib (PublicKeyType.dsa a)
      → CanEncode lib (PublicKeyType.dsa b)
      → EqualAsBlobs (PublicKeyType.dsa a) (PublicKeyType.dsa b)
  unfolding dsa_eq public_blob
  dsa_lem a b ha hb =
      let same_p = eq.bn_eq_iff (lib.dsa.p a.dsa) (lib.dsa.p b.dsa) in
      let same_q = eq.bn_eq_iff (lib.dsa.q a.dsa) (lib.dsa.q b.dsa) in
      let same_g = eq.bn_eq_iff (lib.dsa.g a.dsa) (lib.dsa.g b.dsa) in
      let same_y = eq.bn_eq_iff (lib.dsa.pub_key a.dsa) (lib.dsa.pub_key b.dsa) in
      (
        λ h.
            let (hp, h1) = both _ _ (ok_true _ h) in
            let (hq, h2) = both _ _ h1 in
            let (hg, hy) = both _ _ h2 in
            λ i.
              encode_dsa_pubkey lib (same_p.0 hp i) (same_q.0 hq i) (same_g.0 hg i) (same_y.0 hy i),
        λ h.
            let same =
              same_decoded (decode_dsa_pubkey lib) _ _ _ _ (dsa_encoded a ha) (dsa_encoded b hb)
                (decode-dsa_blob lib a.dsa ha) (decode-dsa_blob lib b.dsa hb) h in
            ap ok (
              both_true _ _ (same_p.1 (ap (λ k. lib.dsa.p k.dsa) same)) (
                both_true _ _ (same_q.1 (ap (λ k. lib.dsa.q k.dsa) same)) (
                  both_true _ _ (same_g.1 (ap (λ k. lib.dsa.g k.dsa) same))
                    (same_y.1 (ap (λ k. lib.dsa.pub_key k.dsa) same))))),
      )

  ecdsa_lem :
      (a b : EcDsaPublicKey lib)
      → CanEncode lib (PublicKeyType.ecdsa a)
      → CanEncode lib (PublicKeyType.ecdsa b)
      → EqualAsBlobs (PublicKeyType.ecdsa a) (PublicKeyType.ecdsa b)
  unfolding ecdsa_eq public_blob matches_hint
  ecdsa_lem a b (pa, ha) (pb, hb) =
      let same_curve = curve_eq_iff a.curve b.curve in
      let same_point =
        eq.point_eq_iff (lib.ec.group a.key) (lib.ec.public_key a.key) (lib.ec.public_key b.key) pa
          ha.encoded in
      (
        λ h.
            let (hc, hp) = if-eq-true _ _ h in
            let group : lib.ec.group a.key ≡ lib.ec.group b.key =
              groups a b pa pb ha hb (same_curve.0 hc) in
            λ i.
              encode_ecdsa_pubkey lib (same_curve.0 hc i) (group i)
                (same_point.0 (unwrap-eq-ok _ hp) i),
        λ h.
            let same =
              same_decoded (decode_ecdsa_pubkey lib none) _ _ _ _
                (encode_ecdsa_pubkey_lem lib a pa ha) (encode_ecdsa_pubkey_lem lib b pb hb)
                (decode-ecdsa_blob lib none a pa refl ha) (decode-ecdsa_blob lib none b pb refl hb)
                h in
            rw
              (
                same_curve.1 (ap (λ k. k.curve) same),
                same_point.1 (ap (λ k. lib.ec.public_key k.key) same),
              )
              refl,
      )

  ed25519_lem :
      (a b : Ed25519PublicKey lib)
      → EqualAsBlobs (PublicKeyType.ed25519 a) (PublicKeyType.ed25519 b)
  unfolding ed25519_eq public_blob
  ed25519_lem a b =
      let same_key = lib.ed.key_eq_iff a.key b.key in
      (
        λ h. ap (encode_ed25519_pubkey lib) (same_key.0 (ok_true _ h)),
        λ h.
            let same =
              same_decoded (decode_ed25519_pubkey lib) _ _ _ _ (encode_ed25519_pubkey_lem lib a.key)
                (encode_ed25519_pubkey_lem lib b.key) (decode-ed25519_blob lib a.key)
                (decode-ed25519_blob lib b.key) h in
            ap ok (same_key.1 (ap (λ k. k.key) same)),
      )

  -- Two public keys of one type whose parts can be written are equal for `==`, which then does not
  -- panic, exactly if their binary forms are the same.
  pub compared-public_blob :
      (a b : PublicKeyType lib)
      → public_keytype lib a ≡ public_keytype lib b
      → CanEncode lib a
      → CanEncode lib b
      → (compared a b ≡ ok true) ↔ (public_blob lib a ≡ public_blob lib b)
  unfolding public_keytype
  compared-public_blob (PublicKeyType.rsa a) (PublicKeyType.rsa b) t ha hb = rsa_lem a b ha hb
  compared-public_blob (PublicKeyType.dsa a) (PublicKeyType.dsa b) t ha hb = dsa_lem a b ha hb
  compared-public_blob (PublicKeyType.ecdsa a) (PublicKeyType.ecdsa b) t ha hb = ecdsa_lem a b ha hb
  compared-public_blob (PublicKeyType.ed25519 a) (PublicKeyType.ed25519 b) t ha hb = ed25519_lem a b
  compared-public_blob (PublicKeyType.rsa a) (PublicKeyType.dsa b) t ha hb = cc
  compared-public_blob (PublicKeyType.rsa a) (PublicKeyType.ecdsa b) t ha hb = cc
  compared-public_blob (PublicKeyType.rsa a) (PublicKeyType.ed25519 b) t ha hb = cc
  compared-public_blob (PublicKeyType.dsa a) (PublicKeyType.rsa b) t ha hb = cc
  compared-public_blob (PublicKeyType.dsa a) (PublicKeyType.ecdsa b) t ha hb = cc
  compared-public_blob (PublicKeyType.dsa a) (PublicKeyType.ed25519 b) t ha hb = cc
  compared-public_blob (PublicKeyType.ecdsa a) (PublicKeyType.rsa b) t ha hb = cc
  compared-public_blob (PublicKeyType.ecdsa a) (PublicKeyType.dsa b) t ha hb = cc
  compared-public_blob (PublicKeyType.ecdsa a) (PublicKeyType.ed25519 b) t ha hb = cc
  compared-public_blob (PublicKeyType.ed25519 a) (PublicKeyType.rsa b) t ha hb = cc
  compared-public_blob (PublicKeyType.ed25519 a) (PublicKeyType.dsa b) t ha hb = cc
  compared-public_blob (PublicKeyType.ed25519 a) (PublicKeyType.ecdsa b) t ha hb = cc
