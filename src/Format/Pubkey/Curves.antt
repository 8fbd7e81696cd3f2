-- ===== src/Format/Pubkey/Curves.antt =====
-- ECDSA and Ed25519 blobs: `encode_*_pubkey` and `decode_*_pubkey`.
use rust_osshkeys.Error.{type_not_match}
use rust_osshkeys.Prelude.{ascii, Option, ◌≡◌, refl, arith, Bytes, ◌++◌, true, ok}
use rust_osshkeys.External.KeyTypes.{KeyLib}
use rust_osshkeys.Sshbuf.Utf8.{IsText, is_utf8}
use rust_osshkeys.Sshbuf.Rules.{
  Reads-lift_bind, Writes-lift_bind, Reads-bind, Reads-bind_end, Reads-lift, Writes-seq,
}
use rust_osshkeys.Sshbuf.RoundTrip.{Fits, string_bytes}
use rust_osshkeys.Sshbuf.Memory.{cursor_reader, vec_writer}
use rust_osshkeys.Format.Wire.{
  into_vec_of, with_cursor_of, Writes-text, Writes-string, Reads-text, Reads-string, Reads-check,
}
use rust_osshkeys.Format.Pubkey.Encode.{encode_ecdsa_pubkey, encode_ed25519_pubkey}
use rust_osshkeys.Format.Pubkey.Decode.{
  decode_ecdsa_pubkey, decode_ed25519_pubkey, matches_hint, starts_with,
}
use rust_osshkeys.Keys.Ecdsa.{
  EcCurve, EcDsaPublicKey, name, ident, nid, from_str, public_from_bytes,
}
use rust_osshkeys.Keys.Ed25519.{ed25519_name}

module _ (lib : KeyLib) where
  unfoldable pub ecdsa_blob : EcCurve → Bytes → Bytes
  ecdsa_blob curve point =
      string_bytes (name curve) ++ (string_bytes (ident curve) ++ string_bytes point)

  -- The key lies in the group of its curve, and its point has an encoding that fits in a string.
  pub record IsOnCurve (k : EcDsaPublicKey lib) (point : Bytes) : Type 0 where
    pub in_group : lib.ec.from_curve_name (nid k.curve) ≡ ok (lib.ec.group k.key)
    pub encoded : lib.ec.point_to_bytes (lib.ec.group k.key) (lib.ec.public_key k.key) ≡ ok point
    pub fits : Fits point

  pub Fits-names : (c : EcCurve) → Fits (name c) × Fits (ident c)
  unfolding name ident
  Fits-names EcCurve.nistp256 = omega arith
  Fits-names EcCurve.nistp384 = omega arith
  Fits-names EcCurve.nistp521 = omega arith

  pub encode_ecdsa_pubkey_lem :
      (k : EcDsaPublicKey lib) (point : Bytes)
      → IsOnCurve k point
      → encode_ecdsa_pubkey lib k.curve (lib.ec.group k.key) (lib.ec.public_key k.key)
        ≡ ok (ecdsa_blob k.curve point)
  unfolding encode_ecdsa_pubkey ecdsa_blob
  encode_ecdsa_pubkey_lem k point h =
      let (fn, fi) = Fits-names k.curve in
      into_vec_of _ _ (
        Writes-seq _ _ (Writes-text vec_writer (name k.curve) fn) (
          Writes-seq _ _ (Writes-text vec_writer (ident k.curve) fi)
            (Writes-lift_bind _ _ (rw h.encoded refl) (Writes-string vec_writer point h.fits))))

  pub public_from_bytes_lem :
      (k : EcDsaPublicKey lib) (point : Bytes)
      → IsOnCurve k point
      → public_from_bytes lib k.curve point ≡ ok k
  unfolding public_from_bytes
  public_from_bytes_lem k point h =
      let back =
        lib.ec.point_bytes (lib.ec.group k.key) (lib.ec.public_key k.key) point h.encoded in
      rw (h.in_group, back) (rw (h.in_group, lib.ec.public_self k.key) refl)

  -- The hint of the caller is absent or right.
  abbrev pub HintFits : Option EcCurve → EcCurve → Type 0
  HintFits hint curve = matches_hint lib hint curve ≡ true

  pub names_lem :
      (c : EcCurve)
      → IsText (name c)
        × IsText (ident c)
        × (starts_with (name c) (ascii "ecdsa-sha2-") ≡ true)
        × (from_str (ident c) ≡ ok c)
  unfolding name ident is_utf8 starts_with from_str
  names_lem EcCurve.nistp256 = (refl, refl, refl, refl)
  names_lem EcCurve.nistp384 = (refl, refl, refl, refl)
  names_lem EcCurve.nistp521 = (refl, refl, refl, refl)

  pub decode-ecdsa_blob :
      (hint : Option EcCurve) (k : EcDsaPublicKey lib) (point : Bytes)
      → HintFits hint k.curve
      → IsOnCurve k point
      → decode_ecdsa_pubkey lib hint (ecdsa_blob k.curve point) ≡ ok k
  unfolding decode_ecdsa_pubkey ecdsa_blob
  decode-ecdsa_blob hint k point hf h =
      let (fn, fi) = Fits-names k.curve in
      let (tn, ti, pre, back) = names_lem k.curve in
      with_cursor_of _ _ (
        Reads-bind _ _ (Reads-text cursor_reader (name k.curve) fn tn) (
          Reads-bind _ _ (Reads-check cursor_reader _ _ pre) (
            Reads-bind _ _ (Reads-text cursor_reader (ident k.curve) fi ti) (
              Reads-lift_bind _ _ (rw back refl) (
                Reads-bind _ _ (Reads-check cursor_reader _ _ hf) (
                  Reads-bind_end _ _ (Reads-string cursor_reader point h.fits)
                    (Reads-lift _ (public_from_bytes_lem k point h))))))))

  unfoldable pub ed25519_blob : Bytes → Bytes
  ed25519_blob b = string_bytes ed25519_name ++ string_bytes b

  pub encode_ed25519_pubkey_lem :
      (k : lib.ed.VerifyingKey)
      → encode_ed25519_pubkey lib k ≡ ok (ed25519_blob (lib.ed.to_bytes k))
  unfolding encode_ed25519_pubkey ed25519_blob
  encode_ed25519_pubkey_lem k = into_vec_of _ _ (
      Writes-seq _ _ (Writes-text vec_writer ed25519_name (omega arith))
        (Writes-string vec_writer (lib.ed.to_bytes k) (omega (arith, lib.ed.length-to_bytes k))))

  pub decode-ed25519_blob :
      (k : lib.ed.VerifyingKey)
      → decode_ed25519_pubkey lib (ed25519_blob (lib.ed.to_bytes k)) ≡ ok (record { key = k })
  unfolding decode_ed25519_pubkey ed25519_blob is_utf8
  decode-ed25519_blob k =
      let size = lib.ed.length-to_bytes k in
      with_cursor_of _ _ (
        Reads-bind _ _ (Reads-text cursor_reader ed25519_name (omega arith) refl) (
          Reads-bind _ _ (Reads-check cursor_reader true type_not_match refl) (
            Reads-bind_end _ _
              (Reads-string cursor_reader (lib.ed.to_bytes k) (omega (arith, size)))
              (Reads-bind _ _ (Reads-check cursor_reader _ _ (rw size refl))
                (Reads-lift _ (rw (lib.ed.from_bytes-to_bytes k) refl))))))
