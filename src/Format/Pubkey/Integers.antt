-- ===== src/Format/Pubkey/Integers.antt =====
-- RSA and DSA blobs: `encode_*_pubkey` and `decode_*_pubkey`.
use rust_osshkeys.Error.{type_not_match}
use rust_osshkeys.Prelude.{◌≡◌, refl, arith, Bytes, ◌++◌, true, ok}
use rust_osshkeys.External.KeyTypes.{KeyLib}
use rust_osshkeys.Sshbuf.Utf8.{is_utf8}
use rust_osshkeys.Sshbuf.Rules.{Reads-bind, Reads-bind_end, Reads-lift, Writes-seq}
use rust_osshkeys.Sshbuf.RoundTrip.{string_bytes}
use rust_osshkeys.Sshbuf.Mpint.{IsWritable}
use rust_osshkeys.Sshbuf.Memory.{cursor_reader, vec_writer}
use rust_osshkeys.Format.Wire.{
  into_vec_of, with_cursor_of, mpint_bytes, Writes-text, Writes-mpint, Reads-text, Reads-mpint,
  Reads-check,
}
use rust_osshkeys.Format.Pubkey.Encode.{encode_rsa_pubkey, encode_dsa_pubkey}
use rust_osshkeys.Format.Pubkey.Decode.{decode_rsa_pubkey, decode_dsa_pubkey}
use rust_osshkeys.Keys.Dsa.{dsa_name}
use rust_osshkeys.Keys.Rsa.{rsa_name, default_signature}

module _ (lib : KeyLib) where
  unfoldable pub rsa_blob : lib.bn.BigNum → lib.bn.BigNum → Bytes
  rsa_blob e n = string_bytes rsa_name ++ (mpint_bytes lib.bn e ++ mpint_bytes lib.bn n)

  pub encode_rsa_pubkey_lem :
      (e n : lib.bn.BigNum)
      → IsWritable lib.bn e
      → IsWritable lib.bn n
      → encode_rsa_pubkey lib e n ≡ ok (rsa_blob e n)
  unfolding encode_rsa_pubkey rsa_blob
  encode_rsa_pubkey_lem e n he hn = into_vec_of _ _ (
      Writes-seq _ _ (Writes-text vec_writer rsa_name (omega arith)) (
        Writes-seq _ _ (Writes-mpint vec_writer lib.bn e he) (Writes-mpint vec_writer lib.bn n hn)))

  pub decode-rsa_blob :
      (k : lib.rsa.Public)
      → IsWritable lib.bn (lib.rsa.e k)
      → IsWritable lib.bn (lib.rsa.n k)
      → decode_rsa_pubkey lib (rsa_blob (lib.rsa.e k) (lib.rsa.n k))
        ≡ ok (record { rsa = k; signhash = default_signature })
  unfolding decode_rsa_pubkey rsa_blob is_utf8
  decode-rsa_blob k he hn = with_cursor_of _ _ (
      Reads-bind _ _ (Reads-text cursor_reader rsa_name (omega arith) refl) (
        Reads-bind _ _ (Reads-check cursor_reader true type_not_match refl) (
          Reads-bind _ _ (Reads-mpint cursor_reader lib.bn (lib.rsa.e k) he) (
            Reads-bind_end _ _ (Reads-mpint cursor_reader lib.bn (lib.rsa.n k) hn)
              (Reads-lift _ (rw (lib.rsa.public_self k) refl))))))

  unfoldable pub dsa_blob : lib.bn.BigNum → lib.bn.BigNum → lib.bn.BigNum → lib.bn.BigNum → Bytes
  dsa_blob p q g y =
      string_bytes dsa_name
      ++ (mpint_bytes lib.bn p
          ++ (mpint_bytes lib.bn q ++ (mpint_bytes lib.bn g ++ mpint_bytes lib.bn y)))

  pub encode_dsa_pubkey_lem :
      (p q g y : lib.bn.BigNum)
      → IsWritable lib.bn p
      → IsWritable lib.bn q
      → IsWritable lib.bn g
      → IsWritable lib.bn y
      → encode_dsa_pubkey lib p q g y ≡ ok (dsa_blob p q g y)
  unfolding encode_dsa_pubkey dsa_blob
  encode_dsa_pubkey_lem p q g y hp hq hg hy =
      let put = Writes-mpint vec_writer lib.bn in
      into_vec_of _ _ (
        Writes-seq _ _ (Writes-text vec_writer dsa_name (omega arith)) (
          Writes-seq _ _ (put p hp)
            (Writes-seq _ _ (put q hq) (Writes-seq _ _ (put g hg) (put y hy)))))

  -- The parts of a public DSA key can be written.
  pub record IsWritableDsa (k : lib.dsa.Public) : Type 0 where
    pub p : IsWritable lib.bn (lib.dsa.p k)
    pub q : IsWritable lib.bn (lib.dsa.q k)
    pub g : IsWritable lib.bn (lib.dsa.g k)
    pub pub_key : IsWritable lib.bn (lib.dsa.pub_key k)

  pub decode-dsa_blob :
      (k : lib.dsa.Public)
      → IsWritableDsa k
      → decode_dsa_pubkey lib
          (dsa_blob (lib.dsa.p k) (lib.dsa.q k) (lib.dsa.g k) (lib.dsa.pub_key k))
        ≡ ok (record { dsa = k })
  unfolding decode_dsa_pubkey dsa_blob is_utf8
  decode-dsa_blob k h =
      let get = Reads-mpint cursor_reader lib.bn in
      with_cursor_of _ _ (
        Reads-bind _ _ (Reads-text cursor_reader dsa_name (omega arith) refl) (
          Reads-bind _ _ (Reads-check cursor_reader true type_not_match refl) (
            Reads-bind _ _ (get (lib.dsa.p k) h.p) (
              Reads-bind _ _ (get (lib.dsa.q k) h.q) (
                Reads-bind _ _ (get (lib.dsa.g k) h.g) (
                  Reads-bind_end _ _ (get (lib.dsa.pub_key k) h.pub_key)
                    (Reads-lift _ (rw (lib.dsa.public_self k) refl))))))))
