-- ===== src/Format/Privkey/Secret.antt =====
-- The private section of the file: what is written into it, and what is read from it.
use rust_osshkeys.Prelude.{
  ℕ, ◌%◌, ◌^◌, ◌<◌, ◌≡◌, refl, sym, ap, ◌∙◌, arith, Bytes, [], ◌++◌, length, ok, ◌==◌, true, ◌>>=◌,
  ◌>>◌, pure,
}
use rust_osshkeys.Error.{from_io}
use rust_osshkeys.External.OsshLib.{OsshLib}
use rust_osshkeys.Sshbuf.Endian.{to_be_bytes}
use rust_osshkeys.Sshbuf.Utf8.{IsText}
use rust_osshkeys.Sshbuf.Reader.{Reads, Writes}
use rust_osshkeys.Sshbuf.Rules.{
  Writes-convert, Writes-seq, Reads-convert, Reads-bind, Reads-bind_end, Reads-pure,
}
use rust_osshkeys.Sshbuf.RoundTrip.{Fits, string_bytes, Writes-write_uint32, Reads-read_uint32}
use rust_osshkeys.Sshbuf.Buffer
use rust_osshkeys.Sshbuf.Buffer.{SshBuf, as_slice, len, unread, ssh_buf_writer, ssh_buf_reader}
use rust_osshkeys.Cipher.Table.{Cipher, block_size}
use rust_osshkeys.Keys.Container.{KeyPair}
use rust_osshkeys.Format.Wire.{Writes-text, Reads-text, Reads-check}
use rust_osshkeys.Format.Privkey.Parts.{CanEncodePair}
use rust_osshkeys.Format.Privkey.KeyRoundTrip.{key_bytes, Writes-encode_key, Reads-decode_key}
use rust_osshkeys.Format.Privkey.Encode.{put_fields, put_private, private_section}
use rust_osshkeys.Format.Privkey.Decode.{decode_fields, decode_secret}
use rust_osshkeys.Format.Privkey.Padding.{pads, padded, check_pads}

module _ (lib : OsshLib) (key : KeyPair lib.keys) (h : CanEncodePair lib.keys key.key)
    (fits : Fits key.comment) (checksum : ℕ) where
  -- What stands before the padding.
  unfoldable pub fields_bytes : Bytes
  fields_bytes =
      to_be_bytes 4 checksum
      ++ (to_be_bytes 4 checksum ++ (key_bytes lib.keys key.key h ++ string_bytes key.comment))

  pub length-fields_bytes : (rest : Bytes) → 0 < length (fields_bytes ++ rest)
  unfolding fields_bytes to_be_bytes
  length-fields_bytes rest = omega arith

  Writes-put_fields : Writes (ssh_buf_writer lib.cv) (put_fields lib key checksum) fields_bytes tt
  unfolding put_fields fields_bytes
  Writes-put_fields =
      let wr = ssh_buf_writer lib.cv in
      let sum = Writes-convert from_io _ (Writes-write_uint32 wr checksum) in
      Writes-seq _ _ sum (
        Writes-seq _ _ sum (
          Writes-seq _ _ (Writes-encode_key lib.keys wr key.key h)
            (Writes-text wr key.comment fits)))

  -- For a key pair that can be encoded and a comment below 2^32 bytes, the private section consists of
  -- the fields and less than a block of padding, and fills whole blocks, with each cipher and each
  -- checksum. A pair can be encoded if its numbers are positive and have 2048 bytes at most, an ECDSA
  -- key lies in the group of its curve and its point has an encoding below 2^32 bytes, and an RSA key
  -- has all its parts, a size that is allowed and the exponents that belong to its primes.
  pub private_section_lem :
      (c : Cipher)
      → (n : ℕ) × (n < block_size c)
        × (private_section lib key c checksum ≡ ok (fields_bytes ++ pads 0 n))
        × (length (fields_bytes ++ pads 0 n) % block_size c ≡ 0)
  unfolding private_section put_private ◌>>◌ ◌>>=◌ Buffer.new ssh_buf_writer
  private_section_lem c =
      let (s, put, grown) = Writes-put_fields.at (Buffer.new lib.cv) in
      let (n, few, t, ran, end, full) = padded lib c s in
      let all : as_slice lib.cv t ≡ fields_bytes ++ pads 0 n =
        end
        ∙ ap (λ x. x ++ pads 0 n)
            (grown
              ∙ ap (λ x. x ++ fields_bytes) {y = []} (unfold as_slice in lib.cv.as_slice-new)) in
      (n, few, rw (put, ran) (ap ok all), rw (sym all) full)

  module _ (text : IsText key.comment) (small : checksum < 2 ^ 32) where
    Reads-decode_fields : Reads (ssh_buf_reader lib.cv) (decode_fields lib) fields_bytes key
    unfolding decode_fields fields_bytes
    Reads-decode_fields =
        let rd = ssh_buf_reader lib.cv in
        let sum = Reads-convert from_io _ (Reads-read_uint32 rd checksum small) in
        let same : (checksum == checksum) ≡ true = ground arith in
        Reads-bind _ _ sum (
          Reads-bind _ _ sum (
            Reads-bind _ _ (Reads-check rd _ _ same) (
              Reads-bind _ _ (Reads-decode_key lib.keys rd key.key h)
                (Reads-bind_end _ _ (Reads-text rd key.comment fits text) (Reads-pure _)))))

    -- The private section is read back to the key.
    pub decode_secret_lem :
        (n : ℕ) (s : SshBuf lib.cv)
        → unread lib.cv s ≡ fields_bytes ++ pads 0 n
        → (t : SshBuf lib.cv) × (decode_secret lib s ≡ ok (key, t))
    unfolding decode_secret ssh_buf_reader ◌>>=◌ pure
    decode_secret_lem n s e =
        let (t, got, left) = Reads-decode_fields.at s (pads 0 n) e in
        let (z, ran) = check_pads lib n t left in (z, rw (got, ran) refl)
