-- ===== src/Format/OpensshRoundTrip.antt =====
-- Key pairs that are written in the OpenSSH format and read again by `from_keystr`.
use rust_osshkeys.Prelude.{
  ◌++◌, ◌≡◌, ◌≢◌, ◌∙◌, ◌+◌, ◌<◌, ◌==◌, ◌&&◌, ◌%◌, ltb, inl, inr, Bool-cases, ℕ, refl, ap, arith,
  All, Bytes, [], ◌∷◌, true, false, Option, none, some, ok,
}
use rust_osshkeys.External.Pems.{no_empty_line}
use rust_osshkeys.External.PemLib.{PemLib}
use rust_osshkeys.Cipher.Table.{Cipher, null}
use rust_osshkeys.Keys.Container.{KeyPair}
use rust_osshkeys.Format.Privkey.Encode.{encode_ossh_priv}
use rust_osshkeys.Format.Privkey.Decode.{decode_ossh_priv}
use rust_osshkeys.Format.Privkey.Armor.{
  begin_line, end_line, wrap_from, serialize_ossh_privkey, without_feeds-wrap_from,
}
use rust_osshkeys.Format.Privkey.FileParts.{IsWritableFile}
use rust_osshkeys.Format.Privkey.File.{decode-encode_ossh_priv}
use rust_osshkeys.Format.Privkey.NoCipher.{decode-encode_null}
use rust_osshkeys.Format.Keystr.{parse_keystr, serialize_openssh}

-- Wrapping makes no empty line, after the first character or in a text that is not empty.
no_empty_line-wrap_from :
    (i : ℕ) (b : Bytes)
    → All (λ c. (32 < c) × (c < 127)) b
    → 0 < i
    → no_empty_line false (wrap_from i b) ≡ true
unfolding no_empty_line wrap_from
no_empty_line-wrap_from i [] h pos = refl
no_empty_line-wrap_from i (c ∷ cs) (hc, h) pos =
    let no : (c == 10) ≡ false = ground arith in
    let rest = no_empty_line-wrap_from (i + 1) cs h (omega arith) in
    elim (Bool-cases (ltb 0 i && i % 70 == 0)) [ inl y ↦ rw (y, no) rest | inr n ↦ rw (n, no) rest ]

no_empty_line-wrap :
    (b : Bytes)
    → All (λ c. (32 < c) × (c < 127)) b
    → b ≢ []
    → no_empty_line true (wrap_from 0 b) ≡ true
unfolding no_empty_line wrap_from
no_empty_line-wrap [] h ne = absurd (ne refl)
no_empty_line-wrap (c ∷ cs) (hc, h) ne =
    let no : (c == 10) ≡ false = ground arith in
    rw no (no_empty_line-wrap_from 1 cs h (omega arith))

module _ (lib : PemLib) where
  -- No key is read from an empty file.
  file-ne-nil :
      (file : Bytes) (pass : Option Bytes) (key : KeyPair lib.ossh.keys)
      → decode_ossh_priv lib.ossh file pass ≡ ok key
      → file ≢ []
  unfolding decode_ossh_priv
  file-ne-nil [] pass key h e = cc
  file-ne-nil (b ∷ file) pass key h e = cc

  serialize-parse :
      (key : KeyPair lib.ossh.keys) (c : Cipher) (pass salt : Bytes) (checksum : ℕ)
      (other : Option Bytes) (file : Bytes)
      → encode_ossh_priv lib.ossh key pass c 0 salt checksum ≡ ok file
      → decode_ossh_priv lib.ossh file other ≡ ok key
      → (t : Bytes) × (serialize_ossh_privkey lib.ossh lib.b64 key pass c 0 salt checksum ≡ ok t)
        × (parse_keystr lib t other ≡ ok key)
  unfolding serialize_ossh_privkey parse_keystr
  serialize-parse key c pass salt checksum other file made read =
      let printable = lib.b64.encode_printable file in
      let lines =
        no_empty_line-wrap (lib.b64.encode file) printable
          (lib.b64.encode-ne-nil file (file-ne-nil file other key read)) in
      let decoded =
        ap lib.b64.decode (without_feeds-wrap_from 0 (lib.b64.encode file) printable)
        ∙ lib.b64.decode-encode file in
      let (block, parsed, tagged, contents) =
        lib.pems.openssh_text (wrap_from 0 (lib.b64.encode file)) file lines decoded in
      let t = begin_line ++ (wrap_from 0 (lib.b64.encode file) ++ end_line) in
      (t, rw made refl, rw (parsed, tagged, contents) read)

  -- The passphrase and the cipher that `serialize_openssh` uses.
  abbrev used_pass : Option Bytes → Bytes
  used_pass none = []
  used_pass (some pass) = pass

  abbrev used_cipher : Option Bytes → Cipher → Cipher
  used_cipher none c = null
  used_cipher (some _) c = c

  -- `serialize_openssh` writes a text, and `from_keystr` reads the key pair with its comment from it,
  -- with the same passphrase, or with none if there was none. This is for a key and arguments that
  -- make a readable file.
  pub parse_keystr-serialize_openssh :
      (key : KeyPair lib.ossh.keys) (pass : Option Bytes) (c : Cipher) (salt : Bytes) (checksum : ℕ)
      → IsWritableFile lib.ossh key (used_cipher pass c) (used_pass pass) salt 0 checksum
      → (t : Bytes) × (serialize_openssh lib key pass c salt checksum ≡ ok t)
        × (parse_keystr lib t pass ≡ ok key)
  unfolding serialize_openssh
  parse_keystr-serialize_openssh key none c salt checksum h =
      let (file, made, read) = decode-encode_null lib.ossh key [] salt 0 checksum none h in
      serialize-parse key null [] salt checksum none file made read
  parse_keystr-serialize_openssh key (some pass) c salt checksum h =
      let (file, made, read) = decode-encode_ossh_priv lib.ossh key c pass salt 0 checksum h in
      serialize-parse key c pass salt checksum (some pass) file made read
