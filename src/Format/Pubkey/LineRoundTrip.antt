-- ===== src/Format/Pubkey/LineRoundTrip.antt =====
-- What `parse_ossh_pubkey` makes of the line that `serialize_ossh_pubkey` writes.
use rust_osshkeys.Prelude.{
  ◌≡◌, ◌≢◌, ◌<◌, refl, ◌∙◌, ap, arith, Bytes, List, [], ◌∷◌, ◌++◌, bytes_eq, some, ok, All,
  append_assoc, true,
}
use rust_osshkeys.Error.{OsshResult, fail, invalid_key_format}
use rust_osshkeys.External.Base64s.{Base64s}
use rust_osshkeys.External.KeyTypes.{KeyLib}
use rust_osshkeys.Sshbuf.Endian.{to_be_bytes}
use rust_osshkeys.Sshbuf.Mpint.{IsWritable}
use rust_osshkeys.Sshbuf.RoundTrip.{string_bytes}
use rust_osshkeys.Keys.Rsa.{RsaSignature, sha1, sha2_256, sha2_512, signature_name, from_name}
use rust_osshkeys.Keys.Ecdsa.{EcCurve, nistp256, nistp384, nistp521, name}
use rust_osshkeys.Keys.Container.{PublicKeyType, PublicKey, public_keyname}
use rust_osshkeys.Format.Pubkey.Encode.{public_blob}
use rust_osshkeys.Format.Pubkey.Decode.{decode_rsa_pubkey, decode_ecdsa_pubkey, matches_hint}
use rust_osshkeys.Format.Pubkey.Integers.{
  rsa_blob, encode_rsa_pubkey_lem, decode-rsa_blob, dsa_blob, IsWritableDsa, encode_dsa_pubkey_lem,
  decode-dsa_blob,
}
use rust_osshkeys.Format.Pubkey.Curves.{
  IsOnCurve, ecdsa_blob, encode_ecdsa_pubkey_lem, decode-ecdsa_blob, ed25519_blob,
  encode_ed25519_pubkey_lem, decode-ed25519_blob,
}
use rust_osshkeys.Format.Pubkey.Words.{
  NotSpace, split_ascii_whitespace, split_word, split_last_word,
}
use rust_osshkeys.Format.Pubkey.Line.{
  serialize_ossh_pubkey, decode_named, parse_split, parse_ossh_pubkey,
}

-- A blob starts with the four bytes of a length.
string_bytes-ne-nil : (b rest : Bytes) → string_bytes b ++ rest ≢ []
unfolding string_bytes to_be_bytes
string_bytes-ne-nil b rest h = cc

printable_word : (b : Bytes) → All (λ c. (32 < c) × (c < 127)) b → All NotSpace b
printable_word [] h = tt
printable_word (c ∷ b) (hc, h) = (ground arith, printable_word b h)

-- A word: not empty, and without white space.
abbrev pub IsWord : Bytes → Type 0
IsWord w = All NotSpace w × (w ≢ [])

signature_name-IsWord : (s : RsaSignature) → IsWord (signature_name s)
unfolding signature_name
signature_name-IsWord sha1 = (ground arith, λ e. cc)
signature_name-IsWord sha2_256 = (ground arith, λ e. cc)
signature_name-IsWord sha2_512 = (ground arith, λ e. cc)

name-IsWord : (c : EcCurve) → IsWord (name c)
unfolding name
name-IsWord nistp256 = (ground arith, λ e. cc)
name-IsWord nistp384 = (ground arith, λ e. cc)
name-IsWord nistp521 = (ground arith, λ e. cc)

-- What the parser returns, by the words of the comment.
abbrev pub parsed_as : (lib : KeyLib) → PublicKeyType lib → List Bytes → OsshResult (PublicKey lib)
parsed_as lib k [] = ok (record { key = k; comment = [] })
parsed_as lib k (w ∷ []) = ok (record { key = k; comment = w })
parsed_as lib k (w ∷ v ∷ ws) = fail invalid_key_format

module _ (lib : KeyLib) where
  -- What the writer needs of a key: its numbers are positive and have 2048 bytes at most, and an
  -- elliptic curve point lies in the group of the key's curve.
  abbrev pub CanEncode : PublicKeyType lib → Type 0
  CanEncode (PublicKeyType.rsa k) =
      IsWritable lib.bn (lib.rsa.e k.rsa) × IsWritable lib.bn (lib.rsa.n k.rsa)
  CanEncode (PublicKeyType.dsa k) = IsWritableDsa lib k.dsa
  CanEncode (PublicKeyType.ecdsa k) = (point : Bytes) × IsOnCurve lib k point
  CanEncode (PublicKeyType.ed25519 k) = Unit

  decode_named_rsa :
      (k : lib.rsa.Public) (s : RsaSignature) (blob : Bytes) {t : RsaSignature}
      → decode_rsa_pubkey lib blob ≡ ok (record { rsa = k; signhash = t })
      → decode_named lib (signature_name s) blob
        ≡ ok (PublicKeyType.rsa (record { rsa = k; signhash = s }))
  unfolding decode_named signature_name from_name
  decode_named_rsa k sha1 blob e = rw e refl
  decode_named_rsa k sha2_256 blob e = rw e refl
  decode_named_rsa k sha2_512 blob e = rw e refl

  decode_named_ecdsa :
      (k : lib.ec.Public) (c : EcCurve) (blob : Bytes)
      → decode_ecdsa_pubkey lib (some c) blob ≡ ok (record { key = k; curve = c })
      → decode_named lib (name c) blob ≡ ok (PublicKeyType.ecdsa (record { key = k; curve = c }))
  unfolding decode_named name
  decode_named_ecdsa k nistp256 blob e = rw e refl
  decode_named_ecdsa k nistp384 blob e = rw e refl
  decode_named_ecdsa k nistp521 blob e = rw e refl

  hint_self : (c : EcCurve) → matches_hint lib (some c) c ≡ true
  unfolding matches_hint
  hint_self nistp256 = refl
  hint_self nistp384 = refl
  hint_self nistp521 = refl

  -- The blob of a key is not empty, and under the key's name it is decoded to the key.
  pub decode_named-public_blob :
      (k : PublicKeyType lib)
      → CanEncode k
      → (blob : Bytes) × (public_blob lib k ≡ ok blob)
        × (decode_named lib (public_keyname lib k) blob ≡ ok k)
        × (blob ≢ [])
  unfolding public_blob public_keyname rsa_blob dsa_blob ecdsa_blob ed25519_blob
  decode_named-public_blob (PublicKeyType.rsa k) (he, hn) = (
    _,
    encode_rsa_pubkey_lem lib (lib.rsa.e k.rsa) (lib.rsa.n k.rsa) he hn,
    decode_named_rsa k.rsa k.signhash _ (decode-rsa_blob lib k.rsa he hn),
    string_bytes-ne-nil _ _,
  )
  decode_named-public_blob (PublicKeyType.dsa k) h = (
    _,
    encode_dsa_pubkey_lem lib _ _ _ _ h.p h.q h.g h.pub_key,
    unfold decode_named in rw (decode-dsa_blob lib k.dsa h) refl,
    string_bytes-ne-nil _ _,
  )
  decode_named-public_blob (PublicKeyType.ecdsa k) (point, h) = (
    _,
    encode_ecdsa_pubkey_lem lib k point h,
    decode_named_ecdsa k.key k.curve _
        (decode-ecdsa_blob lib (some k.curve) k point (hint_self k.curve) h),
    string_bytes-ne-nil _ _,
  )
  decode_named-public_blob (PublicKeyType.ed25519 k) h = (
    _,
    encode_ed25519_pubkey_lem lib k.key,
    unfold decode_named in rw (decode-ed25519_blob lib k.key) refl,
    string_bytes-ne-nil _ _,
  )

  keyname-IsWord : (k : PublicKeyType lib) → IsWord (public_keyname lib k)
  unfolding public_keyname
  keyname-IsWord (PublicKeyType.rsa k) = signature_name-IsWord k.signhash
  keyname-IsWord (PublicKeyType.dsa k) = (ground arith, λ e. cc)
  keyname-IsWord (PublicKeyType.ecdsa k) = name-IsWord k.curve
  keyname-IsWord (PublicKeyType.ed25519 k) = (ground arith, λ e. cc)

  parse_split_words :
      (b64 : Base64s) (k : PublicKeyType lib) (blob : Bytes) (ws : List Bytes)
      → decode_named lib (public_keyname lib k) blob ≡ ok k
      → parse_split lib b64 (public_keyname lib k ∷ b64.encode blob ∷ ws) ≡ parsed_as lib k ws
  unfolding parse_split
  parse_split_words b64 k blob [] e = rw (b64.decode-encode, e) refl
  parse_split_words b64 k blob (w ∷ []) e = rw (b64.decode-encode, e) refl
  parse_split_words b64 k blob (w ∷ v ∷ ws) e = refl

  -- The line that `serialize_ossh_pubkey` writes for a key and a comment, whatever the comment.
  serialize_words :
      (b64 : Base64s) (name blob comment : Bytes)
      → IsWord name
      → blob ≢ []
      → (line : Bytes) × (serialize_ossh_pubkey b64 name (ok blob) comment ≡ ok line)
        × (split_ascii_whitespace line ≡ name ∷ b64.encode blob ∷ split_ascii_whitespace comment)
  unfolding serialize_ossh_pubkey bytes_eq split_ascii_whitespace
  serialize_words b64 name blob [] (hn, nn) hb =
      let body = printable_word (b64.encode blob) (b64.encode_printable blob) in
      let last = split_last_word (b64.encode blob) body (b64.encode-ne-nil blob hb) in
      (_, refl, split_word name (b64.encode blob) hn nn ∙ ap (◌∷◌ name) last)
  serialize_words b64 name blob (c ∷ comment) (hn, nn) hb =
      let body = printable_word (b64.encode blob) (b64.encode_printable blob) in
      let tail = 32 ∷ c ∷ comment in
      let next = split_word (b64.encode blob) (c ∷ comment) body (b64.encode-ne-nil blob hb) in
      (
        _,
        refl,
        ap split_ascii_whitespace (append_assoc name (32 ∷ b64.encode blob) tail)
            ∙ split_word name (b64.encode blob ++ tail) hn nn
            ∙ ap (◌∷◌ name) next,
      )

  -- A key that can be encoded is written as a line of text. Parsed again, the line gives the key,
  -- with the one word of the comment or with no comment if there was none; if the comment has two
  -- words or more, the line is refused with InvalidKeyFormat.
  pub parse-serialize :
      (b64 : Base64s) (k : PublicKeyType lib) (comment : Bytes)
      → CanEncode k
      → (line : Bytes) × (serialize_ossh_pubkey b64
            (public_keyname lib k)
            (public_blob lib k)
            comment
          ≡ ok line)
        × (parse_ossh_pubkey lib b64 line ≡ parsed_as lib k (split_ascii_whitespace comment))
  unfolding parse_ossh_pubkey
  parse-serialize b64 k comment h =
      let (blob, made, back, ne) = decode_named-public_blob k h in
      let (line, written, words) =
        serialize_words b64 (public_keyname lib k) blob comment (keyname-IsWord k) ne in
      (
        line,
        rw made written,
        rw words (parse_split_words b64 k blob (split_ascii_whitespace comment) back),
      )
