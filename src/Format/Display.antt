-- ===== src/Format/Display.antt =====
-- `fmt::Display` of the public keys and of the errors, as the text that is written.
use rust_osshkeys.Prelude.{◌≡◌, ◌∙◌, sym, ap, Bytes, [], ◌++◌, ascii, ok, none, some}
use rust_osshkeys.Error.{OsshResult, Error, Cause, description}
use rust_osshkeys.External.PemLib.{PemLib}
use rust_osshkeys.Keys.Equality.{unwrap}
use rust_osshkeys.Keys.Container.{
  PublicKeyType, PublicKey, KeyPair, public_keyname, clone_public_key, public_from,
}
use rust_osshkeys.Format.Pubkey.Encode.{public_blob}
use rust_osshkeys.Format.Pubkey.Words.{split_ascii_whitespace}
use rust_osshkeys.Format.Pubkey.Line.{serialize_ossh_pubkey}
use rust_osshkeys.Format.Pubkey.LineRoundTrip.{CanEncode, parsed_as}
use rust_osshkeys.Format.Privkey.Cloning.{InGroup, clone_public_key-Matches}
use rust_osshkeys.Format.Keystr.{public_from_keystr, serialize, serialize_publickey}
use rust_osshkeys.Format.PublicRoundTrip.{public_from_keystr-serialize}

-- Of an error: its description, and the text of the error that it wraps.
unfoldable error_text : (Cause → Bytes) → Error → Bytes
unfolding description
error_text cause_text e = elim e.inner [
  | none ↦ description e.kind
  | some c ↦ description e.kind ++ (ascii "; Caused by: " ++ cause_text c)
]

module _ (lib : PemLib) where
  -- Of the four types of public keys.
  unfoldable pub key_text : PublicKeyType lib.ossh.keys → OsshResult Bytes
  unfolding serialize_ossh_pubkey public_keyname public_blob
  key_text k = unwrap (
      serialize_ossh_pubkey lib.b64 (public_keyname lib.ossh.keys k) (public_blob lib.ossh.keys k)
        [])

  -- Of `PublicKey`.
  unfoldable pub public_text : PublicKey lib.ossh.keys → OsshResult Bytes
  unfolding serialize
  public_text k = unwrap (serialize lib k)

  -- A public key that can be encoded is displayed without a panic. The line is the same for the key
  -- and for the container that is made of it, and `from_keystr` reads this container back.
  pub public_from_keystr-key_text :
      (k : PublicKeyType lib.ossh.keys)
      → CanEncode lib.ossh.keys k
      → (line : Bytes) × (key_text k ≡ ok line)
        × (public_text (public_from lib.ossh.keys k) ≡ ok line)
        × (public_from_keystr lib line ≡ ok (public_from lib.ossh.keys k))
  unfolding key_text public_text serialize split_ascii_whitespace
  public_from_keystr-key_text k can =
      let (line, written, read) =
        public_from_keystr-serialize lib (public_from lib.ossh.keys k) can in
      (line, ap unwrap written, ap unwrap written, read)

  -- The line of the public parts of a key pair is the line of the public key that is cloned from the
  -- pair, if that can be encoded, and an ECDSA pair lies in the group of its curve. `from_keystr`
  -- reads from it the cloned key, with the comment if that is one word and with none if it is empty;
  -- a comment of two words or more makes the line be refused with InvalidKeyFormat.
  pub serialize_publickey-clone_public_key :
      (k : KeyPair lib.ossh.keys) (p : PublicKey lib.ossh.keys)
      → InGroup lib.ossh.keys k.key
      → CanEncode lib.ossh.keys p.key
      → clone_public_key lib.ossh.keys k ≡ ok p
      → (line : Bytes) × (serialize_publickey lib k ≡ ok line)
        × (serialize lib p ≡ ok line)
        × (public_from_keystr lib line
            ≡ parsed_as lib.ossh.keys p.key (split_ascii_whitespace k.comment))
  unfolding serialize serialize_publickey
  serialize_publickey-clone_public_key k p hk hp made =
      let (named, blob, comment) = clone_public_key-Matches lib.ossh.keys k p hk made in
      let (line, written, read) = public_from_keystr-serialize lib p hp in
      let same : serialize_publickey lib k ≡ serialize lib p =
        λ i. serialize_ossh_pubkey lib.b64 (sym named i) (sym blob i) (sym comment i) in
      (
        line,
        same ∙ written,
        written,
        read ∙ ap (λ c. parsed_as lib.ossh.keys p.key (split_ascii_whitespace c)) comment,
      )
