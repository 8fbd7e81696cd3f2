-- ===== src/Keys/Ed25519.antt =====
-- src/keys/ed25519.rs: Ed25519 keys.
use rust_osshkeys.Prelude.{
  ℕ, Bytes, ascii, not, ◌&&◌, ◌==◌, if◌then◌else◌, length, ok, err, and_then,
}
use rust_osshkeys.Error.{
  OsshResult, fail, from_signature, from_slice_length, invalid_key, invalid_key_size, on_unit,
}
use rust_osshkeys.External.KeyTypes.{KeyLib}

abbrev pub ed25519_name : Bytes
ed25519_name = ascii "ssh-ed25519"

abbrev pub ed25519_short_name : Bytes
ed25519_short_name = ascii "ED25519"

-- `ed25519_dalek::PUBLIC_KEY_LENGTH`.
abbrev pub public_key_length : ℕ
public_key_length = 32

-- `try_into()` from a slice to an array of the given size.
unfoldable pub try_into : ℕ → Bytes → OsshResult Bytes
try_into n b = if length b == n then ok b else err from_slice_length

module _ (lib : KeyLib) where
  pub record Ed25519PublicKey : Type 0 where
    pub key : lib.ed.VerifyingKey

  pub record Ed25519KeyPair : Type 0 where
    pub key : lib.ed.SigningKey

  -- `Ed25519PublicKey::new`, with the error of ed25519_dalek converted.
  unfoldable pub new : Bytes → OsshResult Ed25519PublicKey
  new key = and_then (on_unit from_signature (lib.ed.from_bytes key)) (λ k. ok (record { key = k }))

  -- `Ed25519PublicKey::from_ossl_ed25519`.
  unfoldable pub public_from_ossl_ed25519 : Bytes → OsshResult Ed25519PublicKey
  public_from_ossl_ed25519 key =
      and_then (on_unit from_signature (lib.ed.from_bytes key)) (λ k. ok (record { key = k }))

  -- `Ed25519KeyPair::generate`; zero stands for the default size.
  unfoldable pub generate : lib.ed.Seed → ℕ → OsshResult Ed25519KeyPair
  generate seed bits =
      if not (bits == 0) && not (bits == 256)
      then fail invalid_key_size
      else ok (record { key = lib.ed.generate seed })

  -- `Ed25519KeyPair::from_bytes`.
  unfoldable pub from_bytes : Bytes → Bytes → OsshResult Ed25519KeyPair
  unfolding try_into
  from_bytes pk sk = and_then (on_unit from_signature (lib.ed.from_bytes pk)) (λ verify_key.
      and_then (try_into 64 sk) (λ array.
        and_then (on_unit from_signature (lib.ed.from_keypair_bytes array)) (λ secret_key.
          if not (lib.ed.key_eq (lib.ed.verifying_key secret_key) verify_key)
          then fail invalid_key
          else ok (record { key = secret_key }))))

  -- `Ed25519KeyPair::clone_public_key`.
  unfoldable pub clone_public_key : Ed25519KeyPair → OsshResult Ed25519PublicKey
  clone_public_key k = ok (record { key = lib.ed.verifying_key k.key })

  -- `Ed25519KeyPair::from_ossl_ed25519`.
  unfoldable pub from_ossl_ed25519 : Bytes → OsshResult Ed25519KeyPair
  unfolding try_into
  from_ossl_ed25519 key = and_then (try_into 64 key) (λ array.
      and_then (on_unit from_signature (lib.ed.from_keypair_bytes array))
        (λ k. ok (record { key = k })))
