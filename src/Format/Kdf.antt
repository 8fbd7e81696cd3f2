-- ===== src/Format/Kdf.antt =====
-- src/format/pem.rs: `openssl_kdf`, the key derivation of OpenSSL's encrypted PEM texts.
use rust_osshkeys.Prelude.{
  ℕ, zero, suc, ◌-◌, Bytes, [], ◌∷◌, ◌++◌, length, Bool, true, false, not, ltb, if◌then◌else◌,
  Option, none, some, ok,
}
use rust_osshkeys.Error.{OsshResult, fail, invalid_key_size}
use rust_osshkeys.External.Digests.{Digests}

abbrev pub max_key_len : ℕ
max_key_len = 64

-- The bytes of the digest, as long as the key is too short.
unfoldable pub push_bytes : ℕ → Bytes → Bytes → Bytes
push_bytes keylen key [] = key
push_bytes keylen key (byte ∷ dig) =
    push_bytes keylen (if ltb (length key) keylen then key ++ (byte ∷ []) else key) dig

module _ (dg : Digests) where
  -- The variables of the loop.
  pub record Round : Type 0 where
    pub digest : dg.Digest
    pub key : Bytes
    pub dig : Bytes
    pub first : Bool

  -- `for _ in 1..iter`, with the number of rounds that are left.
  unfoldable pub rehash : ℕ → Bytes × dg.Digest → Bytes × dg.Digest
  rehash zero p = p
  rehash (suc n) p = rehash n (dg.finalize_reset (dg.update p.1 p.0))

  module _ (data_ salt : Bytes) (keylen iter : ℕ) where
    unfoldable pub kdf_round : Round → Round
    unfolding push_bytes rehash
    kdf_round r =
        let fed = if not r.first then dg.update r.digest r.dig else r.digest in
        let p = rehash (iter - 1) (dg.finalize_reset (dg.update (dg.update fed data_) salt)) in
        record { digest = p.1; key = push_bytes keylen r.key p.0; dig = p.0; first = false }

    -- `while key.len() < keylen`; `none` tells that the fuel did not suffice.
    unfoldable pub kdf_loop : ℕ → Round → Option (OsshResult Bytes)
    unfolding kdf_round
    kdf_loop zero r = if ltb (length r.key) keylen then none else some (ok r.key)
    kdf_loop (suc fuel) r =
        let rest = kdf_loop fuel (kdf_round r) in
        if ltb (length r.key) keylen then rest else some (ok r.key)

    -- The fuel is the length of the key, since a round adds a byte at least.
    unfoldable pub openssl_kdf : dg.Digest → Option (OsshResult Bytes)
    unfolding kdf_loop
    openssl_kdf digest =
        if ltb max_key_len keylen
        then some (fail invalid_key_size)
        else kdf_loop keylen (record { digest = dg.reset digest; key = []; dig = []; first = true })
