-- ===== src/Format/Privkey/Sealed.antt =====
-- The encryption of the private section, and its decryption.
use rust_osshkeys.Prelude.{
  le_of_take, ℕ, ◌+◌, ◌%◌, ◌^◌, ◌<◌, ◌≤◌, ◌≡◌, ◌≢◌, ◌⊎◌, inl, inr, refl, ap, ◌∙◌, arith, Bytes, [],
  ◌∷◌, ◌++◌, length, length-drop, length-take, length-replicate, take, drop, ok, ◌==◌, true, false,
  ltb, bytes_eq, some,
}
use rust_osshkeys.Error.{from_io}
use rust_osshkeys.External.OsshLib.{OsshLib}
use rust_osshkeys.Sshbuf.Endian.{to_be_bytes}
use rust_osshkeys.Sshbuf.Memory.{cursor_reader, vec_writer}
use rust_osshkeys.Sshbuf.Rules.{
  Reads-convert, Reads-bind, Reads-bind_end, Reads-pure, Writes-convert, Writes-seq,
}
use rust_osshkeys.Sshbuf.RoundTrip.{Fits, string_bytes, Reads-read_uint32, Writes-write_uint32}
use rust_osshkeys.Sshbuf.Buffer.{SshBuf, unread, with_vec}
use rust_osshkeys.Cipher.Table.{Cipher, name, block_size, key_len, iv_len, is_null, is_some}
use rust_osshkeys.Cipher.Names.{from_str-name}
use rust_osshkeys.Cipher.Crypt.{calc_buffer_len}
use rust_osshkeys.Cipher.RoundTrip.{
  symm, ciphertext, decrypt_to_lem, encrypt_lem, ciphertext_blocks,
}
use rust_osshkeys.Format.Wire.{with_cursor_of, into_vec_of, Reads-string, Writes-string}
use rust_osshkeys.Format.Privkey.Encode.{kdf_options, kdf_bcrypt, seal, encrypt_ossh_priv}
use rust_osshkeys.Format.Privkey.Decode.{
  read_kdf, has_passphrase, derive, decrypt_into, decrypt_ossh_priv,
}
use rust_osshkeys.Format.Privkey.Padding.{block_sizes}

pub null_or_some : (c : Cipher) → (c ≡ Cipher.null) ⊎ ((is_some c ≡ true) × (is_null c ≡ false))
unfolding is_some is_null
null_or_some Cipher.null = inl refl
null_or_some Cipher.aes128_cbc = inr (refl, refl)
null_or_some Cipher.aes192_cbc = inr (refl, refl)
null_or_some Cipher.aes256_cbc = inr (refl, refl)
null_or_some Cipher.aes128_ctr = inr (refl, refl)
null_or_some Cipher.aes192_ctr = inr (refl, refl)
null_or_some Cipher.aes256_ctr = inr (refl, refl)
null_or_some Cipher.tdes_cbc = inr (refl, refl)

pub bytes_eq-ne-nil : (b : Bytes) → b ≢ [] → bytes_eq b [] ≡ false
unfolding bytes_eq
bytes_eq-ne-nil [] h = absurd (h refl)
bytes_eq-ne-nil (x ∷ b) h = refl

-- Whole blocks that are not empty are a block at least.
pub one_block :
    (c : Cipher) (n : ℕ)
    → 0 < n
    → n % block_size c ≡ 0
    → (ltb n (block_size c) ≡ false) × ((n % block_size c == 0) ≡ true)
one_block c n pos h = (below (block_size c) (block_sizes c) h, ground arith)
  where
    below : (b : ℕ) → (b ≡ 8) ⊎ (b ≡ 16) → n % b ≡ 0 → ltb n b ≡ false
    below b (inl e) k = ground arith
    below b (inr e) k = ground arith

-- The options of the key derivation function, and how they are read.
unfoldable pub options_bytes : Bytes → ℕ → Bytes
options_bytes salt rounds = string_bytes salt ++ to_be_bytes 4 rounds

pub kdf_options_lem :
    (salt : Bytes) (rounds : ℕ)
    → Fits salt
    → rounds < 2 ^ 32
    → (kdf_options salt rounds ≡ ok (options_bytes salt rounds))
      × (read_kdf (options_bytes salt rounds) ≡ ok (salt, rounds))
unfolding kdf_options read_kdf options_bytes
kdf_options_lem salt rounds fits small = (
  into_vec_of _ _ (
      Writes-seq _ _ (Writes-string vec_writer salt fits)
        (Writes-convert from_io _ (Writes-write_uint32 vec_writer rounds))),
  with_cursor_of _ _ (
      Reads-bind _ _ (Reads-string cursor_reader salt fits) (
        Reads-bind_end _ _ (Reads-convert from_io _ (Reads-read_uint32 cursor_reader rounds small))
          (Reads-pure _))),
)

module _ (lib : OsshLib) where
  decrypt_into_lem :
      (c : Cipher) (priv key iv : Bytes)
      → length key ≡ key_len c
      → length iv ≡ iv_len c
      → (s : SshBuf lib.cv) × (decrypt_into lib c
            (ciphertext lib.cipher (symm c) key iv priv)
            key
            iv
          ≡ ok s)
        × (unread lib.cv s ≡ priv)
  unfolding decrypt_into with_vec
  decrypt_into_lem c priv key iv hk hi =
      let room =
        calc_buffer_len lib.cipher c (length (ciphertext lib.cipher (symm c) key iv priv)) in
      let cvec = lib.cv.resize lib.cv.new room in
      let dest = lib.cv.as_slice cvec in
      let size : length dest ≡ room =
        ap length (lib.cv.as_slice-resize_new room) ∙ length-replicate room 0 in
      let (filled, e, text, same) = decrypt_to_lem lib.cipher priv key iv c dest hk hi size in
      let held : lib.cv.as_slice (lib.cv.set_slice cvec filled) ≡ filled =
        lib.cv.as_slice-set_slice cvec filled same in
      let enough : length priv ≤ length (lib.cv.as_slice (lib.cv.set_slice cvec filled)) =
        omega (arith, ap length held, le_of_take (length priv) filled (ap length text)) in
      (
        with_vec lib.cv (lib.cv.resize (lib.cv.set_slice cvec filled) (length priv)),
        rw e refl,
        lib.cv.as_slice-resize_le _ _ enough ∙ ap (take (length priv)) held ∙ text,
      )

  -- What sealing with a cipher needs: a passphrase from which a key is derived.
  pub record CanSeal (c : Cipher) (pass salt : Bytes) (rounds : ℕ) : Type 0 where
    pub keyder : Bytes
    pub derived : lib.kdf.bcrypt_pbkdf pass salt rounds (key_len c + iv_len c) ≡ ok keyder
    pub not_empty : pass ≢ []
    pub salt_len : length salt ≡ 16
    pub rounds_fit : rounds < 2 ^ 32

  module _ (c : Cipher) (pass salt : Bytes) (rounds : ℕ) (h : CanSeal c pass salt rounds)
      (is : is_some c ≡ true) (isnt : is_null c ≡ false) (priv : Bytes)
      (full : length priv % block_size c ≡ 0) (pos : 0 < length priv) where
    pub sealed : Bytes
    sealed =
        ciphertext lib.cipher (symm c) (take (key_len c) h.keyder) (drop (key_len c) h.keyder) priv

    sizes :
        (length (take (key_len c) h.keyder) ≡ key_len c)
        × (length (drop (key_len c) h.keyder) ≡ iv_len c)
    sizes =
        let all = lib.kdf.length-bcrypt_pbkdf pass salt rounds _ h.keyder h.derived in
        (
          omega (arith, all, length-take (key_len c) h.keyder),
          omega (arith, all, length-drop (key_len c) h.keyder),
        )

    pub seal_lem :
        (seal lib priv pass c rounds salt ≡ ok sealed)
        × (length sealed ≤ length priv + block_size c)
    unfolding seal encrypt_ossh_priv sealed
    seal_lem =
        let (hk, hi) = sizes in
        let (e, fits) = encrypt_lem lib.cipher priv _ _ c hk hi in
        (rw (is, bytes_eq-ne-nil pass h.not_empty, h.derived) e, fits)

    pub decrypt_ossh_priv_lem :
        (s : SshBuf lib.cv) × (decrypt_ossh_priv lib sealed
            (some pass)
            (name c)
            kdf_bcrypt
            (options_bytes salt rounds)
          ≡ ok s)
        × (unread lib.cv s ≡ priv)
    unfolding decrypt_ossh_priv has_passphrase derive bytes_eq sealed
    decrypt_ossh_priv_lem =
        let (hk, hi) = sizes in
        let (whole, more) =
          ciphertext_blocks lib.cipher priv (take (key_len c) h.keyder) (drop (key_len c) h.keyder)
            c full in
        let (long, blocks) = one_block c (length sealed) (omega (arith, more, pos)) whole in
        let (s, e, left) = decrypt_into_lem c priv _ _ hk hi in
        let named = bytes_eq-ne-nil pass h.not_empty in
        let (_, options) = kdf_options_lem salt rounds (omega (arith, h.salt_len)) h.rounds_fit in
        (s, rw (from_str-name c, named, isnt, long, blocks, options, h.derived) e, left)
