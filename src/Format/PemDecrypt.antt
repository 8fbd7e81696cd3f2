-- ===== src/Format/PemDecrypt.antt =====
-- src/format/pem.rs: `pem_decrypt`, behind the feature `experimental`.
use rust_osshkeys.Prelude.{
  ◌*◌, ◌≡◌, ◌==◌, ◌&&◌, refl, arith, Bytes, ascii, bytes_eq, length, Bool, false, not,
  if◌then◌else◌, Option, none, some, ok, err, panic,
}
use rust_osshkeys.Error.{
  OsshResult, fail, from_slice_length, unsupport_type, unsupport_cipher, incorrect_pass,
  invalid_pem_format,
}
use rust_osshkeys.External.Digests.{Digests}
use rust_osshkeys.External.Regexes.{Regexes}
use rust_osshkeys.External.Pems.{PemBlock}
use rust_osshkeys.Cipher.Table.{
  Cipher, tdes_cbc, aes128_cbc, aes192_cbc, aes256_cbc, aes128_ctr, aes192_ctr, aes256_ctr, null,
  key_len, iv_len,
}
use rust_osshkeys.Cipher.Backend.{Backend}
use rust_osshkeys.Cipher.Crypt
use rust_osshkeys.Keys.Ed25519.{try_into}
use rust_osshkeys.Format.Kdf.{openssl_kdf}

-- The match on the algorithm of `DEK-Info`.
unfoldable pub dek_cipher : Bytes → OsshResult Cipher
unfolding bytes_eq
dek_cipher algo =
    if bytes_eq algo (ascii "DES-CBC")
    then fail unsupport_cipher
    else if bytes_eq algo (ascii "DES-EDE3-CBC")
    then ok tdes_cbc
    else if bytes_eq algo (ascii "AES-128-CBC")
    then ok aes128_cbc
    else if bytes_eq algo (ascii "AES-192-CBC")
    then ok aes192_cbc
    else if bytes_eq algo (ascii "AES-256-CBC")
    then ok aes256_cbc
    else fail unsupport_cipher

-- `?` on a result inside of a run that may use up its fuel.
abbrev pub then_run :
    {A B : Type 0} → OsshResult A → (A → Option (OsshResult B)) → Option (OsshResult B)
then_run (ok a) f = f a
then_run (err e) f = some (err e)
then_run panic f = some panic

abbrev pub run_then :
    {A B : Type 0} → Option (OsshResult A) → (A → OsshResult B) → Option (OsshResult B)
run_then none f = none
run_then (some (ok a)) f = some (f a)
run_then (some (err e)) f = some (err e)
run_then (some panic) f = some panic

module _ (dg : Digests) (md5 : dg.Digest) (re : Regexes) (backend : Backend) where
  -- The key and the decryption.
  unfoldable pub decrypt_with : Bytes → Bytes → Bytes → Bytes → Option (OsshResult Bytes)
  unfolding dek_cipher key_len openssl_kdf Crypt.decrypt try_into
  decrypt_with contents passphrase algo iv = then_run (dek_cipher algo) (λ ciph.
      then_run (try_into 8 iv) (λ salt.
        run_then (openssl_kdf dg passphrase salt (key_len ciph) 1 md5)
          (λ key. Crypt.decrypt backend ciph contents key iv)))

  -- What the header `DEK-Info` leads to, with its two groups.
  unfoldable pub decrypt_dek :
      PemBlock → Option Bytes → Option (Bytes × Bytes) → Option (OsshResult Bytes)
  unfolding decrypt_with
  decrypt_dek pemblock passphrase none = some (fail invalid_pem_format)
  decrypt_dek pemblock none (some p) = some (fail incorrect_pass)
  decrypt_dek pemblock (some passphrase) (some p) =
      decrypt_with pemblock.contents passphrase p.0 p.1

  abbrev pub captured : (Bytes → Option (Bytes × Bytes)) → Option Bytes → Option (Bytes × Bytes)
  captured re none = none
  captured re (some header) = re header

  -- `encrypted`, by the groups of `Proc-Type`.
  abbrev pub is_encrypted : Option (Bytes × Bytes) → Bool
  is_encrypted none = false
  is_encrypted (some p) = bytes_eq p.0 (ascii "4") && bytes_eq p.1 (ascii "ENCRYPTED")

  -- What the header `Proc-Type` leads to.
  unfoldable pub decrypt_proc : PemBlock → Option Bytes → Option Bytes → Option (OsshResult Bytes)
  unfolding decrypt_dek bytes_eq
  decrypt_proc pemblock passphrase none = some (ok pemblock.contents)
  decrypt_proc pemblock passphrase (some header) =
      if not (is_encrypted (re.proc_type header))
      then some (fail unsupport_type)
      else decrypt_dek pemblock passphrase
          (captured re.dek_info (pemblock.header (ascii "DEK-Info")))

  unfoldable pub pem_decrypt : PemBlock → Option Bytes → Option (OsshResult Bytes)
  unfolding decrypt_proc
  pem_decrypt pemblock passphrase =
      decrypt_proc pemblock passphrase (pemblock.header (ascii "Proc-Type"))

  vector_size : (c : Cipher) (iv : Bytes) → length iv ≡ 2 * iv_len c → (length iv == 8) ≡ false
  unfolding iv_len
  vector_size aes128_cbc iv h = ground arith
  vector_size aes192_cbc iv h = ground arith
  vector_size aes256_cbc iv h = ground arith
  vector_size aes128_ctr iv h = ground arith
  vector_size aes192_ctr iv h = ground arith
  vector_size aes256_ctr iv h = ground arith
  vector_size tdes_cbc iv h = ground arith
  vector_size null iv h = ground arith

  -- The hexadecimal digits of the initialisation vector are never decoded: the 8 bytes of the salt are
  -- asked of the digits themselves. So no text that is encrypted as OpenSSL does it is decrypted: with
  -- two digits for each byte of the vector, `pem_decrypt` fails with InvalidLength, for each cipher
  -- that it accepts, whatever the passphrase and the contents.
  pub pem_decrypt_fails :
      (pemblock : PemBlock) (passphrase proc dek algo iv : Bytes) (c : Cipher)
      → pemblock.header (ascii "Proc-Type") ≡ some proc
      → re.proc_type proc ≡ some (ascii "4", ascii "ENCRYPTED")
      → pemblock.header (ascii "DEK-Info") ≡ some dek
      → re.dek_info dek ≡ some (algo, iv)
      → dek_cipher algo ≡ ok c
      → length iv ≡ 2 * iv_len c
      → pem_decrypt pemblock (some passphrase) ≡ some (err from_slice_length)
  unfolding pem_decrypt bytes_eq
  pem_decrypt_fails pemblock passphrase proc dek algo iv c hp encrypted hd found is size =
      let odd = vector_size c iv size in rw (hp, encrypted, hd, found, is, odd) refl
