-- ===== src/Tests/KdfExamples.antt =====
-- The theorems on signatures and on the key derivation of PEM texts at concrete inputs.
use rust_osshkeys.Prelude.{
  ◌≡◌, ◌≤◌, ◌<◌, ◌⊎◌, refl, arith, Bytes, [], ◌∷◌, ◌++◌, ascii, length, take, replicate, bytes_eq,
  true, Option, some, ok, err,
}
use rust_osshkeys.Error.{from_slice_length, fail, invalid_key_size}
use rust_osshkeys.External.Digests.{Digests}
use rust_osshkeys.External.Regexes.{Regexes}
use rust_osshkeys.External.Pems.{PemBlock}
use rust_osshkeys.Cipher.Table.{aes128_cbc, iv_len}
use rust_osshkeys.Cipher.Backend.{openssl_cipher}
use rust_osshkeys.Keys.Rsa
use rust_osshkeys.Keys.Rsa.{sha2_512}
use rust_osshkeys.Keys.Container.{
  KeyPairType, PublicKeyType, clone_key, KeyPair, KeyType, Seeds, generate,
}
use rust_osshkeys.Keys.Sign.{pair_sign, public_verify, pair_verify, rsa_sign, sign_pkey, get_digest}
use rust_osshkeys.Keys.SignRoundTrip.{verify-sign}
use rust_osshkeys.Format.Kdf.{openssl_kdf, max_key_len}
use rust_osshkeys.Format.KdfReference.{evp_blocks, openssl_kdf_lem, openssl_kdf_total}
use rust_osshkeys.Format.PemDecrypt.{pem_decrypt, pem_decrypt_fails, dek_cipher}
use rust_osshkeys.Tests.KeyObjects.{generate_rsa, key_objects, make_public}
use rust_osshkeys.Tests.PemObjects.{pkeys}
use rust_osshkeys.Tests.PemTexts.{the_rsa, rsa_n}
use rust_osshkeys.Keys.GeneratedPair.{generate-IsPair}
use rust_osshkeys.Tests.SignObjects.{signers}
use rust_osshkeys.Tests.Ciphers.{crypters}

-- The hash of a text is its size. A digest is what it was fed with.
abbrev sizes : Digests
sizes = record {
  Digest = Bytes;
  reset = λ d. [];
  update = λ d b. d ++ b;
  finalize_reset = λ d. (length d ∷ [], []);
  fed = λ d. d;
  hash = λ b. length b ∷ [];
  fed-reset = λ d. refl;
  fed-update = λ d b. refl;
  hashed = λ d. refl;
  emptied = λ d. refl;
  length-hash = λ b. omega arith;
}

openssl_kdf_lem_example :
    ((3 ≤ max_key_len)
      × (openssl_kdf sizes (ascii "pw") (replicate 8 1) 3 2 []
          ≡ some (ok (take 3 (evp_blocks sizes (ascii "pw") (replicate 8 1) 2 3 [])))))
    ⊎ ((max_key_len < 3)
        × (openssl_kdf sizes (ascii "pw") (replicate 8 1) 3 2 [] ≡ some (fail invalid_key_size)))
openssl_kdf_lem_example = openssl_kdf_lem sizes (ascii "pw") (replicate 8 1) 3 2 []

openssl_kdf_total_example :
    (key : Bytes) × (openssl_kdf sizes (ascii "pw") (replicate 8 1) 24 1 [] ≡ some (ok key))
    × (length key ≡ 24)
openssl_kdf_total_example =
    openssl_kdf_total sizes (ascii "pw") (replicate 8 1) 24 1 [] (omega arith)

abbrev sample_dek : Bytes → Option (Bytes × Bytes)
sample_dek h = some (ascii "AES-128-CBC", replicate 32 48)

abbrev regexes : Regexes
regexes = record { proc_type = λ h. some (ascii "4", ascii "ENCRYPTED"); dek_info = sample_dek }

abbrev encrypted_block : PemBlock
encrypted_block = record { tag = ascii "RSA PRIVATE KEY"; contents = []; header = λ h. some [] }

dek_aes : dek_cipher (ascii "AES-128-CBC") ≡ ok aes128_cbc
unfolding dek_cipher bytes_eq
dek_aes = refl

pem_decrypt_fails_example :
    pem_decrypt sizes [] regexes (openssl_cipher crypters) encrypted_block (some (ascii "pw"))
    ≡ some (err from_slice_length)
pem_decrypt_fails_example =
    pem_decrypt_fails sizes [] regexes (openssl_cipher crypters) encrypted_block (ascii "pw") [] []
      (ascii "AES-128-CBC") (replicate 32 48) aes128_cbc refl refl refl refl dek_aes
      (unfold iv_len in refl)

abbrev rsa_pair : KeyPairType key_objects
rsa_pair = KeyPairType.rsa (record { rsa = the_rsa; signhash = sha2_512 })

abbrev rsa_public : PublicKeyType key_objects
rsa_public = PublicKeyType.rsa (record { rsa = make_public rsa_n (3 ∷ []); signhash = sha2_512 })

abbrev rsa_signature : Bytes
rsa_signature = 3 ∷ ((rsa_n ++ (3 ∷ [])) ++ ascii "data")

rsa_cloned : clone_key key_objects rsa_pair ≡ ok rsa_public
unfolding clone_key Rsa.clone_public_key Rsa.new_with_signhash
rsa_cloned = refl

rsa_signed : pair_sign key_objects pkeys signers rsa_pair (ascii "data") ≡ ok rsa_signature
unfolding pair_sign rsa_sign sign_pkey get_digest Rsa.pair_size
rsa_signed = refl

abbrev rsa_generated : KeyPair key_objects
rsa_generated = record { key = rsa_pair; comment = [] }

abbrev rsa_seeds : Seeds key_objects
rsa_seeds = record {
  rsa_seed = the_rsa;
  dsa_seed = record { p = []; q = []; g = []; priv_key = []; pub_key = [] };
  ec_seed = ([], []);
  ed_seed = true;
}

generate_rsa_pair : generate key_objects rsa_seeds KeyType.rsa 1024 ≡ ok rsa_generated
unfolding generate Rsa.generate generate_rsa
generate_rsa_pair = refl

verify-sign_example :
    (public_verify key_objects pkeys signers rsa_public (ascii "data") rsa_signature ≡ ok true)
    × (pair_verify key_objects pkeys signers rsa_pair (ascii "data") rsa_signature ≡ ok true)
verify-sign_example =
    verify-sign key_objects pkeys signers (ascii "data") rsa_signature rsa_pair rsa_public
      (generate-IsPair key_objects pkeys signers rsa_seeds 1024 KeyType.rsa rsa_generated
        generate_rsa_pair)
      rsa_cloned rsa_signed
