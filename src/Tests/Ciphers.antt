-- ===== src/Tests/Ciphers.antt =====
-- Small versions of `openssl::symm`, RustCrypto's block modes and `bcrypt_pbkdf`. In CBC mode the
-- text is only padded, in front; in CTR mode it is copied.
use rust_osshkeys.Prelude.{
  ℕ, ◌+◌, ◌-◌, ◌≤◌, ◌<◌, ◌%◌, ◌≡◌, refl, sym, ap, ◌∙◌, arith, Bytes, [], ◌∷◌, ◌++◌, length, take,
  drop, replicate, length-replicate, length-append, append-nil, take-append_left, drop-append_left,
  Outcome, ok, err, leb, if◌then◌else◌,
}
use rust_osshkeys.Error.{BcryptError}
use rust_osshkeys.External.Crypters.{
  Kdfs, Crypters, Runs, SymmCipher, Mode, encrypt, decrypt, symm_block, aes_128_cbc, aes_192_cbc,
  aes_256_cbc, des_ede3_cbc, aes_128_ctr, aes_192_ctr, aes_256_ctr,
}
use rust_osshkeys.External.BlockModes.{
  BlockModes, BlockCipher, aes128, aes192, aes256, tdes_ede3, cipher_block, padded_len,
}
use rust_osshkeys.Cipher.Backend.{openssl_cipher, rustcrypto_cipher}
use rust_osshkeys.Cipher.RoundTrip.{Agree}

abbrev pub Failable : Type 0 → Type 0
Failable A = Outcome Unit A

-- The number of bytes that are added, these bytes, and the text.
abbrev pub padding : ℕ → ℕ → ℕ
padding block len = block - len % block

abbrev pub padded : ℕ → Bytes → Bytes
padded block src = let n = padding block (length src) in n ∷ (replicate (n - 1) 0 ++ src)

abbrev pub unpadded : Bytes → Bytes
unpadded [] = []
unpadded (n ∷ b) = drop (n - 1) b

length-padded_lem :
    (block : ℕ) (src : Bytes)
    → length src % block < block
    → length (padded block src) ≡ padded_len (length src) block
length-padded_lem block src h =
    let n = padding block (length src) in
    omega (arith, length-append (replicate (n - 1) 0) src, length-replicate {A = ℕ} (n - 1) 0)

pub unpadded-padded : (block : ℕ) (src : Bytes) → unpadded (padded block src) ≡ src
unpadded-padded block src =
    let n = padding block (length src) in
    ap (λ k. drop k (replicate (n - 1) 0 ++ src)) (sym (length-replicate {A = ℕ} (n - 1) 0))
    ∙ drop-append_left (replicate (n - 1) 0) src

abbrev pub block_padded : BlockCipher → Bytes → Bytes
block_padded c src = padded (cipher_block c) src

pub length-block_padded :
    (c : BlockCipher) (src : Bytes)
    → length (block_padded c src) ≡ padded_len (length src) (cipher_block c)
length-block_padded aes128 src = length-padded_lem 16 src (omega arith)
length-block_padded aes192 src = length-padded_lem 16 src (omega arith)
length-block_padded aes256 src = length-padded_lem 16 src (omega arith)
length-block_padded tdes_ede3 src = length-padded_lem 8 src (omega arith)

-- A slice without enough room is refused.
abbrev pub put : {A : Type 0} → A → Bytes → ℕ → Failable A
put a written room = if leb (length written) room then ok a else err tt

pub put_lem :
    {A : Type 0} (a : A) (written : Bytes) (room : ℕ)
    → length written ≤ room
    → put a written room ≡ ok a
put_lem a written room h = ground arith

-- The text, and zeros up to the size of the ciphertext.
abbrev pub opened : Bytes → Bytes
opened b = unpadded b ++ replicate (length b - length (unpadded b)) 0

pub length-opened :
    (c : BlockCipher) (src : Bytes)
    → length (opened (block_padded c src)) ≡ length (block_padded c src)
length-opened c src =
    let b = block_padded c src in
    let text : unpadded b ≡ src = unpadded-padded (cipher_block c) src in
    omega (
      arith,
      ap length text,
      length-append (unpadded b) (replicate (length b - length (unpadded b)) 0),
      length-replicate {A = ℕ} (length b - length (unpadded b)) 0,
      length-block_padded c src,
    )

pub take-opened :
    (c : BlockCipher) (src : Bytes) → take (length src) (opened (block_padded c src)) ≡ src
take-opened c src =
    let b = block_padded c src in rw (unpadded-padded (cipher_block c) src) (take-append_left src _)

abbrev pub block_modes : BlockModes
block_modes = record {
  Encryptor = BlockCipher;
  Decryptor = BlockCipher;
  Stream = BlockCipher;
  new_encryptor = λ c key iv. ok c;
  new_decryptor = λ c key iv. ok c;
  new_stream = λ c key iv. ok c;
  encrypt_padded_b2b_mut = λ c src room. put (block_padded c src) (block_padded c src) room;
  decrypt_padded_b2b_mut = λ c src room. put (length (unpadded src), opened src) src room;
  apply_keystream_b2b = λ c src. ok src;
  cbc_encrypted = λ c key iv src. block_padded c src;
  ctr_applied = λ c key iv src. src;
  length-cbc_encrypted = λ c key iv src. length-block_padded c src;
  length-ctr_applied = λ c key iv src. refl;
  cbc_encrypts = λ c key iv src room hk hi h.
      (c, refl, put_lem _ (block_padded c src) room (omega (arith, length-block_padded c src, h)));
  cbc_decrypts = λ c key iv src room hk hi h. (
    c,
    opened (block_padded c src),
    refl,
    put_lem _ (block_padded c src) room h
        ∙ ap (λ b. ok (length b, opened (block_padded c src)))
            (unpadded-padded (cipher_block c) src),
    take-opened c src,
    length-opened c src,
  );
  ctr_applies = λ c key iv src hk hi. (c, refl, refl, refl);
}

-- The same ciphertexts, for OpenSSL.
abbrev pub sealed : SymmCipher → Bytes → Bytes
sealed aes_128_cbc = padded 16
sealed aes_192_cbc = padded 16
sealed aes_256_cbc = padded 16
sealed des_ede3_cbc = padded 8
sealed _ = λ b. b

abbrev pub unsealed : SymmCipher → Bytes → Bytes
unsealed aes_128_cbc = unpadded
unsealed aes_192_cbc = unpadded
unsealed aes_256_cbc = unpadded
unsealed des_ede3_cbc = unpadded
unsealed _ = λ b. b

pub unsealed-sealed : (c : SymmCipher) (src : Bytes) → unsealed c (sealed c src) ≡ src
unsealed-sealed aes_128_cbc src = unpadded-padded 16 src
unsealed-sealed aes_192_cbc src = unpadded-padded 16 src
unsealed-sealed aes_256_cbc src = unpadded-padded 16 src
unsealed-sealed des_ede3_cbc src = unpadded-padded 8 src
unsealed-sealed aes_128_ctr src = refl
unsealed-sealed aes_192_ctr src = refl
unsealed-sealed aes_256_ctr src = refl

-- A ciphertext has the bytes of the text, and a block more at most.
pub length-sealed :
    (c : SymmCipher) (src : Bytes)
    → (length src ≤ length (sealed c src)) × (length (sealed c src) ≤ length src + symm_block c)
length-sealed aes_128_cbc src = omega (arith, length-block_padded aes128 src)
length-sealed aes_192_cbc src = omega (arith, length-block_padded aes192 src)
length-sealed aes_256_cbc src = omega (arith, length-block_padded aes256 src)
length-sealed des_ede3_cbc src = omega (arith, length-block_padded tdes_ede3 src)
length-sealed aes_128_ctr src = omega arith
length-sealed aes_192_ctr src = omega arith
length-sealed aes_256_ctr src = omega arith

pub sealed_blocks :
    (c : SymmCipher) (src : Bytes)
    → length src % symm_block c ≡ 0
    → length (sealed c src) % symm_block c ≡ 0
sealed_blocks aes_128_cbc src h = omega (arith, length-block_padded aes128 src)
sealed_blocks aes_192_cbc src h = omega (arith, length-block_padded aes192 src)
sealed_blocks aes_256_cbc src h = omega (arith, length-block_padded aes256 src)
sealed_blocks des_ede3_cbc src h = omega (arith, length-block_padded tdes_ede3 src)
sealed_blocks aes_128_ctr src h = h
sealed_blocks aes_192_ctr src h = h
sealed_blocks aes_256_ctr src h = h

abbrev pub converted : Mode → SymmCipher → Bytes → Bytes
converted encrypt = sealed
converted decrypt = unsealed

abbrev pub Opened : Type 0
Opened = Mode × SymmCipher

abbrev pub update_with : Opened → Bytes → ℕ → Failable (Bytes × Opened)
update_with o src room = let out = converted o.0 o.1 src in put (out, o) out room

abbrev pub nothing_left : Opened → ℕ → Failable Bytes
nothing_left c room = ok []

abbrev pub opened_crypter : SymmCipher → Mode → Bytes → Bytes → Failable Opened
opened_crypter c m key iv = ok (m, c)

pub run :
    (m : Mode) (c : SymmCipher) (key iv src out : Bytes) (room : ℕ)
    → converted m c src ≡ out
    → length out ≤ room
    → Runs Opened opened_crypter update_with nothing_left c m key iv src out room
run m c key iv src out room e h = record {
  crypter = (m, c);
  updated = (m, c);
  first = out;
  last = [];
  made = refl;
  fed = rw e (put_lem (out, (m, c)) out room h);
  ended = refl;
  all = append-nil out;
  fits = h;
}

abbrev pub crypters : Crypters
crypters = record {
  Crypter = Opened;
  new = opened_crypter;
  update = update_with;
  finalize = nothing_left;
  encrypted = λ c key iv src. sealed c src;
  encrypts = λ c key iv src room hk hi h.
      let (_, most) = length-sealed c src in
      run encrypt c key iv src (sealed c src) room refl (omega (arith, most, h));
  decrypts = λ c key iv src room hk hi h.
      let (least, _) = length-sealed c src in
      run decrypt c key iv (sealed c src) src room (unsealed-sealed c src)
        (omega (arith, least, h));
  encrypted_blocks = λ c key iv src h. (sealed_blocks c src h, (length-sealed c src).0);
}

-- OpenSSL and RustCrypto encrypt alike.
pub backends-Agree : Agree (openssl_cipher crypters) (rustcrypto_cipher block_modes)
backends-Agree aes_128_cbc key iv src = refl
backends-Agree aes_192_cbc key iv src = refl
backends-Agree aes_256_cbc key iv src = refl
backends-Agree des_ede3_cbc key iv src = refl
backends-Agree aes_128_ctr key iv src = refl
backends-Agree aes_192_ctr key iv src = refl
backends-Agree aes_256_ctr key iv src = refl

-- A key of sevens.
abbrev pub derived : ℕ → Outcome BcryptError Bytes
derived n = ok (replicate n 7)

pub made_key :
    (pass salt : Bytes) (rounds n : ℕ) (key : Bytes) → derived n ≡ ok key → length key ≡ n
made_key pass salt rounds n key h =
    let same : replicate n 7 ≡ key = cc in ap length (sym same) ∙ length-replicate n 7

abbrev pub kdfs : Kdfs
kdfs = record { bcrypt_pbkdf = λ pass salt rounds n. derived n; length-bcrypt_pbkdf = made_key }
