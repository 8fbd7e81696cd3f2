-- ===== src/Tests/Services.antt =====
-- Small versions of `cryptovec`, `base64`, `openssl::symm`, `bcrypt_pbkdf` and `byteorder`.
use rust_osshkeys.Prelude.{
  ℕ, zero, suc, ◌+◌, ◌-◌, ◌≤◌, ◌<◌, ◌≡◌, ◌≢◌, refl, ap, ◌∙◌, arith, Bytes, [], ◌∷◌, ◌++◌, All,
  length, min, take, drop, replicate, length-drop, append-nil, ok, ◌==◌, true, false,
}
use rust_osshkeys.External.CryptoVecs.{CryptoVecs}
use rust_osshkeys.External.Base64s.{Base64s}
use rust_osshkeys.Cipher.Backend.{openssl_cipher}
use rust_osshkeys.Tests.Ciphers.{crypters, kdfs}
use rust_osshkeys.External.OsshLib.{ByteOrders, OsshLib}
use rust_osshkeys.Tests.KeyObjects.{key_objects}

-- A vector is its bytes; `resize` cuts them off or fills up with zeros.
abbrev pub resized : Bytes → ℕ → Bytes
resized v n = take n v ++ replicate (n - length v) 0

pub resized_new : (n : ℕ) → resized [] n ≡ replicate n 0
resized_new zero = refl
resized_new (suc n) = ap (λ k. replicate k 0) {y = suc n} (omega arith)

pub resized_le : (v : Bytes) (n : ℕ) → n ≤ length v → resized v n ≡ take n v
resized_le v n h =
    let none_added : n - length v ≡ 0 = omega arith in rw none_added (append-nil (take n v))

abbrev pub vectors : CryptoVecs
vectors = record {
  CryptoVec = Bytes;
  as_slice = λ v. v;
  new = [];
  from_slice = λ b. b;
  extend = λ v b. v ++ b;
  resize = resized;
  set_slice = λ v b. b;
  write_all_from = λ v offset room. ok (take (min room (length (drop offset v))) (drop offset v));
  as_slice-new = refl;
  as_slice-from_slice = λ b. refl;
  as_slice-extend = λ v b. refl;
  as_slice-resize_new = resized_new;
  as_slice-resize_le = resized_le;
  as_slice-set_slice = λ v b h. refl;
  write_all_from_lem = λ v offset room h k. (
    min room (length (drop offset v)),
    omega (arith, length-drop offset v),
    omega arith,
    omega arith,
    refl,
  );
}

-- Each byte in unary, ended by a `B`.
abbrev pub unary : ℕ → Bytes → Bytes
unary zero rest = 66 ∷ rest
unary (suc n) rest = 65 ∷ unary n rest

abbrev pub spell : Bytes → Bytes
spell [] = []
spell (b ∷ bs) = unary b (spell bs)

abbrev pub unspell : ℕ → Bytes → Bytes
unspell n [] = []
unspell n (c ∷ cs) = elim (c == 65) [ true ↦ unspell (suc n) cs | false ↦ n ∷ unspell 0 cs ]

pub unspell-unary : (m n : ℕ) (rest : Bytes) → unspell m (unary n rest) ≡ (m + n) ∷ unspell 0 rest
unspell-unary m zero rest = ap (λ k. k ∷ unspell 0 rest) (omega arith)
unspell-unary m (suc n) rest =
    unspell-unary (suc m) n rest ∙ ap (λ k. k ∷ unspell 0 rest) (omega arith)

pub unspell-spell : (b : Bytes) → unspell 0 (spell b) ≡ b
unspell-spell [] = refl
unspell-spell (b ∷ bs) =
    unspell-unary 0 b (spell bs)
    ∙ ap (λ k. k ∷ unspell 0 (spell bs)) (omega arith)
    ∙ ap (◌∷◌ b) (unspell-spell bs)

unary_printable :
    (n : ℕ) (rest : Bytes)
    → All (λ c. (32 < c) × (c < 127)) rest
    → All (λ c. (32 < c) × (c < 127)) (unary n rest)
unary_printable zero rest h = ((omega arith, omega arith), h)
unary_printable (suc n) rest h = ((omega arith, omega arith), unary_printable n rest h)

pub spell_printable : (b : Bytes) → All (λ c. (32 < c) × (c < 127)) (spell b)
spell_printable [] = tt
spell_printable (b ∷ bs) = unary_printable b (spell bs) (spell_printable bs)

unary-ne-nil : (n : ℕ) (rest : Bytes) → unary n rest ≢ []
unary-ne-nil zero rest h = cc
unary-ne-nil (suc n) rest h = cc

pub spell-ne-nil : (b : Bytes) → b ≢ [] → spell b ≢ []
spell-ne-nil [] h = absurd (h refl)
spell-ne-nil (b ∷ bs) h = unary-ne-nil b (spell bs)

abbrev pub spelling : Base64s
spelling = record {
  encode = spell;
  decode = λ b. ok (unspell 0 b);
  decode-encode = λ b. ap ok (unspell-spell b);
  encode_printable = spell_printable;
  encode-ne-nil = spell-ne-nil;
}

abbrev pub byte_orders : ByteOrders
byte_orders = record { write_u8 = λ W wr b. wr.write_all (b ∷ []); write_u8_lem = λ W wr b. refl }

abbrev pub services : OsshLib
services = record {
  keys = key_objects;
  cv = vectors;
  cipher = openssl_cipher crypters;
  kdf = kdfs;
  bo = byte_orders;
}
