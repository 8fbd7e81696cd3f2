-- ===== src/Keys/Generation.antt =====
-- src/keys/mod.rs: `KeyPair::generate`, the sizes that it takes and the keys that it makes.
use rust_osshkeys.Prelude.{
  ◌∙◌, subst, not, and_then, and_then-eq-ok, map_err-eq-ok, ℕ, ◌≡◌, refl, sym, ap, arith, [], ok,
  Bool, true, false, ◌||◌, ◌&&◌, ◌==◌, leb, if◌then◌else◌,
}
use rust_osshkeys.Error.{OsshResult, fail, from_openssl, on_unit, invalid_key_size}
use rust_osshkeys.External.KeyTypes.{KeyLib}
use rust_osshkeys.Keys.Rsa
use rust_osshkeys.Keys.Dsa
use rust_osshkeys.Keys.Ecdsa
use rust_osshkeys.Keys.Ed25519
use rust_osshkeys.Keys.Ecdsa.{EcCurve, curve_size, nid}
use rust_osshkeys.Keys.Container.{
  pair_from, KeyPairType, KeyType, KeyPair, Seeds, generate, pair_keytype, pair_size,
}

-- The sizes that the documentation names; zero stands for the default.
abbrev pub is_key_size : KeyType → ℕ → Bool
is_key_size KeyType.rsa bits = bits == 0 || leb 1024 bits && leb bits 16384
is_key_size KeyType.dsa bits = bits == 0 || bits == 1024
is_key_size KeyType.ecdsa bits = bits == 0 || bits == 256 || bits == 384 || bits == 521
is_key_size KeyType.ed25519 bits = bits == 0 || bits == 256

-- The size that zero stands for.
abbrev default_size : KeyType → ℕ
default_size KeyType.rsa = 2048
default_size KeyType.dsa = 1024
default_size KeyType.ecdsa = 256
default_size KeyType.ed25519 = 256

abbrev pub requested_size : ℕ → KeyType → ℕ
requested_size bits t = if bits == 0 then default_size t else bits

guard-eq-ok :
    {A : Type 0} (b : Bool) (m : OsshResult A) {a : A}
    → (if b then m else fail invalid_key_size) ≡ ok a
    → m ≡ ok a
guard-eq-ok true m h = h
guard-eq-ok false m h = cc

unless-eq-ok :
    {A : Type 0} (b : Bool) (m : OsshResult A) {a : A}
    → (if b then fail invalid_key_size else m) ≡ ok a
    → m ≡ ok a
unless-eq-ok true m h = cc
unless-eq-ok false m h = h

module _ (lib : KeyLib) (s : Seeds lib) (bits : ℕ) where
  -- A size that the key type does not have is refused with InvalidKeySize: other than 0 and 1024 to
  -- 16384 for RSA, 0 and 1024 for DSA, 0, 256, 384 and 521 for ECDSA, 0 and 256 for Ed25519.
  pub generate_refuses :
      (t : KeyType) → is_key_size t bits ≡ false → generate lib s t bits ≡ fail invalid_key_size
  unfolding generate Rsa.generate Dsa.generate Ecdsa.generate Ecdsa.curve_of_size Ed25519.generate
  generate_refuses KeyType.rsa h = ground arith
  generate_refuses KeyType.dsa h = ground arith
  generate_refuses KeyType.ecdsa h = ground arith
  generate_refuses KeyType.ed25519 h = ground arith

  -- What holds of a container of the key that a call made.
  pub made_of :
      {A : Type 0} (P : KeyPair lib → Type 0) (m : OsshResult A) (f : A → KeyPairType lib)
      (k : KeyPair lib)
      → ((a : A) → m ≡ ok a → P (pair_from lib (f a)))
      → and_then m (λ a. ok (pair_from lib (f a))) ≡ ok k
      → P k
  made_of P m f k h e =
      let (a, made, done) = and_then-eq-ok m _ e in
      let same : pair_from lib (f a) ≡ k = cc in subst P same (h a made)

  -- The call of OpenSSL in `generate`.
  pub rsa_made :
      (k : Rsa.RsaKeyPair lib)
      → Rsa.generate lib s.rsa_seed bits ≡ ok k
      → lib.rsa.generate s.rsa_seed (requested_size bits KeyType.rsa) ≡ ok k.rsa
  unfolding Rsa.generate
  rsa_made k h =
      let size = requested_size bits KeyType.rsa in
      let passed = guard-eq-ok (leb 1024 size && leb size 16384) _ h in
      let (key, made, done) =
        and_then-eq-ok (on_unit from_openssl (lib.rsa.generate s.rsa_seed size)) _ passed in
      let built : Rsa.RsaKeyPair lib = record { rsa = key; signhash = Rsa.default_signature } in
      let same : built ≡ k = cc in map_err-eq-ok from_openssl _ made ∙ ap (λ x. ok x.rsa) same

  pub dsa_made :
      (k : Dsa.DsaKeyPair lib)
      → Dsa.generate lib s.dsa_seed bits ≡ ok k
      → lib.dsa.generate s.dsa_seed (requested_size bits KeyType.dsa) ≡ ok k.dsa
  unfolding Dsa.generate
  dsa_made k h =
      let size = requested_size bits KeyType.dsa in
      let passed = unless-eq-ok (not (size == 1024)) _ h in
      let (key, made, done) =
        and_then-eq-ok (on_unit from_openssl (lib.dsa.generate s.dsa_seed size)) _ passed in
      let built : Dsa.DsaKeyPair lib = record { dsa = key } in
      let same : built ≡ k = cc in map_err-eq-ok from_openssl _ made ∙ ap (λ x. ok x.dsa) same

  curve_of_size-eq-ok :
      (size : ℕ) (c : EcCurve) → Ecdsa.curve_of_size lib size ≡ ok c → curve_size c ≡ size
  unfolding Ecdsa.curve_of_size curve_size
  curve_of_size-eq-ok size EcCurve.nistp256 h = ground arith
  curve_of_size-eq-ok size EcCurve.nistp384 h = ground arith
  curve_of_size-eq-ok size EcCurve.nistp521 h = ground arith

  -- The curve has the size, and the call of OpenSSL is in its group.
  pub ecdsa_made :
      (k : Ecdsa.EcDsaKeyPair lib)
      → Ecdsa.generate lib s.ec_seed bits ≡ ok k
      → (g : lib.ec.Group) × (curve_size k.curve ≡ requested_size bits KeyType.ecdsa)
        × (lib.ec.from_curve_name (nid k.curve) ≡ ok g)
        × (lib.ec.generate s.ec_seed g ≡ ok k.key)
  unfolding Ecdsa.generate Ecdsa.group_of
  ecdsa_made k h =
      let (curve, sized, h1) =
        and_then-eq-ok (Ecdsa.curve_of_size lib (requested_size bits KeyType.ecdsa)) _ h in
      let (group, grouped, h2) = and_then-eq-ok (Ecdsa.group_of lib curve) _ h1 in
      let (key, made, h3) =
        and_then-eq-ok (on_unit from_openssl (lib.ec.generate s.ec_seed group)) _ h2 in
      let built : Ecdsa.EcDsaKeyPair lib = record { key = key; curve = curve } in
      let same : built ≡ k = cc in
      (
        group,
        ap (λ x. curve_size x.curve) (sym same) ∙ curve_of_size-eq-ok _ curve sized,
        ap (λ x. lib.ec.from_curve_name (nid x.curve)) (sym same)
            ∙ map_err-eq-ok from_openssl _ grouped,
        map_err-eq-ok from_openssl _ made ∙ ap (λ x. ok x.key) same,
      )

  ed25519_size :
      (k : Ed25519.Ed25519KeyPair lib)
      → Ed25519.generate lib s.ed_seed bits ≡ ok k
      → 256 ≡ requested_size bits KeyType.ed25519
  unfolding Ed25519.generate
  ed25519_size k h = ground arith

  abbrev IsMade : KeyType → KeyPair lib → Type 0
  IsMade t k =
      (pair_size lib k.key ≡ requested_size bits t)
      × (pair_keytype lib k.key ≡ t)
      × (k.comment ≡ [])

  -- A key that is generated has the size that was asked for, or the default size of its type if
  -- that was zero: 2048 bits for RSA, 1024 for DSA, 256 for ECDSA and Ed25519. It is of the type
  -- asked for, and has no comment.
  pub generate_size :
      (t : KeyType) (k : KeyPair lib)
      → generate lib s t bits ≡ ok k
      → (pair_size lib k.key ≡ requested_size bits t)
        × (pair_keytype lib k.key ≡ t)
        × (k.comment ≡ [])
  unfolding generate pair_size pair_keytype Rsa.pair_size Dsa.pair_size
  generate_size KeyType.rsa k h =
      made_of (IsMade KeyType.rsa) (Rsa.generate lib s.rsa_seed bits) KeyPairType.rsa k
        (λ a e. (lib.rsa.generate_bits s.rsa_seed _ a.rsa (rsa_made a e), refl, refl)) h
  generate_size KeyType.dsa k h =
      made_of (IsMade KeyType.dsa) (Dsa.generate lib s.dsa_seed bits) KeyPairType.dsa k
        (λ a e. (lib.dsa.generate_bits s.dsa_seed _ a.dsa (dsa_made a e), refl, refl)) h
  generate_size KeyType.ecdsa k h =
      made_of (IsMade KeyType.ecdsa) (Ecdsa.generate lib s.ec_seed bits) KeyPairType.ecdsa k
        (λ a e. let (_, sized, _, _) = ecdsa_made a e in (sized, refl, refl)) h
  generate_size KeyType.ed25519 k h =
      made_of (IsMade KeyType.ed25519) (Ed25519.generate lib s.ed_seed bits) KeyPairType.ed25519 k
        (λ a e. (ed25519_size a e, refl, refl)) h
