-- ===== src/Format/Privkey/Cloning.antt =====
-- src/keys/mod.rs: what `KeyPair::clone_public_key` keeps of a key pair.
use rust_osshkeys.Prelude.{subst, ◌≡◌, refl, ok, and_then-eq-ok, map_err-eq-ok}
use rust_osshkeys.Error.{from_openssl}
use rust_osshkeys.External.KeyTypes.{KeyLib}
use rust_osshkeys.Keys.Rsa
use rust_osshkeys.Keys.Rsa.{RsaKeyPair, RsaPublicKey}
use rust_osshkeys.Keys.Dsa
use rust_osshkeys.Keys.Dsa.{DsaKeyPair, DsaPublicKey}
use rust_osshkeys.Keys.Ecdsa
use rust_osshkeys.Keys.Ecdsa.{EcDsaKeyPair, EcDsaPublicKey, nid}
use rust_osshkeys.Keys.Ed25519
use rust_osshkeys.Keys.Container.{
  PublicKeyType, KeyPairType, PublicKey, KeyPair, public_keyname, pair_keyname, clone_key,
  clone_public_key,
}
use rust_osshkeys.Format.Pubkey.Encode.{public_blob, pair_blob}

module _ (lib : KeyLib) where
  -- An ECDSA key lies in the group of its curve.
  abbrev pub InGroup : KeyPairType lib → Type 0
  InGroup (KeyPairType.ecdsa k) =
      lib.ec.from_curve_name (nid k.curve) ≡ ok (lib.ec.private_group k.key)
  InGroup _ = Unit

  -- The public key has the name and the blob of the key pair.
  abbrev pub Matches : PublicKeyType lib → KeyPairType lib → Type 0
  Matches p k = (public_keyname lib p ≡ pair_keyname lib k) × (public_blob lib p ≡ pair_blob lib k)

  Matches-rsa :
      (k : RsaKeyPair lib) (p : RsaPublicKey lib)
      → Rsa.clone_public_key lib k ≡ ok p
      → Matches (PublicKeyType.rsa p) (KeyPairType.rsa k)
  unfolding Rsa.clone_public_key Rsa.new_with_signhash public_keyname pair_keyname public_blob
      pair_blob
  Matches-rsa k p e =
      let (r, made, done) = and_then-eq-ok _ _ e in
      let (hn, he) = lib.rsa.public_made _ _ r (map_err-eq-ok from_openssl _ made) in
      let built : RsaPublicKey lib = record { rsa = r; signhash = k.signhash } in
      let same : built ≡ p = cc in
      subst (λ x. Matches (PublicKeyType.rsa x) (KeyPairType.rsa k)) same (refl, rw (hn, he) refl)

  Matches-dsa :
      (k : DsaKeyPair lib) (p : DsaPublicKey lib)
      → Dsa.clone_public_key lib k ≡ ok p
      → Matches (PublicKeyType.dsa p) (KeyPairType.dsa k)
  unfolding Dsa.clone_public_key Dsa.new public_keyname pair_keyname public_blob pair_blob
  Matches-dsa k p e =
      let (r, made, done) = and_then-eq-ok _ _ e in
      let (hp, hq, hg, hy) = lib.dsa.public_made _ _ _ _ r (map_err-eq-ok from_openssl _ made) in
      let built : DsaPublicKey lib = record { dsa = r } in
      let same : built ≡ p = cc in
      subst (λ x. Matches (PublicKeyType.dsa x) (KeyPairType.dsa k)) same
        (refl, rw (hp, hq, hg, hy) refl)

  Matches-ecdsa :
      (k : EcDsaKeyPair lib) (p : EcDsaPublicKey lib)
      → InGroup (KeyPairType.ecdsa k)
      → Ecdsa.clone_public_key lib k ≡ ok p
      → Matches (PublicKeyType.ecdsa p) (KeyPairType.ecdsa k)
  unfolding Ecdsa.clone_public_key Ecdsa.public_new Ecdsa.group_of public_keyname pair_keyname
      public_blob pair_blob
  Matches-ecdsa k p h e =
      let (r, made, done) = and_then-eq-ok _ _ (rw h at e) in
      let (hg, hp) =
        lib.ec.public_made (lib.ec.private_group k.key) (lib.ec.private_public_key k.key) r
          (map_err-eq-ok from_openssl _ made) in
      let built : EcDsaPublicKey lib = record { key = r; curve = k.curve } in
      let same : built ≡ p = cc in
      subst (λ x. Matches (PublicKeyType.ecdsa x) (KeyPairType.ecdsa k)) same
        (refl, rw (hg, hp) refl)

  Matches-key :
      (k : KeyPairType lib) (p : PublicKeyType lib)
      → InGroup k
      → clone_key lib k ≡ ok p
      → Matches p k
  unfolding clone_key Ed25519.clone_public_key public_keyname pair_keyname public_blob pair_blob
  Matches-key (KeyPairType.rsa k) p h e =
      let (q, made, done) = and_then-eq-ok _ _ e in
      let same : PublicKeyType.rsa q ≡ p = cc in
      subst (λ x. Matches x (KeyPairType.rsa k)) same (Matches-rsa k q made)
  Matches-key (KeyPairType.dsa k) p h e =
      let (q, made, done) = and_then-eq-ok _ _ e in
      let same : PublicKeyType.dsa q ≡ p = cc in
      subst (λ x. Matches x (KeyPairType.dsa k)) same (Matches-dsa k q made)
  Matches-key (KeyPairType.ecdsa k) p h e =
      let (q, made, done) = and_then-eq-ok _ _ e in
      let same : PublicKeyType.ecdsa q ≡ p = cc in
      subst (λ x. Matches x (KeyPairType.ecdsa k)) same (Matches-ecdsa k q h made)
  Matches-key (KeyPairType.ed25519 k) p h e =
      let built : PublicKeyType lib =
        PublicKeyType.ed25519 (record { key = lib.ed.verifying_key k.key }) in
      let same : built ≡ p = cc in subst (λ x. Matches x (KeyPairType.ed25519 k)) same (refl, refl)

  -- The public key that is cloned from a key pair has the name, the blob and the comment of the pair.
  -- For an ECDSA pair this is if it lies in the group of its curve.
  pub clone_public_key-Matches :
      (k : KeyPair lib) (p : PublicKey lib)
      → InGroup k.key
      → clone_public_key lib k ≡ ok p
      → (public_keyname lib p.key ≡ pair_keyname lib k.key)
        × (public_blob lib p.key ≡ pair_blob lib k.key)
        × (p.comment ≡ k.comment)
  unfolding clone_public_key
  clone_public_key-Matches k p h e =
      let (q, made, done) = and_then-eq-ok _ _ e in
      let built : PublicKey lib = record { key = q; comment = k.comment } in
      let same : built ≡ p = cc in
      let (named, blob) = Matches-key k.key q h made in
      subst
        (λ x.
          (public_keyname lib x.key ≡ pair_keyname lib k.key)
          × (public_blob lib x.key ≡ pair_blob lib k.key)
          × (x.comment ≡ k.comment))
        same (named, blob, refl)
