-- ===== src/Keys/SignRoundTrip.antt =====
-- `verify` after `sign`, on the containers of src/keys/mod.rs.
use rust_osshkeys.Prelude.{
  ◌≡◌, ◌∙◌, refl, ap, subst, Bytes, Bool, true, false, ltb, if◌then◌else◌, ok, and_then-eq-ok,
  map_err-eq-ok,
}
use rust_osshkeys.Error.{OsshResult, fail, from_openssl, on_unit, invalid_key_size}
use rust_osshkeys.External.KeyTypes.{KeyLib}
use rust_osshkeys.External.PKeys.{PKeys}
use rust_osshkeys.External.Signers.{Signers, MessageDigest, Finishes}
use rust_osshkeys.Keys.Rsa
use rust_osshkeys.Keys.Rsa.{RsaPublicKey, RsaKeyPair, rsa_min_size}
use rust_osshkeys.Keys.Dsa
use rust_osshkeys.Keys.Dsa.{DsaPublicKey, DsaKeyPair}
use rust_osshkeys.Keys.Ecdsa
use rust_osshkeys.Keys.Ecdsa.{EcDsaPublicKey, EcDsaKeyPair, nid}
use rust_osshkeys.Keys.Ed25519
use rust_osshkeys.Keys.Ed25519.{Ed25519PublicKey, Ed25519KeyPair}
use rust_osshkeys.Keys.Container.{PublicKeyType, KeyPairType, clone_key}
use rust_osshkeys.Keys.Sign.{
  get_digest, sign_pkey, verify_pkey, rsa_verify, dsa_verify, ecdsa_verify, ed25519_verify,
  public_verify, pair_verify, rsa_sign, dsa_sign, ecdsa_sign, ed25519_sign, pair_sign,
}

-- A guard that let the rest run.
guard-eq-ok :
    (b : Bool) (m : OsshResult Bytes) {s : Bytes}
    → (if b then fail invalid_key_size else m) ≡ ok s
    → (b ≡ false) × (m ≡ ok s)
guard-eq-ok true m h = cc
guard-eq-ok false m h = (refl, h)

module _ (lib : KeyLib) (pk : PKeys lib) (sg : Signers lib pk) where
  abbrev Signs : MessageDigest → pk.Private → Bytes → Bytes → Type 0
  Signs md p data_ sig = Finishes sg.new_signer sg.update_signer sg.sign_to_vec md p data_ sig

  abbrev Verifies : MessageDigest → pk.Public → Bytes → Bytes → Type 0
  Verifies md o data_ sig =
      Finishes sg.new_verifier sg.update_verifier (sg.verify sig) md o data_ true

  sign_pkey-eq-ok :
      (md : MessageDigest) (key : OsshResult pk.Private) (data_ sig : Bytes)
      → sign_pkey lib pk sg md key data_ ≡ ok sig
      → (p : pk.Private) × (key ≡ ok p) × Signs md p data_ sig
  unfolding sign_pkey
  sign_pkey-eq-ok md key data_ sig h =
      let (p, has, h1) = and_then-eq-ok key _ h in
      let (s, made, h2) = and_then-eq-ok (on_unit from_openssl (sg.new_signer md p)) _ h1 in
      let (t, fed, h3) = and_then-eq-ok (on_unit from_openssl (sg.update_signer s data_)) _ h2 in
      (
        p,
        has,
        record {
          state = s;
          updated = t;
          made = map_err-eq-ok from_openssl _ made;
          fed = map_err-eq-ok from_openssl _ fed;
          finished = map_err-eq-ok from_openssl _ h3;
        },
      )

  verify_pkey_lem :
      (md : MessageDigest) (key : OsshResult pk.Public) (o : pk.Public) (data_ sig : Bytes)
      → key ≡ ok o
      → Verifies md o data_ sig
      → verify_pkey lib pk sg md key data_ sig ≡ ok true
  unfolding verify_pkey
  verify_pkey_lem md key o data_ sig has v = rw (has, v.made, v.fed, v.finished) refl

  -- The private number belongs to the public numbers, and an ECDSA key lies in the group of its
  -- curve. Ed25519 keys are made of their seed alone.
  abbrev pub IsPair : KeyPairType lib → Type 0
  IsPair (KeyPairType.rsa k) = sg.IsRsaPair k.rsa
  IsPair (KeyPairType.dsa k) = sg.IsDsaPair k.dsa
  IsPair (KeyPairType.ecdsa k) =
      sg.IsEcPair k.key × (lib.ec.from_curve_name (nid k.curve) ≡ ok (lib.ec.private_group k.key))
  IsPair (KeyPairType.ed25519 k) = Unit

  module _ (data_ sig : Bytes) where
    rsa_verify_lem :
        (r : lib.rsa.Public) (signhash : Rsa.RsaSignature) (o : pk.Public)
        → ltb (lib.bn.num_bits (lib.rsa.n r)) rsa_min_size ≡ false
        → pk.public_from_rsa r ≡ ok o
        → Verifies (get_digest signhash) o data_ sig
        → rsa_verify lib pk sg (record { rsa = r; signhash = signhash }) data_ sig ≡ ok true
    unfolding rsa_verify Rsa.public_size
    rsa_verify_lem r signhash o large put verifies = rw large (
        verify_pkey_lem (get_digest signhash) (on_unit from_openssl (pk.public_from_rsa r)) o data_
          sig (rw put refl) verifies)

    rsa_verify-rsa_sign :
        (k : RsaKeyPair lib) (q : RsaPublicKey lib)
        → sg.IsRsaPair k.rsa
        → Rsa.clone_public_key lib k ≡ ok q
        → rsa_sign lib pk sg k data_ ≡ ok sig
        → rsa_verify lib pk sg q data_ sig ≡ ok true
    unfolding rsa_sign Rsa.clone_public_key Rsa.new_with_signhash Rsa.pair_size
    rsa_verify-rsa_sign k q pair cloned signed =
        let (large, rest) =
          guard-eq-ok (ltb (lib.bn.num_bits (lib.rsa.private_n k.rsa)) rsa_min_size)
            (sign_pkey lib pk sg (get_digest k.signhash)
              (on_unit from_openssl (pk.private_from_rsa k.rsa)) data_)
            signed in
        let (p, has, signs) = sign_pkey-eq-ok (get_digest k.signhash) _ data_ sig rest in
        let (r, made, done) = and_then-eq-ok _ _ cloned in
        let (hn, he) = lib.rsa.public_made _ _ r (map_err-eq-ok from_openssl _ made) in
        let (o, put, verifies) =
          sg.rsa_verifies k.rsa r p _ data_ sig pair (map_err-eq-ok from_openssl _ has) signs hn
            he in
        let built : RsaPublicKey lib = record { rsa = r; signhash = k.signhash } in
        let same : built ≡ q = cc in
        let large2 = ap (λ n. ltb (lib.bn.num_bits n) rsa_min_size) hn ∙ large in
        subst (λ x. rsa_verify lib pk sg x data_ sig ≡ ok true) same
          (rsa_verify_lem r k.signhash o large2 put verifies)

    dsa_verify-dsa_sign :
        (k : DsaKeyPair lib) (q : DsaPublicKey lib)
        → sg.IsDsaPair k.dsa
        → Dsa.clone_public_key lib k ≡ ok q
        → dsa_sign lib pk sg k data_ ≡ ok sig
        → dsa_verify lib pk sg q data_ sig ≡ ok true
    unfolding dsa_sign dsa_verify Dsa.clone_public_key Dsa.new
    dsa_verify-dsa_sign k q pair cloned signed =
        let md = MessageDigest.sha1 in
        let (p, has, signs) = sign_pkey-eq-ok md _ data_ sig signed in
        let (r, made, done) = and_then-eq-ok _ _ cloned in
        let (hp, hq, hg, hy) = lib.dsa.public_made _ _ _ _ r (map_err-eq-ok from_openssl _ made) in
        let (o, put, verifies) =
          sg.dsa_verifies k.dsa r p md data_ sig pair (map_err-eq-ok from_openssl _ has) signs hp hq
            hg hy in
        let built : DsaPublicKey lib = record { dsa = r } in
        let same : built ≡ q = cc in
        subst (λ x. dsa_verify lib pk sg x data_ sig ≡ ok true) same
          (verify_pkey_lem md (on_unit from_openssl (pk.public_from_dsa r)) o data_ sig
            (rw put refl) verifies)

    ecdsa_verify-ecdsa_sign :
        (k : EcDsaKeyPair lib) (q : EcDsaPublicKey lib)
        → sg.IsEcPair k.key
        → lib.ec.from_curve_name (nid k.curve) ≡ ok (lib.ec.private_group k.key)
        → Ecdsa.clone_public_key lib k ≡ ok q
        → ecdsa_sign lib pk sg k data_ ≡ ok sig
        → ecdsa_verify lib pk sg q data_ sig ≡ ok true
    unfolding ecdsa_sign ecdsa_verify Ecdsa.clone_public_key Ecdsa.public_new Ecdsa.group_of
    ecdsa_verify-ecdsa_sign k q pair group cloned signed =
        let md = MessageDigest.sha1 in
        let (p, has, signs) = sign_pkey-eq-ok md _ data_ sig signed in
        let (r, made, done) = and_then-eq-ok _ _ (rw group at cloned) in
        let (hg, hp) =
          lib.ec.public_made (lib.ec.private_group k.key) (lib.ec.private_public_key k.key) r
            (map_err-eq-ok from_openssl _ made) in
        let (o, put, verifies) =
          sg.ec_verifies k.key r p md data_ sig pair (map_err-eq-ok from_openssl _ has) signs hg
            hp in
        let built : EcDsaPublicKey lib = record { key = r; curve = k.curve } in
        let same : built ≡ q = cc in
        subst (λ x. ecdsa_verify lib pk sg x data_ sig ≡ ok true) same
          (verify_pkey_lem md (on_unit from_openssl (pk.public_from_ec_key r)) o data_ sig
            (rw put refl) verifies)

    abbrev ed25519_public : Ed25519KeyPair lib → PublicKeyType lib
    ed25519_public k = PublicKeyType.ed25519 (record { key = lib.ed.verifying_key k.key })

    ed25519_verifies :
        (k : Ed25519KeyPair lib)
        → (public_verify lib pk sg (ed25519_public k) data_ (sg.to_bytes (sg.ed_sign k.key data_))
            ≡ ok true)
          × (pair_verify lib pk sg
                (KeyPairType.ed25519 k)
                data_
                (sg.to_bytes (sg.ed_sign k.key data_))
              ≡ ok true)
    unfolding public_verify pair_verify ed25519_verify
    ed25519_verifies k =
        let back = sg.try_from-to_bytes (sg.ed_sign k.key data_) in
        let valid = sg.ed_verifies k.key data_ in
        let same = sg.ed_pair_verify_lem k.key data_ (sg.ed_sign k.key data_) in
        (rw (back, valid) refl, rw (back, same, valid) refl)

    -- If a key pair signs the data, then the signature is verified by its public key that
    -- `clone_public_key` returns, and by the pair itself. This is for each key type, for a pair whose
    -- private number belongs to its public numbers, and for an ECDSA key in the group of its curve.
    pub verify-sign :
        (k : KeyPairType lib) (q : PublicKeyType lib)
        → IsPair k
        → clone_key lib k ≡ ok q
        → pair_sign lib pk sg k data_ ≡ ok sig
        → (public_verify lib pk sg q data_ sig ≡ ok true)
          × (pair_verify lib pk sg k data_ sig ≡ ok true)
    unfolding clone_key pair_sign public_verify pair_verify
    verify-sign (KeyPairType.rsa k) q h cloned signed =
        let (p, made, done) = and_then-eq-ok (Rsa.clone_public_key lib k) _ cloned in
        let ok_p = rsa_verify-rsa_sign k p h made signed in
        let same : PublicKeyType.rsa p ≡ q = cc in
        (subst (λ x. public_verify lib pk sg x data_ sig ≡ ok true) same ok_p, rw made ok_p)
    verify-sign (KeyPairType.dsa k) q h cloned signed =
        let (p, made, done) = and_then-eq-ok (Dsa.clone_public_key lib k) _ cloned in
        let ok_p = dsa_verify-dsa_sign k p h made signed in
        let same : PublicKeyType.dsa p ≡ q = cc in
        (subst (λ x. public_verify lib pk sg x data_ sig ≡ ok true) same ok_p, rw made ok_p)
    verify-sign (KeyPairType.ecdsa k) q h cloned signed =
        let (p, made, done) = and_then-eq-ok (Ecdsa.clone_public_key lib k) _ cloned in
        let ok_p = ecdsa_verify-ecdsa_sign k p h.0 h.1 made signed in
        let same : PublicKeyType.ecdsa p ≡ q = cc in
        (subst (λ x. public_verify lib pk sg x data_ sig ≡ ok true) same ok_p, rw made ok_p)
    verify-sign (KeyPairType.ed25519 k) q h cloned signed =
        let made : sg.to_bytes (sg.ed_sign k.key data_) ≡ sig = unfold ed25519_sign in cc in
        let same : ed25519_public k ≡ q = unfold Ed25519.clone_public_key in cc in
        let (by_public, by_pair) = ed25519_verifies k in
        (
          subst (λ x. public_verify lib pk sg x data_ sig ≡ ok true) same
              (subst (λ t. public_verify lib pk sg (ed25519_public k) data_ t ≡ ok true) made
                by_public),
          subst (λ t. pair_verify lib pk sg (KeyPairType.ed25519 k) data_ t ≡ ok true) made by_pair,
        )
