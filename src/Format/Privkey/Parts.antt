-- ===== src/Format/Privkey/Parts.antt =====
-- What `encode_key` writes, and for which keys.
use rust_osshkeys.Prelude.{◌≤◌, ◌≡◌, refl, arith, Bytes, ◌++◌, some, ok, and_then}
use rust_osshkeys.External.KeyTypes.{KeyLib}
use rust_osshkeys.Sshbuf.Rules.{Writes-seq, Writes-lift_bind}
use rust_osshkeys.Sshbuf.Reader.{Writer, Writes}
use rust_osshkeys.Sshbuf.RoundTrip.{Fits, string_bytes}
use rust_osshkeys.Sshbuf.Mpint.{IsWritable}
use rust_osshkeys.Format.Wire.{mpint_bytes, Writes-text, Writes-string, Writes-mpint}
use rust_osshkeys.Keys.Rsa.{RsaKeyPair, rsa_min_size, rsa_max_size}
use rust_osshkeys.Keys.Dsa.{DsaKeyPair}
use rust_osshkeys.Keys.Ecdsa.{EcDsaKeyPair, ident, nid}
use rust_osshkeys.Keys.Container.{KeyPairType}
use rust_osshkeys.Format.Pubkey.Curves.{Fits-names}
use rust_osshkeys.Format.Privkey.Key.{encode_parts}

module _ (lib : KeyLib) where
  -- A private RSA key whose parts are all there and can be written, whose size is allowed, and
  -- whose exponents for the primes are what `decode_key` computes.
  pub record IsPrivateRsa (k : RsaKeyPair lib) : Type 0 where
    pub p : lib.bn.BigNum
    pub q : lib.bn.BigNum
    pub iqmp : lib.bn.BigNum
    pub dmp1 : lib.bn.BigNum
    pub dmq1 : lib.bn.BigNum
    pub one : lib.bn.BigNum
    pub has_p : lib.rsa.private_p k.rsa ≡ some p
    pub has_q : lib.rsa.private_q k.rsa ≡ some q
    pub has_iqmp : lib.rsa.private_iqmp k.rsa ≡ some iqmp
    pub has_dmp1 : lib.rsa.private_dmp1 k.rsa ≡ some dmp1
    pub has_dmq1 : lib.rsa.private_dmq1 k.rsa ≡ some dmq1
    pub is_one : lib.bn.from_u32 1 ≡ ok one
    pub reduced_p :
        and_then (lib.bn.sub p one) (λ m. lib.bn.rem (lib.rsa.private_d k.rsa) m) ≡ ok dmp1
    pub reduced_q :
        and_then (lib.bn.sub q one) (λ m. lib.bn.rem (lib.rsa.private_d k.rsa) m) ≡ ok dmq1
    pub n_writable : IsWritable lib.bn (lib.rsa.private_n k.rsa)
    pub e_writable : IsWritable lib.bn (lib.rsa.private_e k.rsa)
    pub d_writable : IsWritable lib.bn (lib.rsa.private_d k.rsa)
    pub p_writable : IsWritable lib.bn p
    pub q_writable : IsWritable lib.bn q
    pub iqmp_writable : IsWritable lib.bn iqmp
    pub min_size : rsa_min_size ≤ lib.bn.num_bits (lib.rsa.private_n k.rsa)
    pub max_size : lib.bn.num_bits (lib.rsa.private_n k.rsa) ≤ rsa_max_size

  pub record IsPrivateDsa (k : DsaKeyPair lib) : Type 0 where
    pub p : IsWritable lib.bn (lib.dsa.private_p k.dsa)
    pub q : IsWritable lib.bn (lib.dsa.private_q k.dsa)
    pub g : IsWritable lib.bn (lib.dsa.private_g k.dsa)
    pub pub_key : IsWritable lib.bn (lib.dsa.private_pub_key k.dsa)
    pub priv_key : IsWritable lib.bn (lib.dsa.priv_key k.dsa)

  -- The key lies in the group of its curve, and its parts can be written.
  pub record IsPrivateEc (k : EcDsaKeyPair lib) : Type 0 where
    pub point : Bytes
    pub in_group : lib.ec.from_curve_name (nid k.curve) ≡ ok (lib.ec.private_group k.key)
    pub encoded :
        lib.ec.point_to_bytes (lib.ec.private_group k.key) (lib.ec.private_public_key k.key)
        ≡ ok point
    pub fits : Fits point
    pub number : IsWritable lib.bn (lib.ec.private_key k.key)

  abbrev pub CanEncodePair : KeyPairType lib → Type 0
  CanEncodePair (KeyPairType.rsa k) = IsPrivateRsa k
  CanEncodePair (KeyPairType.dsa k) = IsPrivateDsa k
  CanEncodePair (KeyPairType.ecdsa k) = IsPrivateEc k
  CanEncodePair (KeyPairType.ed25519 k) = Unit

  -- What `encode_key` writes behind the name of the key.
  unfoldable pub parts_bytes : (k : KeyPairType lib) → CanEncodePair k → Bytes
  parts_bytes (KeyPairType.rsa k) h =
      mpint_bytes lib.bn (lib.rsa.private_n k.rsa)
      ++ (mpint_bytes lib.bn (lib.rsa.private_e k.rsa)
          ++ (mpint_bytes lib.bn (lib.rsa.private_d k.rsa)
              ++ (mpint_bytes lib.bn h.iqmp ++ (mpint_bytes lib.bn h.p ++ mpint_bytes lib.bn h.q))))
  parts_bytes (KeyPairType.dsa k) h =
      mpint_bytes lib.bn (lib.dsa.private_p k.dsa)
      ++ (mpint_bytes lib.bn (lib.dsa.private_q k.dsa)
          ++ (mpint_bytes lib.bn (lib.dsa.private_g k.dsa)
              ++ (mpint_bytes lib.bn (lib.dsa.private_pub_key k.dsa)
                  ++ mpint_bytes lib.bn (lib.dsa.priv_key k.dsa))))
  parts_bytes (KeyPairType.ecdsa k) h =
      string_bytes (ident k.curve)
      ++ (string_bytes h.point ++ mpint_bytes lib.bn (lib.ec.private_key k.key))
  parts_bytes (KeyPairType.ed25519 k) h =
      string_bytes (lib.ed.to_bytes (lib.ed.verifying_key k.key))
      ++ string_bytes (lib.ed.to_keypair_bytes k.key)

  module _ {W : Type 0} (wr : Writer W) where
    pub Writes-encode_parts :
        (k : KeyPairType lib) (h : CanEncodePair k)
        → Writes wr (encode_parts lib wr k) (parts_bytes k h) tt
    unfolding encode_parts parts_bytes
    Writes-encode_parts (KeyPairType.rsa k) h =
        let put = Writes-mpint wr lib.bn in
        Writes-seq _ _ (put _ h.n_writable) (
          Writes-seq _ _ (put _ h.e_writable) (
            Writes-seq _ _ (put _ h.d_writable) (
              Writes-lift_bind _ _ (rw h.has_iqmp refl) (
                Writes-seq _ _ (put _ h.iqmp_writable) (
                  Writes-lift_bind _ _ (rw h.has_p refl) (
                    Writes-seq _ _ (put _ h.p_writable)
                      (Writes-lift_bind _ _ (rw h.has_q refl) (put _ h.q_writable))))))))
    Writes-encode_parts (KeyPairType.dsa k) h =
        let put = Writes-mpint wr lib.bn in
        Writes-seq _ _ (put _ h.p) (
          Writes-seq _ _ (put _ h.q)
            (Writes-seq _ _ (put _ h.g) (Writes-seq _ _ (put _ h.pub_key) (put _ h.priv_key))))
    Writes-encode_parts (KeyPairType.ecdsa k) h =
        Writes-seq _ _ (Writes-text wr (ident k.curve) (Fits-names lib k.curve).1) (
          Writes-lift_bind _ _ (rw h.encoded refl) (
            Writes-seq _ _ (Writes-string wr h.point h.fits)
              (Writes-mpint wr lib.bn (lib.ec.private_key k.key) h.number)))
    Writes-encode_parts (KeyPairType.ed25519 k) h =
        let vk = lib.ed.verifying_key k.key in
        Writes-seq _ _
          (Writes-string wr (lib.ed.to_bytes vk) (omega (arith, lib.ed.length-to_bytes vk)))
          (Writes-string wr (lib.ed.to_keypair_bytes k.key)
            (omega (arith, lib.ed.length-to_keypair_bytes k.key)))
