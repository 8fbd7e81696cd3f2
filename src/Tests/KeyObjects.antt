-- ===== src/Tests/KeyObjects.antt =====
-- Small versions of the key objects: records of their parts.
use rust_osshkeys.Prelude.{
  ℕ, ◌*◌, ◌≡◌, refl, sym, ap, arith, Bytes, some, length, Outcome, ok, err, ◌==◌, if◌then◌else◌,
}
use rust_osshkeys.External.KeyTypes.{KeyLib, Dsas, Rsas}
use rust_osshkeys.Tests.Numbers.{numbers, succeed}
use rust_osshkeys.Tests.CurveObjects.{ec_objects, ed_objects}

pub record RsaPublic : Type 0 where
  pub n : Bytes
  pub e : Bytes

pub record RsaPrivate : Type 0 where
  pub n : Bytes
  pub e : Bytes
  pub d : Bytes
  pub p : Bytes
  pub q : Bytes
  pub dmp1 : Bytes
  pub dmq1 : Bytes
  pub iqmp : Bytes

abbrev pub make_rsa : (n e d p q dmp1 dmq1 iqmp : Bytes) → RsaPrivate
make_rsa n e d p q dmp1 dmq1 iqmp = record {
  n = n;
  e = e;
  d = d;
  p = p;
  q = q;
  dmp1 = dmp1;
  dmq1 = dmq1;
  iqmp = iqmp;
}

-- The seed is the key; its size must be the one asked for.
unfoldable pub generate_rsa : RsaPrivate → ℕ → Outcome Unit RsaPrivate
generate_rsa k bits = if length k.n * 8 == bits then ok k else err tt

pub generate_rsa_bits :
    (k : RsaPrivate) (bits : ℕ) (l : RsaPrivate)
    → generate_rsa k bits ≡ ok l
    → length l.n * 8 ≡ bits
unfolding generate_rsa
generate_rsa_bits k bits l h = ground arith

pub private_made :
    (k : RsaPrivate) (p q dmp1 dmq1 iqmp : Bytes)
    → some k.p ≡ some p
    → some k.q ≡ some q
    → some k.dmp1 ≡ some dmp1
    → some k.dmq1 ≡ some dmq1
    → some k.iqmp ≡ some iqmp
    → succeed (make_rsa k.n k.e k.d p q dmp1 dmq1 iqmp) ≡ ok k
private_made k p q dmp1 dmq1 iqmp a b c d e = cc

abbrev pub make_public : (n e : Bytes) → RsaPublic
make_public n e = record { n = n; e = e }

pub public_made :
    (n e : Bytes) (k : RsaPublic) → succeed (make_public n e) ≡ ok k → (k.n ≡ n) × (k.e ≡ e)
public_made n e k h =
    let same : make_public n e ≡ k = cc in (ap (λ x. x.n) (sym same), ap (λ x. x.e) (sym same))

pub record DsaPublic : Type 0 where
  pub p : Bytes
  pub q : Bytes
  pub g : Bytes
  pub pub_key : Bytes

pub record DsaPrivate : Type 0 where
  pub p : Bytes
  pub q : Bytes
  pub g : Bytes
  pub priv_key : Bytes
  pub pub_key : Bytes

abbrev pub make_dsa : (p q g priv_key pub_key : Bytes) → DsaPrivate
make_dsa p q g priv_key pub_key = record {
  p = p;
  q = q;
  g = g;
  priv_key = priv_key;
  pub_key = pub_key;
}

abbrev pub rsa_objects : Rsas numbers
rsa_objects = record {
  Public = RsaPublic;
  Private = RsaPrivate;
  Seed = RsaPrivate;
  from_public_components = λ n e. ok (make_public n e);
  n = λ k. k.n;
  e = λ k. k.e;
  from_private_components = λ n e d p q dmp1 dmq1 iqmp. ok (make_rsa n e d p q dmp1 dmq1 iqmp);
  private_n = λ k. k.n;
  private_e = λ k. k.e;
  private_d = λ k. k.d;
  private_p = λ k. some k.p;
  private_q = λ k. some k.q;
  private_dmp1 = λ k. some k.dmp1;
  private_dmq1 = λ k. some k.dmq1;
  private_iqmp = λ k. some k.iqmp;
  generate = generate_rsa;
  public_self = λ k. refl;
  private_self = private_made;
  public_made = public_made;
  generate_bits = generate_rsa_bits;
}

abbrev pub make_dsa_public : (p q g y : Bytes) → DsaPublic
make_dsa_public p q g y = record { p = p; q = q; g = g; pub_key = y }

pub dsa_public_made :
    (p q g y : Bytes) (k : DsaPublic)
    → succeed (make_dsa_public p q g y) ≡ ok k
    → (k.p ≡ p) × (k.q ≡ q) × (k.g ≡ g) × (k.pub_key ≡ y)
dsa_public_made p q g y k h =
    let same : make_dsa_public p q g y ≡ k = cc in
    (
      ap (λ x. x.p) (sym same),
      ap (λ x. x.q) (sym same),
      ap (λ x. x.g) (sym same),
      ap (λ x. x.pub_key) (sym same),
    )

-- The seed is the key; its size must be the one asked for.
pub generate_dsa : DsaPrivate → ℕ → Outcome Unit DsaPrivate
generate_dsa k bits = if length k.p * 8 == bits then ok k else err tt

pub generate_dsa_bits :
    (k : DsaPrivate) (bits : ℕ) (l : DsaPrivate)
    → generate_dsa k bits ≡ ok l
    → length l.p * 8 ≡ bits
unfolding generate_dsa
generate_dsa_bits k bits l h = ground arith

abbrev pub dsa_objects : Dsas numbers
dsa_objects = record {
  Public = DsaPublic;
  Private = DsaPrivate;
  Seed = DsaPrivate;
  from_public_components = λ p q g y. ok (make_dsa_public p q g y);
  public_made = dsa_public_made;
  p = λ k. k.p;
  q = λ k. k.q;
  g = λ k. k.g;
  pub_key = λ k. k.pub_key;
  from_private_components = λ p q g x y. ok (make_dsa p q g x y);
  private_p = λ k. k.p;
  private_q = λ k. k.q;
  private_g = λ k. k.g;
  private_pub_key = λ k. k.pub_key;
  priv_key = λ k. k.priv_key;
  generate = generate_dsa;
  generate_bits = generate_dsa_bits;
  public_self = λ k. refl;
  private_self = λ k. refl;
}

abbrev pub key_objects : KeyLib
key_objects = record {
  bn = numbers;
  rsa = rsa_objects;
  dsa = dsa_objects;
  ec = ec_objects;
  ed = ed_objects;
}
