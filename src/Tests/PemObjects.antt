-- ===== src/Tests/PemObjects.antt =====
-- Small versions of `PKey`, of OpenSSL's PEM texts and of the crate `pem`. Only one RSA key and one
-- Ed25519 key have texts.
use rust_osshkeys.Prelude.{
  ◌≡◌, ◌==◌, ◌∙◌, refl, sym, ap, arith, Bytes, Bool, true, false, length, Outcome, ok, err,
  if◌then◌else◌,
}
use rust_osshkeys.External.PKeys.{PKeys, PkeyId}
use rust_osshkeys.Tests.Numbers.{succeed}
use rust_osshkeys.Tests.KeyObjects.{key_objects, RsaPublic, RsaPrivate, DsaPublic, DsaPrivate}
use rust_osshkeys.Tests.CurveObjects.{EcPublic, EcPrivate}
use rust_osshkeys.Tests.Ciphers.{Failable}

pub data PublicPkey : Type 0 where
  rsa : RsaPublic → PublicPkey
  dsa : DsaPublic → PublicPkey
  ec : EcPublic → PublicPkey
  raw : Bytes → PublicPkey

pub data PrivatePkey : Type 0 where
  rsa : RsaPrivate → PrivatePkey
  dsa : DsaPrivate → PrivatePkey
  ec : EcPrivate → PrivatePkey
  raw : Bytes → PrivatePkey

abbrev pub public_id : PublicPkey → PkeyId
public_id (rsa _) = PkeyId.rsa
public_id (dsa _) = PkeyId.dsa
public_id (ec _) = PkeyId.ec
public_id (raw _) = PkeyId.ed25519

abbrev pub private_id : PrivatePkey → PkeyId
private_id (rsa _) = PkeyId.rsa
private_id (dsa _) = PkeyId.dsa
private_id (ec _) = PkeyId.ec
private_id (raw _) = PkeyId.ed25519

abbrev pub public_rsa : PublicPkey → Failable RsaPublic
public_rsa (rsa k) = ok k
public_rsa _ = err tt

abbrev pub public_dsa : PublicPkey → Failable DsaPublic
public_dsa (dsa k) = ok k
public_dsa _ = err tt

abbrev pub public_ec_key : PublicPkey → Failable EcPublic
public_ec_key (ec k) = ok k
public_ec_key _ = err tt

abbrev pub raw_public_key : PublicPkey → Failable Bytes
raw_public_key (raw b) = ok b
raw_public_key _ = err tt

abbrev pub private_rsa : PrivatePkey → Failable RsaPrivate
private_rsa (rsa k) = ok k
private_rsa _ = err tt

abbrev pub private_dsa : PrivatePkey → Failable DsaPrivate
private_dsa (dsa k) = ok k
private_dsa _ = err tt

abbrev pub private_ec_key : PrivatePkey → Failable EcPrivate
private_ec_key (ec k) = ok k
private_ec_key _ = err tt

abbrev pub checked {ℓ} : {A : Type ℓ} → Bool → A → Outcome Unit A
checked b a = if b then ok a else err tt

abbrev pub raw_private_key : PrivatePkey → Failable Bytes
raw_private_key (raw b) = checked (length b == 32) b
raw_private_key _ = err tt

-- What was checked holds, and the value is the one that was checked.
pub checked-eq-ok : {A : Type 0} (b : Bool) (a c : A) → checked b a ≡ ok c → (b ≡ true) × (a ≡ c)
checked-eq-ok true a c h = (refl, cc)
checked-eq-ok false a c h = cc

pub public_put :
    {A : Type 0} (id : PkeyId) (of : A → PublicPkey) (get : PublicPkey → Failable A) (k : A)
    (p : PublicPkey)
    → public_id (of k) ≡ id
    → get (of k) ≡ ok k
    → succeed (of k) ≡ ok p
    → (public_id p ≡ id) × (get p ≡ ok k)
public_put id of get k p i g h =
    let same : of k ≡ p = cc in (ap public_id (sym same) ∙ i, ap get (sym same) ∙ g)

pub private_put :
    {A : Type 0} (id : PkeyId) (of : A → PrivatePkey) (get : PrivatePkey → Failable A) (k : A)
    (p : PrivatePkey)
    → private_id (of k) ≡ id
    → get (of k) ≡ ok k
    → succeed (of k) ≡ ok p
    → (private_id p ≡ id) × (get p ≡ ok k)
private_put id of get k p i g h =
    let same : of k ≡ p = cc in (ap private_id (sym same) ∙ i, ap get (sym same) ∙ g)

pub raw_put :
    (b : Bytes) (p : PrivatePkey)
    → checked (length b == 32) (PrivatePkey.raw b) ≡ ok p
    → (private_id p ≡ PkeyId.ed25519) × (raw_private_key p ≡ ok b)
raw_put b p h =
    let (size, same) = checked-eq-ok (length b == 32) (PrivatePkey.raw b) p h in
    (ap private_id (sym same), ap raw_private_key (sym same) ∙ rw size refl)

pub length-raw :
    (p : PrivatePkey) (b : Bytes)
    → private_id p ≡ PkeyId.ed25519
    → raw_private_key p ≡ ok b
    → length b ≡ 32
length-raw (rsa _) b i h = cc
length-raw (dsa _) b i h = cc
length-raw (ec _) b i h = cc
length-raw (raw a) b i h =
    let (size, same) = checked-eq-ok (length a == 32) a b h in
    let long : length a ≡ 32 = ground arith in ap length (sym same) ∙ long

abbrev pub pkeys : PKeys key_objects
pkeys = record {
  Public = PublicPkey;
  Private = PrivatePkey;
  public_id = public_id;
  public_rsa = public_rsa;
  public_dsa = public_dsa;
  public_ec_key = public_ec_key;
  raw_public_key = raw_public_key;
  private_id = private_id;
  private_rsa = private_rsa;
  private_dsa = private_dsa;
  private_ec_key = private_ec_key;
  raw_private_key = raw_private_key;
  public_from_rsa = λ k. ok (PublicPkey.rsa k);
  public_from_dsa = λ k. ok (PublicPkey.dsa k);
  public_from_ec_key = λ k. ok (PublicPkey.ec k);
  private_from_rsa = λ k. ok (PrivatePkey.rsa k);
  private_from_dsa = λ k. ok (PrivatePkey.dsa k);
  private_from_ec_key = λ k. ok (PrivatePkey.ec k);
  public_key_from_raw_bytes = λ b. ok (PublicPkey.raw b);
  private_key_from_raw_bytes = λ b. checked (length b == 32) (PrivatePkey.raw b);
  public_of_rsa = λ k p. public_put PkeyId.rsa PublicPkey.rsa public_rsa k p refl refl;
  public_of_dsa = λ k p. public_put PkeyId.dsa PublicPkey.dsa public_dsa k p refl refl;
  public_of_ec_key = λ k p. public_put PkeyId.ec PublicPkey.ec public_ec_key k p refl refl;
  public_of_raw_bytes =
      λ b p. public_put PkeyId.ed25519 PublicPkey.raw raw_public_key b p refl refl;
  private_of_rsa = λ k p. private_put PkeyId.rsa PrivatePkey.rsa private_rsa k p refl refl;
  private_of_dsa = λ k p. private_put PkeyId.dsa PrivatePkey.dsa private_dsa k p refl refl;
  private_of_ec_key = λ k p. private_put PkeyId.ec PrivatePkey.ec private_ec_key k p refl refl;
  private_of_raw_bytes = raw_put;
  length-raw_private_key = length-raw;
}
