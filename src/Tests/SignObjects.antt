-- ===== src/Tests/SignObjects.antt =====
-- A small version of signatures: the public parts of the key and the data.
use rust_osshkeys.Prelude.{
  ℕ, ◌≡◌, ◌∙◌, refl, sym, ap, Bytes, ◌∷◌, ◌++◌, bytes_eq, bytes_eq_iff, bytes_eq_refl, Bool, true,
  Outcome, ok, err, if◌then◌else◌,
}
use rust_osshkeys.External.Signers.{Signers, MessageDigest, Finishes}
use rust_osshkeys.Tests.KeyObjects.{key_objects, RsaPublic, RsaPrivate, DsaPublic, DsaPrivate}
use rust_osshkeys.Tests.CurveObjects.{EcPublic, EcPrivate, ed_bytes}
use rust_osshkeys.Tests.PemObjects.{PublicPkey, PrivatePkey, pkeys}
use rust_osshkeys.Tests.Ciphers.{Failable}

abbrev pub digest_tag : MessageDigest → ℕ
digest_tag MessageDigest.sha1 = 1
digest_tag MessageDigest.sha256 = 2
digest_tag MessageDigest.sha512 = 3

abbrev pub private_parts : PrivatePkey → Bytes
private_parts (PrivatePkey.rsa k) = k.n ++ k.e
private_parts (PrivatePkey.dsa k) = k.p ++ (k.q ++ (k.g ++ k.pub_key))
private_parts (PrivatePkey.ec k) = k.point
private_parts (PrivatePkey.raw b) = b

abbrev pub public_parts : PublicPkey → Bytes
public_parts (PublicPkey.rsa k) = k.n ++ k.e
public_parts (PublicPkey.dsa k) = k.p ++ (k.q ++ (k.g ++ k.pub_key))
public_parts (PublicPkey.ec k) = k.point
public_parts (PublicPkey.raw b) = b

abbrev pub start_signer : MessageDigest → PrivatePkey → Failable Bytes
start_signer md p = ok (digest_tag md ∷ private_parts p)

abbrev pub start_verifier : MessageDigest → PublicPkey → Failable Bytes
start_verifier md o = ok (digest_tag md ∷ public_parts o)

abbrev pub feed : Bytes → Bytes → Failable Bytes
feed s b = ok (s ++ b)

abbrev pub whole : Bytes → Failable Bytes
whole s = ok s

abbrev pub compared : Bytes → Bytes → Failable Bool
compared sig s = ok (bytes_eq sig s)

pub signed_bytes :
    (md : MessageDigest) (p : PrivatePkey) (b sig : Bytes)
    → Finishes start_signer feed whole md p b sig
    → digest_tag md ∷ (private_parts p ++ b) ≡ sig
signed_bytes md p b sig h =
    let first : digest_tag md ∷ private_parts p ≡ h.state = let e = h.made in cc in
    let next : h.state ++ b ≡ h.updated = let e = h.fed in cc in
    let last : h.updated ≡ sig = let e = h.finished in cc in ap (λ s. s ++ b) first ∙ next ∙ last

pub pkey-Finishes :
    (md : MessageDigest) (p : PrivatePkey) (o : PublicPkey) (b sig : Bytes)
    → private_parts p ≡ public_parts o
    → Finishes start_signer feed whole md p b sig
    → Finishes start_verifier feed (compared sig) md o b true
pkey-Finishes md p o b sig e h =
    let same : sig ≡ digest_tag md ∷ (public_parts o ++ b) =
      sym (signed_bytes md p b sig h) ∙ ap (λ s. digest_tag md ∷ (s ++ b)) e in
    record {
      state = digest_tag md ∷ public_parts o;
      updated = digest_tag md ∷ (public_parts o ++ b);
      made = refl;
      fed = refl;
      finished = ap ok ((bytes_eq_iff sig (digest_tag md ∷ (public_parts o ++ b))).1 same);
    }

pub rsa-Finishes :
    (k : RsaPrivate) (q : RsaPublic) (p : PrivatePkey) (md : MessageDigest) (b sig : Bytes)
    → pkeys.private_from_rsa k ≡ ok p
    → Finishes start_signer feed whole md p b sig
    → q.n ≡ k.n
    → q.e ≡ k.e
    → (o : PublicPkey) × (pkeys.public_from_rsa q ≡ ok o)
      × Finishes start_verifier feed (compared sig) md o b true
rsa-Finishes k q p md b sig is h hn he =
    let put : PrivatePkey.rsa k ≡ p = cc in
    let parts = ap private_parts (sym put) ∙ (λ i. sym hn i ++ sym he i) in
    (PublicPkey.rsa q, refl, pkey-Finishes md p (PublicPkey.rsa q) b sig parts h)

pub dsa-Finishes :
    (k : DsaPrivate) (q : DsaPublic) (p : PrivatePkey) (md : MessageDigest) (b sig : Bytes)
    → pkeys.private_from_dsa k ≡ ok p
    → Finishes start_signer feed whole md p b sig
    → q.p ≡ k.p
    → q.q ≡ k.q
    → q.g ≡ k.g
    → q.pub_key ≡ k.pub_key
    → (o : PublicPkey) × (pkeys.public_from_dsa q ≡ ok o)
      × Finishes start_verifier feed (compared sig) md o b true
dsa-Finishes k q p md b sig is h hp hq hg hy =
    let put : PrivatePkey.dsa k ≡ p = cc in
    let parts =
      ap private_parts (sym put) ∙ (λ i. sym hp i ++ (sym hq i ++ (sym hg i ++ sym hy i))) in
    (PublicPkey.dsa q, refl, pkey-Finishes md p (PublicPkey.dsa q) b sig parts h)

pub ec-Finishes :
    (k : EcPrivate) (q : EcPublic) (p : PrivatePkey) (md : MessageDigest) (b sig : Bytes)
    → pkeys.private_from_ec_key k ≡ ok p
    → Finishes start_signer feed whole md p b sig
    → q.group ≡ k.group
    → q.point ≡ k.point
    → (o : PublicPkey) × (pkeys.public_from_ec_key q ≡ ok o)
      × Finishes start_verifier feed (compared sig) md o b true
ec-Finishes k q p md b sig is h hg hp =
    let put : PrivatePkey.ec k ≡ p = cc in
    let parts = ap private_parts (sym put) ∙ sym hp in
    (PublicPkey.ec q, refl, pkey-Finishes md p (PublicPkey.ec q) b sig parts h)

abbrev pub ed_checked : Bool → Bytes → Bytes → Outcome (Unit {0}) (Unit {0})
ed_checked k b s = if bytes_eq s (ed_bytes k ++ b) then ok tt else err tt

pub ed_checked_lem : (k : Bool) (b : Bytes) → ed_checked k b (ed_bytes k ++ b) ≡ ok tt
ed_checked_lem k b = rw (bytes_eq_refl (ed_bytes k ++ b)) refl

abbrev pub signers : Signers key_objects pkeys
signers = record {
  Signer = Bytes;
  Verifier = Bytes;
  new_signer = start_signer;
  update_signer = feed;
  sign_to_vec = whole;
  new_verifier = start_verifier;
  update_verifier = feed;
  verify = compared;
  IsRsaPair = λ k. Unit;
  IsDsaPair = λ k. Unit;
  IsEcPair = λ k. Unit;
  rsa_generated = λ s bits k h. tt;
  dsa_generated = λ s bits k h. tt;
  ec_generated = λ s g k h. tt;
  rsa_verifies = λ k q p md b sig pair. rsa-Finishes k q p md b sig;
  dsa_verifies = λ k q p md b sig pair. dsa-Finishes k q p md b sig;
  ec_verifies = λ k q p md b sig pair. ec-Finishes k q p md b sig;
  Signature = Bytes;
  try_from = whole;
  to_bytes = λ s. s;
  ed_sign = λ k b. ed_bytes k ++ b;
  ed_verify = ed_checked;
  ed_pair_verify = ed_checked;
  try_from-to_bytes = λ s. refl;
  ed_verifies = ed_checked_lem;
  ed_pair_verify_lem = λ k b s. refl;
}
