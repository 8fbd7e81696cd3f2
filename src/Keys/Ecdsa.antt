-- ===== src/Keys/Ecdsa.antt =====
-- src/keys/ecdsa.rs: the NIST curves, and ECDSA keys over them.
use rust_osshkeys.Prelude.{
  ℕ, Bytes, ascii, bytes_eq, Bool, true, false, ◌==◌, if◌then◌else◌, Option, some, ok, and_then,
}
use rust_osshkeys.Error.{OsshResult, fail, from_openssl, invalid_key_size, unsupport_curve, on_unit}
use rust_osshkeys.External.KeyTypes.{KeyLib, Nid, x9_62_prime256v1, secp384r1, secp521r1}

abbrev pub ecdsa_def_size : ℕ
ecdsa_def_size = 256

abbrev pub nist_p256_name : Bytes
nist_p256_name = ascii "ecdsa-sha2-nistp256"

abbrev pub nist_p384_name : Bytes
nist_p384_name = ascii "ecdsa-sha2-nistp384"

abbrev pub nist_p521_name : Bytes
nist_p521_name = ascii "ecdsa-sha2-nistp521"

abbrev pub ecdsa_short_name : Bytes
ecdsa_short_name = ascii "ECDSA"

pub data EcCurve : Type 0 where
  nistp256 nistp384 nistp521 : EcCurve

-- `EcCurve::from_name`, on the name of the key type.
unfoldable pub from_name : Bytes → OsshResult EcCurve
unfolding bytes_eq
from_name s =
    if bytes_eq s nist_p256_name
    then ok nistp256
    else if bytes_eq s nist_p384_name
    then ok nistp384
    else if bytes_eq s nist_p521_name
    then ok nistp521
    else fail unsupport_curve

unfoldable pub curve_size : EcCurve → ℕ
curve_size nistp256 = 256
curve_size nistp384 = 384
curve_size nistp521 = 521

unfoldable pub name : EcCurve → Bytes
name nistp256 = nist_p256_name
name nistp384 = nist_p384_name
name nistp521 = nist_p521_name

unfoldable pub ident : EcCurve → Bytes
ident nistp256 = ascii "nistp256"
ident nistp384 = ascii "nistp384"
ident nistp521 = ascii "nistp521"

unfoldable pub nid : EcCurve → Nid
nid nistp256 = x9_62_prime256v1
nid nistp384 = secp384r1
nid nistp521 = secp521r1

-- `FromStr for EcCurve`, on the identifier.
unfoldable pub from_str : Bytes → OsshResult EcCurve
unfolding bytes_eq
from_str s =
    if bytes_eq s (ascii "nistp256")
    then ok nistp256
    else if bytes_eq s (ascii "nistp384")
    then ok nistp384
    else if bytes_eq s (ascii "nistp521")
    then ok nistp521
    else fail unsupport_curve

-- The derived `PartialEq for EcCurve`.
unfoldable pub curve_eq : EcCurve → EcCurve → Bool
curve_eq nistp256 nistp256 = true
curve_eq nistp384 nistp384 = true
curve_eq nistp521 nistp521 = true
curve_eq _ _ = false

-- The match on the curve's name in `from_ossl_ec`.
unfoldable pub curve_of_nid : Option Nid → OsshResult EcCurve
curve_of_nid (some x9_62_prime256v1) = ok nistp256
curve_of_nid (some secp384r1) = ok nistp384
curve_of_nid (some secp521r1) = ok nistp521
curve_of_nid _ = fail unsupport_curve

module _ (lib : KeyLib) where
  pub record EcDsaPublicKey : Type 0 where
    pub key : lib.ec.Public
    pub curve : EcCurve

  pub record EcDsaKeyPair : Type 0 where
    pub key : lib.ec.Private
    pub curve : EcCurve

  -- `TryInto<EcGroup> for EcCurve`.
  unfoldable pub group_of : EcCurve → OsshResult lib.ec.Group
  unfolding nid
  group_of curve = on_unit from_openssl (lib.ec.from_curve_name (nid curve))

  unfoldable pub into_ec_point : EcCurve → Bytes → OsshResult lib.ec.Point
  unfolding group_of
  into_ec_point curve public_key =
      and_then (group_of curve)
        (λ group. on_unit from_openssl (lib.ec.point_from_bytes group public_key))

  -- `EcDsaPublicKey::new` and `from_bytes`.
  unfoldable pub public_new : EcCurve → lib.ec.Point → OsshResult EcDsaPublicKey
  unfolding group_of
  public_new curve public_key = and_then (group_of curve) (λ group.
      and_then (on_unit from_openssl (lib.ec.from_public_key group public_key))
        (λ key. ok (record { key = key; curve = curve })))

  unfoldable pub public_from_bytes : EcCurve → Bytes → OsshResult EcDsaPublicKey
  unfolding into_ec_point public_new
  public_from_bytes curve public_key = and_then (into_ec_point curve public_key) (public_new curve)

  -- `EcDsaKeyPair::new` and `from_bytes`.
  unfoldable pub pair_new : EcCurve → lib.ec.Point → lib.bn.BigNum → OsshResult EcDsaKeyPair
  unfolding group_of
  pair_new curve public_key private_number = and_then (group_of curve) (λ group.
      and_then
        (on_unit from_openssl (lib.ec.from_private_components group private_number public_key))
        (λ key. ok (record { key = key; curve = curve })))

  unfoldable pub pair_from_bytes : EcCurve → Bytes → lib.bn.BigNum → OsshResult EcDsaKeyPair
  unfolding into_ec_point pair_new
  pair_from_bytes curve public_key private_number =
      and_then (into_ec_point curve public_key) (λ point. pair_new curve point private_number)

  -- `from_ossl_ec` of both types.
  unfoldable pub public_from_ossl_ec : lib.ec.Public → OsshResult EcDsaPublicKey
  unfolding curve_of_nid
  public_from_ossl_ec key =
      and_then (curve_of_nid (lib.ec.curve_name (lib.ec.group key)))
        (λ curve. ok (record { key = key; curve = curve }))

  unfoldable pub pair_from_ossl_ec : lib.ec.Private → OsshResult EcDsaKeyPair
  unfolding curve_of_nid
  pair_from_ossl_ec key =
      and_then (curve_of_nid (lib.ec.curve_name (lib.ec.private_group key)))
        (λ curve. ok (record { key = key; curve = curve }))

  -- The match on the size in `generate`.
  unfoldable pub curve_of_size : ℕ → OsshResult EcCurve
  curve_of_size bits =
      if bits == 256
      then ok nistp256
      else if bits == 384
      then ok nistp384
      else if bits == 521
      then ok nistp521
      else fail invalid_key_size

  -- `EcDsaKeyPair::generate`; zero stands for the default size.
  unfoldable pub generate : lib.ec.Seed → ℕ → OsshResult EcDsaKeyPair
  unfolding group_of curve_of_size
  generate seed bits =
      and_then (curve_of_size (if bits == 0 then ecdsa_def_size else bits)) (λ curve.
        and_then (group_of curve) (λ group.
          and_then (on_unit from_openssl (lib.ec.generate seed group))
            (λ key. ok (record { key = key; curve = curve }))))

  -- `EcDsaKeyPair::clone_public_key`.
  unfoldable pub clone_public_key : EcDsaKeyPair → OsshResult EcDsaPublicKey
  unfolding public_new
  clone_public_key k = public_new k.curve (lib.ec.private_public_key k.key)
