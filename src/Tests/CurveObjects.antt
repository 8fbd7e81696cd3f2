-- ===== src/Tests/CurveObjects.antt =====
-- Small versions of the key objects on curves: records of their parts for ECDSA, and two keys for
-- Ed25519.
use rust_osshkeys.Prelude.{
  ◌≡◌, ◌↔◌, refl, sym, ap, Bytes, [], ◌∷◌, ◌++◌, Bool, true, false, not, some, length, replicate,
  Outcome, ok, err, ◌==◌,
}
use rust_osshkeys.External.KeyTypes.{Nid, Eds, Ecs}
use rust_osshkeys.Tests.Numbers.{numbers, succeed}

-- A point is its encoding.
pub record EcPublic : Type 0 where
  pub group : Nid
  pub point : Bytes

pub record EcPrivate : Type 0 where
  pub group : Nid
  pub point : Bytes
  pub number : Bytes

pub same_group : (nid g : Nid) → succeed nid ≡ ok g → some g ≡ some nid
same_group nid g h = cc

pub same_point : (g : Nid) (p b : Bytes) → succeed p ≡ ok b → succeed b ≡ ok p
same_point g p b h = sym h

abbrev pub make_ec_public : Nid → Bytes → EcPublic
make_ec_public g p = record { group = g; point = p }

pub ec_public_made :
    (g : Nid) (p : Bytes) (k : EcPublic)
    → succeed (make_ec_public g p) ≡ ok k
    → (k.group ≡ g) × (k.point ≡ p)
ec_public_made g p k h =
    let same : make_ec_public g p ≡ k = cc in
    (ap (λ x. x.group) (sym same), ap (λ x. x.point) (sym same))

abbrev pub generate_ec : Bytes × Bytes → Nid → Outcome Unit EcPrivate
generate_ec s g = ok (record { group = g; point = s.0; number = s.1 })

pub generate_ec_group :
    (s : Bytes × Bytes) (g : Nid) (k : EcPrivate) → generate_ec s g ≡ ok k → k.group ≡ g
generate_ec_group s g k h =
    let made : EcPrivate = record { group = g; point = s.0; number = s.1 } in
    let same : made ≡ k = cc in ap (λ x. x.group) (sym same)

abbrev pub ec_objects : Ecs numbers
ec_objects = record {
  Group = Nid;
  Point = Bytes;
  Public = EcPublic;
  Private = EcPrivate;
  Seed = Bytes × Bytes;
  from_curve_name = λ nid. ok nid;
  curve_name = λ g. some g;
  point_from_bytes = λ g b. ok b;
  point_to_bytes = λ g p. ok p;
  from_public_key = λ g p. ok (make_ec_public g p);
  public_made = ec_public_made;
  from_private_components = λ g x p. ok (record { group = g; point = p; number = x });
  group = λ k. k.group;
  public_key = λ k. k.point;
  private_group = λ k. k.group;
  private_public_key = λ k. k.point;
  private_key = λ k. k.number;
  generate = generate_ec;
  generate_group = generate_ec_group;
  curve_name_lem = same_group;
  point_bytes = same_point;
  public_self = λ k. refl;
  private_self = λ k. refl;
}

-- Two keys.
abbrev pub ed_bytes : Bool → Bytes
ed_bytes true = replicate 32 1
ed_bytes false = replicate 32 2

abbrev pub ed_named : Bytes → Outcome Unit Bool
ed_named [] = err tt
ed_named (b ∷ _) = ok (b == 1)

abbrev pub ed_eq : Bool → Bool → Bool
ed_eq true b = b
ed_eq false b = not b

pub ed_eq_iff : (a b : Bool) → (ed_eq a b ≡ true) ↔ (a ≡ b)
ed_eq_iff true true = (λ _. refl, λ _. refl)
ed_eq_iff true false = (λ h. cc, λ h. cc)
ed_eq_iff false true = (λ h. cc, λ h. cc)
ed_eq_iff false false = (λ _. refl, λ _. refl)

pub ed_length : (k : Bool) → length (ed_bytes k) ≡ 32
ed_length true = refl
ed_length false = refl

pub ed_back : (k : Bool) → ed_named (ed_bytes k) ≡ ok k
ed_back true = refl
ed_back false = refl

pub ed_pair_length : (k : Bool) → length (ed_bytes k ++ ed_bytes k) ≡ 64
ed_pair_length true = refl
ed_pair_length false = refl

pub ed_pair_back : (k : Bool) → ed_named (ed_bytes k ++ ed_bytes k) ≡ ok k
ed_pair_back true = refl
ed_pair_back false = refl

abbrev pub ed_objects : Eds
ed_objects = record {
  VerifyingKey = Bool;
  SigningKey = Bool;
  Seed = Bool;
  from_bytes = ed_named;
  to_bytes = ed_bytes;
  from_keypair_bytes = ed_named;
  to_keypair_bytes = λ k. ed_bytes k ++ ed_bytes k;
  signing_key_to_bytes = ed_bytes;
  verifying_key = λ k. k;
  key_eq = ed_eq;
  generate = λ s. s;
  key_eq_iff = ed_eq_iff;
  length-to_bytes = ed_length;
  from_bytes-to_bytes = ed_back;
  length-to_keypair_bytes = ed_pair_length;
  from_keypair_bytes-to_keypair_bytes = ed_pair_back;
}
