-- ===== src/External/KeyTypes.antt =====
-- `openssl::{rsa, dsa, ec}` and `ed25519_dalek`: the key objects that the crate wraps. A C call
-- that can fail returns an outcome whose error carries no data (an `ErrorStack`, a
-- `SignatureError`). Random choices of the generators are the argument `Seed`.
use rust_osshkeys.Prelude.{ℕ, ◌≡◌, ◌↔◌, Bytes, Bool, true, Option, some, length, Outcome, ok}
use rust_osshkeys.External.BigNums.{BigNums}

-- `openssl::rsa::Rsa<Public>` and `Rsa<Private>`.
pub record Rsas (bn : BigNums) : Type 1 where
  pub Public : Type 0
  pub Private : Type 0
  pub Seed : Type 0
  pub from_public_components : bn.BigNum → bn.BigNum → Outcome Unit Public
  pub n : Public → bn.BigNum
  pub e : Public → bn.BigNum
  -- The arguments n, e, d, p, q, dmp1, dmq1, iqmp.
  pub from_private_components :
      bn.BigNum
      → bn.BigNum
      → bn.BigNum
      → bn.BigNum
      → bn.BigNum
      → bn.BigNum
      → bn.BigNum
      → bn.BigNum
      → Outcome Unit Private
  pub private_n : Private → bn.BigNum
  pub private_e : Private → bn.BigNum
  pub private_d : Private → bn.BigNum
  pub private_p : Private → Option bn.BigNum
  pub private_q : Private → Option bn.BigNum
  pub private_dmp1 : Private → Option bn.BigNum
  pub private_dmq1 : Private → Option bn.BigNum
  pub private_iqmp : Private → Option bn.BigNum
  pub generate : Seed → ℕ → Outcome Unit Private
  -- A key is determined by its components.
  pub public_self : (k : Public) → from_public_components (n k) (e k) ≡ ok k
  pub private_self :
      (k : Private) (p q dmp1 dmq1 iqmp : bn.BigNum)
      → private_p k ≡ some p
      → private_q k ≡ some q
      → private_dmp1 k ≡ some dmp1
      → private_dmq1 k ≡ some dmq1
      → private_iqmp k ≡ some iqmp
      → from_private_components (private_n k) (private_e k) (private_d k) p q dmp1 dmq1 iqmp ≡ ok k
  -- A public key made of two components holds them.
  pub public_made :
      (n' e' : bn.BigNum) (k : Public)
      → from_public_components n' e' ≡ ok k
      → (n k ≡ n') × (e k ≡ e')
  pub generate_bits :
      (s : Seed) (bits : ℕ) (k : Private)
      → generate s bits ≡ ok k
      → bn.num_bits (private_n k) ≡ bits

-- `openssl::dsa::Dsa<Public>` and `Dsa<Private>`.
pub record Dsas (bn : BigNums) : Type 1 where
  pub Public : Type 0
  pub Private : Type 0
  pub Seed : Type 0
  -- The arguments p, q, g, pub_key.
  pub from_public_components : bn.BigNum → bn.BigNum → bn.BigNum → bn.BigNum → Outcome Unit Public
  pub p : Public → bn.BigNum
  pub q : Public → bn.BigNum
  pub g : Public → bn.BigNum
  pub pub_key : Public → bn.BigNum
  -- The arguments p, q, g, priv_key, pub_key.
  pub from_private_components :
      bn.BigNum → bn.BigNum → bn.BigNum → bn.BigNum → bn.BigNum → Outcome Unit Private
  pub private_p : Private → bn.BigNum
  pub private_q : Private → bn.BigNum
  pub private_g : Private → bn.BigNum
  pub private_pub_key : Private → bn.BigNum
  pub priv_key : Private → bn.BigNum
  pub generate : Seed → ℕ → Outcome Unit Private
  -- The prime of a generated key has the length asked for.
  pub generate_bits :
      (s : Seed) (bits : ℕ) (k : Private)
      → generate s bits ≡ ok k
      → bn.num_bits (private_p k) ≡ bits
  pub public_made :
      (p' q' g' y' : bn.BigNum) (k : Public)
      → from_public_components p' q' g' y' ≡ ok k
      → (p k ≡ p') × (q k ≡ q') × (g k ≡ g') × (pub_key k ≡ y')
  pub public_self : (k : Public) → from_public_components (p k) (q k) (g k) (pub_key k) ≡ ok k
  pub private_self :
      (k : Private)
      → from_private_components
          (private_p k)
          (private_q k)
          (private_g k)
          (priv_key k)
          (private_pub_key k)
        ≡ ok k

-- `openssl::nid::Nid`, as far as the crate names it.
pub data Nid : Type 0 where
  x9_62_prime256v1 secp384r1 secp521r1 undef other_nid : Nid

-- `openssl::ec`. A point is converted in the form UNCOMPRESSED, with a fresh `BigNumContext`.
pub record Ecs (bn : BigNums) : Type 1 where
  pub Group : Type 0
  pub Point : Type 0
  pub Public : Type 0
  pub Private : Type 0
  pub Seed : Type 0
  pub from_curve_name : Nid → Outcome Unit Group
  pub curve_name : Group → Option Nid
  pub point_from_bytes : Group → Bytes → Outcome Unit Point
  pub point_to_bytes : Group → Point → Outcome Unit Bytes
  pub from_public_key : Group → Point → Outcome Unit Public
  pub from_private_components : Group → bn.BigNum → Point → Outcome Unit Private
  pub group : Public → Group
  pub public_key : Public → Point
  pub private_group : Private → Group
  pub private_public_key : Private → Point
  pub private_key : Private → bn.BigNum
  pub generate : Seed → Group → Outcome Unit Private
  -- A generated key lies in the group that it is generated in.
  pub generate_group :
      (s : Seed) (g : Group) (k : Private) → generate s g ≡ ok k → private_group k ≡ g
  pub curve_name_lem :
      (nid : Nid) (g : Group) → from_curve_name nid ≡ ok g → curve_name g ≡ some nid
  pub point_bytes :
      (g : Group) (p : Point) (b : Bytes) → point_to_bytes g p ≡ ok b → point_from_bytes g b ≡ ok p
  pub public_made :
      (g : Group) (p : Point) (k : Public)
      → from_public_key g p ≡ ok k
      → (group k ≡ g) × (public_key k ≡ p)
  pub public_self : (k : Public) → from_public_key (group k) (public_key k) ≡ ok k
  pub private_self :
      (k : Private)
      → from_private_components (private_group k) (private_key k) (private_public_key k) ≡ ok k

-- `ed25519_dalek`.
pub record Eds : Type 1 where
  pub VerifyingKey : Type 0
  pub SigningKey : Type 0
  pub Seed : Type 0
  pub from_bytes : Bytes → Outcome Unit VerifyingKey
  pub to_bytes : VerifyingKey → Bytes
  pub from_keypair_bytes : Bytes → Outcome Unit SigningKey
  pub to_keypair_bytes : SigningKey → Bytes
  -- The seed that a signing key is made of.
  pub signing_key_to_bytes : SigningKey → Bytes
  pub verifying_key : SigningKey → VerifyingKey
  pub key_eq : VerifyingKey → VerifyingKey → Bool
  pub generate : Seed → SigningKey
  pub key_eq_iff : (a b : VerifyingKey) → (key_eq a b ≡ true) ↔ (a ≡ b)
  pub length-to_bytes : (k : VerifyingKey) → length (to_bytes k) ≡ 32
  pub from_bytes-to_bytes : (k : VerifyingKey) → from_bytes (to_bytes k) ≡ ok k
  pub length-to_keypair_bytes : (k : SigningKey) → length (to_keypair_bytes k) ≡ 64
  pub from_keypair_bytes-to_keypair_bytes :
      (k : SigningKey) → from_keypair_bytes (to_keypair_bytes k) ≡ ok k

pub record KeyLib : Type 1 where
  pub bn : BigNums
  pub rsa : Rsas bn
  pub dsa : Dsas bn
  pub ec : Ecs bn
  pub ed : Eds
