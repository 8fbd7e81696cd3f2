-- ===== src/External/PKeys.antt =====
-- `openssl::pkey`: keys of any type, and `openssl::sign`.
use rust_osshkeys.Prelude.{◌≡◌, Bytes, length, Outcome, ok}
use rust_osshkeys.External.KeyTypes.{KeyLib}

-- `openssl::pkey::Id`, as far as the crate names it.
pub data PkeyId : Type 0 where
  rsa dsa ec ed25519 other_id : PkeyId

pub record PKeys (keys : KeyLib) : Type 1 where
  -- `PKey<Public>` and `PKey<Private>`.
  pub Public : Type 0
  pub Private : Type 0
  pub public_id : Public → PkeyId
  pub public_rsa : Public → Outcome Unit keys.rsa.Public
  pub public_dsa : Public → Outcome Unit keys.dsa.Public
  pub public_ec_key : Public → Outcome Unit keys.ec.Public
  pub raw_public_key : Public → Outcome Unit Bytes
  pub private_id : Private → PkeyId
  pub private_rsa : Private → Outcome Unit keys.rsa.Private
  pub private_dsa : Private → Outcome Unit keys.dsa.Private
  pub private_ec_key : Private → Outcome Unit keys.ec.Private
  pub raw_private_key : Private → Outcome Unit Bytes
  pub public_from_rsa : keys.rsa.Public → Outcome Unit Public
  pub public_from_dsa : keys.dsa.Public → Outcome Unit Public
  pub public_from_ec_key : keys.ec.Public → Outcome Unit Public
  pub private_from_rsa : keys.rsa.Private → Outcome Unit Private
  pub private_from_dsa : keys.dsa.Private → Outcome Unit Private
  pub private_from_ec_key : keys.ec.Private → Outcome Unit Private
  -- With `Id::ED25519`.
  pub public_key_from_raw_bytes : Bytes → Outcome Unit Public
  pub private_key_from_raw_bytes : Bytes → Outcome Unit Private
  -- What is put into a key is found in it.
  pub public_of_rsa :
      (k : keys.rsa.Public) (p : Public)
      → public_from_rsa k ≡ ok p
      → (public_id p ≡ rsa) × (public_rsa p ≡ ok k)
  pub public_of_dsa :
      (k : keys.dsa.Public) (p : Public)
      → public_from_dsa k ≡ ok p
      → (public_id p ≡ dsa) × (public_dsa p ≡ ok k)
  pub public_of_ec_key :
      (k : keys.ec.Public) (p : Public)
      → public_from_ec_key k ≡ ok p
      → (public_id p ≡ ec) × (public_ec_key p ≡ ok k)
  pub public_of_raw_bytes :
      (b : Bytes) (p : Public)
      → public_key_from_raw_bytes b ≡ ok p
      → (public_id p ≡ ed25519) × (raw_public_key p ≡ ok b)
  pub private_of_rsa :
      (k : keys.rsa.Private) (p : Private)
      → private_from_rsa k ≡ ok p
      → (private_id p ≡ rsa) × (private_rsa p ≡ ok k)
  pub private_of_dsa :
      (k : keys.dsa.Private) (p : Private)
      → private_from_dsa k ≡ ok p
      → (private_id p ≡ dsa) × (private_dsa p ≡ ok k)
  pub private_of_ec_key :
      (k : keys.ec.Private) (p : Private)
      → private_from_ec_key k ≡ ok p
      → (private_id p ≡ ec) × (private_ec_key p ≡ ok k)
  pub private_of_raw_bytes :
      (b : Bytes) (p : Private)
      → private_key_from_raw_bytes b ≡ ok p
      → (private_id p ≡ ed25519) × (raw_private_key p ≡ ok b)
  -- The raw private key of Ed25519 is the seed.
  pub length-raw_private_key :
      (p : Private) (b : Bytes) → private_id p ≡ ed25519 → raw_private_key p ≡ ok b → length b ≡ 32
