-- ===== src/External/Signers.antt =====
-- `openssl::sign`, and the signatures of ed25519_dalek.
use rust_osshkeys.Prelude.{ℕ, ◌≡◌, Bytes, Bool, true, Outcome, ok}
use rust_osshkeys.External.KeyTypes.{KeyLib}
use rust_osshkeys.External.PKeys.{PKeys}

-- `openssl::hash::MessageDigest`, as far as the crate names its values.
pub data MessageDigest : Type 0 where
  sha1 sha256 sha512 : MessageDigest

module _ {Key State Result : Type 0} (new : MessageDigest → Key → Outcome Unit State)
    (update : State → Bytes → Outcome Unit State) (finish : State → Outcome Unit Result) where
  -- A `Signer` or a `Verifier` that is made, fed with the data and finished returns `result`.
  pub record Finishes (md : MessageDigest) (key : Key) (data_ : Bytes) (result : Result)
      : Type 0 where
    pub state : State
    pub updated : State
    pub made : new md key ≡ ok state
    pub fed : update state data_ ≡ ok updated
    pub finished : finish updated ≡ ok result

pub record Signers (keys : KeyLib) (pk : PKeys keys) : Type 1 where
  pub Signer : Type 0
  pub Verifier : Type 0
  pub new_signer : MessageDigest → pk.Private → Outcome Unit Signer
  pub update_signer : Signer → Bytes → Outcome Unit Signer
  pub sign_to_vec : Signer → Outcome Unit Bytes
  pub new_verifier : MessageDigest → pk.Public → Outcome Unit Verifier
  pub update_verifier : Verifier → Bytes → Outcome Unit Verifier
  pub verify : Bytes → Verifier → Outcome Unit Bool
  -- The private number of the key belongs to its public numbers. OpenSSL does not check this where a
  -- key is made of its components, but its generators make such keys.
  pub IsRsaPair : keys.rsa.Private → Type 0
  pub IsDsaPair : keys.dsa.Private → Type 0
  pub IsEcPair : keys.ec.Private → Type 0
  pub rsa_generated :
      (s : keys.rsa.Seed) (bits : ℕ) (k : keys.rsa.Private)
      → keys.rsa.generate s bits ≡ ok k
      → IsRsaPair k
  pub dsa_generated :
      (s : keys.dsa.Seed) (bits : ℕ) (k : keys.dsa.Private)
      → keys.dsa.generate s bits ≡ ok k
      → IsDsaPair k
  pub ec_generated :
      (s : keys.ec.Seed) (g : keys.ec.Group) (k : keys.ec.Private)
      → keys.ec.generate s g ≡ ok k
      → IsEcPair k
  -- A signature of such a key is verified with its public numbers and the same hash function.
  pub rsa_verifies :
      (k : keys.rsa.Private) (q : keys.rsa.Public) (p : pk.Private) (md : MessageDigest)
      (data_ sig : Bytes)
      → IsRsaPair k
      → pk.private_from_rsa k ≡ ok p
      → Finishes new_signer update_signer sign_to_vec md p data_ sig
      → keys.rsa.n q ≡ keys.rsa.private_n k
      → keys.rsa.e q ≡ keys.rsa.private_e k
      → (o : pk.Public) × (pk.public_from_rsa q ≡ ok o)
        × Finishes new_verifier update_verifier (verify sig) md o data_ true
  pub dsa_verifies :
      (k : keys.dsa.Private) (q : keys.dsa.Public) (p : pk.Private) (md : MessageDigest)
      (data_ sig : Bytes)
      → IsDsaPair k
      → pk.private_from_dsa k ≡ ok p
      → Finishes new_signer update_signer sign_to_vec md p data_ sig
      → keys.dsa.p q ≡ keys.dsa.private_p k
      → keys.dsa.q q ≡ keys.dsa.private_q k
      → keys.dsa.g q ≡ keys.dsa.private_g k
      → keys.dsa.pub_key q ≡ keys.dsa.private_pub_key k
      → (o : pk.Public) × (pk.public_from_dsa q ≡ ok o)
        × Finishes new_verifier update_verifier (verify sig) md o data_ true
  pub ec_verifies :
      (k : keys.ec.Private) (q : keys.ec.Public) (p : pk.Private) (md : MessageDigest)
      (data_ sig : Bytes)
      → IsEcPair k
      → pk.private_from_ec_key k ≡ ok p
      → Finishes new_signer update_signer sign_to_vec md p data_ sig
      → keys.ec.group q ≡ keys.ec.private_group k
      → keys.ec.public_key q ≡ keys.ec.private_public_key k
      → (o : pk.Public) × (pk.public_from_ec_key q ≡ ok o)
        × Finishes new_verifier update_verifier (verify sig) md o data_ true
  -- ed25519_dalek: `Signature`, `Signer` and `Verifier`. A key pair verifies with its public key.
  pub Signature : Type 0
  pub try_from : Bytes → Outcome Unit Signature
  pub to_bytes : Signature → Bytes
  pub ed_sign : keys.ed.SigningKey → Bytes → Signature
  pub ed_verify : keys.ed.VerifyingKey → Bytes → Signature → Outcome (Unit {0}) (Unit {0})
  pub ed_pair_verify : keys.ed.SigningKey → Bytes → Signature → Outcome (Unit {0}) (Unit {0})
  pub try_from-to_bytes : (s : Signature) → try_from (to_bytes s) ≡ ok s
  pub ed_verifies :
      (k : keys.ed.SigningKey) (data_ : Bytes)
      → ed_verify (keys.ed.verifying_key k) data_ (ed_sign k data_) ≡ ok tt
  pub ed_pair_verify_lem :
      (k : keys.ed.SigningKey) (data_ : Bytes) (s : Signature)
      → ed_pair_verify k data_ s ≡ ed_verify (keys.ed.verifying_key k) data_ s
