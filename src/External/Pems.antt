-- ===== src/External/Pems.antt =====
-- Keys as PEM texts: the readers and writers of OpenSSL, and the crate `pem`.
use rust_osshkeys.Prelude.{
  ◌<◌, ◌≤◌, length, ◌||◌, ◌≡◌, Bytes, Bool, ◌∷◌, [], ◌++◌, ascii, true, false, not, ◌&&◌, ◌==◌,
  if◌then◌else◌, Option, none, some, Outcome, ok,
}
use rust_osshkeys.External.Base64s.{Base64s}
use rust_osshkeys.External.Crypters.{SymmCipher}
use rust_osshkeys.External.KeyTypes.{KeyLib}
use rust_osshkeys.External.PKeys.{PKeys, rsa, dsa, ec}
use rust_osshkeys.Sshbuf.Utf8.{IsText}

-- `pem::Pem`: the tag, the decoded contents and the headers.
pub record PemBlock : Type 0 where
  pub tag : Bytes
  pub contents : Bytes
  pub header : Bytes → Option Bytes

-- The body of a PEM text without its line feeds.
unfoldable pub without_feeds : Bytes → Bytes
without_feeds [] = []
without_feeds (c ∷ cs) = let rest = without_feeds cs in if c == 10 then rest else c ∷ rest

-- No line of the text is empty. The flag tells that a line begins.
unfoldable pub no_empty_line : Bool → Bytes → Bool
no_empty_line begins [] = not begins
no_empty_line begins (c ∷ cs) =
    if c == 10 then not begins && no_empty_line true cs else no_empty_line false cs

unfoldable pub has_nul : Bytes → Bool
has_nul [] = false
has_nul (c ∷ cs) = c == 0 || has_nul cs

-- A passphrase that OpenSSL takes whole when it reads a text: `private_key_from_pem_passphrase`
-- panics on an embedded NUL, and OpenSSL's callback for passphrases stops at 1024 bytes. An empty
-- one is refused by older versions.
abbrev pub IsPassphrase : Bytes → Type 0
IsPassphrase pass = (has_nul pass ≡ false) × (0 < length pass) × (length pass ≤ 1024)

abbrev pub begin_of : Bytes → Bytes
begin_of tag = ascii "-----BEGIN " ++ (tag ++ ascii "-----")

module _ {Private : Type 0} (parse : Bytes → Outcome Unit PemBlock)
    (private_key_from_pem : Bytes → Outcome Unit Private)
    (private_key_from_pem_passphrase : Bytes → Bytes → Outcome Unit Private) where
  -- `private_key_from_pem`, or with a passphrase `private_key_from_pem_passphrase`.
  abbrev pub read_private : Option Bytes → Bytes → Outcome Unit Private
  read_private none t = private_key_from_pem t
  read_private (some pass) t = private_key_from_pem_passphrase t pass

  -- A text that OpenSSL reads as a key, and of which `pem` finds the tag.
  pub record PrivateText (t tag : Bytes) (pass : Option Bytes) (p : Private) : Type 0 where
    pub reads : read_private pass t ≡ ok p
    pub text : IsText t
    pub block : PemBlock
    pub parsed : parse t ≡ ok block
    pub tagged : block.tag ≡ tag

pub record Pems (keys : KeyLib) (pk : PKeys keys) (b64 : Base64s) : Type 1 where
  pub parse : Bytes → Outcome Unit PemBlock
  pub private_key_from_pem : Bytes → Outcome Unit pk.Private
  pub private_key_from_pem_passphrase : Bytes → Bytes → Outcome Unit pk.Private
  pub public_key_from_pem : Bytes → Outcome Unit pk.Public
  pub public_key_from_pem_pkcs1 : Bytes → Outcome Unit keys.rsa.Public
  pub public_key_to_pem : pk.Public → Outcome Unit Bytes
  pub public_key_to_pem_pkcs1 : keys.rsa.Public → Outcome Unit Bytes
  pub private_key_to_pem_pkcs8 : pk.Private → Outcome Unit Bytes
  pub private_key_to_pem_pkcs8_passphrase : pk.Private → SymmCipher → Bytes → Outcome Unit Bytes
  pub rsa_to_pem : keys.rsa.Private → Outcome Unit Bytes
  pub dsa_to_pem : keys.dsa.Private → Outcome Unit Bytes
  pub ec_to_pem : keys.ec.Private → Outcome Unit Bytes
  pub rsa_to_pem_passphrase : keys.rsa.Private → SymmCipher → Bytes → Outcome Unit Bytes
  pub dsa_to_pem_passphrase : keys.dsa.Private → SymmCipher → Bytes → Outcome Unit Bytes
  pub ec_to_pem_passphrase : keys.ec.Private → SymmCipher → Bytes → Outcome Unit Bytes
  -- What is written is read back, with the passphrase that encrypted it if that is taken whole.
  pub rsa_text :
      (k : keys.rsa.Private) (t : Bytes)
      → rsa_to_pem k ≡ ok t
      → (p : pk.Private) × PrivateText parse private_key_from_pem private_key_from_pem_passphrase t
          (ascii "RSA PRIVATE KEY")
          none
          p
        × (pk.private_id p ≡ rsa)
        × (pk.private_rsa p ≡ ok k)
  pub dsa_text :
      (k : keys.dsa.Private) (t : Bytes)
      → dsa_to_pem k ≡ ok t
      → (p : pk.Private) × PrivateText parse private_key_from_pem private_key_from_pem_passphrase t
          (ascii "DSA PRIVATE KEY")
          none
          p
        × (pk.private_id p ≡ dsa)
        × (pk.private_dsa p ≡ ok k)
  pub ec_text :
      (k : keys.ec.Private) (t : Bytes)
      → ec_to_pem k ≡ ok t
      → (p : pk.Private) × PrivateText parse private_key_from_pem private_key_from_pem_passphrase t
          (ascii "EC PRIVATE KEY")
          none
          p
        × (pk.private_id p ≡ ec)
        × (pk.private_ec_key p ≡ ok k)
  pub rsa_passphrase_text :
      (k : keys.rsa.Private) (c : SymmCipher) (pass t : Bytes)
      → IsPassphrase pass
      → rsa_to_pem_passphrase k c pass ≡ ok t
      → (p : pk.Private) × PrivateText parse private_key_from_pem private_key_from_pem_passphrase t
          (ascii "RSA PRIVATE KEY")
          (some pass)
          p
        × (pk.private_id p ≡ rsa)
        × (pk.private_rsa p ≡ ok k)
  pub dsa_passphrase_text :
      (k : keys.dsa.Private) (c : SymmCipher) (pass t : Bytes)
      → IsPassphrase pass
      → dsa_to_pem_passphrase k c pass ≡ ok t
      → (p : pk.Private) × PrivateText parse private_key_from_pem private_key_from_pem_passphrase t
          (ascii "DSA PRIVATE KEY")
          (some pass)
          p
        × (pk.private_id p ≡ dsa)
        × (pk.private_dsa p ≡ ok k)
  pub ec_passphrase_text :
      (k : keys.ec.Private) (c : SymmCipher) (pass t : Bytes)
      → IsPassphrase pass
      → ec_to_pem_passphrase k c pass ≡ ok t
      → (p : pk.Private) × PrivateText parse private_key_from_pem private_key_from_pem_passphrase t
          (ascii "EC PRIVATE KEY")
          (some pass)
          p
        × (pk.private_id p ≡ ec)
        × (pk.private_ec_key p ≡ ok k)
  pub pkcs8_text :
      (p : pk.Private) (t : Bytes)
      → private_key_to_pem_pkcs8 p ≡ ok t
      → PrivateText parse private_key_from_pem private_key_from_pem_passphrase t
          (ascii "PRIVATE KEY")
          none
          p
  pub pkcs8_passphrase_text :
      (p : pk.Private) (c : SymmCipher) (pass t : Bytes)
      → IsPassphrase pass
      → private_key_to_pem_pkcs8_passphrase p c pass ≡ ok t
      → PrivateText parse private_key_from_pem private_key_from_pem_passphrase t
          (ascii "ENCRYPTED PRIVATE KEY")
          (some pass)
          p
  pub public_text :
      (p : pk.Public) (t : Bytes)
      → public_key_to_pem p ≡ ok t
      → (rest : Bytes) × (t ≡ begin_of (ascii "PUBLIC KEY") ++ rest)
        × IsText t
        × (public_key_from_pem t ≡ ok p)
  pub pkcs1_text :
      (k : keys.rsa.Public) (t : Bytes)
      → public_key_to_pem_pkcs1 k ≡ ok t
      → (rest : Bytes) × (t ≡ begin_of (ascii "RSA PUBLIC KEY") ++ rest)
        × IsText t
        × (public_key_from_pem_pkcs1 t ≡ ok k)
  -- `pem::parse` decodes the lines between the two markers.
  pub openssh_text :
      (body contents : Bytes)
      → no_empty_line true body ≡ true
      → b64.decode (without_feeds body) ≡ ok contents
      → (block : PemBlock) × (parse (
            begin_of (ascii "OPENSSH PRIVATE KEY")
            ++ (10 ∷ (body ++ (10 ∷ ascii "-----END OPENSSH PRIVATE KEY-----" ++ (10 ∷ [])))))
          ≡ ok block)
        × (block.tag ≡ ascii "OPENSSH PRIVATE KEY")
        × (block.contents ≡ contents)
