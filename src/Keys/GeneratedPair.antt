-- ===== src/Keys/GeneratedPair.antt =====
-- src/keys/mod.rs: `KeyPair::generate`, and the pairs that SignRoundTrip is about.
use rust_osshkeys.Prelude.{ℕ, ◌≡◌, ◌∙◌, sym, ap, ok}
use rust_osshkeys.External.KeyTypes.{KeyLib}
use rust_osshkeys.External.PKeys.{PKeys}
use rust_osshkeys.External.Signers.{Signers}
use rust_osshkeys.Keys.Rsa
use rust_osshkeys.Keys.Dsa
use rust_osshkeys.Keys.Ecdsa
use rust_osshkeys.Keys.Ed25519
use rust_osshkeys.Keys.Container.{KeyType, KeyPairType, KeyPair, Seeds, generate}
use rust_osshkeys.Keys.Generation.{made_of, rsa_made, dsa_made, ecdsa_made}
use rust_osshkeys.Keys.SignRoundTrip.{IsPair}

module _ (lib : KeyLib) (pk : PKeys lib) (sg : Signers lib pk) (s : Seeds lib) (bits : ℕ) where
  abbrev IsPairOf : KeyPair lib → Type 0
  IsPairOf k = IsPair lib pk sg k.key

  -- The private number of a key that is generated belongs to its public numbers, and an ECDSA key
  -- lies in the group of its curve.
  pub generate-IsPair :
      (t : KeyType) (k : KeyPair lib) → generate lib s t bits ≡ ok k → IsPair lib pk sg k.key
  unfolding generate
  generate-IsPair KeyType.rsa k h =
      made_of lib s bits IsPairOf (Rsa.generate lib s.rsa_seed bits) KeyPairType.rsa k
        (λ a e. sg.rsa_generated s.rsa_seed _ a.rsa (rsa_made lib s bits a e)) h
  generate-IsPair KeyType.dsa k h =
      made_of lib s bits IsPairOf (Dsa.generate lib s.dsa_seed bits) KeyPairType.dsa k
        (λ a e. sg.dsa_generated s.dsa_seed _ a.dsa (dsa_made lib s bits a e)) h
  generate-IsPair KeyType.ecdsa k h =
      made_of lib s bits IsPairOf (Ecdsa.generate lib s.ec_seed bits) KeyPairType.ecdsa k
        (λ a e.
          let (g, _, named, made) = ecdsa_made lib s bits a e in
          (
            sg.ec_generated s.ec_seed g a.key made,
            named ∙ ap ok (sym (lib.ec.generate_group s.ec_seed g a.key made)),
          ))
        h
  generate-IsPair KeyType.ed25519 k h =
      made_of lib s bits IsPairOf (Ed25519.generate lib s.ed_seed bits) KeyPairType.ed25519 k
        (λ a e. tt) h
