-- ===== src/Format/KdfReference.antt =====
-- `openssl_kdf` against a definition of `EVP_BytesToKey` as OpenSSL documents it.
use rust_osshkeys.Prelude.{
  ℕ, zero, suc, ◌+◌, ◌-◌, ◌≤◌, ◌<◌, ◌≡◌, ◌⊎◌, length-take_le, ◌∙◌, refl, sym, ap, arith, Bytes, [],
  ◌∷◌, ◌++◌, append-nil, append_assoc, length, length-append, length-take, take, take-append_left,
  Bool, true, false, not, ltb, Bool-cases, inl, inr, if◌then◌else◌, some, ok,
}
use rust_osshkeys.Error.{fail, invalid_key_size}
use rust_osshkeys.External.Digests.{Digests}
use rust_osshkeys.Format.Kdf.{
  max_key_len, push_bytes, Round, rehash, kdf_round, kdf_loop, openssl_kdf,
}

-- The key is filled up with as many bytes as there is room for.
push_bytes_lem :
    (room keylen : ℕ) (key dig : Bytes)
    → length key + room ≡ keylen
    → push_bytes keylen key dig ≡ key ++ take room dig
unfolding push_bytes
push_bytes_lem zero keylen key [] h = sym (append-nil key)
push_bytes_lem (suc room) keylen key [] h = sym (append-nil key)
push_bytes_lem zero keylen key (byte ∷ dig) h =
    let full : ltb (length key) keylen ≡ false = ground arith in
    rw full (push_bytes_lem zero keylen key dig h)
push_bytes_lem (suc room) keylen key (byte ∷ dig) h =
    let short : ltb (length key) keylen ≡ true = ground arith in
    let longer : length (key ++ (byte ∷ [])) + room ≡ keylen =
      omega (arith, length-append key (byte ∷ [])) in
    rw short (
      push_bytes_lem room keylen (key ++ (byte ∷ [])) dig longer
      ∙ append_assoc key (byte ∷ []) (take room dig))

take_twice : (n : ℕ) (b c : Bytes) → take n (take n b ++ c) ≡ take n (b ++ c)
take_twice zero b c = refl
take_twice (suc n) [] c = refl
take_twice (suc n) (x ∷ b) c = ap (◌∷◌ x) (take_twice n b c)

take_joined :
    (n room : ℕ) (a b c : Bytes)
    → length a + room ≡ n
    → take n ((a ++ take room b) ++ c) ≡ take n (a ++ (b ++ c))
take_joined n room [] b c h =
    let same : room ≡ n = omega arith in ap (λ k. take n (take k b ++ c)) same ∙ take_twice n b c
take_joined zero room (x ∷ a) b c h = refl
take_joined (suc n) room (x ∷ a) b c h = ap (◌∷◌ x) (take_joined n room a b c (omega arith))

take_full : (n : ℕ) (a c : Bytes) → length a ≡ n → take n (a ++ c) ≡ a
take_full n a c h = ap (λ k. take k (a ++ c)) (sym h) ∙ take-append_left a c

module _ (dg : Digests) where
  -- A hash of a hash, and so on.
  abbrev pub hash_again : ℕ → Bytes → Bytes
  hash_again zero d = d
  hash_again (suc n) d = hash_again n (dg.hash d)

  module _ (data_ salt : Bytes) (iter : ℕ) where
    -- D_i = HASH^iter(D_(i-1) || data || salt), and D_1 || D_2 || ... from a given D_0 on.
    abbrev pub next_block : Bytes → Bytes
    next_block d = hash_again (iter - 1) (dg.hash ((d ++ data_) ++ salt))

    abbrev pub evp_blocks : ℕ → Bytes → Bytes
    evp_blocks zero d = []
    evp_blocks (suc n) d = let e = next_block d in e ++ evp_blocks n e

  length-hash_again : (n : ℕ) (d : Bytes) → 0 < length d → 0 < length (hash_again n d)
  length-hash_again zero d h = h
  length-hash_again (suc n) d h = length-hash_again n (dg.hash d) (dg.length-hash d)

  rehash_lem :
      (n : ℕ) (p : Bytes × dg.Digest)
      → dg.fed p.1 ≡ []
      → ((rehash dg n p).0 ≡ hash_again n p.0) × (dg.fed (rehash dg n p).1 ≡ [])
  unfolding rehash
  rehash_lem zero p h = (refl, h)
  rehash_lem (suc n) p h =
      let d = dg.update p.1 p.0 in
      let held = dg.fed-update p.1 p.0 ∙ ap (λ b. b ++ p.0) h in
      let (again, empty) = rehash_lem n (dg.finalize_reset d) (dg.emptied d) in
      (again ∙ ap (hash_again n) (dg.hashed d ∙ ap dg.hash held), empty)

  module _ (data_ salt : Bytes) (keylen iter : ℕ) where
    -- Between two rounds the digest is empty, and before the first there is no block.
    abbrev IsFresh : Round dg → Type 0
    IsFresh r = (dg.fed r.digest ≡ []) × (r.first ≡ true → r.dig ≡ [])

    -- What the digest is fed with first.
    fed_dig :
        (first : Bool) (d : dg.Digest) (dig : Bytes)
        → dg.fed d ≡ []
        → (first ≡ true → dig ≡ [])
        → dg.fed (if not first then dg.update d dig else d) ≡ dig
    fed_dig true d dig e h = e ∙ sym (h refl)
    fed_dig false d dig e h = dg.fed-update d dig ∙ ap (λ b. b ++ dig) e

    abbrev step : Round dg → Round dg
    step = kdf_round dg data_ salt keylen iter

    kdf_round_lem :
        (r : Round dg) (room : ℕ)
        → IsFresh r
        → length r.key + room ≡ keylen
        → ((step r).key ≡ r.key ++ take room (next_block data_ salt iter r.dig))
          × ((step r).dig ≡ next_block data_ salt iter r.dig)
          × IsFresh (step r)
    unfolding kdf_round
    kdf_round_lem r room (empty, start) h =
        let fed = if not r.first then dg.update r.digest r.dig else r.digest in
        let all = dg.update (dg.update fed data_) salt in
        let held : dg.fed all ≡ (r.dig ++ data_) ++ salt =
          dg.fed-update (dg.update fed data_) salt
          ∙ ap (λ b. b ++ salt)
              (dg.fed-update fed data_
                ∙ ap (λ b. b ++ data_) (fed_dig r.first r.digest r.dig empty start)) in
        let p = rehash dg (iter - 1) (dg.finalize_reset all) in
        let (again, emptied) = rehash_lem (iter - 1) (dg.finalize_reset all) (dg.emptied all) in
        let block : p.0 ≡ next_block data_ salt iter r.dig =
          again ∙ ap (hash_again (iter - 1)) (dg.hashed all ∙ ap dg.hash held) in
        (
          push_bytes_lem room keylen r.key p.0 h ∙ ap (λ b. r.key ++ take room b) block,
          block,
          (emptied, λ f. cc),
        )

    kdf_loop_lem :
        (fuel room : ℕ) (r : Round dg)
        → IsFresh r
        → length r.key + room ≡ keylen
        → room ≤ fuel
        → kdf_loop dg data_ salt keylen iter fuel r
          ≡ some (ok (take keylen (r.key ++ evp_blocks data_ salt iter fuel r.dig)))
    unfolding kdf_loop
    kdf_loop_lem zero room r fresh h enough =
        let full : ltb (length r.key) keylen ≡ false = ground arith in
        rw full (ap (λ b. some (ok b)) (sym (take_full keylen r.key [] (omega arith))))
    kdf_loop_lem (suc fuel) room r fresh h enough = elim (Bool-cases (ltb (length r.key) keylen)) [
      | inl y ↦
          let block = next_block data_ salt iter r.dig in
          let (key, dig, next) = kdf_round_lem r room fresh h in
          let some_bytes =
            length-hash_again (iter - 1) _ (dg.length-hash ((r.dig ++ data_) ++ salt)) in
          let size = ap length key ∙ length-append r.key (take room block) in
          let short : length r.key < keylen = ground arith in
          let room2 = keylen - length (step r).key in
          let rest =
            kdf_loop_lem fuel room2 (step r) next (omega (arith, size, length-take room block, h))
              (omega (arith, size, length-take room block, h, enough, short, some_bytes)) in
          rw y (
            rest
            ∙ (λ i. some (ok (take keylen (key i ++ evp_blocks data_ salt iter fuel (dig i)))))
            ∙ ap (λ b. some (ok b))
                (take_joined keylen room r.key block (evp_blocks data_ salt iter fuel block) h))
      | inr n ↦
          let full : length r.key ≡ keylen = ground arith in
          rw n (ap (λ b. some (ok b)) (sym (take_full keylen r.key _ full)))
    ]

    -- For a key of at most 64 bytes `openssl_kdf` ends, within one round for each byte, and returns the
    -- first bytes of the blocks of `EVP_BytesToKey`: each is the hash, as often as the iterations
    -- say, of the block before, the data and the salt. A longer key is refused with InvalidKeySize.
    pub openssl_kdf_lem :
        (digest : dg.Digest)
        → ((keylen ≤ max_key_len)
            × (openssl_kdf dg data_ salt keylen iter digest
                ≡ some (ok (take keylen (evp_blocks data_ salt iter keylen [])))))
          ⊎ ((max_key_len < keylen)
              × (openssl_kdf dg data_ salt keylen iter digest ≡ some (fail invalid_key_size)))
    unfolding openssl_kdf
    openssl_kdf_lem digest = elim (Bool-cases (ltb max_key_len keylen)) [
      | inl y ↦ inr (ground arith, rw y refl)
      | inr n ↦ inl (
        ground arith,
        rw n (
            kdf_loop_lem keylen keylen
              (record { digest = dg.reset digest; key = []; dig = []; first = true })
              (dg.fed-reset digest, λ _. refl) (omega arith) (omega arith)),
      )
    ]

    length-evp_blocks : (n : ℕ) (d : Bytes) → n ≤ length (evp_blocks data_ salt iter n d)
    length-evp_blocks zero d = omega arith
    length-evp_blocks (suc n) d =
        let e = next_block data_ salt iter d in
        omega (
          arith,
          length-append e (evp_blocks data_ salt iter n e),
          length-evp_blocks n e,
          length-hash_again (iter - 1) _ (dg.length-hash ((d ++ data_) ++ salt)),
        )

    -- The loop of `openssl_kdf` ends whatever the digest holds, and a key that is asked for with at
    -- most 64 bytes has exactly as many.
    pub openssl_kdf_total :
        (digest : dg.Digest)
        → keylen ≤ max_key_len
        → (key : Bytes) × (openssl_kdf dg data_ salt keylen iter digest ≡ some (ok key))
          × (length key ≡ keylen)
    openssl_kdf_total digest h = elim (openssl_kdf_lem digest) [
      | inl (_, e) ↦ (
        take keylen (evp_blocks data_ salt iter keylen []),
        e,
        length-take_le keylen _ (length-evp_blocks keylen []),
      )
      | inr (long, _) ↦ absurd (omega arith)
    ]
