-- ===== src/Format/Privkey/Padding.antt =====
-- The padding of the private section: what the loop of `encode_ossh_priv` writes, and what the
-- loop of `decode_ossh_priv` accepts.
use rust_osshkeys.Prelude.{
  length-drop, drop, true, false, ◌-◌, ℕ, zero, suc, ◌+◌, ◌%◌, ◌<◌, ◌≤◌, ◌≡◌, ◌≢◌, ◌⊎◌, inl, inr,
  refl, sym, ap, ◌∙◌, arith, Bytes, [], ◌∷◌, ◌++◌, append-nil, append_assoc, length, length-append,
  bit_and, ◌==◌, Bool-cases, take, ok,
}
use rust_osshkeys.Error.{on_io, fail, invalid_key_format, from_io}
use rust_osshkeys.External.OsshLib.{OsshLib}
use native.Mathlib.Nat.{add-zero}
use rust_osshkeys.Sshbuf.Reader.{Writes}
use rust_osshkeys.Sshbuf.Rules.{Writes-convert}
use rust_osshkeys.Sshbuf.RoundTrip.{Writes-write_all}
use rust_osshkeys.Sshbuf.Buffer.{
  SshBuf, as_slice, unread, read_lem, read_end, len, read, ssh_buf_writer,
}
use rust_osshkeys.Cipher.Table.{Cipher, block_size}
use rust_osshkeys.Format.Privkey.Encode.{put_pad, pad_loop}
use rust_osshkeys.Format.Privkey.Decode.{check_padding}

-- The padding bytes after the first `i`: i + 1, i + 2, and so on, each without its high bits.
unfoldable pub pads : ℕ → ℕ → Bytes
pads i zero = []
pads i (suc n) = bit_and (i + 1) 0xff ∷ pads (i + 1) n

pub length-pads : (i n : ℕ) → length (pads i n) ≡ n
unfolding pads
length-pads i zero = refl
length-pads i (suc n) = ap suc (length-pads (i + 1) n)

pads_cons :
    (i x : ℕ) (u : Bytes)
    → (bit_and (i + 1) 0xff == x) ≡ true
    → u ≡ pads (i + 1) (length u)
    → x ∷ u ≡ pads i (length (x ∷ u))
unfolding pads
pads_cons i x u h e =
    let head : bit_and (i + 1) 0xff ≡ x = ground arith in
    ap (◌∷◌ x) e ∙ ap (λ y. y ∷ pads (i + 1) (length u)) (sym head)

cons_pads :
    (i x : ℕ) (u : Bytes)
    → x ∷ u ≡ pads i (length (x ∷ u))
    → (bit_and (i + 1) 0xff ≡ x) × (u ≡ pads (i + 1) (length u))
unfolding pads
cons_pads i x u e = (sym (cc e), cc e)

-- How much a block lacks.
missing :
    (block size : ℕ) → (block ≡ 8) ⊎ (block ≡ 16) → (m : ℕ) × (m < block) × ((size + m) % block ≡ 0)
missing block size (inl e) = rw e ((8 - size % 8) % 8, omega arith, omega arith)
missing block size (inr e) = rw e ((16 - size % 16) % 16, omega arith, omega arith)

pub block_sizes : (c : Cipher) → (block_size c ≡ 8) ⊎ (block_size c ≡ 16)
unfolding block_size
block_sizes Cipher.aes128_cbc = inr refl
block_sizes Cipher.aes192_cbc = inr refl
block_sizes Cipher.aes256_cbc = inr refl
block_sizes Cipher.aes128_ctr = inr refl
block_sizes Cipher.aes192_ctr = inr refl
block_sizes Cipher.aes256_ctr = inr refl
block_sizes Cipher.tdes_cbc = inl refl
block_sizes Cipher.null = inl refl

module _ (lib : OsshLib) where
  put_pad_lem :
      (i : ℕ) (s : SshBuf lib.cv)
      → (t : SshBuf lib.cv) × (put_pad lib i s ≡ ok (tt, t))
        × (as_slice lib.cv t ≡ as_slice lib.cv s ++ (bit_and i 0xff ∷ []))
  unfolding put_pad ssh_buf_writer
  put_pad_lem i s =
      let wr = ssh_buf_writer lib.cv in
      let b : Bytes = bit_and i 0xff ∷ [] in
      let writes : Writes wr (on_io (lib.bo.write_u8 (SshBuf lib.cv) wr (bit_and i 0xff))) b tt =
        rw lib.bo.write_u8_lem (Writes-convert from_io _ (Writes-write_all wr b)) in
      writes.at s

  pad_loop_done :
      (fuel block i : ℕ) (s : SshBuf lib.cv)
      → length (as_slice lib.cv s) % block ≡ 0
      → pad_loop lib fuel block i s ≡ ok (tt, s)
  unfolding pad_loop as_slice len
  pad_loop_done zero block i s h = rw h
  pad_loop_done (suc fuel) block i s h = rw h

  pad_loop_round :
      (fuel block i : ℕ) (s t : SshBuf lib.cv)
      → (length (as_slice lib.cv s) % block == 0) ≡ false
      → put_pad lib (i + 1) s ≡ ok (tt, t)
      → pad_loop lib (suc fuel) block i s ≡ pad_loop lib fuel block (i + 1) t
  unfolding pad_loop as_slice len
  pad_loop_round fuel block i s t h e = rw (h, e) refl

  pad_loop_lem :
      (fuel block i m : ℕ) (s : SshBuf lib.cv)
      → m ≤ fuel
      → (length (as_slice lib.cv s) + m) % block ≡ 0
      → (n : ℕ) × (n ≤ m)
        × (t : SshBuf lib.cv) × (pad_loop lib fuel block i s ≡ ok (tt, t))
        × (as_slice lib.cv t ≡ as_slice lib.cv s ++ pads i n)
        × (length (as_slice lib.cv t) % block ≡ 0)
  unfolding pads
  pad_loop_lem fuel block i zero s h e =
      let full : length (as_slice lib.cv s) % block ≡ 0 =
        ap (λ x. x % block) (sym (add-zero _)) ∙ e in
      (0, omega arith, s, pad_loop_done fuel block i s full, sym (append-nil _), full)
  pad_loop_lem zero block i (suc m) s h e = absurd (omega arith)
  pad_loop_lem (suc fuel) block i (suc m) s h e =
      elim (Bool-cases (length (as_slice lib.cv s) % block == 0)) [
        | inl full ↦
            let full' : length (as_slice lib.cv s) % block ≡ 0 = ground arith in
            (0, omega arith, s, pad_loop_done (suc fuel) block i s full', sym (append-nil _), full')
        | inr lacks ↦
            let (t, put, grown) = put_pad_lem (i + 1) s in
            let size : length (as_slice lib.cv t) ≡ length (as_slice lib.cv s) + 1 =
              ap length grown ∙ length-append (as_slice lib.cv s) _ in
            let sum : length (as_slice lib.cv t) + m ≡ length (as_slice lib.cv s) + suc m =
              omega (arith, size) in
            let (n, few, z, ran, end, full) =
              pad_loop_lem fuel block (i + 1) m t (omega arith) (ap (λ x. x % block) sum ∙ e) in
            (
              suc n,
              omega arith,
              z,
              pad_loop_round fuel block i s t lacks put ∙ ran,
              end ∙ ap (λ x. x ++ pads (i + 1) n) grown ∙ append_assoc (as_slice lib.cv s) _ _,
              full,
            )
      ]

  -- One round of the check, on a byte.
  check_round :
      (fuel i x : ℕ) (s t : SshBuf lib.cv)
      → read lib.cv 1 s ≡ ok (x ∷ [], t)
      → ((bit_and (i + 1) 0xff == x) ≡ true
          → check_padding lib (suc fuel) i s ≡ check_padding lib fuel (i + 1) t)
        × ((bit_and (i + 1) 0xff == x) ≡ false
            → check_padding lib (suc fuel) i s ≡ fail invalid_key_format)
  unfolding check_padding
  check_round fuel i x s t e = (λ h. rw (e, h) refl, λ h. rw (e, h) refl)

  check_end :
      (fuel i : ℕ) (s : SshBuf lib.cv)
      → read lib.cv 1 s ≡ ok ([], s)
      → check_padding lib (suc fuel) i s ≡ ok (tt, s)
  unfolding check_padding
  check_end fuel i s e = rw e refl

  read_one :
      (x : ℕ) (u : Bytes) (s : SshBuf lib.cv)
      → unread lib.cv s ≡ x ∷ u
      → (t : SshBuf lib.cv) × (read lib.cv 1 s ≡ ok (x ∷ [], t)) × (unread lib.cv t ≡ u)
  read_one x u s e =
      let (n, pos, fits, within, t, got, left) =
        read_lem lib.cv s 1 (omega arith) (rw e (omega arith)) in
      let one : n ≡ 1 = omega arith in
      (
        t,
        got ∙ ap (λ c. ok (c, t)) (ap (λ k. take k (unread lib.cv s)) one ∙ ap (take 1) e),
        left ∙ ap (λ k. drop k (unread lib.cv s)) one ∙ ap (drop 1) e,
      )

  -- What the check of the padding returns on a buffer, by what is unread of it.
  check_padding_cases :
      (fuel i : ℕ) (u : Bytes) (s : SshBuf lib.cv)
      → length u < fuel
      → unread lib.cv s ≡ u
      → ((t : SshBuf lib.cv) × (check_padding lib fuel i s ≡ ok (tt, t)) × (u ≡ pads i (length u)))
        ⊎ ((check_padding lib fuel i s ≡ fail invalid_key_format) × (u ≢ pads i (length u)))
  unfolding pads
  check_padding_cases zero i u s h e = absurd (omega arith)
  check_padding_cases (suc fuel) i [] s h e =
      inl (s, check_end fuel i s (read_end lib.cv s 1 (ap length e)), refl)
  check_padding_cases (suc fuel) i (x ∷ u) s h e =
      let (t, got, left) = read_one x u s e in
      let (same, other) = check_round fuel i x s t got in
      elim (Bool-cases (bit_and (i + 1) 0xff == x)) [
        | inl y ↦ elim (check_padding_cases fuel (i + 1) u t (omega arith) left) [
          | inl (z, ran, rest) ↦ inl (z, same y ∙ ran, pads_cons i x u y rest)
          | inr (bad, rest) ↦ inr (same y ∙ bad, λ q. rest (cons_pads i x u q).1)
        ]
        | inr n ↦ inr (other n, λ q. let (head, tail) = cons_pads i x u q in ground arith)
      ]

  -- The loop of the writer adds less than a block of padding, and fills the last block.
  pub padded :
      (c : Cipher) (s : SshBuf lib.cv)
      → (n : ℕ) × (n < block_size c)
        × (t : SshBuf lib.cv) × (pad_loop lib (block_size c) (block_size c) 0 s ≡ ok (tt, t))
        × (as_slice lib.cv t ≡ as_slice lib.cv s ++ pads 0 n)
        × (length (as_slice lib.cv t) % block_size c ≡ 0)
  padded c s =
      let (m, less, whole) = missing (block_size c) (length (as_slice lib.cv s)) (block_sizes c) in
      let found = pad_loop_lem (block_size c) (block_size c) 0 m s (omega arith) whole in
      (found.0, omega (arith, found.1), found.2, found.3, found.4, found.5)

  -- What `decode_ossh_priv` makes of the rest of the private section: it accepts exactly the bytes
  -- 1, 2, 3 and so on, each without its high bits, and otherwise fails with InvalidKeyFormat.
  pub check_padding_iff :
      (s : SshBuf lib.cv)
      → ((t : SshBuf lib.cv) × (check_padding lib (suc (len lib.cv s)) 0 s ≡ ok (tt, t))
          × (unread lib.cv s ≡ pads 0 (length (unread lib.cv s))))
        ⊎ ((check_padding lib (suc (len lib.cv s)) 0 s ≡ fail invalid_key_format)
            × (unread lib.cv s ≢ pads 0 (length (unread lib.cv s))))
  unfolding len
  check_padding_iff s =
      check_padding_cases (suc (len lib.cv s)) 0 (unread lib.cv s) s
        (omega (arith, length-drop s.read_pos (lib.cv.as_slice s.buf))) refl

  -- The check accepts what the writer adds.
  pub check_pads :
      (n : ℕ) (s : SshBuf lib.cv)
      → unread lib.cv s ≡ pads 0 n
      → (t : SshBuf lib.cv) × (check_padding lib (suc (len lib.cv s)) 0 s ≡ ok (tt, t))
  check_pads n s e = elim (check_padding_iff s) [
    | inl (t, ran, _) ↦ (t, ran)
    | inr (_, bad) ↦ absurd (bad (e ∙ ap (pads 0) (sym (ap length e ∙ length-pads 0 n))))
  ]
