-- ===== src/Sshbuf/Mpint.antt =====
-- `write_mpint`, `read_mpint` and `to_bignum`: multiple precision integers on the wire.
use rust_osshkeys.Prelude.{
  ℕ, zero, suc, ◌+◌, ◌≤◌, ◌≡◌, ◌≢◌, refl, arith, Bytes, [], ◌∷◌, false, ltb, ◌==◌, if◌then◌else◌,
  length, length-drop, drop, bit_and, Bool-cases, All, ok, panic, map_err, lift, ◌>>=◌,
  map_err-eq-ok, inl, inr,
}
use rust_osshkeys.Error.{IoError, invalid_data}
use rust_osshkeys.External.BigNums.{BigNums, NoLeadingZero}
use rust_osshkeys.Sshbuf.Endian.{IsByte}
use rust_osshkeys.Sshbuf.Reader.{Reader, Reads, Writer, Writes}
use rust_osshkeys.Sshbuf.Rules.{Reads-bind_end, Reads-lift, Writes-lift_bind}
use rust_osshkeys.Sshbuf.RoundTrip.{
  RoundTrips, string_bytes, Writes-write_string, Reads-read_string,
}
use rust_osshkeys.Sshbuf.Read.{
  index, leading_zeros, max_bignum, top_bit_set, too_long, to_bignum, read_mpint,
}
use rust_osshkeys.Sshbuf.Write.{write_string, write_mpint}

-- The payload that `write_mpint` writes for a nonzero number with these bytes.
unfoldable pub mpint_payload : Bytes → Bytes
mpint_payload [] = []
mpint_payload (b ∷ bs) = if ltb 0 (bit_and b 0x80) then 0 ∷ b ∷ bs else b ∷ bs

leading_zeros_none : (d : Bytes) → NoLeadingZero d → leading_zeros d ≡ 0
unfolding leading_zeros
leading_zeros_none [] h = refl
leading_zeros_none (b ∷ d) h = ground arith

drop-leading_zeros-NoLeadingZero : (d : Bytes) → NoLeadingZero (drop (leading_zeros d) d)
unfolding leading_zeros
drop-leading_zeros-NoLeadingZero [] = tt
drop-leading_zeros-NoLeadingZero (b ∷ d) = elim (Bool-cases (b == 0)) [
  | inl z ↦ rw z (drop-leading_zeros-NoLeadingZero d)
  | inr p ↦ rw p (ground arith)
]

All-drop : (P : ℕ → Type 0) (n : ℕ) (d : Bytes) → All P d → All P (drop n d)
All-drop P zero d h = h
All-drop P (suc n) [] h = tt
All-drop P (suc n) (b ∷ d) (hb, h) = All-drop P n d h

-- What `write_mpint` can be asked to write, and `read_mpint` reads back.
pub record IsWritable (bn : BigNums) (v : bn.BigNum) : Type 0 where
  pub not_negative : bn.is_negative v ≡ false
  pub not_zero : bn.to_vec v ≢ []
  pub short : length (bn.to_vec v) ≤ max_bignum

module _ (bn : BigNums) where
  length-mpint_payload : (d : Bytes) → length (mpint_payload d) ≤ length d + 1
  unfolding mpint_payload
  length-mpint_payload [] = omega arith
  length-mpint_payload (b ∷ d) = ground arith

  to_bignum-mpint_payload :
      (d : Bytes)
      → NoLeadingZero d
      → length d ≤ max_bignum
      → to_bignum bn (mpint_payload d) ≡ map_err (λ _. invalid_data) (bn.from_slice d)
  unfolding to_bignum mpint_payload leading_zeros
  to_bignum-mpint_payload [] h s = refl
  to_bignum-mpint_payload (b ∷ d) h s = elim (Bool-cases (ltb 0 (bit_and b 0x80))) [
    | inl top ↦ rw top (ground arith)
    | inr low ↦ rw low (ground arith)
  ]

  module _ {W : Type 0} (wr : Writer W) where
    pub Writes-write_mpint :
        (v : bn.BigNum)
        → IsWritable bn v
        → Writes wr (write_mpint wr bn v) (string_bytes (mpint_payload (bn.to_vec v))) tt
    unfolding write_mpint index mpint_payload
    Writes-write_mpint v p = go (bn.to_vec v) p.not_zero p.short
      where
        go :
            (d : Bytes)
            → d ≢ []
            → length d ≤ max_bignum
            → Writes wr
                (do
                  head ← lift {E = IoError} (index (0 ∷ d) 1)
                  if ltb 0 (bit_and head 0x80) then write_string wr (0 ∷ d) else write_string wr d)
                (string_bytes (mpint_payload d))
                tt
        go [] ne s = absurd (ne refl)
        go (b ∷ d) ne s =
            Writes-lift_bind _ _ {a = b} refl (elim (Bool-cases (ltb 0 (bit_and b 0x80))) [
              | inl top ↦ rw top (Writes-write_string wr (0 ∷ b ∷ d) (omega arith))
              | inr low ↦ rw low (Writes-write_string wr (b ∷ d) (omega arith))
            ])

  module _ {R : Type 0} (rd : Reader R) where
    pub Reads-read_mpint :
        (v : bn.BigNum)
        → IsWritable bn v
        → Reads rd (read_mpint bn rd) (string_bytes (mpint_payload (bn.to_vec v))) v
    unfolding read_mpint
    Reads-read_mpint v p =
        Reads-bind_end _ _
          (Reads-read_string rd _ (omega (arith, length-mpint_payload (bn.to_vec v), p.short)))
          (Reads-lift _ (
            rw (
              to_bignum-mpint_payload _ (bn.to_vec-NoLeadingZero v) p.short,
              bn.from_slice-to_vec v p.not_negative,
            )))

module _ (bn : BigNums) {W R : Type 0} (wr : Writer W) (rd : Reader R) where
  -- A positive number of at most 2048 bytes is read back by `read_mpint` as `write_mpint` wrote it.
  pub mpint-RoundTrips :
      (v : bn.BigNum)
      → IsWritable bn v
      → RoundTrips wr rd (write_mpint wr bn v) (read_mpint bn rd) v
  mpint-RoundTrips v p = (_, Writes-write_mpint bn wr v p, Reads-read_mpint bn rd v p)

-- `write_mpint` panics on zero, whatever was written before: `buf[1]` is out of bounds.
pub write_mpint_zero :
    (bn : BigNums) {W : Type 0} (wr : Writer W) (v : bn.BigNum) (w : W)
    → bn.to_vec v ≡ []
    → write_mpint wr bn v w ≡ panic
unfolding write_mpint index ◌>>=◌ lift
write_mpint_zero bn wr v w h = rw h

length-strip : (d : Bytes) → too_long d ≡ false → length (drop (leading_zeros d) d) ≤ max_bignum
unfolding leading_zeros
length-strip [] h = omega arith
length-strip (b ∷ d) h =
    ground (arith, length-drop (leading_zeros d) d, length-drop (leading_zeros (b ∷ d)) (b ∷ d))

to_bignum-eq-ok :
    (bn : BigNums) (buf : Bytes) (v : bn.BigNum)
    → to_bignum bn buf ≡ ok v
    → (too_long buf ≡ false) × (bn.from_slice (drop (leading_zeros buf) buf) ≡ ok v)
unfolding to_bignum
to_bignum-eq-ok bn buf v e = elim (Bool-cases (top_bit_set buf)) [
  | inl top ↦ cc (rw top at e)
  | inr low ↦ elim (Bool-cases (too_long buf)) [
    | inl long ↦ cc (rw (low, long) at e)
    | inr short ↦ (short, map_err-eq-ok (λ _. invalid_data) _ (rw (low, short) at e))
  ]
]

-- A number that `to_bignum` accepts has exactly the bytes of the input without its leading zeros,
-- and these are at most 2048.
pub to_bignum_sound :
    (bn : BigNums) (buf : Bytes) (v : bn.BigNum)
    → All IsByte buf
    → to_bignum bn buf ≡ ok v
    → (bn.to_vec v ≡ drop (leading_zeros buf) buf) × (length (bn.to_vec v) ≤ max_bignum)
to_bignum_sound bn buf v h e =
    let (short, made) = to_bignum-eq-ok bn buf v e in
    let same =
      bn.to_vec_of_from_slice (drop (leading_zeros buf) buf) v (All-drop IsByte _ buf h)
        (drop-leading_zeros-NoLeadingZero buf) made in
    (same, rw same (length-strip buf short))
