-- ===== src/Sshbuf/Read.antt =====
-- `trait SshReadExt` and `to_bignum`, over any reader.
use rust_osshkeys.Prelude.{
  ◌/◌, ℕ, suc, ◌+◌, Bytes, [], ◌∷◌, Bool, false, not, ◌&&◌, ◌||◌, ltb, ◌==◌, if◌then◌else◌, length,
  get_elem?, drop, bit_and, none, some, Outcome, ok, err, panic, map_err, Step, ◌>>=◌, pure, lift,
}
use rust_osshkeys.Error.{IoError, invalid_data, IoResult}
use rust_osshkeys.External.BigNums.{BigNums}
use rust_osshkeys.Sshbuf.Endian.{from_be_bytes}
use rust_osshkeys.Sshbuf.Utf8.{is_utf8}
use rust_osshkeys.Sshbuf.Reader.{Reader}

-- `b[i]`, which panics out of bounds.
unfoldable pub index : {E : Type 0} → Bytes → ℕ → Outcome E ℕ
index b i = elim (get_elem? b i) [ none ↦ panic | some x ↦ ok x ]

module _ {R : Type 0} (rd : Reader R) where
  unfoldable pub read_uint8 : Step IoError R ℕ
  read_uint8 = do buf ← rd.read_exact 1; lift (index buf 0)

  unfoldable pub read_bool : Step IoError R Bool
  read_bool = do i ← read_uint8; pure (not (i == 0))

  unfoldable pub read_uint32 : Step IoError R ℕ
  read_uint32 = do buf ← rd.read_exact 4; pure (from_be_bytes buf)

  unfoldable pub read_uint64 : Step IoError R ℕ
  read_uint64 = do buf ← rd.read_exact 8; pure (from_be_bytes buf)

  unfoldable pub read_string : Step IoError R Bytes
  read_string = do len ← read_uint32; rd.read_exact len

  unfoldable pub read_utf8 : Step IoError R Bytes
  read_utf8 = do buf ← read_string; lift (if is_utf8 buf then ok buf else err invalid_data)

-- `MAX_BIGNUM`, in bytes.
abbrev pub max_bignum : ℕ
max_bignum = 16384 / 8

-- `while let Some(0) = iter.next() { i += 1; }`
unfoldable pub leading_zeros : Bytes → ℕ
leading_zeros [] = 0
leading_zeros (b ∷ bs) = let rest = leading_zeros bs in if b == 0 then suc rest else 0

-- `!data.is_empty() && data[0] & 0x80 != 0`
abbrev pub top_bit_set : Bytes → Bool
top_bit_set [] = false
top_bit_set (b ∷ bs) = not (bit_and b 0x80 == 0)

-- `data.len() > MAX_BIGNUM + 1 || data.len() == MAX_BIGNUM + 1 && data[0] != 0`
abbrev pub too_long : Bytes → Bool
too_long [] = false
too_long (b ∷ bs) =
    ltb (max_bignum + 1) (length (b ∷ bs)) || length (b ∷ bs) == max_bignum + 1 && not (b == 0)

module _ (bn : BigNums) where
  unfoldable pub to_bignum : Bytes → IoResult bn.BigNum
  to_bignum buf =
      if top_bit_set buf
      then err invalid_data
      else if too_long buf
      then err invalid_data
      else map_err (λ _. invalid_data) (bn.from_slice (drop (leading_zeros buf) buf))

  unfoldable pub read_mpint : {R : Type 0} → Reader R → Step IoError R bn.BigNum
  read_mpint rd = do buf ← read_string rd; lift (to_bignum buf)
