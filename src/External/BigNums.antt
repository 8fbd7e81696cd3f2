-- ===== src/External/BigNums.antt =====
-- `openssl::bn`: unsigned big integers, as the crate uses them. `from_slice` is BN_bin2bn and
-- `to_vec` is BN_bn2bin, which writes the absolute value with no leading zero byte.
use rust_osshkeys.Prelude.{ℕ, ◌<◌, ◌≡◌, Bytes, [], ◌∷◌, Bool, false, All, Outcome, ok, panic}
use rust_osshkeys.Sshbuf.Endian.{IsByte}

abbrev pub NoLeadingZero : Bytes → Type 0
NoLeadingZero [] = Unit
NoLeadingZero (b ∷ _) = 0 < b

pub record BigNums : Type 1 where
  pub BigNum : Type 0
  pub from_slice : Bytes → Outcome Unit BigNum
  pub to_vec : BigNum → Bytes
  pub num_bits : BigNum → ℕ
  pub from_u32 : ℕ → Outcome Unit BigNum
  -- `&a - &b` and `&a % &b` unwrap the result of the C call.
  pub sub : BigNum → BigNum → Outcome Unit BigNum
  pub rem : BigNum → BigNum → Outcome Unit BigNum
  pub is_negative : BigNum → Bool
  pub to_vec-IsByte : (v : BigNum) → All IsByte (to_vec v)
  pub to_vec-NoLeadingZero : (v : BigNum) → NoLeadingZero (to_vec v)
  pub from_slice-to_vec : (v : BigNum) → is_negative v ≡ false → from_slice (to_vec v) ≡ ok v
  pub to_vec_of_from_slice :
      (d : Bytes) (v : BigNum) → All IsByte d → NoLeadingZero d → from_slice d ≡ ok v → to_vec v ≡ d
  pub rem_zero : (a b : BigNum) → to_vec b ≡ [] → rem a b ≡ panic
