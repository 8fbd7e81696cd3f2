-- ===== src/Sshbuf/Endian.antt =====
-- `to_be_bytes` and `from_be_bytes` of the standard library, at any width, and their round trip.
use rust_osshkeys.Prelude.{
  ℕ, zero, suc, ◌+◌, ◌*◌, ◌/◌, ◌%◌, ◌^◌, ◌<◌, ◌≡◌, refl, arith, Bytes, [], ◌∷◌, ◌++◌, length,
  length-append, All, All-append,
}
use native.Mathlib.Nat.{pow-suc}

abbrev pub IsByte : ℕ → Type 0
IsByte b = b < 256

-- The lowest `k` bytes of `v`, the highest first.
unfoldable pub to_be_bytes : ℕ → ℕ → Bytes
to_be_bytes zero v = []
to_be_bytes (suc k) v = to_be_bytes k (v / 256) ++ (v % 256 ∷ [])

abbrev be_from : ℕ → Bytes → ℕ
be_from acc [] = acc
be_from acc (b ∷ bs) = be_from (acc * 256 + b) bs

unfoldable pub from_be_bytes : Bytes → ℕ
from_be_bytes bs = be_from 0 bs

pub length-to_be_bytes : (k v : ℕ) → length (to_be_bytes k v) ≡ k
unfolding to_be_bytes
length-to_be_bytes zero v = refl
length-to_be_bytes (suc k) v =
    omega (
      arith,
      length-append (to_be_bytes k (v / 256)) (v % 256 ∷ []),
      length-to_be_bytes k (v / 256),
    )

pub to_be_bytes-IsByte : (k v : ℕ) → All IsByte (to_be_bytes k v)
unfolding to_be_bytes
to_be_bytes-IsByte zero v = tt
to_be_bytes-IsByte (suc k) v =
    All-append IsByte (to_be_bytes k (v / 256)) _ (to_be_bytes-IsByte k (v / 256)) (omega arith)

be_from-append : (xs : Bytes) (acc b : ℕ) → be_from acc (xs ++ (b ∷ [])) ≡ be_from acc xs * 256 + b
be_from-append [] acc b = refl
be_from-append (x ∷ xs) acc b = be_from-append xs (acc * 256 + x) b

pub from_be_bytes-to_be_bytes : (k v : ℕ) → v < 256 ^ k → from_be_bytes (to_be_bytes k v) ≡ v
unfolding from_be_bytes to_be_bytes
from_be_bytes-to_be_bytes zero v h = omega arith
from_be_bytes-to_be_bytes (suc k) v h = omega (
  arith,
  be_from-append (to_be_bytes k (v / 256)) 0 (v % 256),
  from_be_bytes-to_be_bytes k (v / 256) (omega (arith, pow-suc 256 k)),
)
