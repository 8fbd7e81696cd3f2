-- ===== src/Format/Trim.antt =====
-- `str::trim` of the standard library, on UTF-8 bytes: white space is what Unicode calls
-- `White_Space`.
use rust_osshkeys.Prelude.{
  ap, ◌∙◌, ◌++◌, arith, All, ◌≡◌, refl, ◌<◌, ℕ, zero, suc, Bytes, [], ◌∷◌, ◌==◌, ◌&&◌, ◌||◌, leb,
  if◌then◌else◌, Bool,
}

-- The white space characters of one, two and three bytes.
abbrev white1 : ℕ → Bool
white1 a = leb 9 a && leb a 13 || a == 32

abbrev white2 : ℕ → ℕ → Bool
white2 a b = a == 0xc2 && (b == 0x85 || b == 0xa0)

abbrev white3 : ℕ → ℕ → ℕ → Bool
white3 a b c =
    a == 0xe1 && b == 0x9a && c == 0x80
    || a == 0xe2 && b == 0x80 && (leb 0x80 c && leb c 0x8a || c == 0xa8 || c == 0xa9 || c == 0xaf)
    || a == 0xe2 && b == 0x81 && c == 0x9f
    || a == 0xe3 && b == 0x80 && c == 0x80

-- The number of bytes of the white space character at the start, or 0.
white_len : Bytes → ℕ
white_len [] = 0
white_len (a ∷ []) = if white1 a then 1 else 0
white_len (a ∷ b ∷ []) = if white1 a then 1 else if white2 a b then 2 else 0
white_len (a ∷ b ∷ c ∷ _) =
    if white1 a then 1 else if white2 a b then 2 else if white3 a b c then 3 else 0

-- The text without its first white space; `skip` more bytes belong to a character that is left out.
trim_start_from : ℕ → Bytes → Bytes
trim_start_from skip [] = []
trim_start_from (suc skip) (c ∷ cs) = trim_start_from skip cs
trim_start_from zero (c ∷ cs) = elim (white_len (c ∷ cs)) [
  | zero ↦ c ∷ cs
  | suc n ↦ trim_start_from n cs
]

trim_start : Bytes → Bytes
unfolding trim_start_from
trim_start s = trim_start_from 0 s

-- The text up to where only white space follows.
pub trim_end : Bytes → Bytes
trim_end [] = []
trim_end (c ∷ cs) =
    let rest = trim_end cs in elim (trim_start (c ∷ cs)) [ [] ↦ [] | _ ∷ _ ↦ c ∷ rest ]

pub trim : Bytes → Bytes
unfolding trim_start trim_end
trim s = trim_end (trim_start s)

module _ (c : ℕ) (lo : 32 < c) (hi : c < 127) where
  white_len-visible : (cs : Bytes) → white_len (c ∷ cs) ≡ 0
  unfolding white_len
  white_len-visible [] = ground arith
  white_len-visible (b ∷ []) = ground arith
  white_len-visible (b ∷ d ∷ _) = ground arith

  -- A visible character of ASCII is kept.
  trim_start-visible : (cs : Bytes) → trim_start (c ∷ cs) ≡ c ∷ cs
  unfolding trim_start trim_start_from
  trim_start-visible cs = rw (trim_start_from, white_len-visible cs) refl

  trim_end-visible : (cs : Bytes) → trim_end (c ∷ cs) ≡ c ∷ trim_end cs
  unfolding trim_end
  trim_end-visible cs = rw (trim_end, trim_start-visible cs) refl

  pub trim-visible : (cs : Bytes) → trim (c ∷ cs) ≡ c ∷ trim_end cs
  unfolding trim
  trim-visible cs = rw (trim_start-visible cs) (trim_end-visible cs)

-- A visible text is kept at the start.
pub trim_end-All :
    (p cs : Bytes) → All (λ c. (32 < c) × (c < 127)) p → trim_end (p ++ cs) ≡ p ++ trim_end cs
trim_end-All [] cs h = refl
trim_end-All (c ∷ p) cs ((lo, hi), h) =
    trim_end-visible c lo hi (p ++ cs) ∙ ap (◌∷◌ c) (trim_end-All p cs h)
