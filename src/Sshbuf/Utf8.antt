-- ===== src/Sshbuf/Utf8.antt =====
-- `str::from_utf8` of the standard library: the byte sequences that are well-formed UTF-8, by the
-- lead bytes and the range that each allows for the byte behind it.
use rust_osshkeys.Prelude.{
  ℕ, zero, suc, ◌<◌, ◌≡◌, refl, arith, Bytes, [], ◌∷◌, Bool, true, false, ◌&&◌, leb, ltb,
  if◌then◌else◌, All, Option, none, some,
}

-- How many bytes follow a lead byte, and the range of the first of them.
abbrev lead : ℕ → Option (ℕ × ℕ × ℕ)
lead b =
    if ltb b 0x80
    then some (0, 0x80, 0xbf)
    else if ltb b 0xc2
    then none
    else if ltb b 0xe0
    then some (1, 0x80, 0xbf)
    else if ltb b 0xe1
    then some (2, 0xa0, 0xbf)
    else if ltb b 0xed
    then some (2, 0x80, 0xbf)
    else if ltb b 0xee
    then some (2, 0x80, 0x9f)
    else if ltb b 0xf0
    then some (2, 0x80, 0xbf)
    else if ltb b 0xf1
    then some (3, 0x90, 0xbf)
    else if ltb b 0xf4
    then some (3, 0x80, 0xbf)
    else if ltb b 0xf5
    then some (3, 0x80, 0x8f)
    else none

-- `n` bytes are still to come, and the next of them lies between `lo` and `hi`.
utf8_run : ℕ → ℕ → ℕ → Bytes → Bool
utf8_run zero lo hi [] = true
utf8_run (suc n) lo hi [] = false
utf8_run zero lo hi (b ∷ bs) = elim (lead b) [ none ↦ false | some (n, l, h) ↦ utf8_run n l h bs ]
utf8_run (suc n) lo hi (b ∷ bs) = leb lo b && leb b hi && utf8_run n 0x80 0xbf bs

unfoldable pub is_utf8 : Bytes → Bool
unfolding utf8_run
is_utf8 bs = utf8_run 0 0x80 0xbf bs

-- The invariant of a Rust `String` or `str`, given by its bytes.
abbrev pub IsText : Bytes → Type 0
IsText bs = is_utf8 bs ≡ true

abbrev pub IsAscii : ℕ → Type 0
IsAscii b = b < 128

utf8_run-All-IsAscii : (lo hi : ℕ) (bs : Bytes) → All IsAscii bs → utf8_run 0 lo hi bs ≡ true
unfolding utf8_run
utf8_run-All-IsAscii lo hi [] h = refl
utf8_run-All-IsAscii lo hi (b ∷ bs) (hb, h) = ground (arith, utf8_run-All-IsAscii 0x80 0xbf bs h)

pub ascii-IsText : (bs : Bytes) → All IsAscii bs → IsText bs
unfolding is_utf8
ascii-IsText bs h = utf8_run-All-IsAscii 0x80 0xbf bs h
