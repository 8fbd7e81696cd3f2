-- ===== src/Keys/RandomArt/Picture.antt =====
-- The picture of the field.
use rust_osshkeys.Prelude.{
  ℕ, zero, suc, ◌+◌, ◌-◌, ◌/◌, ◌%◌, Bytes, List, [], ◌∷◌, ◌++◌, ascii, length, replicate, ok,
  and_then, ltb, if◌then◌else◌,
}
use rust_osshkeys.Error.{OsshResult}
use rust_osshkeys.Keys.RandomArt.Arrays.{at}
use rust_osshkeys.Keys.RandomArt.Walk.{worm_walk, worm_start, mark, fldsize_x}

abbrev pub augmentation_chars : Bytes
augmentation_chars = ascii " .o+=*BOX@%&#/^SE"

-- The decimal digits of a number below 10 ^ 20, which every `usize` is.
abbrev pub decimal_from : ℕ → ℕ → Bytes → Bytes
decimal_from zero n rest = rest
decimal_from (suc fuel) n rest =
    if ltb n 10 then (48 + n) ∷ rest else decimal_from fuel (n / 10) ((48 + n % 10) ∷ rest)

unfoldable pub decimal : ℕ → Bytes
decimal n = decimal_from 20 n []

-- `[type size]`, or `[type]` if this does not fit.
unfoldable pub art_title : Bytes → ℕ → Bytes
unfolding decimal
art_title short size =
    let title = ascii "[" ++ (short ++ (ascii " " ++ (decimal size ++ ascii "]"))) in
    if ltb fldsize_x (length title) then ascii "[" ++ (short ++ ascii "]") else title

-- `{:-^width$}`: centred between dashes.
unfoldable pub centred : ℕ → Bytes → Bytes
centred width s =
    let pad = width - length s in replicate (pad / 2) 45 ++ (s ++ replicate (pad - pad / 2) 45)

unfoldable pub border : Bytes → Bytes
unfolding centred
border s = ascii "+" ++ (centred fldsize_x s ++ ascii "+")

unfoldable pub draw_row : Bytes → OsshResult Bytes
unfolding at
draw_row [] = ok []
draw_row (c ∷ row) =
    and_then (at augmentation_chars c) (λ char. and_then (draw_row row) (λ s. ok (char ∷ s)))

unfoldable pub draw_rows : List Bytes → OsshResult Bytes
unfolding draw_row
draw_rows [] = ok []
draw_rows (row ∷ rows) =
    and_then (draw_row row)
      (λ s. and_then (draw_rows rows) (λ rest. ok (ascii "|" ++ (s ++ (ascii "|" ++ (10 ∷ rest))))))

-- `fingerprint_randomart` from the digest on: the short name and the size of the key, and the name
-- of the hash.
unfoldable pub randomart : Bytes → ℕ → Bytes → Bytes → OsshResult Bytes
unfolding worm_walk mark draw_rows border art_title
randomart short size hash_name digest = and_then (worm_walk digest worm_start) (λ w.
    and_then (mark w) (λ field.
      let title = art_title short size in
      let hash = ascii "[" ++ (hash_name ++ ascii "]") in
      and_then (draw_rows field) (λ content. ok (border title ++ (10 ∷ (content ++ border hash))))))
