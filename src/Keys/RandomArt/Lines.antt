-- ===== src/Keys/RandomArt/Lines.antt =====
-- The lines of the picture.
use rust_osshkeys.Prelude.{
  ℕ, zero, suc, ◌+◌, ◌-◌, ◌/◌, ◌%◌, ◌<◌, ◌≤◌, ◌≡◌, ◌∙◌, refl, sym, ap, arith, Bytes, List, [], ◌∷◌,
  ◌++◌, All, All-append, append_assoc, ascii, length, length-append, replicate, length-replicate,
  ok, ltb, Bool-cases, inl, inr,
}
use rust_osshkeys.Keys.RandomArt.Arrays.{at_lem}
use rust_osshkeys.Keys.RandomArt.Walk.{
  worm_start, IsRow, fldsize_x, fldsize_y, art_len, worm_walk-IsInside, worm_start-IsInside,
  mark_lem,
}
use rust_osshkeys.Keys.RandomArt.Picture.{
  augmentation_chars, decimal_from, decimal, art_title, centred, border, draw_row, draw_rows,
  randomart,
}

-- Lines with a line feed between any two.
abbrev pub join_lines : List Bytes → Bytes
join_lines [] = []
join_lines (l ∷ []) = l
join_lines (l ∷ m ∷ ls) = l ++ (10 ∷ join_lines (m ∷ ls))

-- A line with the same character at both ends.
abbrev pub framed : ℕ → Bytes → Bytes
framed c s = c ∷ (s ++ (c ∷ []))

abbrev pub barred : List Bytes → List Bytes
barred [] = []
barred (r ∷ rs) = framed 124 r ∷ barred rs

abbrev pub IsPrintable : ℕ → Type 0
IsPrintable c = (31 < c) × (c < 127)

-- What stands between the ends of a line: 17 printable characters.
abbrev pub IsLine : Bytes → Type 0
IsLine s = (length s ≡ fldsize_x) × All IsPrintable s

-- A border between plus signs, the rows of the field between bars, and a second border.
pub record IsPicture (art : Bytes) : Type 0 where
  pub top : Bytes
  pub rows : List Bytes
  pub bottom : Bytes
  pub drawn : art ≡ join_lines (framed 43 top ∷ (barred rows ++ (framed 43 bottom ∷ [])))
  pub height : length rows ≡ fldsize_y
  pub top_line : IsLine top
  pub row_lines : All IsLine rows
  pub bottom_line : IsLine bottom

All-dashes : (n : ℕ) → All IsPrintable (replicate n 45)
All-dashes zero = tt
All-dashes (suc n) = ((omega arith, omega arith), All-dashes n)

centred-IsLine :
    (s : Bytes) → length s ≤ fldsize_x → All IsPrintable s → IsLine (centred fldsize_x s)
unfolding centred
centred-IsLine s h p =
    let pad = 17 - length s in
    (
      omega (
        arith,
        length-append (replicate {A = ℕ} (pad / 2) 45) (s ++ replicate (pad - pad / 2) 45),
        length-append s (replicate (pad - pad / 2) 45),
        length-replicate {A = ℕ} (pad / 2) 45,
        length-replicate {A = ℕ} (pad - pad / 2) 45,
      ),
      All-append IsPrintable (replicate (pad / 2) 45) _ (All-dashes (pad / 2))
          (All-append IsPrintable s _ p (All-dashes (pad - pad / 2))),
    )

decimal_from-IsPrintable :
    (fuel n : ℕ) (rest : Bytes) → All IsPrintable rest → All IsPrintable (decimal_from fuel n rest)
decimal_from-IsPrintable zero n rest h = h
decimal_from-IsPrintable (suc fuel) n rest h =
    let more =
      decimal_from-IsPrintable fuel (n / 10) ((48 + n % 10) ∷ rest)
        ((omega arith, omega arith), h) in
    elim (Bool-cases (ltb n 10)) [
      | inl small ↦ rw small ((omega arith, ground arith), h)
      | inr large ↦ rw large more
    ]

bracketed-IsPrintable :
    (s : Bytes) → All IsPrintable s → All IsPrintable (ascii "[" ++ (s ++ ascii "]"))
bracketed-IsPrintable s h =
    ((omega arith, omega arith), All-append IsPrintable s _ h ((omega arith, omega arith), tt))

-- The title fits in the border.
art_title-Fits :
    (short : Bytes) (size : ℕ)
    → length short + 2 ≤ fldsize_x
    → All IsPrintable short
    → (length (art_title short size) ≤ fldsize_x) × All IsPrintable (art_title short size)
unfolding art_title decimal
art_title-Fits short size h p =
    let title = ascii "[" ++ (short ++ (ascii " " ++ (decimal size ++ ascii "]"))) in
    let space : IsPrintable 32 = (omega arith, omega arith) in
    let open_ : IsPrintable 91 = (omega arith, omega arith) in
    let close_ : IsPrintable 93 = (omega arith, omega arith) in
    elim (Bool-cases (ltb fldsize_x (length title))) [
      | inl long ↦
          rw long (omega (arith, length-append short (ascii "]")), bracketed-IsPrintable short p)
      | inr fits ↦ rw fits (
        ground arith,
        (
          open_,
          All-append IsPrintable short _ p (
            space,
            All-append IsPrintable (decimal size) _ (decimal_from-IsPrintable 20 size [] tt)
                (close_, tt),
          ),
        ),
      )
    ]

augmentation_chars-IsPrintable : All IsPrintable augmentation_chars
augmentation_chars-IsPrintable = ground arith

draw_row_lem :
    (row : Bytes)
    → All (λ c. c ≤ art_len) row
    → (s : Bytes) × (draw_row row ≡ ok s) × (length s ≡ length row) × All IsPrintable s
unfolding draw_row
draw_row_lem [] h = ([], refl, refl, tt)
draw_row_lem (c ∷ row) (hc, h) =
    let (char, e, printable) =
      at_lem IsPrintable augmentation_chars c augmentation_chars-IsPrintable (omega arith) in
    let (s, e₂, size, more) = draw_row_lem row h in
    (char ∷ s, rw (e, e₂) refl, ap suc size, (printable, more))

-- The rows as the code writes them, each with its line feed.
abbrev content : List Bytes → Bytes
content [] = []
content (r ∷ rs) = 124 ∷ (r ++ (124 ∷ 10 ∷ content rs))

draw_rows_lem :
    (field : List Bytes)
    → All (IsRow art_len) field
    → (rows : List Bytes) × (draw_rows field ≡ ok (content rows))
      × (length rows ≡ length field)
      × All IsLine rows
unfolding draw_rows
draw_rows_lem [] h = ([], refl, refl, tt)
draw_rows_lem (row ∷ field) ((width, cells), h) =
    let (s, e, size, printable) = draw_row_lem row cells in
    let (rows, e₂, tall, lines) = draw_rows_lem field h in
    (s ∷ rows, rw (e, e₂) refl, ap suc tall, ((size ∙ width, printable), lines))

join_lines-barred :
    (t b : Bytes) (rows : List Bytes)
    → join_lines (t ∷ (barred rows ++ (b ∷ []))) ≡ t ++ (10 ∷ (content rows ++ b))
join_lines-barred t b [] = refl
join_lines-barred t b (r ∷ rows) =
    let rest = 10 ∷ (content rows ++ b) in
    ap (λ x. t ++ (10 ∷ x))
      (join_lines-barred (framed 124 r) b rows
        ∙ ap (◌∷◌ 124)
            (append_assoc r (124 ∷ []) rest ∙ sym (append_assoc r (124 ∷ 10 ∷ content rows) b)))

-- For a type and a hash whose names have 15 printable characters at most, every size and every
-- digest give a picture, without a panic.
pub randomart_lem :
    (short : Bytes) (size : ℕ) (hash_name digest : Bytes)
    → length short + 2 ≤ fldsize_x
    → All IsPrintable short
    → length hash_name + 2 ≤ fldsize_x
    → All IsPrintable hash_name
    → (art : Bytes) × (randomart short size hash_name digest ≡ ok art) × IsPicture art
unfolding randomart border
randomart_lem short size hash_name digest hs ps hh ph =
    let (w, e, inside) = worm_walk-IsInside digest worm_start worm_start-IsInside in
    let (field, e₂, (tall, rows)) = mark_lem w inside in
    let (lines, e₃, same, drawn) = draw_rows_lem field rows in
    let hash = ascii "[" ++ (hash_name ++ ascii "]") in
    let title = art_title short size in
    let (fits, printable) = art_title-Fits short size hs ps in
    let top = centred fldsize_x title in
    let bottom = centred fldsize_x hash in
    (
      border title ++ (10 ∷ (content lines ++ border hash)),
      rw (e, e₂, e₃) refl,
      record {
        top = top;
        rows = lines;
        bottom = bottom;
        drawn = sym (join_lines-barred (framed 43 top) (framed 43 bottom) lines);
        height = same ∙ tall;
        top_line = centred-IsLine title fits printable;
        row_lines = drawn;
        bottom_line =
            centred-IsLine hash (omega (arith, length-append hash_name (ascii "]")))
              (bracketed-IsPrintable hash_name ph);
      },
    )
