-- ===== src/Keys/RandomArt/Walk.antt =====
-- The walk of the worm.
use rust_osshkeys.Prelude.{
  ℕ, zero, suc, ◌+◌, ◌-◌, ◌/◌, ◌<◌, ◌≤◌, ◌≡◌, refl, ◌∙◌, arith, Bytes, List, [], ◌∷◌, All, length,
  replicate, ok, and_then, min, bit_and, ltb, if◌then◌else◌, Bool-cases, inl, inr,
}
use rust_osshkeys.Error.{OsshResult}
use rust_osshkeys.Keys.RandomArt.Arrays.{at, set, at_lem, length-set, All-set}

abbrev pub fldsize_y : ℕ
fldsize_y = 9

abbrev pub fldsize_x : ℕ
fldsize_x = 17

-- `len`: one less than the number of characters.
abbrev pub art_len : ℕ
art_len = 16

pub record Worm : Type 0 where
  pub field : List Bytes
  pub x : ℕ
  pub y : ℕ

unfoldable pub set_cell : List Bytes → ℕ → ℕ → ℕ → OsshResult (List Bytes)
unfolding at set
set_cell field y x v =
    and_then (at field y) (λ row. and_then (at row x) (λ _. ok (set field y (set row x v))))

-- One of the four moves that a byte stands for: its two low bits.
unfoldable pub worm_step : ℕ → Worm → OsshResult Worm
unfolding at set_cell
worm_step input w =
    let x = min (if ltb 0 (bit_and input 1) then w.x + 1 else w.x - 1) (fldsize_x - 1) in
    let y = min (if ltb 0 (bit_and input 2) then w.y + 1 else w.y - 1) (fldsize_y - 1) in
    and_then (at w.field y) (λ row. and_then (at row x) (λ cell.
      and_then (if ltb cell (art_len - 2) then set_cell w.field y x (cell + 1) else ok w.field)
        (λ field. ok (record { field = field; x = x; y = y }))))

unfoldable pub worm_moves : ℕ → ℕ → Worm → OsshResult Worm
unfolding worm_step
worm_moves zero input w = ok w
worm_moves (suc n) input w = and_then (worm_step input w) (worm_moves n (input / 4))

unfoldable pub worm_walk : Bytes → Worm → OsshResult Worm
unfolding worm_moves
worm_walk [] w = ok w
worm_walk (input ∷ rest) w = and_then (worm_moves 4 input w) (worm_walk rest)

-- The empty field, with the worm in its middle.
abbrev pub worm_start : Worm
worm_start = record {
  field = replicate fldsize_y (replicate fldsize_x 0);
  x = fldsize_x / 2;
  y = fldsize_y / 2;
}

-- The marks on the start and on the end.
unfoldable pub mark : Worm → OsshResult (List Bytes)
unfolding set_cell
mark w =
    and_then (set_cell w.field (fldsize_y / 2) (fldsize_x / 2) (art_len - 1))
      (λ field. set_cell field w.y w.x art_len)

-- A row of the field, and a field, whose cells are at most `top`.
abbrev pub IsRow : ℕ → Bytes → Type 0
IsRow top row = (length row ≡ fldsize_x) × All (λ c. c ≤ top) row

abbrev pub IsField : ℕ → List Bytes → Type 0
IsField top field = (length field ≡ fldsize_y) × All (IsRow top) field

-- The worm is inside the field, whose cells count to `art_len - 2` at most.
pub record IsInside (w : Worm) : Type 0 where
  pub is_field : IsField (art_len - 2) w.field
  pub x_small : w.x < fldsize_x
  pub y_small : w.y < fldsize_y

cell_lem :
    (top : ℕ) (field : List Bytes) (y x : ℕ)
    → IsField top field
    → y < fldsize_y
    → x < fldsize_x
    → (row : Bytes) × (at field y ≡ ok row)
      × IsRow top row
      × (c : ℕ) × (at row x ≡ ok c)
      × (c ≤ top)
cell_lem top field y x (size, rows) hy hx =
    let (row, e, is_row) = at_lem (IsRow top) field y rows (omega (arith, size)) in
    let (c, e₂, h) = at_lem (λ c. c ≤ top) row x is_row.1 (omega (arith, is_row.0)) in
    (row, e, is_row, c, e₂, h)

set-IsField :
    (top : ℕ) (field : List Bytes) (row : Bytes) (y x v : ℕ)
    → IsField top field
    → IsRow top row
    → v ≤ top
    → IsField top (set field y (set row x v))
set-IsField top field row y x v (size, rows) (width, cells) hv =
    let is_row : IsRow top (set row x v) =
      (length-set row x v ∙ width, All-set (λ c. c ≤ top) row x v cells hv) in
    (length-set field y _ ∙ size, All-set (IsRow top) field y _ rows is_row)

set_cell_lem :
    (top : ℕ) (field : List Bytes) (y x v : ℕ)
    → IsField top field
    → y < fldsize_y
    → x < fldsize_x
    → v ≤ top
    → (field' : List Bytes) × (set_cell field y x v ≡ ok field') × IsField top field'
unfolding set_cell
set_cell_lem top field y x v h hy hx hv =
    let (row, e, is_row, c, e₂, _) = cell_lem top field y x h hy hx in
    (set field y (set row x v), rw (e, e₂) refl, set-IsField top field row y x v h is_row hv)

worm_step-IsInside :
    (input : ℕ) (w : Worm) → IsInside w → (w' : Worm) × (worm_step input w ≡ ok w') × IsInside w'
unfolding worm_step
worm_step-IsInside input w h =
    let x = min (if ltb 0 (bit_and input 1) then w.x + 1 else w.x - 1) (fldsize_x - 1) in
    let y = min (if ltb 0 (bit_and input 2) then w.y + 1 else w.y - 1) (fldsize_y - 1) in
    let hx : x < fldsize_x = omega arith in
    let hy : y < fldsize_y = omega arith in
    let (row, e, is_row, c, e₂, small) = cell_lem 14 w.field y x h.is_field hy hx in
    elim (Bool-cases (ltb c 14)) [
      | inl below ↦
          let more : c + 1 ≤ 14 = ground arith in
          (
            record { field = set w.field y (set row x (c + 1)); x = x; y = y },
            rw (e, e₂, below) refl,
            record {
              is_field = set-IsField 14 w.field row y x (c + 1) h.is_field is_row more;
              x_small = hx;
              y_small = hy;
            },
          )
      | inr full ↦ (
        record { field = w.field; x = x; y = y },
        rw (e, e₂, full) refl,
        record { is_field = h.is_field; x_small = hx; y_small = hy },
      )
    ]

worm_moves-IsInside :
    (n input : ℕ) (w : Worm)
    → IsInside w
    → (w' : Worm) × (worm_moves n input w ≡ ok w') × IsInside w'
unfolding worm_moves
worm_moves-IsInside zero input w h = (w, refl, h)
worm_moves-IsInside (suc n) input w h =
    let (w₁, e, h₁) = worm_step-IsInside input w h in
    let (w₂, e₂, h₂) = worm_moves-IsInside n (input / 4) w₁ h₁ in (w₂, rw e e₂, h₂)

-- On every digest the worm stays inside the field: no index is out of bounds, and no cell counts
-- beyond 14.
pub worm_walk-IsInside :
    (digest : Bytes) (w : Worm)
    → IsInside w
    → (w' : Worm) × (worm_walk digest w ≡ ok w') × IsInside w'
unfolding worm_walk
worm_walk-IsInside [] w h = (w, refl, h)
worm_walk-IsInside (input ∷ rest) w h =
    let (w₁, e, h₁) = worm_moves-IsInside 4 input w h in
    let (w₂, e₂, h₂) = worm_walk-IsInside rest w₁ h₁ in (w₂, rw e e₂, h₂)

All-replicate : (top n : ℕ) → All (λ c. c ≤ top) (replicate n 0)
All-replicate top zero = tt
All-replicate top (suc n) = (omega arith, All-replicate top n)

rows-replicate : (top n : ℕ) → All (IsRow top) (replicate n (replicate fldsize_x 0))
rows-replicate top zero = tt
rows-replicate top (suc n) = ((refl, All-replicate top fldsize_x), rows-replicate top n)

pub worm_start-IsInside : IsInside worm_start
worm_start-IsInside = record {
  is_field = (refl, rows-replicate 14 fldsize_y);
  x_small = omega arith;
  y_small = omega arith;
}

All-le : (row : Bytes) → All (λ c. c ≤ 14) row → All (λ c. c ≤ 16) row
All-le [] h = tt
All-le (c ∷ row) (hc, h) = (omega arith, All-le row h)

rows-le : (field : List Bytes) → All (IsRow 14) field → All (IsRow 16) field
rows-le [] h = tt
rows-le (row ∷ field) ((size, hr), h) = ((size, All-le row hr), rows-le field h)

pub mark_lem :
    (w : Worm) → IsInside w → (field : List Bytes) × (mark w ≡ ok field) × IsField art_len field
unfolding mark
mark_lem w h =
    let (size, rows) = h.is_field in
    let (f, e, hf) =
      set_cell_lem 16 w.field 4 8 15 (size, rows-le w.field rows) (omega arith) (omega arith)
        (omega arith) in
    let (g, e₂, hg) = set_cell_lem 16 f w.y w.x 16 hf h.y_small h.x_small (omega arith) in
    (g, rw (e, e₂) refl, hg)
