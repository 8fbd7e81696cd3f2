-- ===== src/Format/Pubkey/Words.antt =====
-- `str::split_ascii_whitespace` of the standard library.
use rust_osshkeys.Prelude.{
  ℕ, ◌≡◌, ◌≢◌, refl, Bytes, List, [], ◌∷◌, ◌++◌, Bool, true, false, ◌==◌, ◌||◌, append-nil,
  append_assoc, ◌∙◌, All,
}

-- `u8::is_ascii_whitespace`: space, tab, line feed, form feed, carriage return.
abbrev pub is_space : ℕ → Bool
is_space b = b == 32 || b == 9 || b == 10 || b == 12 || b == 13

abbrev pub NotSpace : ℕ → Type 0
NotSpace b = is_space b ≡ false

-- Words that are empty are left out.
abbrev add_word : Bytes → List Bytes → List Bytes
add_word [] ws = ws
add_word (b ∷ w) ws = (b ∷ w) ∷ ws

split_run : Bytes → Bytes → List Bytes
split_run word [] = add_word word []
split_run word (b ∷ bs) = elim (is_space b) [
  | true ↦ add_word word (split_run [] bs)
  | false ↦ split_run (word ++ (b ∷ [])) bs
]

unfoldable pub split_ascii_whitespace : Bytes → List Bytes
unfolding split_run
split_ascii_whitespace s = split_run [] s

split_run-append :
    (w word rest : Bytes) → All NotSpace w → split_run word (w ++ rest) ≡ split_run (word ++ w) rest
unfolding split_run
split_run-append [] word rest h = rw append-nil
split_run-append (b ∷ w) word rest (hb, h) =
    rw (hb, split_run) (split_run-append w (word ++ (b ∷ [])) rest h ∙ rw append_assoc)

-- A word without white space is split off at the space behind it.
pub split_word :
    (w rest : Bytes)
    → All NotSpace w
    → w ≢ []
    → split_ascii_whitespace (w ++ (32 ∷ rest)) ≡ w ∷ split_ascii_whitespace rest
unfolding split_ascii_whitespace split_run
split_word [] rest h ne = absurd (ne refl)
split_word (b ∷ w) rest h ne = split_run-append (b ∷ w) [] (32 ∷ rest) h

pub split_last_word : (w : Bytes) → All NotSpace w → w ≢ [] → split_ascii_whitespace w ≡ w ∷ []
unfolding split_ascii_whitespace split_run
split_last_word [] h ne = absurd (ne refl)
split_last_word (b ∷ w) h ne = rw append-nil at (split_run-append (b ∷ w) [] [] h)
