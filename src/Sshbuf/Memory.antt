-- ===== src/Sshbuf/Memory.antt =====
-- `io::Cursor` over a slice as a reader, and `Vec<u8>` (also behind a cursor at its end) as a
-- writer: the standard library's implementations on memory.
use rust_osshkeys.Prelude.{
  ℕ, ◌+◌, ◌<◌, ◌≡◌, refl, ap, ◌∙◌, arith, Bytes, ◌++◌, length, length-append, take, drop, drop-drop,
  take-append_left, drop-append_left, ltb, if◌then◌else◌, ok, err, Step,
}
use rust_osshkeys.Error.{IoError, unexpected_eof}
use rust_osshkeys.Sshbuf.Reader.{Reader, Writer}

pub record Cursor : Type 0 where
  pub inner : Bytes
  pub pos : ℕ

-- `io::Cursor::new`.
abbrev pub cursor : Bytes → Cursor
cursor b = record { inner = b; pos = 0 }

abbrev pub remaining : Cursor → Bytes
remaining c = drop c.pos c.inner

unfoldable pub cursor_read_exact : ℕ → Step IoError Cursor Bytes
cursor_read_exact n c =
    if ltb (length (remaining c)) n
    then err unexpected_eof
    else ok (take n (remaining c), record c { pos = c.pos + n })

pub cursor_read_exact_lem :
    (c : Cursor) (b rest : Bytes)
    → remaining c ≡ b ++ rest
    → (d : Cursor) × (cursor_read_exact (length b) c ≡ ok (b, d)) × (remaining d ≡ rest)
unfolding cursor_read_exact
cursor_read_exact_lem c b rest e = (
  record c { pos = c.pos + length b },
  rw (e, take-append_left) (ground (arith, length-append b rest)),
  drop-drop c.pos (length b) c.inner ∙ ap (drop (length b)) e ∙ drop-append_left b rest,
)

pub cursor_read_exact_eof :
    (c : Cursor) (n : ℕ) → length (remaining c) < n → cursor_read_exact n c ≡ err unexpected_eof
unfolding cursor_read_exact
cursor_read_exact_eof c n h = ground arith

abbrev pub cursor_reader : Reader Cursor
cursor_reader = record {
  unread = remaining;
  read_exact = cursor_read_exact;
  read_exact_lem = cursor_read_exact_lem;
  read_exact_eof = cursor_read_exact_eof;
}

unfoldable pub vec_write_all : Bytes → Step IoError Bytes Unit
vec_write_all b w = ok (tt, w ++ b)

pub vec_write_all_lem :
    (w b : Bytes) → (w' : Bytes) × (vec_write_all b w ≡ ok (tt, w')) × (w' ≡ w ++ b)
unfolding vec_write_all
vec_write_all_lem w b = (w ++ b, refl, refl)

abbrev pub vec_writer : Writer Bytes
vec_writer = record {
  written = λ w. w;
  write_all = vec_write_all;
  write_all_lem = vec_write_all_lem;
}
