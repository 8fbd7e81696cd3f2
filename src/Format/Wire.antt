-- ===== src/Format/Wire.antt =====
-- Blocks of reads and writes with the error type of the crate, as the formats use them, and what
-- the elements of such a block read and write.
use rust_osshkeys.Prelude.{
  ◌≡◌, refl, sym, Bytes, [], append-nil, Bool, true, false, ok, and_then, Step, pure, lift,
}
use rust_osshkeys.Error.{Error, ErrorKind, OsshResult, fail, from_io, on_io}
use rust_osshkeys.External.BigNums.{BigNums}
use rust_osshkeys.Sshbuf.Utf8.{IsText}
use rust_osshkeys.Sshbuf.Reader.{Reader, Reads, Writer, Writes}
use rust_osshkeys.Sshbuf.Rules.{Reads-convert, Reads-pure, Writes-convert}
use rust_osshkeys.Sshbuf.Read.{read_utf8, read_string, read_mpint}
use rust_osshkeys.Sshbuf.Write.{write_utf8, write_string, write_mpint}
use rust_osshkeys.Sshbuf.RoundTrip.{
  Fits, string_bytes, Writes-write_string, Reads-read_string, Reads-read_utf8,
}
use rust_osshkeys.Sshbuf.Mpint.{mpint_payload, IsWritable, Writes-write_mpint, Reads-read_mpint}
use rust_osshkeys.Sshbuf.Memory.{Cursor, cursor, cursor_reader, vec_writer}

-- A block of writes into a new vector, and `into_inner`.
unfoldable pub into_vec : Step Error Bytes Unit → OsshResult Bytes
into_vec m = and_then (m []) (λ p. ok p.1)

-- A block of reads through a new cursor.
unfoldable pub with_cursor : {A : Type 0} → Step Error Cursor A → Bytes → OsshResult A
with_cursor m b = and_then (m (cursor b)) (λ p. ok p.0)

-- `return Err(kind.into())` under a test.
abbrev pub check : {S : Type 0} → Bool → ErrorKind → Step Error S Unit
check true k = pure tt
check false k = lift (fail k)

pub into_vec_of :
    (m : Step Error Bytes Unit) (b : Bytes) → Writes vec_writer m b tt → into_vec m ≡ ok b
unfolding into_vec
into_vec_of m b p = let (w, e, u) = p.at [] in rw (e, u) refl

pub with_cursor_of :
    {A : Type 0} (m : Step Error Cursor A) (b : Bytes) {a : A}
    → Reads cursor_reader m b a
    → with_cursor m b ≡ ok a
unfolding with_cursor
with_cursor_of m b p = let (c, e, u) = p.at (cursor b) [] (sym (append-nil b)) in rw e refl

-- The wire form of a number.
abbrev pub mpint_bytes : (bn : BigNums) → bn.BigNum → Bytes
mpint_bytes bn v = string_bytes (mpint_payload (bn.to_vec v))

module _ {W : Type 0} (wr : Writer W) where
  pub Writes-text : (b : Bytes) → Fits b → Writes wr (on_io (write_utf8 wr b)) (string_bytes b) tt
  unfolding write_utf8
  Writes-text b h = Writes-convert from_io _ (Writes-write_string wr b h)

  pub Writes-string :
      (b : Bytes) → Fits b → Writes wr (on_io (write_string wr b)) (string_bytes b) tt
  Writes-string b h = Writes-convert from_io _ (Writes-write_string wr b h)

  pub Writes-mpint :
      (bn : BigNums) (v : bn.BigNum)
      → IsWritable bn v
      → Writes wr (on_io (write_mpint wr bn v)) (mpint_bytes bn v) tt
  Writes-mpint bn v h = Writes-convert from_io _ (Writes-write_mpint bn wr v h)

module _ {R : Type 0} (rd : Reader R) where
  pub Reads-text :
      (b : Bytes) → Fits b → IsText b → Reads rd (on_io (read_utf8 rd)) (string_bytes b) b
  Reads-text b h t = Reads-convert from_io _ (Reads-read_utf8 rd b h t)

  pub Reads-string : (b : Bytes) → Fits b → Reads rd (on_io (read_string rd)) (string_bytes b) b
  Reads-string b h = Reads-convert from_io _ (Reads-read_string rd b h)

  pub Reads-mpint :
      (bn : BigNums) (v : bn.BigNum)
      → IsWritable bn v
      → Reads rd (on_io (read_mpint bn rd)) (mpint_bytes bn v) v
  Reads-mpint bn v h = Reads-convert from_io _ (Reads-read_mpint bn rd v h)

  pub Reads-check : (b : Bool) (k : ErrorKind) → b ≡ true → Reads rd (check b k) [] tt
  Reads-check true k h = Reads-pure tt
  Reads-check false k h = cc
