-- ===== src/Sshbuf/Overflow.antt =====
-- Strings whose length does not fit in the 32 bits of its prefix.
use rust_osshkeys.Prelude.{
  ℕ, ◌%◌, ◌^◌, ◌≤◌, ◌≡◌, sym, ap, ◌∙◌, arith, Bytes, ◌++◌, append_assoc, length, take, drop,
  take-append-drop, length-take_le,
}
use rust_osshkeys.Sshbuf.Endian.{to_be_bytes}
use rust_osshkeys.Sshbuf.Reader.{Reader, Reads, Writer, Writes}
use rust_osshkeys.Sshbuf.Rules.{Reads-bind, Writes-seq}
use rust_osshkeys.Sshbuf.Read.{read_string}
use rust_osshkeys.Sshbuf.Write.{write_string}
use rust_osshkeys.Sshbuf.RoundTrip.{
  Writes-write_all, Writes-write_uint32, Reads-read_exact, Reads-read_uint32,
}

-- The length that the prefix holds.
abbrev pub kept : Bytes → ℕ
kept b = length b % 2 ^ 32

kept-le : (b : Bytes) → kept b ≤ length b
kept-le b = omega arith

module _ {W R : Type 0} (wr : Writer W) (rd : Reader R) where
  -- A byte string of any length is written with its length modulo 2^32 before it. `read_string` on
  -- what was written returns as many bytes of the string as that says, without an error, and the
  -- other bytes of the string follow as if they were the next data.
  pub string_kept :
      (b : Bytes)
      → Writes wr (write_string wr b) (to_be_bytes 4 (kept b) ++ b) tt
        × Reads rd (read_string rd) (to_be_bytes 4 (kept b) ++ take (kept b) b) (take (kept b) b)
        × (to_be_bytes 4 (kept b) ++ b
            ≡ (to_be_bytes 4 (kept b) ++ take (kept b) b) ++ drop (kept b) b)
  unfolding write_string read_string
  string_kept b =
      let size : length (take (kept b) b) ≡ kept b = length-take_le (kept b) b (kept-le b) in
      (
        Writes-seq _ (wr.write_all b) (Writes-write_uint32 wr (kept b)) (Writes-write_all wr b),
        Reads-bind _ _ (Reads-read_uint32 rd (kept b) (omega arith))
            (rw size at (Reads-read_exact rd (take (kept b) b))),
        ap (λ s. to_be_bytes 4 (kept b) ++ s) (sym (take-append-drop (kept b) b))
            ∙ sym (append_assoc (to_be_bytes 4 (kept b)) (take (kept b) b) (drop (kept b) b)),
      )
