-- ===== src/Tests/WireExamples.antt =====
-- The theorems on the data types of SSH at concrete inputs.
use rust_osshkeys.Prelude.{
  ◌≡◌, refl, arith, Bytes, [], ◌∷◌, ascii, true, ok, err, panic, length, drop, ◌≤◌, ◌++◌, take,
}
use rust_osshkeys.Error.{unexpected_eof}
use rust_osshkeys.Sshbuf.RoundTrip.{
  utf8-RoundTrips, RoundTrips, fixed-RoundTrips, string-RoundTrips,
}
use rust_osshkeys.Sshbuf.Utf8.{is_utf8}
use rust_osshkeys.Sshbuf.Read.{
  read_mpint, read_string, read_utf8, read_uint8, read_bool, read_uint32, read_uint64, to_bignum,
  leading_zeros, max_bignum,
}
use rust_osshkeys.Sshbuf.Write.{
  write_mpint, write_string, write_utf8, write_uint8, write_bool, write_uint32, write_uint64,
}
use rust_osshkeys.Sshbuf.Mpint.{IsWritable, mpint-RoundTrips, write_mpint_zero, to_bignum_sound}
use rust_osshkeys.Sshbuf.Buffer.{SshBuf, read_exact, unread, read_exact_lem, read_exact_eof}
use rust_osshkeys.Tests.Numbers.{numbers}
use rust_osshkeys.Tests.Services.{vectors}
use rust_osshkeys.Sshbuf.Endian.{to_be_bytes}
use rust_osshkeys.Sshbuf.Reader.{Reads, Writes}
use rust_osshkeys.Sshbuf.Memory.{cursor_reader, vec_writer}
use rust_osshkeys.Sshbuf.Overflow.{kept, string_kept}

abbrev three_bytes : Bytes
three_bytes = 128 ∷ 2 ∷ 3 ∷ []

three_bytes-IsWritable : IsWritable numbers three_bytes
three_bytes-IsWritable = record { not_negative = refl; not_zero = λ e. cc; short = omega arith }

mpint-RoundTrips_example :
    RoundTrips vec_writer cursor_reader
      (write_mpint vec_writer numbers three_bytes)
      (read_mpint numbers cursor_reader)
      three_bytes
mpint-RoundTrips_example =
    mpint-RoundTrips numbers vec_writer cursor_reader three_bytes three_bytes-IsWritable

write_mpint_zero_example : write_mpint vec_writer numbers [] [] ≡ panic
write_mpint_zero_example = write_mpint_zero numbers vec_writer [] [] refl

to_bignum_sound_example :
    (numbers.to_vec (7 ∷ 9 ∷ []) ≡ drop (leading_zeros (0 ∷ 7 ∷ 9 ∷ [])) (0 ∷ 7 ∷ 9 ∷ []))
    × (length (numbers.to_vec (7 ∷ 9 ∷ [])) ≤ max_bignum)
to_bignum_sound_example =
    to_bignum_sound numbers (0 ∷ 7 ∷ 9 ∷ []) (7 ∷ 9 ∷ [])
      (omega arith, (omega arith, (omega arith, tt))) (unfold to_bignum leading_zeros in refl)

string-RoundTrips_example :
    RoundTrips vec_writer cursor_reader
      (write_string vec_writer (ascii "abc"))
      (read_string cursor_reader)
      (ascii "abc")
string-RoundTrips_example = string-RoundTrips vec_writer cursor_reader (ascii "abc") (omega arith)

utf8-RoundTrips_example :
    RoundTrips vec_writer cursor_reader
      (write_utf8 vec_writer (ascii "abc"))
      (read_utf8 cursor_reader)
      (ascii "abc")
utf8-RoundTrips_example =
    utf8-RoundTrips vec_writer cursor_reader (ascii "abc") (omega arith) (unfold is_utf8 in refl)

fixed-RoundTrips_example :
    RoundTrips vec_writer cursor_reader (write_uint8 vec_writer 200) (read_uint8 cursor_reader) 200
    × RoundTrips vec_writer cursor_reader
        (write_bool vec_writer true)
        (read_bool cursor_reader)
        true
    × RoundTrips vec_writer cursor_reader
        (write_uint32 vec_writer 70000)
        (read_uint32 cursor_reader)
        70000
    × RoundTrips vec_writer cursor_reader
        (write_uint64 vec_writer 70000)
        (read_uint64 cursor_reader)
        70000
fixed-RoundTrips_example =
    fixed-RoundTrips vec_writer cursor_reader 200 true 70000 70000 (omega arith) (omega arith)

abbrev two_read : SshBuf vectors
two_read = record { buf = ascii "abcdef"; read_pos = 2 }

read_exact_lem_example :
    (t : SshBuf vectors) × (read_exact vectors 3 two_read ≡ ok (ascii "cde", t))
    × (unread vectors t ≡ ascii "f")
read_exact_lem_example = read_exact_lem vectors two_read (ascii "cde") (ascii "f") refl

read_exact_eof_example : read_exact vectors 5 two_read ≡ err unexpected_eof
read_exact_eof_example = read_exact_eof vectors two_read 5 (omega arith)

string_kept_example :
    Writes vec_writer
      (write_string vec_writer (ascii "abc"))
      (to_be_bytes 4 (kept (ascii "abc")) ++ ascii "abc")
      tt
    × Reads cursor_reader
        (read_string cursor_reader)
        (to_be_bytes 4 (kept (ascii "abc")) ++ take (kept (ascii "abc")) (ascii "abc"))
        (take (kept (ascii "abc")) (ascii "abc"))
    × (to_be_bytes 4 (kept (ascii "abc")) ++ ascii "abc"
        ≡ (to_be_bytes 4 (kept (ascii "abc")) ++ take (kept (ascii "abc")) (ascii "abc"))
          ++ drop (kept (ascii "abc")) (ascii "abc"))
string_kept_example = string_kept vec_writer cursor_reader (ascii "abc")
