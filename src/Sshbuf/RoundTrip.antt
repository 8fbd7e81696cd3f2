-- ===== src/Sshbuf/RoundTrip.antt =====
-- What the readers of sshbuf.rs make of the output of its writers.

use rust_osshkeys.Prelude.{
  ℕ, ◌^◌, ◌<◌, refl, arith, Bytes, [], ◌∷◌, ◌++◌, Bool, true, false, length, Step, ok,
}
use rust_osshkeys.Sshbuf.Endian.{to_be_bytes, length-to_be_bytes, from_be_bytes-to_be_bytes}
use rust_osshkeys.Sshbuf.Utf8.{IsText}
use rust_osshkeys.Sshbuf.Reader.{Reader, Reads, Writer, Writes}
use rust_osshkeys.Sshbuf.Rules.{Reads-bind, Reads-bind_end, Reads-pure, Reads-lift, Writes-seq}
use rust_osshkeys.Sshbuf.Read.{
  index, read_uint8, read_bool, read_uint32, read_uint64, read_string, read_utf8,
}
use rust_osshkeys.Sshbuf.Write.{
  write_uint8, write_bool, write_uint32, write_uint64, write_string, write_utf8,
}
use native.Mathlib.Nat.{mod-eq_of_lt}

-- The writer appends some bytes and succeeds. On these bytes, whatever follows them, the reader
-- returns `a` and leaves what follows.
abbrev pub RoundTrips :
    {E F W R A : Type 0} → Writer W → Reader R → Step E W Unit → Step F R A → A → Type 0
RoundTrips wr rd m k a = (b : Bytes) × Writes wr m b tt × Reads rd k b a

-- A string that its length prefix can hold.
abbrev pub Fits : Bytes → Type 0
Fits b = length b < 2 ^ 32

-- The wire form of a string.
unfoldable pub string_bytes : Bytes → Bytes
string_bytes b = to_be_bytes 4 (length b) ++ b

module _ {W : Type 0} (wr : Writer W) where
  pub Writes-write_all : (b : Bytes) → Writes wr (wr.write_all b) b tt
  Writes-write_all b = record { at = λ w. wr.write_all_lem w b }

  pub Writes-write_uint32 : (n : ℕ) → Writes wr (write_uint32 wr n) (to_be_bytes 4 n) tt
  unfolding write_uint32
  Writes-write_uint32 n = Writes-write_all (to_be_bytes 4 n)

  pub Writes-write_string : (b : Bytes) → Fits b → Writes wr (write_string wr b) (string_bytes b) tt
  unfolding write_string string_bytes
  Writes-write_string b h =
      rw (mod-eq_of_lt h)
        (Writes-seq _ (wr.write_all b) (Writes-write_uint32 (length b)) (Writes-write_all b))

module _ {R : Type 0} (rd : Reader R) where
  pub Reads-read_exact : (b : Bytes) → Reads rd (rd.read_exact (length b)) b b
  Reads-read_exact b = record { at = λ r rest e. rd.read_exact_lem r b rest e }

  Reads-read_exact_be : (k v : ℕ) → Reads rd (rd.read_exact k) (to_be_bytes k v) (to_be_bytes k v)
  Reads-read_exact_be k v = rw (length-to_be_bytes k v) at (Reads-read_exact (to_be_bytes k v))

  pub Reads-read_uint32 : (n : ℕ) → n < 2 ^ 32 → Reads rd (read_uint32 rd) (to_be_bytes 4 n) n
  unfolding read_uint32
  Reads-read_uint32 n h =
      Reads-bind_end _ _ (Reads-read_exact_be 4 n)
        (rw (from_be_bytes-to_be_bytes 4 n (omega arith)) (Reads-pure n))

  pub Reads-read_uint64 : (n : ℕ) → n < 2 ^ 64 → Reads rd (read_uint64 rd) (to_be_bytes 8 n) n
  unfolding read_uint64
  Reads-read_uint64 n h =
      Reads-bind_end _ _ (Reads-read_exact_be 8 n)
        (rw (from_be_bytes-to_be_bytes 8 n (omega arith)) (Reads-pure n))

  pub Reads-read_uint8 : (n : ℕ) → Reads rd (read_uint8 rd) (n ∷ []) n
  unfolding read_uint8 index
  Reads-read_uint8 n = Reads-bind_end _ _ (Reads-read_exact (n ∷ [])) (Reads-lift (ok n) refl)

  pub Reads-read_string : (b : Bytes) → Fits b → Reads rd (read_string rd) (string_bytes b) b
  unfolding read_string string_bytes
  Reads-read_string b h = Reads-bind _ _ (Reads-read_uint32 (length b) h) (Reads-read_exact b)

  pub Reads-read_utf8 : (b : Bytes) → Fits b → IsText b → Reads rd (read_utf8 rd) (string_bytes b) b
  unfolding read_utf8
  Reads-read_utf8 b h t = Reads-bind_end _ _ (Reads-read_string b h) (Reads-lift _ (rw t))

module _ {W R : Type 0} (wr : Writer W) (rd : Reader R) where
  -- A byte, a truth value, a 32-bit and a 64-bit number are read back as they were written.
  pub fixed-RoundTrips :
      (n : ℕ) (t : Bool) (v32 v64 : ℕ)
      → v32 < 2 ^ 32
      → v64 < 2 ^ 64
      → RoundTrips wr rd (write_uint8 wr n) (read_uint8 rd) n
        × RoundTrips wr rd (write_bool wr t) (read_bool rd) t
        × RoundTrips wr rd (write_uint32 wr v32) (read_uint32 rd) v32
        × RoundTrips wr rd (write_uint64 wr v64) (read_uint64 rd) v64
  unfolding write_uint8 write_uint64 write_bool read_bool
  fixed-RoundTrips n t v32 v64 h k = (
    (n ∷ [], Writes-write_all wr (n ∷ []), Reads-read_uint8 rd n),
    bool_round_trip t,
    (to_be_bytes 4 v32, Writes-write_uint32 wr v32, Reads-read_uint32 rd v32 h),
    (to_be_bytes 8 v64, Writes-write_all wr _, Reads-read_uint64 rd v64 k),
  )
    where
      bool_round_trip : (t : Bool) → RoundTrips wr rd (write_bool wr t) (read_bool rd) t
      bool_round_trip true = (
        1 ∷ [],
        Writes-write_all wr _,
        Reads-bind_end _ _ (Reads-read_uint8 rd 1) (Reads-pure true),
      )
      bool_round_trip false = (
        0 ∷ [],
        Writes-write_all wr _,
        Reads-bind_end _ _ (Reads-read_uint8 rd 0) (Reads-pure false),
      )

  -- A byte string below 2^32 bytes is read back by `read_string` as it was written.
  pub string-RoundTrips :
      (b : Bytes) → Fits b → RoundTrips wr rd (write_string wr b) (read_string rd) b
  string-RoundTrips b h = (string_bytes b, Writes-write_string wr b h, Reads-read_string rd b h)

  -- A UTF-8 string below 2^32 bytes is read back by `read_utf8` as it was written.
  pub utf8-RoundTrips :
      (b : Bytes) → Fits b → IsText b → RoundTrips wr rd (write_utf8 wr b) (read_utf8 rd) b
  unfolding write_utf8
  utf8-RoundTrips b h t = (string_bytes b, Writes-write_string wr b h, Reads-read_utf8 rd b h t)
