-- ===== src/Sshbuf/Write.antt =====
-- `trait SshWriteExt`, over any writer.
use rust_osshkeys.Prelude.{
  ℕ, ◌^◌, ◌%◌, Bytes, [], ◌∷◌, Bool, ltb, if◌then◌else◌, length, drop, bit_and, Step, ◌>>=◌, ◌>>◌,
  lift,
}
use rust_osshkeys.Error.{IoError}
use rust_osshkeys.External.BigNums.{BigNums}
use rust_osshkeys.Sshbuf.Endian.{to_be_bytes}
use rust_osshkeys.Sshbuf.Read.{index}
use rust_osshkeys.Sshbuf.Reader.{Writer}

module _ {W : Type 0} (wr : Writer W) where
  unfoldable pub write_uint8 : ℕ → Step IoError W Unit
  write_uint8 value = wr.write_all (value ∷ [])

  unfoldable pub write_bool : Bool → Step IoError W Unit
  write_bool value = write_uint8 (if value then 1 else 0)

  unfoldable pub write_uint32 : ℕ → Step IoError W Unit
  write_uint32 value = wr.write_all (to_be_bytes 4 value)

  unfoldable pub write_uint64 : ℕ → Step IoError W Unit
  write_uint64 value = wr.write_all (to_be_bytes 8 value)

  -- `buf.len() as u32` keeps the lowest 32 bits.
  unfoldable pub write_string : Bytes → Step IoError W Unit
  write_string buf = do write_uint32 (length buf % 2 ^ 32); wr.write_all buf

  unfoldable pub write_utf8 : Bytes → Step IoError W Unit
  write_utf8 value = write_string value

  -- `buf` starts with a zero byte, and `buf[1]` is the first byte of the number.
  unfoldable pub write_mpint : (bn : BigNums) → bn.BigNum → Step IoError W Unit
  write_mpint bn value =
      let buf = 0 ∷ bn.to_vec value in
      do
        head ← lift (index buf 1)
        if ltb 0 (bit_and head 0x80) then write_string buf else write_string (drop 1 buf)
