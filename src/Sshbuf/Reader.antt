-- ===== src/Sshbuf/Reader.antt =====
-- `io::Read` and `io::Write` as the crate uses them. Every reader of the crate holds its bytes in
-- memory: `unread` is what is left of them. Every writer appends: `written` is what it holds.
use rust_osshkeys.Prelude.{ℕ, ◌<◌, ◌≡◌, Bytes, ◌++◌, length, ok, err, Step}
use rust_osshkeys.Error.{IoError, unexpected_eof}

pub record Reader (R : Type 0) : Type 0 where
  pub unread : R → Bytes
  -- `read_exact` into a buffer of the given size.
  pub read_exact : ℕ → Step IoError R Bytes
  pub read_exact_lem :
      (r : R) (b rest : Bytes)
      → unread r ≡ b ++ rest
      → (r' : R) × (read_exact (length b) r ≡ ok (b, r')) × (unread r' ≡ rest)
  pub read_exact_eof : (r : R) (n : ℕ) → length (unread r) < n → read_exact n r ≡ err unexpected_eof

pub record Writer (W : Type 0) : Type 0 where
  pub written : W → Bytes
  pub write_all : Bytes → Step IoError W Unit
  pub write_all_lem :
      (w : W) (b : Bytes) → (w' : W) × (write_all b w ≡ ok (tt, w')) × (written w' ≡ written w ++ b)

module _ {E R A : Type 0} (rd : Reader R) where
  -- On input that starts with `b` the step returns `a`, and leaves what follows `b`.
  pub record Reads (m : Step E R A) (b : Bytes) (a : A) : Type 0 where
    pub at :
        (r : R) (rest : Bytes)
        → rd.unread r ≡ b ++ rest
        → (r' : R) × (m r ≡ ok (a, r')) × (rd.unread r' ≡ rest)

module _ {E W A : Type 0} (wr : Writer W) where
  -- The step returns `a` and has appended `b`.
  pub record Writes (m : Step E W A) (b : Bytes) (a : A) : Type 0 where
    pub at : (w : W) → (w' : W) × (m w ≡ ok (a, w')) × (wr.written w' ≡ wr.written w ++ b)
