-- ===== src/Sshbuf/Buffer.antt =====
-- `struct SshBuf`: a `CryptoVec` with a read position. It is read through the default
-- `read_exact` of `io::Read`, which calls `read` until the slice is full.
use rust_osshkeys.Prelude.{
  length-take_le, false, ℕ, zero, suc, ◌+◌, ◌-◌, ◌≤◌, ◌<◌, ◌≡◌, refl, ap, ◌∙◌, arith, Bytes, [],
  ◌∷◌, ◌++◌, Bool, length, length-take, length-drop, take, drop, drop-drop, take-append_le,
  drop-append_le, take-append-drop, Bool-cases, inl, inr, leb, ltb, ◌==◌, if◌then◌else◌, ok, err,
  panic, and_then, Step,
}
use rust_osshkeys.Error.{IoError, unexpected_eof, IoResult}
use rust_osshkeys.External.CryptoVecs.{CryptoVecs}
use rust_osshkeys.Sshbuf.Reader.{Reader, Writer}

module _ (cv : CryptoVecs) where
  pub record SshBuf : Type 0 where
    pub read_pos : ℕ
    pub buf : cv.CryptoVec

  -- `SshBuf::new` and `SshBuf::with_vec`.
  unfoldable pub new : SshBuf
  new = record { read_pos = 0; buf = cv.new }

  unfoldable pub with_vec : cv.CryptoVec → SshBuf
  with_vec v = record { read_pos = 0; buf = v }

  -- `as_slice`, `len` and `is_empty`.
  unfoldable pub as_slice : SshBuf → Bytes
  as_slice s = cv.as_slice s.buf

  unfoldable pub len : SshBuf → ℕ
  len s = length (cv.as_slice s.buf)

  pub is_empty : SshBuf → Bool
  is_empty s = length (cv.as_slice s.buf) == 0

  -- `set_position` panics behind the end.
  unfoldable pub set_position : SshBuf → ℕ → IoResult SshBuf
  set_position s offset =
      if ltb (length (cv.as_slice s.buf)) offset then panic else ok (record s { read_pos = offset })

  -- `Read::read` into a slice of the given size: the bytes that it got.
  unfoldable pub read : ℕ → Step IoError SshBuf Bytes
  read room s =
      if leb (length (cv.as_slice s.buf)) s.read_pos
      then ok ([], s)
      else and_then (cv.write_all_from s.buf s.read_pos room)
          (λ chunk. ok (chunk, record s { read_pos = s.read_pos + length chunk }))

  -- `Write::write` takes the whole slice, so `write_all` is one call of it.
  unfoldable pub write : Bytes → Step IoError SshBuf Unit
  write b s = ok (tt, record s { buf = cv.extend s.buf b })

  -- What `read_exact` does with the bytes that one `read` returned.
  continue_exact :
      (Bytes → SshBuf → IoResult (Bytes × SshBuf)) → Bytes × SshBuf → IoResult (Bytes × SshBuf)
  continue_exact rest ([], s) = err unexpected_eof
  continue_exact rest (b ∷ bs, s) = and_then (rest (b ∷ bs) s) (λ p. ok ((b ∷ bs) ++ p.0, p.1))

  -- The loop of `read_exact` with fuel. Each round fills a byte at least, so as many rounds as
  -- there are bytes to fill are enough; `panic` stands for the fuel running out.
  read_exact_loop : ℕ → ℕ → SshBuf → IoResult (Bytes × SshBuf)
  unfolding read continue_exact
  read_exact_loop fuel zero s = ok ([], s)
  read_exact_loop zero (suc n) s = panic
  read_exact_loop (suc fuel) (suc n) s =
      and_then (read (suc n) s)
        (continue_exact (λ chunk t. read_exact_loop fuel (suc n - length chunk) t))

  pub read_exact : ℕ → Step IoError SshBuf Bytes
  read_exact n s = read_exact_loop n n s

  abbrev pub unread : SshBuf → Bytes
  unread s = drop s.read_pos (cv.as_slice s.buf)

  -- One `read` hands over a nonempty part of what is unread.
  pub read_lem :
      (s : SshBuf) (room : ℕ)
      → 0 < room
      → 0 < length (unread s)
      → (n : ℕ) × (0 < n)
        × (n ≤ room)
        × (n ≤ length (unread s))
        × (t : SshBuf) × (read room s ≡ ok (take n (unread s), t))
        × (unread t ≡ drop n (unread s))
  unfolding read
  read_lem s room hr hu =
      let (n, pos, fits, within, e) =
        cv.write_all_from_lem s.buf s.read_pos room
          (omega (arith, length-drop s.read_pos (cv.as_slice s.buf))) hr in
      let u = drop s.read_pos (cv.as_slice s.buf) in
      let here : leb (length (cv.as_slice s.buf)) s.read_pos ≡ false =
        ground (arith, length-drop s.read_pos (cv.as_slice s.buf)) in
      (
        n,
        pos,
        fits,
        within,
        record s { read_pos = s.read_pos + n },
        rw (here, e, length-take_le n u within) refl,
        drop-drop s.read_pos n (cv.as_slice s.buf),
      )

  -- One round of the loop that got a nonempty `chunk`.
  loop_round :
      (fuel n : ℕ) (s t : SshBuf) (chunk more : Bytes) (z : SshBuf)
      → 0 < length chunk
      → read (suc n) s ≡ ok (chunk, t)
      → read_exact_loop fuel (suc n - length chunk) t ≡ ok (more, z)
      → read_exact_loop (suc fuel) (suc n) s ≡ ok (chunk ++ more, z)
  unfolding read_exact_loop continue_exact
  loop_round fuel n s t [] more z h e k = absurd (omega arith)
  loop_round fuel n s t (c ∷ chunk) more z h e k = rw (e, k) refl

  read_exact_loop_lem :
      (fuel : ℕ) (b rest : Bytes) (s : SshBuf)
      → length b ≤ fuel
      → unread s ≡ b ++ rest
      → (t : SshBuf) × (read_exact_loop fuel (length b) s ≡ ok (b, t)) × (unread t ≡ rest)
  read_exact_loop_lem fuel [] rest s h e = (s, unfold read_exact_loop in refl, e)
  read_exact_loop_lem zero (x ∷ b) rest s h e = absurd (omega arith)
  read_exact_loop_lem (suc fuel) (x ∷ b) rest s h e =
      let all : Bytes = x ∷ b in
      let (n, pos, fits, within, t, got, left) =
        read_lem s (length all) (omega arith) (rw e (omega arith)) in
      let left' : unread t ≡ drop n all ++ rest =
        left ∙ ap (drop n) e ∙ drop-append_le n all rest fits in
      let got' : read (length all) s ≡ ok (take n all, t) =
        got ∙ ap (λ c. ok (c, t)) (ap (take n) e ∙ take-append_le n all rest fits) in
      let (z, done, end) =
        read_exact_loop_lem fuel (drop n all) rest t (omega (arith, length-drop n all)) left' in
      let size : suc (length b) - length (take n all) ≡ length (drop n all) =
        omega (arith, length-take n all, length-drop n all) in
      (
        z,
        loop_round fuel (length b) s t (take n all) (drop n all) z
              (omega (arith, length-take n all)) got'
              (ap (λ k. read_exact_loop fuel k t) size ∙ done)
            ∙ ap (λ c. ok (c, z)) (take-append-drop n all),
        end,
      )

  -- `read_exact` returns the next bytes, and moves the position behind them, however the vector
  -- splits them over several calls of `read`.
  pub read_exact_lem :
      (s : SshBuf) (b rest : Bytes)
      → unread s ≡ b ++ rest
      → (t : SshBuf) × (read_exact (length b) s ≡ ok (b, t)) × (unread t ≡ rest)
  unfolding read_exact
  read_exact_lem s b rest e = read_exact_loop_lem (length b) b rest s (omega arith) e

  pub read_end : (s : SshBuf) (room : ℕ) → length (unread s) ≡ 0 → read room s ≡ ok ([], s)
  unfolding read
  read_end s room h = ground (arith, length-drop s.read_pos (cv.as_slice s.buf))

  loop_end :
      (fuel n : ℕ) (s : SshBuf)
      → length (unread s) ≡ 0
      → read_exact_loop (suc fuel) (suc n) s ≡ err unexpected_eof
  unfolding read_exact_loop continue_exact
  loop_end fuel n s h = rw (read_end s (suc n) h) refl

  loop_round_err :
      (fuel n : ℕ) (s t : SshBuf) (chunk : Bytes) {e : IoError}
      → read (suc n) s ≡ ok (chunk, t)
      → 0 < length chunk
      → read_exact_loop fuel (suc n - length chunk) t ≡ err e
      → read_exact_loop (suc fuel) (suc n) s ≡ err e
  unfolding read_exact_loop continue_exact
  loop_round_err fuel n s t [] g h k = absurd (omega arith)
  loop_round_err fuel n s t (c ∷ chunk) g h k = rw (g, k) refl

  read_exact_loop_eof :
      (fuel n : ℕ) (s : SshBuf)
      → n ≤ fuel
      → length (unread s) < n
      → read_exact_loop fuel n s ≡ err unexpected_eof
  read_exact_loop_eof zero n s h k = absurd (omega arith)
  read_exact_loop_eof (suc fuel) zero s h k = absurd (omega arith)
  read_exact_loop_eof (suc fuel) (suc n) s h k = elim (Bool-cases (length (unread s) == 0)) [
    | inl done ↦ loop_end fuel n s (ground arith)
    | inr more ↦
        let (m, pos, fits, within, t, got, left) =
          read_lem s (suc n) (omega arith) (ground arith) in
        let size = length-take_le m (unread s) within in
        loop_round_err fuel n s t (take m (unread s)) got (omega (arith, size)) (
          read_exact_loop_eof fuel (suc n - length (take m (unread s))) t (omega (arith, size))
            (rw left (omega (arith, size, length-drop m (unread s)))))
  ]

  -- `read_exact` fails with UnexpectedEof if fewer bytes are left than it was asked for.
  pub read_exact_eof :
      (s : SshBuf) (n : ℕ) → length (unread s) < n → read_exact n s ≡ err unexpected_eof
  unfolding read_exact
  read_exact_eof s n h = read_exact_loop_eof n n s (omega arith) h

  pub write_lem :
      (s : SshBuf) (b : Bytes)
      → (t : SshBuf) × (write b s ≡ ok (tt, t)) × (as_slice t ≡ as_slice s ++ b)
  unfolding write as_slice
  write_lem s b = (record s { buf = cv.extend s.buf b }, refl, cv.as_slice-extend s.buf b)

  unfoldable pub ssh_buf_reader : Reader SshBuf
  ssh_buf_reader = record {
    unread = unread;
    read_exact = read_exact;
    read_exact_lem = read_exact_lem;
    read_exact_eof = read_exact_eof;
  }

  unfoldable pub ssh_buf_writer : Writer SshBuf
  ssh_buf_writer = record { written = as_slice; write_all = write; write_all_lem = write_lem }
