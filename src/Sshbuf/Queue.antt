-- ===== src/Sshbuf/Queue.antt =====
-- `SshBuf` as a state machine: the states that its calls reach, and a queue of bytes as the
-- abstract view of it.
use rust_osshkeys.Prelude.{
  ℕ, ◌+◌, ◌≤◌, ◌<◌, ◌≡◌, subst, leb, drop-drop, length-take_le, refl, sym, ap, ◌∙◌, arith, Bytes,
  [], ◌++◌, length, take, drop, ok, append-nil, append_assoc, length-drop, length-append,
  take-append-drop, drop-append_le, Bool-cases, inl, inr, ltb, ◌==◌, false,
}
use rust_osshkeys.Error.{IoResult}
use rust_osshkeys.External.CryptoVecs.{CryptoVecs}
use rust_osshkeys.Sshbuf.Buffer.{
  SshBuf, new, with_vec, as_slice, set_position, read, write, unread, read_end,
}

module _ (cv : CryptoVecs) where
  -- A call of `write`, or of `read` into a slice that is not empty, with the bytes that it wrote and
  -- those that it got.
  pub data Call (s : SshBuf cv) : Bytes → Bytes → SshBuf cv → Type 0 where
    wrote : {t : SshBuf cv} (b : Bytes) → write cv b s ≡ ok (tt, t) → Call s b [] t
    got :
        {t : SshBuf cv} (room : ℕ) (chunk : Bytes)
        → 0 < room
        → read cv room s ≡ ok (chunk, t)
        → Call s [] chunk t

  -- Calls in a row, with all the bytes that they wrote and all that they got.
  pub data Runs (s : SshBuf cv) : Bytes → Bytes → SshBuf cv → Type 0 where
    begun : Runs s [] [] s
    went_on :
        {w r : Bytes} {t : SshBuf cv} {b chunk : Bytes} {u : SshBuf cv}
        → Runs s w r t
        → Call t b chunk u
        → Runs s (w ++ b) (r ++ chunk) u

  -- The states that a buffer can be in.
  pub data Reachable : SshBuf cv → Type 0 where
    made : Reachable (new cv)
    given : (v : cv.CryptoVec) → Reachable (with_vec cv v)
    called :
        {s : SshBuf cv} {b chunk : Bytes} {t : SshBuf cv}
        → Reachable s
        → Call s b chunk t
        → Reachable t
    moved :
        {s t : SshBuf cv} (offset : ℕ) → Reachable s → set_position cv s offset ≡ ok t → Reachable t

  -- The read position is in the buffer, or at its end.
  abbrev pub IsInside : SshBuf cv → Type 0
  IsInside s = s.read_pos ≤ length (as_slice cv s)

  -- A `write` adds to the end of what is unread.
  unread-write :
      (s t : SshBuf cv) (b : Bytes)
      → IsInside s
      → write cv b s ≡ ok (tt, t)
      → IsInside t × (unread cv t ≡ unread cv s ++ b)
  unfolding write as_slice
  unread-write s t b h e =
      let built : SshBuf cv = record s { buf = cv.extend s.buf b } in
      let same : built ≡ t = cc in
      let more = cv.as_slice-extend s.buf b in
      subst (λ x. IsInside x × (unread cv x ≡ unread cv s ++ b)) same
        (
          omega (arith, ap length more, length-append (cv.as_slice s.buf) b),
          ap (drop s.read_pos) more ∙ drop-append_le s.read_pos (cv.as_slice s.buf) b h,
        )

  -- A call that got the first `n` unread bytes, and what is known of its result.
  unread-take :
      (s t : SshBuf cv) (n : ℕ) (chunk : Bytes)
      → n ≤ length (unread cv s)
      → IsInside s
      → take n (unread cv s) ≡ chunk
      → record s { read_pos = s.read_pos + n } ≡ t
      → IsInside t × (unread cv s ≡ chunk ++ unread cv t)
  unfolding as_slice
  unread-take s t n chunk within h part same =
      let u = unread cv s in
      (
        subst IsInside same (omega (arith, length-drop s.read_pos (cv.as_slice s.buf))),
        sym (take-append-drop n u)
            ∙ (λ i. part i ++ drop n u)
            ∙ ap (λ x. chunk ++ x)
                (sym (drop-drop s.read_pos n (cv.as_slice s.buf)) ∙ ap (unread cv) same),
      )

  -- A `read` takes from the front of it.
  unread-read :
      (s t : SshBuf cv) (room : ℕ) (chunk : Bytes)
      → IsInside s
      → 0 < room
      → read cv room s ≡ ok (chunk, t)
      → IsInside t × (unread cv s ≡ chunk ++ unread cv t)
  unfolding read as_slice
  unread-read s t room chunk h hr e = elim (Bool-cases (length (unread cv s) == 0)) [
    | inl done ↦
        let stay = read_end cv s room (ground arith) in
        let all : ◌≡◌ {A = IoResult (Bytes × SshBuf cv)} (ok ([], s)) (ok (chunk, t)) =
          sym stay ∙ e in
        let part : [] ≡ chunk = cc in
        let same : s ≡ t = cc in
        (subst IsInside same h, ap (unread cv) same ∙ ap (λ c. c ++ unread cv t) part)
    | inr more ↦
        let size = length-drop s.read_pos (cv.as_slice s.buf) in
        let before : s.read_pos < length (cv.as_slice s.buf) = ground (arith, size) in
        let (n, pos, fits, within, copied) =
          cv.write_all_from_lem s.buf s.read_pos room before hr in
        let here : leb (length (cv.as_slice s.buf)) s.read_pos ≡ false = ground arith in
        let built : SshBuf cv = record s { read_pos = s.read_pos + n } in
        let now : read cv room s ≡ ok (take n (unread cv s), built) =
          rw (here, copied, length-take_le n (unread cv s) within) refl in
        let all : ◌≡◌ {A = IoResult (Bytes × SshBuf cv)} (ok (take n (unread cv s), built))
            (ok (chunk, t)) =
          sym now ∙ e in
        let part : take n (unread cv s) ≡ chunk = cc in
        let same : built ≡ t = cc in unread-take s t n chunk within h part same
  ]

  set_position-IsInside :
      (s t : SshBuf cv) (offset : ℕ) → set_position cv s offset ≡ ok t → IsInside t
  unfolding set_position as_slice
  set_position-IsInside s t offset e = elim (Bool-cases (ltb (length (cv.as_slice s.buf)) offset)) [
    | inl out ↦ absurd (let no = rw out at e in cc)
    | inr fits ↦
        let built : SshBuf cv = record s { read_pos = offset } in
        let done = rw fits at e in let same : built ≡ t = cc in subst IsInside same (ground arith)
  ]

  unread-Call :
      (s t : SshBuf cv) (b chunk : Bytes)
      → IsInside s
      → Call s b chunk t
      → IsInside t × (unread cv s ++ b ≡ chunk ++ unread cv t)
  unread-Call s t _ _ h (wrote b e) =
      let (still, more) = unread-write s t b h e in (still, sym more)
  unread-Call s t _ _ h (got room chunk hr e) =
      let (still, less) = unread-read s t room chunk h hr e in
      (still, append-nil (unread cv s) ∙ less)

  Reachable-IsInside : (s : SshBuf cv) → Reachable s → IsInside s
  unfolding new with_vec as_slice
  Reachable-IsInside s made = omega arith
  Reachable-IsInside s (given v) = omega arith
  Reachable-IsInside s (called {s = p} {b = b} {chunk = chunk} h c) =
      (unread-Call p s b chunk (Reachable-IsInside p h) c).0
  Reachable-IsInside s (moved {s = p} offset h e) = set_position-IsInside p s offset e

  -- A buffer that its calls have made is a queue of bytes: after any calls of `write` and of `read`
  -- into slices that are not empty, what was unread before and what was written, one after the
  -- other, are what was read and what is unread now. The read position is never behind the end of
  -- the buffer, also if `set_position` was called before.
  pub unread-Runs :
      (s t : SshBuf cv) (w r : Bytes)
      → Reachable s
      → Runs s w r t
      → (unread cv s ++ w ≡ r ++ unread cv t) × (t.read_pos ≤ length (as_slice cv t))
  unread-Runs s t w r h begun = (append-nil (unread cv s), Reachable-IsInside s h)
  unread-Runs s t _ _ h (went_on {w = w} {r = r} {t = p} {b = b} {chunk = chunk} run call) =
      let (before, inside) = unread-Runs s p w r h run in
      let (still, now) = unread-Call p t b chunk inside call in
      (
        sym (append_assoc (unread cv s) w b)
            ∙ ap (λ x. x ++ b) before
            ∙ append_assoc r (unread cv p) b
            ∙ ap (λ x. r ++ x) now
            ∙ sym (append_assoc r chunk (unread cv t)),
        still,
      )
