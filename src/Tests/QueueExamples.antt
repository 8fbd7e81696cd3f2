-- ===== src/Tests/QueueExamples.antt =====
-- A run of a buffer: two bytes are given, two are written, and three are read.
use rust_osshkeys.Prelude.{◌≡◌, ◌≤◌, ◌++◌, [], refl, arith, ascii, ok, length}
use rust_osshkeys.Sshbuf.Buffer.{SshBuf, with_vec, as_slice, read, write, unread}
use rust_osshkeys.Sshbuf.Queue.{Call, Reachable, Runs, unread-Runs}
use rust_osshkeys.Tests.Services.{vectors}

abbrev buffer_before : SshBuf vectors
buffer_before = with_vec vectors (ascii "ab")

abbrev buffer_written : SshBuf vectors
buffer_written = record { read_pos = 0; buf = ascii "abcd" }

abbrev buffer_after : SshBuf vectors
buffer_after = record { read_pos = 3; buf = ascii "abcd" }

write_cd : write vectors (ascii "cd") buffer_before ≡ ok (tt, buffer_written)
unfolding write with_vec
write_cd = refl

read_abc : read vectors 3 buffer_written ≡ ok (ascii "abc", buffer_after)
unfolding read
read_abc = refl

three_read :
    Runs vectors buffer_before (([] ++ ascii "cd") ++ []) (([] ++ []) ++ ascii "abc") buffer_after
three_read =
    Runs.went_on (Runs.went_on Runs.begun (Call.wrote (ascii "cd") write_cd))
      (Call.got 3 (ascii "abc") (omega arith) read_abc)

unread-Runs_example :
    (unread vectors buffer_before ++ ascii "cd" ≡ ascii "abc" ++ unread vectors buffer_after)
    × (buffer_after.read_pos ≤ length (as_slice vectors buffer_after))
unread-Runs_example =
    unread-Runs vectors buffer_before buffer_after (ascii "cd") (ascii "abc")
      (Reachable.given (ascii "ab")) three_read
