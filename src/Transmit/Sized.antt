-- ===== src/Transmit/Sized.antt =====
-- streaming_transmit/io.go: messages behind their length. What is read from is the list of the bytes
-- that are to come, behind which the stream ends.
use carlo.Common.{
  ℕ, ◌+◌, ◌-◌, ◌%◌, ◌^◌, List, [], ◌∷◌, Option, none, some, Error, eof, unexpected_eof, too_large,
  other_error, ok, err, length, take, drop, ltb, ◌==◌, if◌then◌else◌,
}
use carlo.Common.Words.{be32}
use carlo.Bytesutil.{BytesUtil}
use carlo.Reader.{Bytes, Reader, ◌>>=◌, ◌>>◌}

-- `io.ReadFull` into a slice of `n` bytes.
unfoldable pub read_full : ℕ → Reader Bytes
read_full n src =
    if ltb (length src) n
    then err (if length src == 0 then eof else unexpected_eof)
    else ok (take n src, drop n src)

-- `Read` into a slice of `n` bytes.
unfoldable pub read : ℕ → Reader Bytes
read n = read_full n

-- `Write`, after the writer has answered with a number of bytes and an error.
unfoldable pub write : ℕ × Option Error → Bytes → Option Error
write answer buf = if answer.0 == length buf then answer.1 else some other_error

-- `if int(n) > max { return ... }`
unfoldable pub check_size : ℕ → ℕ → Reader (Unit {0})
check_size max n src = if ltb max n then err too_large else ok (tt, src)

unfoldable pub read_sized : BytesUtil → ℕ → Reader Bytes
read_sized u max = do head ← read_full 4; let n = u.uint32_be head; check_size max n; read_full n

-- `uint32(len(buf)) - 4` for a buffer with four bytes behind its message.
abbrev pub size_word : ℕ → ℕ
size_word n = ((n + 4) % 2 ^ 32 + 2 ^ 32 - 4) % 2 ^ 32

-- The buffers that the writer takes, and the error: `first` and `second` are its answers.
unfoldable pub write_sized : Option Error → Option Error → Bytes → List Bytes × Option Error
write_sized first second buf =
    let head = be32 (size_word (length buf)) in
    elim first [
      | some e ↦ ([], some e)
      | none ↦ elim second [ some e ↦ (head ∷ [], some e) | none ↦ (head ∷ buf ∷ [], none) ]
    ]
