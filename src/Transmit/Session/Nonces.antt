-- ===== src/Transmit/Session/Nonces.antt =====
-- The nonces of a session.
use carlo.Common.{
  ℕ, ◌+◌, ◌%◌, ◌^◌, ◌≤◌, ◌≡◌, ◌≢◌, ap, ◌∙◌, List, [], ◌∷◌, ◌++◌, none, other_error, ok, err, length,
  le→ltb, arith, take, sym,
}
use carlo.Common.Words.{IsU32, IsU64, be64-injective}
use carlo.Bytesutil.{BytesUtil, IsBigEndian}
use carlo.Reader.{Bytes}
use carlo.Transmit.Sized.{read_sized, write_sized}
use carlo.Transmit.Session.{
  Aead, IsAead, SessionConn, new_session_conn, nonce, write, read, after_read, open_frame,
}
use carlo.Transmit.Session.Frames.{
  wire, read_sized-write_sized, length-sealed, length-nonce, nonce-whole, is_long,
}

-- What is sealed with one nonce is not opened with another.
pub record IsAuthentic (a : Aead) : Type 0 where
  pub open_other :
      (nonce other m : Bytes)
      → length nonce ≡ a.nonce_size
      → length other ≡ a.nonce_size
      → nonce ≢ other
      → a.open_sealed other (a.seal nonce m) ≡ none

module _ (a : Aead) where
  -- A connection after it has written the messages.
  abbrev pub after_writes : List Bytes → SessionConn → SessionConn
  after_writes [] s = s
  after_writes (m ∷ ms) s = after_writes ms (write a none none m s).conn

  wn-after_writes :
      (ms : List Bytes) (s : SessionConn)
      → IsU64 s.wn
      → (after_writes ms s).wn ≡ (s.wn + length ms) % 2 ^ 64
  unfolding write
  wn-after_writes [] s h = omega arith
  wn-after_writes (m ∷ ms) s h =
      wn-after_writes ms (write a none none m s).conn (omega arith) ∙ omega arith

  pub nonce-injective :
      (n m : ℕ) → 8 ≤ a.nonce_size → IsU64 n → IsU64 m → nonce a n ≡ nonce a m → n ≡ m
  nonce-injective n m long hn hm e =
      be64-injective n m hn hm (ap (take 8) (sym (nonce-whole a n long) ∙ e ∙ nonce-whole a m long))

  -- Two connections with the same suite that have written equally many messages, all of which the
  -- network took, seal a further message to the same bytes.
  pub write_repeats :
      (ms ls : List Bytes) (m : Bytes)
      → length ms ≡ length ls
      → (write a none none m (after_writes ms new_session_conn)).buffers
        ≡ (write a none none m (after_writes ls new_session_conn)).buffers
  unfolding write new_session_conn
  write_repeats ms ls m e =
      let here = wn-after_writes ms new_session_conn (omega arith) in
      let there = wn-after_writes ls new_session_conn (omega arith) in
      ap (λ n. (write_sized none none (a.seal (nonce a n) m)).0) (omega (arith, here, there, e))

  -- With a suite that obeys the laws of an AEAD and big-endian byte functions, the frame of a write
  -- that is not the one that the reader is at, such as one that comes again, is refused. The frame
  -- fits the reader's slice, and nothing is opened with another nonce than the one it was sealed
  -- with.
  pub read-other_frame :
      (u : BytesUtil) (size cap : ℕ) (writer reader : SessionConn) (m rest : Bytes)
      → IsBigEndian u
      → IsAead a
      → IsAuthentic a
      → IsU64 writer.wn
      → IsU64 reader.rn
      → writer.wn ≢ reader.rn
      → IsU32 (length m + a.overhead)
      → length m + a.overhead ≤ cap
      → read a u size cap reader (wire (write a none none m writer).buffers ++ rest)
        ≡ (err other_error, record reader { rn = (reader.rn + 1) % 2 ^ 64 })
  unfolding read write after_read open_frame
  read-other_frame u size cap writer reader m rest big law strict hw hr other u32 fits =
      ap (after_read a size reader) arrived
      ∙ rw (
        open_frame,
        is_long a law writer.wn m,
        strict.open_other (nonce a writer.wn) (nonce a reader.rn) m (length-nonce a law writer.wn m)
            (length-nonce a law reader.rn m)
            (λ e. other (nonce-injective writer.wn reader.rn law.nonce_size_lem hw hr e)),
      )
    where
      sealed : Bytes
      sealed = a.seal (nonce a writer.wn) m

      arrived : read_sized u cap (wire (write_sized none none sealed).0 ++ rest) ≡ ok (sealed, rest)
      arrived =
          read_sized-write_sized u big cap sealed rest (rw (length-sealed a law writer.wn m) u32)
          ∙ rw (length-sealed a law writer.wn m, le→ltb cap (length m + a.overhead) fits)
