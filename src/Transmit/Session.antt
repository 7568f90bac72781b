-- ===== src/Transmit/Session.antt =====
-- `SessionConn` of streaming_transmit/session.go: it seals what is written and opens what is read. The
-- suite is a parameter; a connection's buffers are reused and never read before they are written, so
-- its state is the two nonces.
pub mod Frames
pub mod Channel
pub mod Nonces
pub mod Keys
pub mod Agreement
pub mod Handshakers
pub mod Instance
mod Tests
use carlo.Common.{
  ℕ, ◌+◌, ◌-◌, ◌%◌, ◌^◌, ◌≤◌, ◌≡◌, List, [], ◌∷◌, ◌++◌, Option, none, some, Error, other_error,
  Outcome, ok, err, panic, length, take, replicate, ltb, if◌then◌else◌,
}
use carlo.Common.Words.{be64}
use carlo.Bytesutil.{BytesUtil}
use carlo.Reader.{Bytes}
use carlo.Transmit.Sized.{read_sized, write_sized}

-- A `cipher.AEAD` with its key: the sizes of a nonce and of what is added to a plaintext, and `Seal` and
-- `Open` (`none` for an error) without additional data.
pub record Aead : Type 0 where
  pub nonce_size : ℕ
  pub overhead : ℕ
  pub seal : Bytes → Bytes → Bytes
  pub open_sealed : Bytes → Bytes → Option Bytes

-- What crypto/cipher documents: what is sealed is opened with the same nonce, and it is longer than the
-- plaintext by the overhead. A nonce of the suites in use has 12 bytes, and so at least 8.
pub record IsAead (a : Aead) : Type 0 where
  pub nonce_size_lem : 8 ≤ a.nonce_size
  pub open-seal :
      (nonce m : Bytes)
      → length nonce ≡ a.nonce_size
      → a.open_sealed nonce (a.seal nonce m) ≡ some m
  pub length-seal :
      (nonce m : Bytes)
      → length nonce ≡ a.nonce_size
      → length (a.seal nonce m) ≡ length m + a.overhead

pub record SessionConn : Type 0 where
  pub wn : ℕ
  pub rn : ℕ

unfoldable pub new_session_conn : SessionConn
new_session_conn = record { wn = 0; rn = 0 }

-- What `Write` returns, the buffers that it writes, and the connection afterwards.
pub record Written : Type 0 where
  pub count : ℕ
  pub error : Option Error
  pub buffers : List Bytes
  pub conn : SessionConn

module _ (a : Aead) where
  -- The nonce of a number: its eight bytes, then zeros, cut to the size of a nonce.
  unfoldable pub nonce : ℕ → Bytes
  nonce n = take a.nonce_size (be64 n ++ replicate (a.nonce_size - 8) 0)

  -- The count is the length of the sealed bytes. The write buffer has room for the eight bytes of the number,
  -- which a nonce of that size gives. `first` and `second` are the answers of the buffered
  -- writer.
  unfoldable pub write : Option Error → Option Error → Bytes → SessionConn → Written
  write first second b s =
      let sealed = a.seal (nonce s.wn) b in
      let out = write_sized first second sealed in
      record {
        count = elim out.1 [ none ↦ length sealed | some e ↦ 0 ];
        error = out.1;
        buffers = out.0;
        conn = record s { wn = (s.wn + 1) % 2 ^ 64 };
      }

  -- The nonce, `s.suite.Open`, and `copy` into a slice of `size` bytes: eight bytes are put into the nonce,
  -- which panics if it has fewer.
  unfoldable pub open_frame : ℕ → ℕ → Bytes → Bytes → Outcome (Bytes × Bytes)
  open_frame size n sealed rest =
      if ltb a.nonce_size 8 then panic else elim (a.open_sealed (nonce n) sealed) [
        | none ↦ err other_error
        | some plain ↦ ok (take size plain, rest)
      ]

  -- After `ReadSized`: a frame that was read takes a nonce, whether or not it opens.
  unfoldable pub after_read :
      ℕ → SessionConn → Outcome (Bytes × Bytes) → Outcome (Bytes × Bytes) × SessionConn
  after_read size s panic = (panic, s)
  after_read size s (err e) = (err e, s)
  after_read size s (ok (sealed, rest)) =
      (open_frame size s.rn sealed rest, record s { rn = (s.rn + 1) % 2 ^ 64 })

  -- `Read` into a slice of `size` bytes with the capacity `cap`: what is copied and the bytes left, and the
  -- connection afterwards.
  unfoldable pub read :
      BytesUtil → ℕ → ℕ → SessionConn → Bytes → Outcome (Bytes × Bytes) × SessionConn
  read u size cap s src = after_read size s (read_sized u cap src)

-- `Flush`: the buffered bytes go behind those that the connection has; the buffer is empty.
unfoldable pub flush : Bytes → Bytes → Bytes × Bytes
flush buffered bytes = ([], bytes ++ buffered)
