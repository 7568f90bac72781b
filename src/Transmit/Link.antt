-- ===== src/Transmit/Link.antt =====
-- `readLoop` of streaming_transmit/conn.go over a `SessionConn`. `size` is the length and the capacity of
-- its buffer. What `SetReadDeadline` and the handler return in a round is an argument.
pub mod Transparent
mod Tests
use carlo.Common.{
  ℕ, zero, suc, ◌+◌, Bool, true, false, List, [], ◌∷◌, Option, none, some, Error, eof, other_error,
  Outcome, ok, err, panic, if◌then◌else◌,
}
use carlo.Common.Int.{is_positive}
use carlo.Bytesutil.{BytesUtil}
use carlo.Reader.{Bytes}
use carlo.Transmit.Settings.{conn_getters}
use carlo.Transmit.Session.{Aead, SessionConn, read}
use carlo.Transmit.Conn.{Conn, Received, response, message, receive}

-- What happened in the loop: the messages taken, in order, the error it ended on (`none` if it still runs
-- when the fuel is spent), and the connection.
pub record Loop : Type 0 where
  pub received : List Received
  pub error : Option Error
  pub conn : Conn

abbrev pub ended : Error → Conn → Loop
ended e c = record { received = []; error = some e; conn = c }

-- `err = c.call(seq, data)`, which a response does not come to.
abbrev pub called : Option Error → Received → Option Error
called handled (response pr payload) = none
called handled (message seq payload) = handled

-- What follows a message: the end of the loop on an error of the handler, or the next round.
abbrev pub after_call : Option Error → Received → Conn → Loop → Loop
after_call none m c rest = record rest { received = m ∷ rest.received }
after_call (some e) m c rest = record { received = m ∷ []; error = some e; conn = c }

-- The body of a round behind `conn.Read`; neither call panics.
abbrev pub after_receive : Option Error → Conn → Outcome (Received × Conn) → (Conn → Loop) → Loop
after_receive handled c panic next = ended other_error c
after_receive handled c (err e) next = ended e c
after_receive handled c (ok (m, after)) next = after_call (called handled m) m after (next after)

abbrev pub after_read :
    BytesUtil
    → Option Error
    → Conn
    → Outcome (Bytes × Bytes) × SessionConn
    → (SessionConn → Bytes → Conn → Loop)
    → Loop
after_read u handled c (panic, s) next = ended other_error c
after_read u handled c (err e, s) next = ended e c
after_read u handled c (ok (buf, rest), s) next =
    after_receive handled c (receive u buf c) (next s rest)

abbrev pub after_deadline : Option Error → Conn → Loop → Loop
after_deadline none c loop = loop
after_deadline (some e) c loop = ended e c

module _ (u : BytesUtil) (a : Aead) (size : ℕ) (deadline handle : ℕ → Option Error) where
  -- Rounds of the loop from the `i`-th on, over the bytes that the network has.
  unfoldable pub read_loop : ℕ → ℕ → SessionConn → Bytes → Conn → Loop
  read_loop zero i s src c = record { received = []; error = none; conn = c }
  read_loop (suc n) i s src c =
      let rest = after_read u (handle i) c (read a u size size s src) (read_loop n (i + 1)) in
      after_deadline
        (if is_positive (conn_getters c.settings).read_timeout then deadline i else none) c rest
