-- ===== src/Transmit/Link/Transparent.antt =====
-- What the writer's loop sends over a session, the reader's loop at the other end takes.
use carlo.Common.{
  ℕ, suc, ◌+◌, ◌%◌, ◌^◌, ◌≡◌, refl, sym, ap, ◌∙◌, Bool, true, false, List, [], ◌∷◌, ◌++◌, map,
  append-nil, Option, none, some, Error, eof, err, length, lookup, delete, nat_key, All,
  if◌then◌else◌,
}
use carlo.Common.Int.{is_positive}
use carlo.Common.Words.{IsU32}
use carlo.Bytesutil.{BytesUtil, IsBigEndian}
use carlo.Reader.{Bytes}
use carlo.Transmit.Settings.{ConnSettings, conn_getters}
use carlo.Transmit.Sized.{read_sized, read_full}
use carlo.Transmit.Session.{Aead, IsAead, SessionConn, write, read}
use carlo.Transmit.Session
use carlo.Transmit.Session.Frames.{wire}
use carlo.Transmit.Session.Channel.{Fits, read-write}
use carlo.Transmit.Conn.{Conn, PendingWrite, Received, message, response, classify, frame}
use carlo.Transmit.Conn.Messages.{receive-frame}
use carlo.Transmit.Conn.Writer.{Network, write_round}
use carlo.Transmit.Conn.Writer.Rounds.{buf_of, write_round-IsFront}
use carlo.Transmit.Link.{
  Loop, called, after_call, after_receive, after_read, after_deadline, read_loop,
}

-- A message by its number and its payload.
abbrev pub frame_of : ℕ × Bytes → Bytes
frame_of m = frame m.0 m.1

-- What a connection makes of messages that come to it one after the other.
abbrev pub deliver : List (ℕ × Bytes) → Conn → List Received × Conn
deliver [] c = ([], c)
deliver ((seq, payload) ∷ ms) c =
    let rest = deliver ms (record c { reqs = delete seq c.reqs }) in
    (classify seq (lookup seq c.reqs) payload ∷ rest.0, rest.1)

-- The bytes of writes of a session.
abbrev pub session_bytes : Aead → List Bytes → SessionConn → Bytes
session_bytes a [] s = []
session_bytes a (b ∷ bs) s =
    wire (write a none none b s).buffers ++ session_bytes a bs (write a none none b s).conn

abbrev pub no_error : ℕ → Option Error
no_error i = none

module _ (u : BytesUtil) (a : Aead) (size : ℕ) where
  -- A 32-bit number, and a frame that fits the reader's buffer when it is sealed.
  abbrev pub FitsMessage : ℕ × Bytes → Type 0
  FitsMessage m = IsU32 m.0 × Fits u a size size (frame_of m)

  after_call-none :
      (m : Received) (c : Conn) (rest : Loop)
      → after_call (called none m) m c rest ≡ record rest { received = m ∷ rest.received }
  after_call-none (response pr payload) c rest = refl
  after_call-none (message seq payload) c rest = refl

  no_deadline : (b : Bool) (c : Conn) (l : Loop) → after_deadline (if b then none else none) c l ≡ l
  no_deadline true c l = refl
  no_deadline false c l = refl

  read-empty : (s : SessionConn) → read a u size size s [] ≡ (err eof, s)
  unfolding read Session.after_read read_sized read_full
  read-empty s = refl

  write-wn :
      (writer reader : SessionConn) (m : Bytes)
      → writer.wn ≡ reader.rn
      → (write a none none m writer).conn.wn ≡ (reader.rn + 1) % 2 ^ 64
  unfolding write
  write-wn writer reader m e = ap (λ n. (n + 1) % 2 ^ 64) e

  module _ (big : IsBigEndian u) (law : IsAead a) where
    read_loop-session_bytes :
        (ms : List (ℕ × Bytes)) (i : ℕ) (writer reader : SessionConn) (c : Conn)
        → writer.wn ≡ reader.rn
        → All FitsMessage ms
        → read_loop u a size no_error no_error
            (suc (length ms))
            i
            reader
            (session_bytes a (map frame_of ms) writer)
            c
          ≡ record { received = (deliver ms c).0; error = some eof; conn = (deliver ms c).1 }
    unfolding read_loop
    read_loop-session_bytes [] i writer reader c step fits =
        no_deadline (is_positive (conn_getters c.settings).read_timeout) c _
        ∙ rw (read-empty reader) refl
    read_loop-session_bytes ((seq, payload) ∷ ms) i writer reader c step fits =
        let m = classify seq (lookup seq c.reqs) payload in
        let after = record c { reqs = delete seq c.reqs } in
        let sent = write a none none (frame seq payload) writer in
        let taken = record reader { rn = (reader.rn + 1) % 2 ^ 64 } in
        let left = session_bytes a (map frame_of ms) sent.conn in
        let next = read_loop u a size no_error no_error (suc (length ms)) (i + 1) in
        no_deadline (is_positive (conn_getters c.settings).read_timeout) c _
        ∙ ap (λ r. after_read u none c r next)
            (read-write u a size size big law writer reader (frame seq payload) left step fits.0.1)
        ∙ ap (λ o. after_receive none c o (next taken left))
            (receive-frame u big c seq payload fits.0.0)
        ∙ after_call-none m after (next taken left after)
        ∙ ap (λ (l : Loop). record l { received = m ∷ l.received })
            (read_loop-session_bytes ms (i + 1) sent.conn taken after
              (write-wn writer reader (frame seq payload) step) fits.1)

    -- With a suite that obeys the laws of an AEAD and big-endian byte functions, the messages of a
    -- round of the writer's loop that ends without an error, sealed and framed, are taken by the
    -- reader's loop at the other end: whole and in order, as responses to pending requests or as
    -- messages for the handler, until nothing is left to read. The two ends have passed equally
    -- many messages, the handler and the deadlines give no error, and each message fits the
    -- reader's buffer.
    pub read_loop-write_round :
        (settings : ConnSettings) (net : Network) (queue : List PendingWrite)
        (ms : List (ℕ × Bytes)) (i : ℕ) (writer reader : SessionConn) (c : Conn)
        → map buf_of queue ≡ map frame_of ms
        → (write_round settings net queue).error ≡ none
        → writer.wn ≡ reader.rn
        → All FitsMessage ms
        → read_loop u a size no_error no_error
            (suc (length ms))
            i
            reader
            (session_bytes a (write_round settings net queue).written writer)
            c
          ≡ record { received = (deliver ms c).0; error = some eof; conn = (deliver ms c).1 }
    read_loop-write_round settings net queue ms i writer reader c same fine step fits =
        let w = write_round-IsFront settings net queue in
        let all : (write_round settings net queue).written ≡ map frame_of ms =
          sym (append-nil (write_round settings net queue).written)
          ∙ ap (λ l. (write_round settings net queue).written ++ l) (sym (w.whole fine))
          ∙ w.front
          ∙ same in
        rw all (read_loop-session_bytes ms i writer reader c step fits)
