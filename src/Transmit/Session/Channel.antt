-- ===== src/Transmit/Session/Channel.antt =====
-- One direction of a session, as a queue of messages.
use carlo.Common.{
  ℕ, ◌+◌, ◌%◌, ◌^◌, ◌≤◌, ◌≡◌, refl, sym, ap, ◌∙◌, List, [], ◌∷◌, ◌++◌, append_assoc, append-nil,
  none, Outcome, ok, err, panic, length, take_whole, le→ltb, All,
}
use carlo.Common.Words.{IsU32}
use carlo.Bytesutil.{BytesUtil, IsBigEndian}
use carlo.Reader.{Bytes}
use carlo.Transmit.Sized.{read_sized, write_sized, read_full}
use carlo.Transmit.Session.{
  Aead, IsAead, SessionConn, new_session_conn, nonce, write, read, after_read, open_frame, flush,
}
use carlo.Transmit.Session.Frames.{wire, read_sized-write_sized, open-nonce, is_long, length-sealed}

-- The calls of the two ends, where a message is sent by `Write` and the `Flush` behind it, and what each learns: the message received, or that there is none yet.
pub data Call : Type 0 where
  send : Bytes → Call
  receive : Call

pub data Reply : Type 0 where
  sent : Reply
  received : Bytes → Reply
  nothing : Reply

-- The abstract channel: the messages under way, the oldest first.
abbrev pub receive_from : List Bytes → Reply × List Bytes
receive_from [] = (nothing, [])
receive_from (m ∷ queue) = (received m, queue)

abbrev pub run_queue : List Bytes → List Call → List Reply
run_queue queue [] = []
run_queue queue (send m ∷ calls) = sent ∷ run_queue (queue ++ m ∷ []) calls
run_queue queue (receive ∷ calls) = (receive_from queue).0 ∷ run_queue (receive_from queue).1 calls

-- The end that writes and what its `bufio.Writer` holds, the end that reads, and the bytes on the wire.
pub record Ends : Type 0 where
  pub writer : SessionConn
  pub buffered : Bytes
  pub reader : SessionConn
  pub bytes : Bytes

abbrev pub new_ends : Ends
new_ends = record {
  writer = new_session_conn;
  buffered = [];
  reader = new_session_conn;
  bytes = [];
}

-- Nothing that was read leaves the wire as it is.
abbrev pub after_receive : Ends → Outcome (Bytes × Bytes) × SessionConn → Reply × Ends
after_receive s (panic, reader) = (nothing, record s { reader = reader })
after_receive s (err e, reader) = (nothing, record s { reader = reader })
after_receive s (ok (m, rest), reader) = (received m, record s { reader = reader; bytes = rest })

module _ (u : BytesUtil) (a : Aead) (size cap : ℕ) where
  -- The same calls on a session: `write` with a writer that takes everything, `read` into a slice of `size`
  -- bytes with the capacity `cap`.
  abbrev pub send_on : Bytes → Ends → Ends
  send_on m s =
      let r = write a none none m s.writer in
      let (buffered, bytes) = flush (s.buffered ++ wire r.buffers) s.bytes in
      record s { writer = r.conn; buffered = buffered; bytes = bytes }

  abbrev pub receive_on : Ends → Reply × Ends
  receive_on s = after_receive s (read a u size cap s.reader s.bytes)

  abbrev pub run : Ends → List Call → List Reply
  run s [] = []
  run s (send m ∷ calls) = sent ∷ run (send_on m s) calls
  run s (receive ∷ calls) = (receive_on s).0 ∷ run (receive_on s).1 calls

  -- A message that the reader has room for, sealed and opened.
  abbrev pub Fits : Bytes → Type 0
  Fits m = IsU32 (length m + a.overhead) × (length m + a.overhead ≤ cap) × (length m ≤ size)

  abbrev pub FitsCall : Call → Type 0
  FitsCall (send m) = Fits m
  FitsCall receive = Unit

  module _ (big : IsBigEndian u) (law : IsAead a) where
    frame : ℕ → Bytes → Bytes
    frame n m = wire (write_sized none none (a.seal (nonce a n) m)).0

    abbrev next_nonce : ℕ → ℕ
    next_nonce n = (n + 1) % 2 ^ 64

    -- The frames of messages that are sealed from the nonce `n` on, and the nonce after them.
    abbrev frames : ℕ → List Bytes → Bytes
    frames n [] = []
    frames n (m ∷ queue) = frame n m ++ frames (next_nonce n) queue

    abbrev advance : ℕ → List Bytes → ℕ
    advance n [] = n
    advance n (m ∷ queue) = advance (next_nonce n) queue

    frames-append :
        (n : ℕ) (queue : List Bytes) (m : Bytes)
        → frames n (queue ++ m ∷ []) ≡ frames n queue ++ frame (advance n queue) m
    frames-append n [] m = append-nil (frame n m)
    frames-append n (x ∷ queue) m =
        rw (frames-append (next_nonce n) queue m)
          (sym (append_assoc (frame n x) (frames (next_nonce n) queue) _))

    advance-append :
        (n : ℕ) (queue : List Bytes) (m : Bytes)
        → advance n (queue ++ m ∷ []) ≡ next_nonce (advance n queue)
    advance-append n [] m = refl
    advance-append n (x ∷ queue) m = advance-append (next_nonce n) queue m

    -- The session carries the queue.
    record Carries (queue : List Bytes) (s : Ends) : Type 0 where
      drained : s.buffered ≡ []
      on_wire : s.bytes ≡ frames s.reader.rn queue
      in_step : s.writer.wn ≡ advance s.reader.rn queue
      fit : All Fits queue

    snoc-Fits :
        (queue : List Bytes) (m : Bytes) → All Fits queue → Fits m → All Fits (queue ++ m ∷ [])
    snoc-Fits [] m h f = (f, tt)
    snoc-Fits (x ∷ queue) m h f = (h.0, snoc-Fits queue m h.1 f)

    send_on-Carries :
        (queue : List Bytes) (s : Ends) (m : Bytes)
        → Fits m
        → Carries queue s
        → Carries (queue ++ m ∷ []) (send_on m s)
    unfolding write frame flush
    send_on-Carries queue s m f c = record {
      drained = refl;
      on_wire = rw (c.drained, c.on_wire, c.in_step, frames-append s.reader.rn queue m);
      in_step = rw (c.in_step, advance-append s.reader.rn queue m);
      fit = snoc-Fits queue m c.fit f;
    }

    read-frame :
        (n wn : ℕ) (m rest : Bytes)
        → Fits m
        → read a u size cap (record { wn = wn; rn = n }) (frame n m ++ rest)
          ≡ (ok (m, rest), record { wn = wn; rn = next_nonce n })
    unfolding read frame after_read open_frame
    read-frame n wn m rest f =
        ap (after_read a size (record { wn = wn; rn = n })) arrived
        ∙ rw (open_frame, is_long a law n m, open-nonce a law n m, take_whole size m f.2)
      where
        arrived : read_sized u cap (frame n m ++ rest) ≡ ok (a.seal (nonce a n) m, rest)
        arrived =
            read_sized-write_sized u big cap (a.seal (nonce a n) m) rest
              (rw (length-sealed a law n m) f.0)
            ∙ rw (length-sealed a law n m, le→ltb cap (length m + a.overhead) f.1)

    -- A reader that is at the nonce of a write reads its message, and leaves what follows it.
    pub read-write :
        (writer reader : SessionConn) (m rest : Bytes)
        → writer.wn ≡ reader.rn
        → Fits m
        → read a u size cap reader (wire (write a none none m writer).buffers ++ rest)
          ≡ (ok (m, rest), record reader { rn = (reader.rn + 1) % 2 ^ 64 })
    unfolding write frame
    read-write writer reader m rest e f = rw e (read-frame reader.rn reader.wn m rest f)

    receive_on-empty : (s : Ends) → s.bytes ≡ [] → receive_on s ≡ (nothing, s)
    unfolding read after_read read_sized read_full
    receive_on-empty s e = rw (e, read)

    receive_on-frame :
        (m : Bytes) (queue : List Bytes) (s : Ends)
        → Carries (m ∷ queue) s
        → (r : Ends) × (receive_on s ≡ (received m, r)) × Carries queue r
    receive_on-frame m queue s c = (
      record s { reader = after; bytes = rest },
      ap (after_receive s) (
          ap (read a u size cap s.reader) c.on_wire
          ∙ read-frame s.reader.rn s.reader.wn m rest c.fit.0),
      record { drained = c.drained; on_wire = refl; in_step = c.in_step; fit = c.fit.1 },
    )
      where
        rest : Bytes
        rest = frames (next_nonce s.reader.rn) queue

        after : SessionConn
        after = record s.reader { rn = next_nonce s.reader.rn }

    run-Carries :
        (calls : List Call) (queue : List Bytes) (s : Ends)
        → Carries queue s
        → All FitsCall calls
        → run s calls ≡ run_queue queue calls
    run-Carries [] queue s c f = refl
    run-Carries (send m ∷ calls) queue s c f =
        ap (◌∷◌ sent)
          (run-Carries calls (queue ++ m ∷ []) (send_on m s) (send_on-Carries queue s m f.0 c) f.1)
    run-Carries (receive ∷ calls) [] s c f =
        rw (receive_on-empty s c.on_wire) (ap (◌∷◌ nothing) (run-Carries calls [] s c f.1))
    run-Carries (receive ∷ calls) (m ∷ queue) s c f =
        let (r, got, after) = receive_on-frame m queue s c in
        rw got (ap (◌∷◌ (received m)) (run-Carries calls queue r after f.1))

    -- With a suite that obeys the laws of an AEAD and big-endian byte functions, in any order of
    -- calls of the two ends, each call gets from a new session, sealed and framed, what it gets
    -- from a queue of messages: every message is received once, whole and in order. The messages
    -- fit the frame's length and the reader's slice, and the connection takes all that is written.
    pub run-run_queue :
        (calls : List Call) → All FitsCall calls → run new_ends calls ≡ run_queue [] calls
    unfolding new_session_conn
    run-run_queue calls f =
        run-Carries calls [] new_ends
          (record { drained = refl; on_wire = refl; in_step = refl; fit = tt }) f
