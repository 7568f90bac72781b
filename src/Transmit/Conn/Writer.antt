-- ===== src/Transmit/Conn/Writer.antt =====
-- `writeLoop` of streaming_transmit/conn.go, the senders that queue writes for it, and `close`,
-- interleaved in any order. What the network answers is an argument of a round.
pub mod Rounds
pub mod Order
use carlo.Common.{
  ℕ, zero, suc, ◌+◌, ◌≡◌, ◌≢◌, Bool, true, false, not, List, [], ◌∷◌, ◌++◌, map, Option, none, some,
  Error, if◌then◌else◌,
}
use carlo.Common.Int.{is_positive}
use carlo.Reader.{Bytes}
use carlo.Transmit.Settings.{ConnSettings, conn_getters}
use carlo.Transmit.Conn.{
  Conn, PendingWrite, init, prepare_pending_write, take_queue, close_writer, close,
}

-- The results of `SetWriteDeadline`, of each `Write` by its place in the round, and of `Flush`.
pub record Network : Type 0 where
  pub set_write_deadline : Option Error
  pub write : ℕ → Option Error
  pub flush : Option Error

-- A write with the error that its sender is told, if any.
abbrev pub Completion : Type 0
Completion = PendingWrite × Option Error

-- What a round does: writes completed, buffers that the connection has taken, the error it ends on.
pub record Round : Type 0 where
  pub completed : List Completion
  pub written : List Bytes
  pub error : Option Error

-- `if err == nil { _, err = conn.Write(pw.buf.B) }`
abbrev pub write_one : Option Error → Option Error → Option Error
write_one none result = result
write_one (some e) result = some e

abbrev pub add_written : Option Error → Bytes → List Bytes → List Bytes
add_written none buf rest = buf ∷ rest
add_written (some e) buf rest = rest

-- `for _, pw := range queue { ... }`, from the `i`-th write on.
unfoldable pub write_all : (ℕ → Option Error) → ℕ → Option Error → List PendingWrite → Round
write_all write i e [] = record { completed = []; written = []; error = e }
write_all write i e (pw ∷ q) =
    let e' = write_one e (write i) in
    let rest = write_all write (i + 1) e' q in
    record {
      completed = (pw, e') ∷ rest.completed;
      written = add_written e' pw.buf rest.written;
      error = rest.error;
    }

-- Every write of the queue is told of the error.
abbrev pub fail_all : Error → List PendingWrite → List Completion
fail_all e [] = []
fail_all e (pw ∷ q) = (pw, some e) ∷ fail_all e q

-- `if err != nil { break }; err = conn.Flush()`
abbrev pub flushed : Option Error → Round → Round
flushed result r = record r { error = write_one r.error result }

-- The round after the result of `SetWriteDeadline`.
unfoldable pub round_from : Option Error → Network → List PendingWrite → Round
round_from (some e) net queue = record {
  completed = fail_all e queue;
  written = [];
  error = some e;
}
round_from none net queue = flushed net.flush (write_all net.write 0 none queue)

-- A round of the loop after the queue is taken. Without a timeout no deadline is set.
unfoldable pub write_round : ConnSettings → Network → List PendingWrite → Round
write_round settings net queue =
    round_from
      (if is_positive (conn_getters settings).write_timeout then net.set_write_deadline else none)
      net queue

-- The connection, the writer's own queue and whether it runs; and what has happened so far: the
-- writes accepted, those completed, and the buffers on the network.
pub record System : Type 0 where
  pub conn : Conn
  pub batch : List PendingWrite
  pub running : Bool
  pub accepted : List PendingWrite
  pub completed : List Completion
  pub wire : List Bytes

abbrev pub start : ConnSettings → System
start settings = record {
  conn = init settings;
  batch = [];
  running = true;
  accepted = [];
  completed = [];
  wire = [];
}

-- `if done && len(queue) == 0 { break }`
abbrev pub after_take : System → List PendingWrite × Bool × Conn → System
after_take s ([], done, conn) = record s { conn = conn; running = not done }
after_take s (pw ∷ q, done, conn) = record s { conn = conn; batch = pw ∷ q }

abbrev pub is_none {ℓ} : {A : Type ℓ} → Option A → Bool
is_none none = true
is_none (some a) = false

unfoldable pub after_round : System → Round → System
after_round s r = record s {
  batch = [];
  running = is_none r.error;
  completed = s.completed ++ r.completed;
  wire = s.wire ++ r.written;
}

-- `close` completes what is queued with the error.
unfoldable pub after_close : Error → System → System
after_close e s =
    let (queue, requests, conn) = close s.conn in
    record s { conn = conn; completed = s.completed ++ fail_all e queue }

pub data Step (s : System) : System → Type 0 where
  submit :
      (buf : Bytes) (wait : Bool) {conn : Conn}
      → prepare_pending_write buf wait s.conn ≡ some conn
      → Step s (record s {
        conn = conn;
        accepted = s.accepted ++ record { buf = buf; wait = wait } ∷ [];
      })
  take_round :
      {taken : List PendingWrite × Bool × Conn}
      → s.running ≡ true
      → s.batch ≡ []
      → take_queue s.conn ≡ some taken
      → Step s (after_take s taken)
  write :
      (net : Network)
      → s.running ≡ true
      → Step s (after_round s (write_round s.conn.settings net s.batch))
  shut : Step s (record s { conn = close_writer s.conn })
  -- `Handle` has returned: it waits for the loop after it has called `closeWriter`.
  finish : (e : Error) → s.running ≡ false → s.conn.writer_done ≡ true → Step s (after_close e s)

pub data Reach (settings : ConnSettings) : System → Type 0 where
  here : Reach settings (start settings)
  next : {s t : System} → Reach settings s → Step s t → Reach settings t
