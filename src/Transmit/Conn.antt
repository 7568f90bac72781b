-- ===== src/Transmit/Conn.antt =====
-- streaming_transmit/conn.go: the state of a connection and what each critical section of its
-- methods does to it. A pending write or request is one object in memory: a write is named by the
-- value queued, a request by a number that stands for its address.
pub mod Messages
pub mod Writer
pub mod Requests
pub mod Handle
mod Tests
use carlo.Common.{
  ℕ, zero, suc, ◌≡◌, Bool, true, false, ◌&&◌, ◌||◌, not, List, [], ◌∷◌, ◌++◌, map, Option, none,
  some, Error, Outcome, ok, err, panic, unexpected_eof, if◌then◌else◌, ◌==◌, lookup, insert, delete,
  nat_key,
}
use carlo.Common.Words.{be32}
use carlo.Bytesutil.{BytesUtil}
use carlo.Reader.{Bytes}
use carlo.Transmit.Settings.{ConnSettings}
use carlo.Transmit.Settings.Seq.{next_seq}

-- `pendingWrite` without the error and the wait group, which are the ways that a write is completed.
pub record PendingWrite : Type 0 where
  pub buf : Bytes
  pub wait : Bool

pub record Conn : Type 0 where
  pub settings : ConnSettings
  pub writer_queue : List PendingWrite
  pub writer_done : Bool
  pub reqs : List (ℕ × ℕ)
  pub seq : ℕ

-- `init` of a `Conn` with these settings.
unfoldable pub init : ConnSettings → Conn
init settings = record {
  settings = settings;
  writer_queue = [];
  writer_done = false;
  reqs = [];
  seq = 0;
}

-- `len(c.writerQueue)`.
abbrev length_of : List PendingWrite → ℕ
length_of [] = 0
length_of (pw ∷ q) = suc (length_of q)

unfoldable pub num_of_pending_writes : Conn → ℕ
num_of_pending_writes c = length_of c.writer_queue

-- The number and the connection after `next`.
unfoldable pub next : Conn → ℕ × Conn
next c = let seq = next_seq c.settings c.seq in (seq, record c { seq = seq })

-- The buffer that `send` and `sendNoWait` fill: the number in front of the payload.
unfoldable pub frame : ℕ → Bytes → Bytes
frame seq payload = be32 seq ++ payload

-- `none` for the error "node is shut down".
unfoldable pub prepare_pending_write : Bytes → Bool → Conn → Option Conn
prepare_pending_write buf wait c =
    if c.writer_done
    then none
    else some (record c { writer_queue = c.writer_queue ++ record { buf = buf; wait = wait } ∷ [] })

unfoldable pub close_writer : Conn → Conn
close_writer c = record c { writer_done = true }

-- `c.reqs[seq] = pr` and `delete(c.reqs, seq)` in `Request`.
unfoldable pub add_request : ℕ → ℕ → Conn → Conn
add_request seq pr c = record c { reqs = insert seq pr c.reqs }

unfoldable pub delete_request : ℕ → Conn → Conn
delete_request seq c = record c { reqs = delete seq c.reqs }

-- The first critical section of a round of `writeLoop`: it waits (`none`) for a write or for the end,
-- takes the queue, and reads whether the writer is to end.
unfoldable pub take_queue : Conn → Option (List PendingWrite × Bool × Conn)
take_queue c = elim c.writer_queue [
  | [] ↦ if c.writer_done then some ([], true, c) else none
  | pw ∷ q ↦ some (pw ∷ q, c.writer_done, record c { writer_queue = [] })
]

-- What `readLoop` makes of a message: a response for a pending request, or a call of the handler.
pub data Received : Type 0 where
  response : ℕ → Bytes → Received
  message : ℕ → Bytes → Received

-- `if seq == 0 || !exists { err = c.call(seq, data) ... }`
abbrev pub classify : ℕ → Option ℕ → Bytes → Received
classify seq none payload = message seq payload
classify seq (some pr) payload = if seq == 0 then message seq payload else response pr payload

-- The body of a round of `readLoop` after a successful `conn.Read`. The request is taken out of the
-- map before the number is compared with 0; a number without one leaves the map as it is.
module _ (u : BytesUtil) where
  unfoldable pub receive : Bytes → Conn → Outcome (Received × Conn)
  receive (a ∷ b ∷ c ∷ d ∷ payload) conn =
      let seq = u.uint32_be (a ∷ b ∷ c ∷ d ∷ payload) in
      let pr = lookup seq conn.reqs in
      ok (classify seq pr payload, record conn { reqs = delete seq conn.reqs })
  receive _ conn = err unexpected_eof

-- `close`: every queued write and every pending request is completed with the error, and the
-- connection is left empty. The first two results are what it completes.
unfoldable pub close : Conn → List PendingWrite × List ℕ × Conn
close c =
    (c.writer_queue, map (λ e. e.1) c.reqs, record c { writer_queue = []; reqs = []; seq = 0 })
