-- ===== src/Transmit/Conn/Requests.antt =====
-- `Request` of streaming_transmit/conn.go, run by any number of callers beside the reader of the
-- connection and `close`, a critical section at a time.
pub mod Matching
pub mod Pending
pub mod Shutdown
use carlo.Common.{
  ℕ, zero, suc, ◌+◌, ◌-◌, ◌≡◌, ◌≢◌, Bool, true, false, List, [], ◌∷◌, ◌++◌, map, Option, none, some,
  Error, other_error, if◌then◌else◌, ◌==◌, lookup, Outcome, ok, err, panic, ◌>>=◌,
}
use carlo.Bytesutil.{BytesUtil}
use carlo.Reader.{Bytes}
use carlo.Transmit.Settings.{ConnSettings}
use carlo.Transmit.Conn.{
  Conn, init, next, frame, prepare_pending_write, close_writer, add_request, delete_request,
  receive, Received, response, message, close,
}

-- Where a call of `Request` stands, with its sequence number.
pub data Caller : Type 0 where
  fresh : Caller
  -- after `next`
  numbered : ℕ → Caller
  -- after `c.reqs[seq] = pr`
  registered : ℕ → Caller
  -- at `pr.wg.Wait()`
  waiting : ℕ → Caller
  -- `sendNoWait` has failed; before `pr.wg.Done()` and before the deletion
  failed : ℕ → Caller
  released : ℕ → Caller
  returned : Caller

-- What a pending request is given: a response, or the error of `close`.
pub data Answer : Type 0 where
  body : Bytes → Answer
  closed : Error → Answer

-- `pendingRequest`: the counter of the wait group, and what it was given.
pub record PendingRequest : Type 0 where
  pub wg : ℕ
  pub answer : Option Answer

-- A response that the reader has matched and not yet copied: request and payload.
abbrev pub Hand : Type 0
Hand = Option (ℕ × Bytes)

pub record System : Type 0 where
  pub conn : Conn
  pub callers : ℕ → Caller
  pub requests : ℕ → PendingRequest
  pub hand : Hand

abbrev pub update {ℓ} : {A : Type ℓ} → (ℕ → A) → ℕ → A → ℕ → A
update f i a j = if i == j then a else f j

-- `pr.wg.Done()`: a counter below 0 is a panic.
abbrev pub done : PendingRequest → Outcome PendingRequest
done pr = elim pr.wg [ zero ↦ panic | suc n ↦ ok (record pr { wg = n }) ]

-- `pr.wg.Add(1)` on a request from the pool, and `next`. Each call has a request of its own: that the
-- pool, which all connections share, hands out a released request again is not modelled.
unfoldable pub number : ℕ → System → System
number i s =
    let (seq, conn) = next s.conn in
    record s {
      conn = conn;
      callers = update s.callers i (numbered seq);
      requests = update s.requests i (record { wg = 1; answer = none });
    }

unfoldable pub register : ℕ → ℕ → System → System
register i seq s = record s {
  conn = add_request seq i s.conn;
  callers = update s.callers i (registered seq);
}

-- `err := c.sendNoWait(seq, payload)`
unfoldable pub submit : ℕ → ℕ → Bytes → System → System
submit i seq payload s = elim (prepare_pending_write (frame seq payload) false s.conn) [
  | some conn ↦ record s { conn = conn; callers = update s.callers i (waiting seq) }
  | none ↦ record s { callers = update s.callers i (failed seq) }
]

-- The two steps after a failed `sendNoWait`.
unfoldable pub release : ℕ → ℕ → System → Outcome System
release i seq s = do
  pr ← done (s.requests i)
  ok (record s { callers = update s.callers i (released seq); requests = update s.requests i pr })

unfoldable pub forget : ℕ → ℕ → System → System
forget i seq s = record s {
  conn = delete_request seq s.conn;
  callers = update s.callers i returned;
}

-- `pr.wg.Wait()` lets the caller go on once the counter is 0.
unfoldable pub wake : ℕ → System → System
wake i s = record s { callers = update s.callers i returned }

-- What the reader keeps of a message: a response is still to be copied.
abbrev pub hand_of : Received → Hand
hand_of (response pr payload) = some (pr, payload)
hand_of (message seq payload) = none

-- `copy(pr.dst, data); pr.wg.Done()`
unfoldable pub copy : ℕ → Bytes → System → Outcome System
copy i payload s = do
  pr ← done (s.requests i)
  ok (record s {
    requests = update s.requests i (record pr { answer = some (body payload) });
    hand = none;
  })

-- `for seq := range c.reqs { ... pr.err = err; pr.wg.Done() ... }`
unfoldable pub close_requests : Error → List ℕ → (ℕ → PendingRequest) → Outcome (ℕ → PendingRequest)
close_requests e [] requests = ok requests
close_requests e (i ∷ is) requests = do
  pr ← done (requests i)
  close_requests e is (update requests i (record pr { answer = some (closed e) }))

unfoldable pub close_conn : Error → System → Outcome System
close_conn e s = do
  let closed_conn = close s.conn
  requests ← close_requests e closed_conn.1 s.requests
  ok (record s { conn = closed_conn.2; requests = requests })

abbrev pub start : ConnSettings → System
start settings = record {
  conn = init settings;
  callers = λ i. fresh;
  requests = λ i. record { wg = 0; answer = none };
  hand = none;
}

-- A step of a caller, of the reader, or of `Handle` and what follows it, and its result, which may be
-- a panic. A reader that goes on after `close` is allowed, which the code rules out.
pub data Step (u : BytesUtil) (s : System) (r : Outcome System) : Type 0 where
  numbers : (i : ℕ) → s.callers i ≡ fresh → ok (number i s) ≡ r → Step u s r
  registers : (i seq : ℕ) → s.callers i ≡ numbered seq → ok (register i seq s) ≡ r → Step u s r
  submits :
      (i seq : ℕ) (payload : Bytes)
      → s.callers i ≡ registered seq
      → ok (submit i seq payload s) ≡ r
      → Step u s r
  releases : (i seq : ℕ) → s.callers i ≡ failed seq → release i seq s ≡ r → Step u s r
  forgets : (i seq : ℕ) → s.callers i ≡ released seq → ok (forget i seq s) ≡ r → Step u s r
  wakes :
      (i seq : ℕ)
      → s.callers i ≡ waiting seq
      → (s.requests i).wg ≡ 0
      → ok (wake i s) ≡ r
      → Step u s r
  receives :
      (buf : Bytes) (m : Received) (conn : Conn)
      → s.hand ≡ none
      → receive u buf s.conn ≡ ok (m, conn)
      → ok (record s { conn = conn; hand = hand_of m }) ≡ r
      → Step u s r
  copies :
      (i : ℕ) (payload : Bytes) → s.hand ≡ some (i, payload) → copy i payload s ≡ r → Step u s r
  shuts : ok (record s { conn = close_writer s.conn }) ≡ r → Step u s r
  -- After `Handle`, which has closed the writer and waited for the reader.
  closes : (e : Error) → s.conn.writer_done ≡ true → s.hand ≡ none → close_conn e s ≡ r → Step u s r

pub data Reach (u : BytesUtil) (settings : ConnSettings) : System → Type 0 where
  here : Reach u settings (start settings)
  after : {s t : System} → Reach u settings s → Step u s (ok t) → Reach u settings t
