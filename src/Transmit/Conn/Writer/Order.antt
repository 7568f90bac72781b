-- ===== src/Transmit/Conn/Writer/Order.antt =====
-- Over any interleaving: writes are completed once each in the order in which they were accepted,
-- and the network sees a front of that order.
use carlo.Common.{
  ◌≡◌, refl, sym, ◌∙◌, Bool, true, false, List, [], ◌∷◌, ◌++◌, map, Option, none, some, Error,
  arith, append-nil, append_assoc, map-append,
}
use carlo.Reader.{Bytes}
use carlo.Transmit.Settings.{ConnSettings}
use carlo.Transmit.Conn.{
  Conn, PendingWrite, init, prepare_pending_write, take_queue, close_writer, close,
}
use carlo.Transmit.Conn.Writer.{
  System, start, Step, submit, take_round, write, shut, finish, Reach, here, next, after_take,
  after_round, after_close, Round, is_none,
}
use carlo.Transmit.Conn.Writer.Rounds.{
  write_of, buf_of, fail_all_lem, IsFront, write_round-completed, write_round-IsFront,
}

-- The writes not yet completed, in order.
abbrev pub pending : System → List PendingWrite
pending s = s.batch ++ s.conn.writer_queue

record Inv (s : System) : Type 0 where
  accounted : map write_of s.completed ++ pending s ≡ s.accepted
  lost : List Bytes
  front : s.wire ++ lost ≡ map buf_of (map write_of s.completed)
  whole : s.running ≡ true → lost ≡ []
  stopped : s.running ≡ false → s.batch ≡ []

Inv-start : (settings : ConnSettings) → Inv (start settings)
unfolding init
Inv-start settings = record {
  accounted = refl;
  lost = [];
  front = refl;
  whole = λ _. refl;
  stopped = λ _. refl;
}

prepare-queue :
    (buf : Bytes) (wait : Bool) (c c' : Conn)
    → prepare_pending_write buf wait c ≡ some c'
    → c'.writer_queue ≡ c.writer_queue ++ record { buf = buf; wait = wait } ∷ []
unfolding prepare_pending_write
prepare-queue buf wait c c' e = ground arith

take_queue-queue :
    (c : Conn) (taken : List PendingWrite × Bool × Conn)
    → take_queue c ≡ some taken
    → (taken.0 ≡ c.writer_queue) × (taken.2.writer_queue ≡ [])
unfolding take_queue
take_queue-queue c taken e = ground arith

after_take-Inv :
    (s : System) (taken : List PendingWrite × Bool × Conn)
    → s.running ≡ true
    → s.batch ≡ []
    → taken.0 ≡ s.conn.writer_queue
    → taken.2.writer_queue ≡ []
    → Inv s
    → Inv (after_take s taken)
after_take-Inv s ([], done, conn) run empty q q' inv = record {
  accounted = cc inv.accounted;
  lost = inv.lost;
  front = inv.front;
  whole = λ _. inv.whole run;
  stopped = λ _. empty;
}
after_take-Inv s (pw ∷ rest, done, conn) run empty q q' inv = record {
  accounted = rw (q', append-nil, q) (rw empty at inv.accounted);
  lost = inv.lost;
  front = inv.front;
  whole = inv.whole;
  stopped = λ e. cc;
}

is_none→eq {ℓ} : {A : Type ℓ} (o : Option A) → is_none o ≡ true → o ≡ none
is_none→eq none h = refl
is_none→eq (some a) h = cc

after_round-Inv :
    (s : System) (r : Round)
    → s.running ≡ true
    → map write_of r.completed ≡ s.batch
    → IsFront r.written s.batch r.error
    → Inv s
    → Inv (after_round s r)
unfolding after_round
after_round-Inv s r run all f inv = record {
  accounted = simp (map-append, append_assoc, all) inv.accounted;
  lost = f.lost;
  front = simp (append_assoc, f.front, map-append, all, wire_now);
  whole = λ e. f.whole (is_none→eq r.error e);
  stopped = λ _. refl;
}
  where
    wire_now : s.wire ≡ map buf_of (map write_of s.completed)
    wire_now = rw append-nil at (rw (inv.whole run) at inv.front)

after_close-Inv : (e : Error) (s : System) → s.running ≡ false → Inv s → Inv (after_close e s)
unfolding after_close close
after_close-Inv e s stop inv = record {
  accounted =
      simp (map-append, fail_all_lem, append_assoc, append-nil, inv.stopped stop)
        (rw (inv.stopped stop) at inv.accounted);
  lost = inv.lost ++ map buf_of s.conn.writer_queue;
  front = sym (append_assoc s.wire inv.lost _) ∙ rw inv.front (simp (map-append, fail_all_lem));
  whole = λ r. cc;
  stopped = inv.stopped;
}

Step-Inv : {s t : System} → Step s t → Inv s → Inv t
unfolding close_writer
Step-Inv {s} (submit buf wait {conn} e) inv = record {
  accounted = rw (prepare-queue buf wait s.conn conn e, ← inv.accounted) (simp append_assoc);
  lost = inv.lost;
  front = inv.front;
  whole = inv.whole;
  stopped = inv.stopped;
}
Step-Inv {s} (take_round {taken} run empty e) inv =
    let (q, q') = take_queue-queue s.conn taken e in after_take-Inv s taken run empty q q' inv
Step-Inv {s} (write net run) inv =
    after_round-Inv s _ run (write_round-completed s.conn.settings net s.batch)
      (write_round-IsFront s.conn.settings net s.batch) inv
Step-Inv shut inv = record {
  accounted = inv.accounted;
  lost = inv.lost;
  front = inv.front;
  whole = inv.whole;
  stopped = inv.stopped;
}
Step-Inv {s} (finish e stop done) inv = after_close-Inv e s stop inv

Reach-Inv : {settings : ConnSettings} {s : System} → Reach settings s → Inv s
Reach-Inv {settings} here = Inv-start settings
Reach-Inv (next r st) = Step-Inv st (Reach-Inv r)

module _ {settings : ConnSettings} {s : System} (reach : Reach settings s) where
  -- At any moment the writes completed so far, in order, and after them those that are still
  -- pending, are the writes that were accepted: none is lost, completed twice or overtaken.
  pub completed_in_order : map write_of s.completed ++ pending s ≡ s.accepted
  completed_in_order = (Reach-Inv reach).accounted

  -- The buffers on the network are a front of those of the accepted writes, in order.
  pub wire_prefix : (lost : List Bytes) × (s.wire ++ lost ≡ map buf_of s.accepted)
  wire_prefix =
      let inv = Reach-Inv reach in
      (
        inv.lost ++ map buf_of (pending s),
        sym (append_assoc s.wire inv.lost (map buf_of (pending s)))
            ∙ rw (inv.front, ← inv.accounted) (simp map-append),
      )

  -- Once the writer has ended, `close` leaves no accepted write without an answer.
  pub after_close-completed :
      (e : Error) → s.running ≡ false → map write_of (after_close e s).completed ≡ s.accepted
  unfolding after_close close
  after_close-completed e stop =
      let inv = Reach-Inv reach in
      simp (map-append, fail_all_lem) (rw (inv.stopped stop) at inv.accounted)
