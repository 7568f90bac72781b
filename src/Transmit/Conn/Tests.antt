-- ===== src/Transmit/Conn/Tests.antt =====
-- Connections at concrete inputs.
use carlo.Common.{
  ℕ, zero, suc, ◌<◌, ◌≡◌, ◌≢◌, ◌↔◌, refl, true, false, List, [], ◌∷◌, ◌++◌, map, Option, none, some,
  Error, eof, other_error, arith, ok, err, panic, unexpected_eof, length, lookup, nat_key,
}
use carlo.Common.Int.{pos}
use carlo.Bytesutil.Instance.{big_endian, big_endian-IsBigEndian}
use carlo.Reader.{Bytes}
use carlo.Transmit.Settings.{ConnSettings}
use carlo.Transmit.Conn
use carlo.Transmit.Conn.{Conn, PendingWrite, init, frame, receive, Received, response, message}
use carlo.Transmit.Conn.Messages
use carlo.Transmit.Conn.Writer
use carlo.Transmit.Conn.Writer.Order
use carlo.Transmit.Conn.Writer.Rounds.{write_of}
use carlo.Transmit.Conn.Requests
use carlo.Transmit.Conn.Requests.{numbers, registers, submits, shuts, Reach, Step}
use carlo.Transmit.Conn.Requests.Matching.{seq_of}
use carlo.Transmit.Conn.Requests.Shutdown
use carlo.Transmit.Settings.{conn_getters}
use carlo.Transmit.Settings.Seq.{next_seq}
use carlo.Transmit.Conn.Handle.{handle, handle_complete, writer_done, Action, count}

abbrev settings : ConnSettings
settings = record {
  read_buffer_size = pos 0;
  write_buffer_size = pos 0;
  read_timeout = pos 0;
  write_timeout = pos 0;
  seq_offset = 0;
  seq_delta = 0;
}

-- Requests 4 and 7 are pending under the numbers 1 and 3.
abbrev busy : Conn
busy = record {
  settings = settings;
  writer_queue = [];
  writer_done = false;
  reqs = (1, 4) ∷ (3, 7) ∷ [];
  seq = 3;
}

receive-frame-response_example :
    (conn' : Conn) × (receive big_endian (frame 3 (9 ∷ [])) busy ≡ ok (response 7 (9 ∷ []), conn'))
    × (lookup 3 conn'.reqs ≡ none)
    × ((j : ℕ) → j ≢ 3 → lookup j conn'.reqs ≡ lookup j busy.reqs)
receive-frame-response_example =
    Messages.receive-frame-response big_endian big_endian-IsBigEndian busy 3 (9 ∷ []) (omega arith)
      7 refl (omega arith)

receive-frame_message_example :
    (conn' : Conn) × (receive big_endian (frame 2 (9 ∷ [])) busy ≡ ok (message 2 (9 ∷ []), conn'))
    × ((j : ℕ) → lookup j conn'.reqs ≡ lookup j busy.reqs)
receive-frame_message_example =
    Messages.receive-frame_message big_endian big_endian-IsBigEndian busy 2 (9 ∷ []) (omega arith)
      refl

receive-frame_zero_example :
    (conn' : Conn) × (receive big_endian (frame 0 (9 ∷ [])) (record busy { reqs = (0, 5) ∷ [] })
      ≡ ok (message 0 (9 ∷ []), conn'))
    × (lookup 0 conn'.reqs ≡ none)
receive-frame_zero_example =
    Messages.receive-frame_zero big_endian big_endian-IsBigEndian
      (record busy { reqs = (0, 5) ∷ [] }) (9 ∷ []) 5 refl

receive-eof_iff_example :
    (receive big_endian (1 ∷ 2 ∷ []) busy ≡ err unexpected_eof) ↔ (length {A = ℕ} (1 ∷ 2 ∷ []) < 4)
receive-eof_iff_example = Messages.receive-eof_iff big_endian (1 ∷ 2 ∷ []) busy

handle_complete_example :
    ((a : Action) → count a (handle writer_done none (some eof)).0 ≡ 1)
    × ((handle writer_done none (some eof)).1 ≢ none)
handle_complete_example = handle_complete writer_done none (some eof) (λ e. cc)

-- Two writes are queued and taken; the second write of the round fails.
abbrev network : Writer.Network
network = record { set_write_deadline = none; write = λ i. failing i; flush = none }
  where
    failing : ℕ → Option Error
    failing zero = none
    failing (suc i) = some other_error

abbrev queued : Writer.System
queued = record {
  conn = record (init settings) {
    writer_queue =
        record { buf = 1 ∷ []; wait = true } ∷ record { buf = 2 ∷ []; wait = false } ∷ [];
  };
  batch = [];
  running = true;
  accepted = record { buf = 1 ∷ []; wait = true } ∷ record { buf = 2 ∷ []; wait = false } ∷ [];
  completed = [];
  wire = [];
}

queued-Reach : Writer.Reach settings queued
unfolding Conn.prepare_pending_write init
queued-Reach =
    Writer.next (Writer.next Writer.here (Writer.submit (1 ∷ []) true refl))
      (Writer.submit (2 ∷ []) false refl)

abbrev taken : Writer.System
taken =
    Writer.after_take queued
      (queued.conn.writer_queue, false, record queued.conn { writer_queue = [] })

taken-Reach : Writer.Reach settings taken
unfolding Conn.take_queue init
taken-Reach = Writer.next queued-Reach (Writer.take_round refl refl refl)

abbrev broken : Writer.System
broken = Writer.after_round taken (Writer.write_round taken.conn.settings network taken.batch)

broken-Reach : Writer.Reach settings broken
unfolding init
broken-Reach = Writer.next taken-Reach (Writer.write network refl)

completed_in_order_example :
    map write_of broken.completed ++ Writer.Order.pending broken ≡ queued.accepted
unfolding Writer.after_round
completed_in_order_example = Writer.Order.completed_in_order broken-Reach

wire_prefix_example : (lost : List Bytes) × (broken.wire ++ lost ≡ (1 ∷ []) ∷ (2 ∷ []) ∷ [])
unfolding Writer.after_round
wire_prefix_example = Writer.Order.wire_prefix broken-Reach

after_close-completed_example :
    map write_of (Writer.after_close eof broken).completed ≡ queued.accepted
unfolding Writer.after_round Writer.write_round Writer.round_from Writer.write_all init conn_getters
after_close-completed_example = Writer.Order.after_close-completed broken-Reach eof refl

-- Caller 0 has registered its request under number 1, then sent it.
abbrev registering : Requests.System
registering = Requests.register 0 1 (Requests.number 0 (Requests.start settings))

abbrev requesting : Requests.System
requesting = Requests.submit 0 1 (5 ∷ []) registering

registering-Reach : Reach big_endian settings registering
unfolding Requests.number Conn.next next_seq conn_getters init
registering-Reach =
    Requests.after (Requests.after Requests.here (numbers 0 refl refl)) (registers 0 1 refl refl)

requesting-Reach : Reach big_endian settings requesting
unfolding Requests.register
requesting-Reach = Requests.after registering-Reach (submits 0 1 (5 ∷ []) refl refl)

response_to_requester_example :
    (seq_of (requesting.callers 0) ≡ some 1) × (◌≡◌ {A = Bytes} (8 ∷ []) (8 ∷ []))
unfolding Requests.submit Requests.register Requests.number Conn.next next_seq conn_getters init
    Conn.prepare_pending_write receive frame Conn.add_request
response_to_requester_example =
    Shutdown.response_to_requester requesting-Reach big_endian-IsBigEndian 1 0 (8 ∷ []) (8 ∷ []) _
      (omega arith) refl

-- The reader has matched the response and not yet copied it.
abbrev matched : Requests.System
matched = record requesting { conn = record requesting.conn { reqs = [] }; hand = some (0, 8 ∷ []) }

matched-Reach : Reach big_endian settings matched
unfolding Requests.submit Requests.register Requests.number Conn.next next_seq conn_getters init
    Conn.prepare_pending_write receive frame Conn.add_request
matched-Reach =
    Requests.after requesting-Reach
      (Requests.receives (frame 1 (8 ∷ [])) (response 0 (8 ∷ [])) _ refl refl refl)

no_panic_while_open_example : Requests.copy 0 (8 ∷ []) matched ≢ panic
unfolding Requests.submit Requests.register Requests.number Conn.next next_seq conn_getters init
    Conn.prepare_pending_write receive frame Conn.add_request
no_panic_while_open_example =
    Shutdown.no_panic_while_open matched-Reach refl _ (Requests.copies 0 (8 ∷ []) refl refl)

-- `close` with one request pending.
abbrev after_closing : Requests.System → Requests.System
after_closing s = record s {
  conn = record s.conn { writer_queue = []; reqs = []; seq = 0 };
  requests = Requests.update s.requests 0 (record { wg = 0; answer = some (Requests.closed eof) });
}

-- The writer is closed before the registered request is sent.
abbrev refused : Requests.System
refused =
    Requests.submit 0 1 (5 ∷ []) (record registering { conn = Conn.close_writer registering.conn })

refused-Reach : Reach big_endian settings refused
unfolding Requests.submit Requests.register Requests.number Conn.next next_seq conn_getters init
    Conn.prepare_pending_write receive frame Conn.add_request Conn.close_writer
refused-Reach =
    Requests.after (Requests.after registering-Reach (shuts refl)) (submits 0 1 (5 ∷ []) refl refl)

release-close_conn_panic_example : Step big_endian (after_closing refused) panic
unfolding Requests.submit Requests.register Requests.number Conn.next next_seq conn_getters init
    Conn.prepare_pending_write receive frame Conn.add_request Conn.close_writer Requests.close_conn
    Requests.close_requests Conn.close
release-close_conn_panic_example =
    Shutdown.release-close_conn_panic refused-Reach eof (after_closing refused) 1 0 refl refl refl
