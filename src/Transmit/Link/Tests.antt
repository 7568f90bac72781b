-- ===== src/Transmit/Link/Tests.antt =====
-- Two messages on a session: the response to the request 4 and a message for the handler.
use carlo.Common.{ℕ, refl, true, false, [], ◌∷◌, ◌≡◌, List, none, some, eof, arith, suc, length}
use carlo.Common.Int.{pos}
use carlo.Bytesutil.Instance.{big_endian, big_endian-IsBigEndian}
use carlo.Reader.{Bytes}
use carlo.Transmit.Settings.{ConnSettings, conn_getters}
use carlo.Transmit.Session.{new_session_conn}
use carlo.Transmit.Session.Instance.{plain_suite, plain_suite-IsAead}
use carlo.Transmit.Conn.{Conn, PendingWrite, frame, response, message}
use carlo.Transmit.Conn.Writer.{Network, write_round, round_from, write_all}
use carlo.Transmit.Link.{read_loop}
use carlo.Transmit.Link.Transparent.{session_bytes, no_error, read_loop-write_round}

abbrev settings : ConnSettings
settings = record {
  read_buffer_size = pos 0;
  write_buffer_size = pos 0;
  read_timeout = pos 0;
  write_timeout = pos 0;
  seq_offset = 0;
  seq_delta = 0;
}

-- The request 4 is pending under the number 1.
abbrev waiting : Conn
waiting = record {
  settings = settings;
  writer_queue = [];
  writer_done = false;
  reqs = (1, 4) ∷ [];
  seq = 1;
}

abbrev messages : List (ℕ × Bytes)
messages = (1, 7 ∷ []) ∷ (2, 8 ∷ 9 ∷ []) ∷ []

abbrev queue : List PendingWrite
queue =
    record { buf = frame 1 (7 ∷ []); wait = false }
    ∷ record { buf = frame 2 (8 ∷ 9 ∷ []); wait = true }
    ∷ []

abbrev network : Network
network = record { set_write_deadline = none; write = λ i. none; flush = none }

fine : (write_round settings network queue).error ≡ none
unfolding write_round round_from write_all conn_getters
fine = refl

read_loop-write_round_example :
    read_loop big_endian plain_suite 64 no_error no_error
      (suc (length messages))
      0
      new_session_conn
      (session_bytes plain_suite (write_round settings network queue).written new_session_conn)
      waiting
    ≡ record {
      received = response 4 (7 ∷ []) ∷ message 2 (8 ∷ 9 ∷ []) ∷ [];
      error = some eof;
      conn = record waiting { reqs = [] };
    }
unfolding frame new_session_conn
read_loop-write_round_example =
    read_loop-write_round big_endian plain_suite 64 big_endian-IsBigEndian plain_suite-IsAead
      settings network queue messages 0 new_session_conn new_session_conn waiting refl fine refl
      (omega arith)
