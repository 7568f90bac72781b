-- ===== src/Transmit/Client/Tests.antt =====
-- The pool at concrete values.
use carlo.Common.{
  ℕ, zero, suc, ◌+◌, ◌≤◌, ◌≡◌, ◌≢◌, true, false, refl, [], ◌∷◌, none, some, bad_signature, length,
  arith,
}
use carlo.Transmit.Client.Dial.{
  Attempt, attempt_error, IsDialed, dial_from, dial, closed_after, dial-IsDialed,
}
use carlo.Transmit.Client.Leaks.{occurs, dial_leaks}
use carlo.Transmit.Client.{
  Client, new_client_conn, get_client_conn, from_pool, choose, scan, without, delete_client_conn,
}
use carlo.Transmit.Client.Choice
use carlo.Transmit.Client.Pool
use carlo.Transmit.Client.Pool.{new_client, got, deleted, start}

-- Connection i has i + 1 writes pending.
abbrev busy : ℕ → ℕ
busy i = i + 1

abbrev two_conns : Client
two_conns = record { conns = 2 ∷ 0 ∷ []; made = 3 }

get_client_conn_full : get_client_conn busy 2 two_conns ≡ (0, two_conns)
unfolding get_client_conn from_pool choose scan
get_client_conn_full = refl

get_client_conn_room : (get_client_conn busy 3 two_conns).0 ≡ 3
unfolding get_client_conn from_pool choose scan new_client_conn
get_client_conn_room = refl

delete_client_conn_two : delete_client_conn 2 two_conns ≡ record two_conns { conns = 0 ∷ [] }
unfolding delete_client_conn without
delete_client_conn_two = refl

get_client_conn-Answer_example : Choice.Answer busy 2 two_conns (get_client_conn busy 2 two_conns)
get_client_conn-Answer_example = Choice.get_client_conn-Answer busy 2 two_conns

abbrev after_run : Client
after_run = (get_client_conn busy 2 (delete_client_conn 0 (get_client_conn busy 2 new_client).1)).1

pool_bounded_example : (length after_run.conns ≤ 2) × Pool.IsUnique after_run.conns
pool_bounded_example =
    Pool.pool_bounded 2 after_run (omega arith) (got busy (deleted 0 (got busy start)))

-- The first attempt fails at its handshake, with a connection open, and the second succeeds.
abbrev second_time : ℕ → Attempt
second_time zero = record {
  dial = none;
  deadline = none;
  handshake = some bad_signature;
  clear = none;
}
second_time (suc i) = record { dial = none; deadline = none; handshake = none; clear = none }

dial_second_time : dial second_time 3 ≡ record { error = none; conn = some 1; opened = 0 ∷ 1 ∷ [] }
unfolding dial dial_from attempt_error
dial_second_time = refl

dial-IsDialed_example : IsDialed second_time 3 0 [] (dial second_time 3)
dial-IsDialed_example = dial-IsDialed second_time 2

-- All attempts fail at the handshake, each with a connection open.
abbrev refused : ℕ → Attempt
refused i = record { dial = none; deadline = none; handshake = some bad_signature; clear = none }

refused-fails : (i : ℕ) → i ≤ 2 → attempt_error (refused i) ≢ none
unfolding attempt_error
refused-fails i le e = cc

dial_leaks_example :
    (closed_after refused (dial refused 3) ≡ 2 ∷ [])
    × (occurs 0 (dial refused 3).opened ≡ true)
    × (occurs 0 (closed_after refused (dial refused 3)) ≡ false)
dial_leaks_example = dial_leaks refused 2 0 (omega arith) refl refused-fails
