-- ===== src/Transmit/Session/Handshakers.antt =====
-- The default handshakers of streaming_transmit/net.go, and the connections that they return.
use carlo.Common.{ℕ, ◌≡◌, List, [], Option, some, Error, Outcome, ok, ◌>>=◌}
use carlo.Bytesutil.{BytesUtil}
use carlo.Reader.{Bytes}
use carlo.Transmit.Session.{Aead, SessionConn, new_session_conn}
use carlo.Transmit.Session.Keys.{Crypto, Exchange, do_client, do_server}
use carlo.Transmit.Session.Agreement.{generated}
use carlo.Transmit.Session.Channel.{Call, run, run_queue}

-- The connection of a handshake: `session.Suite()`, nil without one, the nonces, and what is left to read.
pub record BufferedConn : Type 0 where
  pub suite : Option Aead
  pub conn : SessionConn
  pub unread : Bytes

-- `if err != nil { return nil, err }; return NewSessionConn(session.Suite(), conn), nil`
unfoldable pub conn_of : Exchange → Outcome BufferedConn
conn_of e =
    e.result >>= λ r. ok (record { suite = r.0.suite; conn = new_session_conn; unread = r.1 })

module _ (c : Crypto) where
  unfoldable pub default_client_handshaker :
      Option (Bytes × Bytes) → ℕ × Option Error → Bytes → Outcome BufferedConn
  default_client_handshaker generated answer src = conn_of (do_client c generated answer src)

  unfoldable pub default_server_handshaker :
      Option (Bytes × Bytes) → ℕ × Option Error → Bytes → Outcome BufferedConn
  default_server_handshaker generated answer src = conn_of (do_server c generated answer src)

-- Both ends have a connection with the same suite. In either direction, what the calls of the ends get is
-- what they get from a queue of messages.
pub record Secured (u : BytesUtil) (suite : Aead) (size cap : ℕ) (calls : List Call)
    (client server : Outcome BufferedConn) (from_server from_client : Bytes) : Type 0 where
  pub at_client : BufferedConn
  pub at_server : BufferedConn
  pub client_ok : client ≡ ok at_client
  pub server_ok : server ≡ ok at_server
  pub client_suite : at_client.suite ≡ some suite
  pub server_suite : at_server.suite ≡ some suite
  pub client_unread : at_client.unread ≡ from_server
  pub server_unread : at_server.unread ≡ from_client
  pub to_server :
      run u suite size cap
        (record { writer = at_client.conn; buffered = []; reader = at_server.conn; bytes = [] })
        calls
      ≡ run_queue [] calls
  pub to_client :
      run u suite size cap
        (record { writer = at_server.conn; buffered = []; reader = at_client.conn; bytes = [] })
        calls
      ≡ run_queue [] calls
