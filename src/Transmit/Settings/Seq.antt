-- ===== src/Transmit/Settings/Seq.antt =====
-- The numbers that `Conn.next` of streaming_transmit/conn.go hands out, one after the other, on a
-- client's connection and on a server's.
use carlo.Common.{
  ℕ, zero, suc, ◌+◌, ◌-◌, ◌*◌, ◌%◌, ◌^◌, ◌<◌, ◌≡◌, ◌≢◌, ◌↔◌, ◌==◌, if◌then◌else◌, arith,
}
use carlo.Transmit.Settings.{
  ConnSettings, ClientSettings, ServerSettings, conn_getters, client_getters, server_getters,
  client_conn, server_conn,
}

-- The getters of the connection leave what the client's or the server's getters chose: a
-- connection that a client or a server builds works with the settings of its builder.
pub conn_getters-client_conn : (c : ClientSettings) → conn_getters (client_conn c) ≡ client_conn c
unfolding conn_getters client_conn client_getters
conn_getters-client_conn c = ground arith

pub conn_getters-server_conn : (s : ServerSettings) → conn_getters (server_conn s) ≡ server_conn s
unfolding conn_getters server_conn server_getters
conn_getters-server_conn s = ground arith

-- `c.seq` after a call of `next`, which is also its result.
unfoldable pub next_seq : ConnSettings → ℕ → ℕ
next_seq c seq =
    if seq == 0 then (conn_getters c).seq_offset else (seq + (conn_getters c).seq_delta) % 2 ^ 32

-- `c.seq` after `n` calls on a new connection.
unfoldable pub seq_after : ConnSettings → ℕ → ℕ
seq_after c zero = 0
seq_after c (suc n) = next_seq c (seq_after c n)

-- The sequence number is left to its default.
abbrev pub IsDefaultSeq : ConnSettings → Type 0
IsDefaultSeq c = (c.seq_offset ≡ 0) × (c.seq_delta ≡ 0)

module _ (c : ClientSettings) (unset : IsDefaultSeq c.conn) where
  -- A client's `n`-th number is 2n - 1, on 32 bits.
  pub seq_after-client : (n : ℕ) → seq_after (client_conn c) (suc n) ≡ (2 * n + 1) % 2 ^ 32
  unfolding seq_after next_seq conn_getters client_conn client_getters
  seq_after-client zero = ground arith
  seq_after-client (suc n) = ground (arith, seq_after-client n)

module _ (s : ServerSettings) (unset : IsDefaultSeq s.conn) where
  -- A server's `n`-th number is 2n, on 32 bits.
  pub seq_after-server : (n : ℕ) → seq_after (server_conn s) (suc n) ≡ (2 * n + 2) % 2 ^ 32
  unfolding seq_after next_seq conn_getters server_conn server_getters
  seq_after-server zero = ground arith
  seq_after-server (suc n) = ground (arith, seq_after-server n)

  -- The number 0, which marks a message that wants no response, is handed out to a server's request
  -- once in 2 ^ 31 requests.
  pub seq_after-server-eq-zero_iff :
      (n : ℕ) → (seq_after (server_conn s) (suc n) ≡ 0) ↔ ((n + 1) % 2 ^ 31 ≡ 0)
  seq_after-server-eq-zero_iff n =
      ((λ e. omega (arith, seq_after-server n)), (λ e. omega (arith, seq_after-server n)))

-- With default numbering the two ends of a connection never use one number: no request of one end
-- is taken for a response to the other.
pub seq_after-client-ne-server :
    (c : ClientSettings) (s : ServerSettings)
    → IsDefaultSeq c.conn
    → IsDefaultSeq s.conn
    → (m n : ℕ) → seq_after (client_conn c) (suc m) ≢ seq_after (server_conn s) (suc n)
seq_after-client-ne-server c s hc hs m n e =
    omega (arith, seq_after-client c hc m, seq_after-server s hs n)

-- Fewer than 2 ^ 31 requests of a client in a row have different numbers, and none has number 0.
pub seq_after-client-distinct :
    (c : ClientSettings)
    → IsDefaultSeq c.conn
    → (m n : ℕ) → m < n
    → n - m < 2 ^ 31
    → (seq_after (client_conn c) (suc m) ≢ seq_after (client_conn c) (suc n))
      × (seq_after (client_conn c) (suc m) ≢ 0)
seq_after-client-distinct c hc m n lt near = (
  (λ e. omega (arith, seq_after-client c hc m, seq_after-client c hc n)),
  (λ e. omega (arith, seq_after-client c hc m)),
)
