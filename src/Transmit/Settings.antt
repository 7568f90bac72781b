-- ===== src/Transmit/Settings.antt =====
-- The settings of a connection, a client and a server in streaming_transmit, and the defaults that
-- stand in for unset ones. Durations are in nanoseconds.
pub mod Seq
mod Tests
use carlo.Common.{ℕ, ◌*◌, ◌^◌, ◌<◌, ◌≤◌, ◌≡◌, refl, Bool, true, false, ◌==◌, if◌then◌else◌, arith}
use carlo.Common.Int.{ℤ, pos, negsuc, is_positive, is_negative}

abbrev pub second : ℕ
second = 1000000000

abbrev pub default_read_buffer_size : ℤ
default_read_buffer_size = pos 4096

abbrev pub default_write_buffer_size : ℤ
default_write_buffer_size = pos 4096

abbrev pub default_read_timeout : ℤ
default_read_timeout = pos (3 * second)

abbrev pub default_write_timeout : ℤ
default_write_timeout = pos (3 * second)

abbrev pub default_seq_offset : ℕ
default_seq_offset = 1

abbrev pub default_seq_delta : ℕ
default_seq_delta = 2

-- `if x <= 0 { return d }; return x`, `if x < 0 { return d }; return x` and
-- `if x == 0 { return d }; return x`.
abbrev positive_or : ℤ → ℤ → ℤ
positive_or d x = if is_positive x then x else d

abbrev nonnegative_or : ℤ → ℤ → ℤ
nonnegative_or d x = if is_negative x then d else x

abbrev nonzero_or : ℕ → ℕ → ℕ
nonzero_or d x = if x == 0 then d else x

-- The fields of `Conn`, `Client` and `Server` that set up a connection.
pub record ConnSettings : Type 0 where
  pub read_buffer_size : ℤ
  pub write_buffer_size : ℤ
  pub read_timeout : ℤ
  pub write_timeout : ℤ
  pub seq_offset : ℕ
  pub seq_delta : ℕ

pub record ClientSettings : Type 0 where
  pub conn : ConnSettings
  pub max_conns : ℤ
  pub num_dial_attempts : ℤ
  pub handshake_timeout : ℤ
  pub dial_timeout : ℤ

pub record ServerSettings : Type 0 where
  pub conn : ConnSettings
  pub max_conns : ℤ
  pub max_conn_wait_timeout : ℤ
  pub handshake_timeout : ℤ

-- The getters of `Conn`, all applied.
unfoldable pub conn_getters : ConnSettings → ConnSettings
conn_getters c = record {
  read_buffer_size = positive_or default_read_buffer_size c.read_buffer_size;
  write_buffer_size = positive_or default_write_buffer_size c.write_buffer_size;
  read_timeout = nonnegative_or default_read_timeout c.read_timeout;
  write_timeout = nonnegative_or default_write_timeout c.write_timeout;
  seq_offset = nonzero_or default_seq_offset c.seq_offset;
  seq_delta = nonzero_or default_seq_delta c.seq_delta;
}

abbrev pub default_client_seq_offset : ℕ
default_client_seq_offset = 1

abbrev pub default_client_seq_delta : ℕ
default_client_seq_delta = 2

abbrev pub default_max_client_conns : ℤ
default_max_client_conns = pos 4

abbrev pub default_num_dial_attempts : ℤ
default_num_dial_attempts = pos 1

abbrev pub default_dial_timeout : ℤ
default_dial_timeout = pos (3 * second)

abbrev pub default_handshake_timeout : ℤ
default_handshake_timeout = pos (3 * second)

unfoldable pub client_getters : ClientSettings → ClientSettings
client_getters c = record {
  conn = record {
    read_buffer_size = positive_or default_read_buffer_size c.conn.read_buffer_size;
    write_buffer_size = positive_or default_write_buffer_size c.conn.write_buffer_size;
    read_timeout = nonnegative_or default_read_timeout c.conn.read_timeout;
    write_timeout = nonnegative_or default_write_timeout c.conn.write_timeout;
    seq_offset = nonzero_or default_client_seq_offset c.conn.seq_offset;
    seq_delta = nonzero_or default_client_seq_delta c.conn.seq_delta;
  };
  max_conns = positive_or default_max_client_conns c.max_conns;
  num_dial_attempts = positive_or default_num_dial_attempts c.num_dial_attempts;
  handshake_timeout = positive_or default_handshake_timeout c.handshake_timeout;
  dial_timeout = positive_or default_dial_timeout c.dial_timeout;
}

abbrev pub default_server_seq_offset : ℕ
default_server_seq_offset = 2

abbrev pub default_server_seq_delta : ℕ
default_server_seq_delta = 2

abbrev pub default_max_server_conns : ℤ
default_max_server_conns = pos 1024

abbrev pub default_max_conn_wait_timeout : ℤ
default_max_conn_wait_timeout = pos (3 * second)

unfoldable pub server_getters : ServerSettings → ServerSettings
server_getters s = record {
  conn = record {
    read_buffer_size = positive_or default_read_buffer_size s.conn.read_buffer_size;
    write_buffer_size = positive_or default_write_buffer_size s.conn.write_buffer_size;
    read_timeout = nonnegative_or default_read_timeout s.conn.read_timeout;
    write_timeout = nonnegative_or default_write_timeout s.conn.write_timeout;
    seq_offset = nonzero_or default_server_seq_offset s.conn.seq_offset;
    seq_delta = nonzero_or default_server_seq_delta s.conn.seq_delta;
  };
  max_conns = positive_or default_max_server_conns s.max_conns;
  max_conn_wait_timeout = positive_or default_max_conn_wait_timeout s.max_conn_wait_timeout;
  handshake_timeout = nonnegative_or default_handshake_timeout s.handshake_timeout;
}

-- The settings of the `Conn` that `newClientConn` and `Server.client` build.
unfoldable pub client_conn : ClientSettings → ConnSettings
client_conn c = (client_getters c).conn

unfoldable pub server_conn : ServerSettings → ConnSettings
server_conn s = (server_getters s).conn
