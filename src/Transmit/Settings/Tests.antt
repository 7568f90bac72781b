-- ===== src/Transmit/Settings/Tests.antt =====
-- Settings at concrete values.
use carlo.Common.{◌+◌, ◌%◌, ◌^◌, ◌≡◌, ◌≢◌, ◌↔◌, refl, arith}
use carlo.Common.Int.{pos, negsuc}
use carlo.Transmit.Settings.{
  ConnSettings, ClientSettings, ServerSettings, conn_getters, client_conn, server_conn,
}
use carlo.Transmit.Settings.Seq

abbrev unset : ConnSettings
unset = record {
  read_buffer_size = negsuc 4;
  write_buffer_size = pos 512;
  read_timeout = negsuc 0;
  write_timeout = pos 0;
  seq_offset = 0;
  seq_delta = 0;
}

abbrev client : ClientSettings
client = record {
  conn = unset;
  max_conns = pos 0;
  num_dial_attempts = pos 2;
  handshake_timeout = pos 0;
  dial_timeout = pos 0;
}

abbrev server : ServerSettings
server = record {
  conn = unset;
  max_conns = pos 0;
  max_conn_wait_timeout = pos 0;
  handshake_timeout = pos 0;
}

conn_getters-client_conn_example : conn_getters (client_conn client) ≡ client_conn client
conn_getters-client_conn_example = Seq.conn_getters-client_conn client

conn_getters-server_conn_example : conn_getters (server_conn server) ≡ server_conn server
conn_getters-server_conn_example = Seq.conn_getters-server_conn server

seq_after-client_example : Seq.seq_after (client_conn client) 3 ≡ 5
seq_after-client_example = Seq.seq_after-client client (refl, refl) 2

seq_after-server_example : Seq.seq_after (server_conn server) 3 ≡ 6
seq_after-server_example = Seq.seq_after-server server (refl, refl) 2

seq_after-server-eq-zero_iff_example :
    (Seq.seq_after (server_conn server) 3 ≡ 0) ↔ ((2 + 1) % 2 ^ 31 ≡ 0)
seq_after-server-eq-zero_iff_example = Seq.seq_after-server-eq-zero_iff server (refl, refl) 2

seq_after-client-ne-server_example :
    Seq.seq_after (client_conn client) 2 ≢ Seq.seq_after (server_conn server) 4
seq_after-client-ne-server_example =
    Seq.seq_after-client-ne-server client server (refl, refl) (refl, refl) 1 3

seq_after-client-distinct_example :
    (Seq.seq_after (client_conn client) 2 ≢ Seq.seq_after (client_conn client) 8)
    × (Seq.seq_after (client_conn client) 2 ≢ 0)
seq_after-client-distinct_example =
    Seq.seq_after-client-distinct client (refl, refl) 1 7 (omega arith) (omega arith)
