-- ===== src/Rpc/Probe.antt =====
-- `probeWithStreamTransmitConn` of streaming_rpc/streamnode.go: the handshake of a node that has opened a
-- connection. Other calls of the node run while it waits for the answer, so what comes before the request
-- and what comes after it each take the node that they find.
pub mod Meeting
mod Tests
use carlo.Common.{ℕ, true, [], ◌∷◌, Option, none, some, Error, Outcome, ok, ◌>>=◌}
use carlo.Kademlia.{Kademlia, Routing}
use carlo.Reader.{Bytes}
use carlo.Packet.Handshake.{HandshakePacket, unmarshal_handshake_packet, validate}
use carlo.Packet.Handshake
use carlo.Rpc.Providers.{register_provider}
use carlo.Rpc.Context.{op_code_handshake}
use carlo.Rpc.Node.{Node, Handled, returns, checked, create_handshake_packet}

module _ (k : Kademlia) (t : Routing k) where
  -- `n.providers.registerProvider(conn, nil, nil, true)`
  abbrev pub begun : ℕ → Node k t → Node k t
  begun conn n = record n { providers = (register_provider conn none [] true n.providers).2 }

  -- The node and its request.
  unfoldable pub begin_probe : ℕ → Node k t → Outcome (Node k t × Bytes)
  begin_probe conn n = create_handshake_packet k t (begun conn n) [] >>= λ packet.
      ok (begun conn n, Handshake.append_to k packet (op_code_handshake ∷ []))

  -- A peer without an id stays as it was registered.
  unfoldable pub admit : ℕ → HandshakePacket k → Node k t → Node k t
  admit conn packet n = elim packet.kad_id [
    | none ↦ n
    | some id ↦ record n {
      providers = (register_provider conn (some id) packet.services true n.providers).2;
      table = t.update id n.table;
    }
  ]

  -- With what `Request` returned.
  unfoldable pub end_probe : ℕ → Outcome Bytes → Node k t → Handled k t
  end_probe conn res n = checked k t n res λ buf.
      checked k t n (unmarshal_handshake_packet k buf)
        λ packet. checked k t n (validate k packet []) λ _. returns (admit conn packet n) [] none
