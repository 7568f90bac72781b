-- ===== src/Rpc/Probe/Tests.antt =====
-- A node with the id 7 probes one with the id 8.
use carlo.Common.{refl, [], ◌∷◌, Option, some, none, Error, arith}
use carlo.Bytesutil.Instance.{big_endian}
use carlo.Kademlia.Instance.{toy, toy-IsIdCodec, toy_routing, toy-IsKeyOf}
use carlo.Packet.Utf8.{valid_string, scan, scan_byte}
use carlo.Rpc.Node.{Node}
use carlo.Rpc.Node.Greeting.{IsAdvertised}
use carlo.Reader.{Bytes}
use carlo.Rpc.Probe.Meeting.{Met, begin_probe-end_probe}

abbrev answered : Bytes → Option Error
answered message = none

abbrev node : Node toy toy_routing
node = record {
  secret_key = 7;
  kad_id = some 7;
  services = ((0x61 ∷ []), 1) ∷ [];
  providers = record { services = []; providers = [] };
  table = [];
}

abbrev other_node : Node toy toy_routing
other_node = record {
  secret_key = 8;
  kad_id = some 8;
  services = ((0x62 ∷ []), 2) ∷ ((0x63 ∷ []), 3) ∷ [];
  providers = record { services = []; providers = [] };
  table = [];
}

node-Advertises : IsAdvertised toy toy_routing node 7
unfolding valid_string scan scan_byte
node-Advertises = record {
  is_id = refl;
  valid = refl;
  key = toy-IsKeyOf 7;
  names = ((refl, omega arith), tt);
  count = omega arith;
}

other_node-Advertises : IsAdvertised toy toy_routing other_node 8
unfolding valid_string scan scan_byte
other_node-Advertises = record {
  is_id = refl;
  valid = refl;
  key = toy-IsKeyOf 8;
  names = ((refl, omega arith), ((refl, omega arith), tt));
  count = omega arith;
}

begin_probe-end_probe_example :
    Met toy toy_routing toy-IsIdCodec big_endian answered 5 6 node other_node node 7 8
begin_probe-end_probe_example =
    begin_probe-end_probe toy toy_routing toy-IsIdCodec big_endian answered 5 6 node other_node node
      7 8 node-Advertises other_node-Advertises
