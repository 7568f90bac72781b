-- ===== src/Rpc/Probe/Meeting.antt =====
-- A probe between two nodes.
use carlo.Common.{
  ℕ, ◌≡◌, refl, sym, ap, ◌∙◌, Bool, true, false, List, [], ◌∷◌, Option, none, some, Error, ok,
  ◌>>=◌, lookup, lookup-insert, nat_key, bytes_key, ==_refl,
}
use carlo.Bytesutil.{BytesUtil}
use carlo.Kademlia.{Kademlia, Routing, IsIdCodec}
use carlo.Reader.{Bytes}
use carlo.Packet.Handshake.{HandshakePacket, append_to, unmarshal_handshake_packet, validate}
use carlo.Packet.Handshake.Codec.{append_to-cons}
use carlo.Rpc.Provider.{Provider}
use carlo.Rpc.Providers.{Providers, keys, find_provider, register_provider, or_new, add_names}
use carlo.Rpc.Providers.Index.{
  serves, has_name, names_service, serves-add_conns, has_name-add_names,
}
use carlo.Rpc.Context.{op_code_handshake}
use carlo.Rpc.Node.{Node, returns, reply, handle_message}
use carlo.Rpc.Node.Turns.{checked-ok}
use carlo.Rpc.Node.Greeting.{
  IsAdvertised, own_packet, create_handshake_packet-own, own_packet-valid, own_packet-unmarshal,
  registered, handle_message-handshake,
}
use carlo.Rpc.Probe.{begun, begin_probe, admit, end_probe}

-- The peer behind a connection is known by its id, and each of the services is known as its own, by its
-- provider and by the index.
pub record Knows {KadId : Type 0} (conn : ℕ) (id : KadId) (services : List Bytes)
    (ps : Providers KadId) : Type 0 where
  pub provider : Provider KadId
  pub found : find_provider conn ps ≡ some provider
  pub is_id : provider.kad_id ≡ some id
  pub offered :
      (service : Bytes)
      → names_service service services ≡ true
      → has_name service provider.services ≡ true
  pub indexed :
      (service : Bytes)
      → names_service service services ≡ true
      → serves service conn ps.services ≡ true

register_provider-Knows :
    {KadId : Type 0} (conn : ℕ) (id : KadId) (services : List Bytes) (outgoing : Bool)
    (ps : Providers KadId)
    → Knows conn id services (register_provider conn (some id) services outgoing ps).2
unfolding register_provider find_provider
register_provider-Knows conn id services outgoing ps =
    let old = or_new conn outgoing (lookup conn ps.providers) in
    let p = record old {
      kad_id = some id;
      conn = conn;
      services = add_names services old.services;
    } in
    record {
      provider = p;
      found = lookup-insert conn conn p ps.providers ∙ rw (==_refl conn) refl;
      is_id = refl;
      offered = λ service named. has_name-add_names services old.services service ∙ rw named refl;
      indexed = λ service named.
          serves-add_conns conn services ps.services service conn ∙ rw (named, ==_refl conn) refl;
    }

module _ (k : Kademlia) (t : Routing k) (codec : IsIdCodec k) (u : BytesUtil) where
  begin_probe-own :
      (conn : ℕ) (n : Node k t) (id : k.KadId)
      → IsAdvertised k t n id
      → begin_probe k t conn n
        ≡ ok (begun k t conn n, op_code_handshake ∷ append_to k (own_packet k t n id) [])
  unfolding begin_probe
  begin_probe-own conn n id a =
      ap (λ o. o >>= λ packet. ok (begun k t conn n, append_to k packet (op_code_handshake ∷ [])))
        (create_handshake_packet-own k t (begun k t conn n) id a.is_id)
      ∙ ap (λ m. ok (begun k t conn n, m))
          (append_to-cons k codec (own_packet k t n id) op_code_handshake)

  end_probe-admit :
      (conn : ℕ) (n : Node k t) (buf : Bytes) (packet : HandshakePacket k)
      → unmarshal_handshake_packet k buf ≡ ok packet
      → validate k packet [] ≡ ok tt
      → end_probe k t conn (ok buf) n ≡ returns (admit k t conn packet n) [] none
  unfolding end_probe
  end_probe-admit conn n buf packet decoded valid =
      checked-ok k t n _ _ packet decoded
      ∙ checked-ok k t n (λ _. returns (admit k t conn packet n) [] none) _ tt valid

  admit-Knows :
      (conn : ℕ) (n : Node k t) (packet : HandshakePacket k) (id : k.KadId) (services : List Bytes)
      → packet.kad_id ≡ some id
      → packet.services ≡ services
      → Knows conn id services (admit k t conn packet n).providers
        × ((admit k t conn packet n).table ≡ t.update id n.table)
  unfolding admit
  admit-Knows conn n packet id services is_id same =
      rw (is_id, admit, sym same)
        (register_provider-Knows conn id packet.services true n.providers, refl)

  -- Both ends of a probe.
  pub record Met (sent : Bytes → Option Error) (c d : ℕ) (a b later : Node k t) (ida idb : k.KadId)
      : Type 0 where
    pub request : Bytes
    pub answer : Bytes
    pub there : Node k t
    pub here : Node k t
    pub begins : begin_probe k t c a ≡ ok (begun k t c a, request)
    pub answers :
        handle_message k t u sent d b request ≡ returns there (reply answer ∷ []) (sent answer)
    pub ends : end_probe k t c (ok answer) later ≡ returns here [] none
    pub there_knows : Knows d ida (keys a.services) there.providers
    pub here_knows : Knows c idb (keys b.services) here.providers
    pub there_table : there.table ≡ t.update ida b.table
    pub here_table : here.table ≡ t.update idb later.table

  -- With a codec for ids, a probe of a node by another succeeds: afterwards each knows the other by
  -- its id, has passed that id to `Update` of its routing table, and knows all the services of the
  -- other. Both have valid ids with their keys, and fewer than 256 services with names of UTF-8
  -- text of at most 255 bytes.
  pub begin_probe-end_probe :
      (sent : Bytes → Option Error) (c d : ℕ) (a b later : Node k t) (ida idb : k.KadId)
      → IsAdvertised k t a ida
      → IsAdvertised k t b idb
      → Met sent c d a b later ida idb
  begin_probe-end_probe sent c d a b later ida idb adv_a adv_b =
      let (answer, packet, handled, decoded, valid, is_id, services) =
        handle_message-handshake k t codec u sent d b idb (append_to k (own_packet k t a ida) [])
          (own_packet k t a ida) adv_b (own_packet-unmarshal k t codec u a ida adv_a)
          (own_packet-valid k t a ida adv_a) in
      let known = admit-Knows c later packet idb (keys b.services) is_id services in
      record {
        request = op_code_handshake ∷ append_to k (own_packet k t a ida) [];
        answer = answer;
        there = registered k t d (own_packet k t a ida) b;
        here = admit k t c packet later;
        begins = begin_probe-own c a ida adv_a;
        answers = handled;
        ends = end_probe-admit c later answer packet decoded valid;
        there_knows = register_provider-Knows d ida (keys a.services) false b.providers;
        here_knows = known.0;
        there_table = refl;
        here_table = known.1;
      }
