-- ===== src/Rpc/Node/Panics.antt =====
-- When the handling of a message panics.
use carlo.Common.{
  ℕ, ◌≡◌, ◌≢◌, ◌↔◌, refl, ap, ◌∙◌, subst, Bool, true, false, [], ◌∷◌, Option, none, some, Error,
  arith, length, ltb, ◌==◌, ==_iff, if◌then◌else◌, Outcome, ok, err, panic, Bool-cases,
  Option-cases, inl, inr,
}
use carlo.Bytesutil.{BytesUtil}
use carlo.Kademlia.{Kademlia, Routing}
use carlo.Reader.{Bytes}
use carlo.Packet.Handshake.{HandshakePacket, validate, check_signature, append_payload_to}
use carlo.Packet.Handshake.Codec.{unmarshal_handshake_packet-ne-panic}
use carlo.Packet.Request.{ServiceRequestPacket, unmarshal_service_request_packet-panic_iff}
use carlo.Packet.Response.{ServiceResponsePacket, unmarshal_service_response_packet-ne-panic}
use carlo.Packet.Data.{DataPacket, unmarshal_data_packet-ne-panic}
use carlo.Rpc.Provider.{Stream, Provider, get_stream, register_stream}
use carlo.Rpc.Providers.{find_provider}
use carlo.Rpc.Context.{
  chunk_size, op_code_handshake, op_code_service_request, op_code_service_response, op_code_data,
  op_code_find_node_request,
}
use carlo.Rpc.Node.{
  Node, Handled, panics, returns, checked, handle_message, handle_handshake, answer_handshake,
  create_handshake_packet, handle_service_request, register_request, dispatch_request,
  first_handler, handle_service_response, receive_header, handle_data, receive_data,
  receive_payload, write_stream, handle_find_node_request,
}
use carlo.Rpc.Node.Turns.{with_provider-found}

write_stream-ne-panic : (payload : Bytes) (s : Stream) → write_stream payload s ≢ panic
write_stream-ne-panic payload s e = ground (arith, Option-cases s.closed)

module _ (k : Kademlia) (t : Routing k) where
  -- A handler that returns, with an error or without.
  abbrev pub Returns : Handled k t → Type 0
  Returns panics = ⊥
  Returns (returns n calls e) = Unit

  checked-Returns {ℓ} :
      {A : Type ℓ} (n : Node k t) (o : Outcome A) (f : A → Handled k t)
      → o ≢ panic
      → ((a : A) → Returns (f a))
      → Returns (checked k t n o f)
  checked-Returns n panic f h g = absurd (h refl)
  checked-Returns n (err e) f h g = tt
  checked-Returns n (ok a) f h g = g a

  option-Returns {ℓ} :
      {A : Type ℓ} (o : Option A) (x : Handled k t) (f : A → Handled k t)
      → Returns x
      → ((a : A) → Returns (f a))
      → Returns (elim o [ none ↦ x | some a ↦ f a ])
  option-Returns none x f h g = h
  option-Returns (some a) x f h g = g a

  if-Returns :
      (b : Bool) (x y : Handled k t)
      → (b ≡ true → Returns x)
      → Returns y
      → Returns (if b then x else y)
  if-Returns true x y h g = h refl
  if-Returns false x y h g = g

  outcome-Returns {ℓ} :
      {A : Type ℓ} (o : Outcome A) (f : A → Handled k t) (g : Error → Handled k t)
      → o ≢ panic
      → ((a : A) → Returns (f a))
      → ((e : Error) → Returns (g e))
      → Returns (elim o [ ok a ↦ f a | err e ↦ g e | panic ↦ panics ])
  outcome-Returns panic f g h r q = absurd (h refl)
  outcome-Returns (err e) f g h r q = q e
  outcome-Returns (ok a) f g h r q = r a

  Returns-ne-panics : (h : Handled k t) → Returns h → h ≢ panics
  Returns-ne-panics h r e = subst Returns e r

  option-panics {ℓ} :
      {A : Type ℓ} (o : Option A) (x : Handled k t) (f : A → Handled k t)
      → Returns x
      → (elim o as (λ _. Handled k t) [ none ↦ x | some a ↦ f a ]) ≡ panics
      → (a : A) × (o ≡ some a) × (f a ≡ panics)
  option-panics none x f h e = absurd (Returns-ne-panics x h e)
  option-panics (some a) x f h e = (a, refl, e)

  checked-panics {ℓ} :
      {A : Type ℓ} (n : Node k t) (o : Outcome A) (f : A → Handled k t)
      → ((a : A) → Returns (f a))
      → checked k t n o f ≡ panics
      → o ≡ panic
  checked-panics n panic f h e = refl
  checked-panics n (err x) f h e = absurd (Returns-ne-panics (returns n [] (some x)) tt e)
  checked-panics n (ok a) f h e = absurd (Returns-ne-panics (f a) (h a) e)

  validate-ne-panic : (h : HandshakePacket k) (dst : Bytes) → validate k h dst ≢ panic
  unfolding validate check_signature append_payload_to
  validate-ne-panic h dst e = ground (arith, Option-cases h.kad_id)

  create_handshake_packet-ne-panic :
      (n : Node k t) (buf : Bytes) → create_handshake_packet k t n buf ≢ panic
  unfolding create_handshake_packet append_payload_to
  create_handshake_packet-ne-panic n buf e = ground (arith, Option-cases n.kad_id)

  handle_handshake-Returns :
      (sent : Bytes → Option Error) (conn : ℕ) (n : Node k t) (body : Bytes)
      → Returns (handle_handshake k t sent conn n body)
  unfolding handle_handshake answer_handshake
  handle_handshake-Returns sent conn n body =
      checked-Returns n _ _ (unmarshal_handshake_packet-ne-panic k body) λ packet.
        checked-Returns n _ _ (validate-ne-panic packet [])
          λ _. checked-Returns _ _ _ (create_handshake_packet-ne-panic _ []) (λ answer. tt)

  module _ (u : BytesUtil) where
    register_request-Returns :
        (sent : Bytes → Option Error) (conn : ℕ) (n : Node k t) (p : Provider k.KadId)
        (packet : ServiceRequestPacket)
        → Returns (register_request k t u sent conn n p packet)
    unfolding register_request dispatch_request
    register_request-Returns sent conn n p packet =
        if-Returns (register_stream packet.stream_id p).1 _ _
          (λ _. option-Returns (first_handler packet.services n.services) _ _ tt (λ _. tt)) tt

    receive_header-Returns :
        (conn : ℕ) (n : Node k t) (p : Provider k.KadId) (packet : ServiceResponsePacket)
        → Returns (receive_header k t u conn n p packet)
    unfolding receive_header
    receive_header-Returns conn n p packet =
        option-Returns (get_stream packet.stream_id p) _ _ tt (λ _. tt)

    receive_data-Returns :
        (conn : ℕ) (n : Node k t) (p : Provider k.KadId) (packet : DataPacket)
        → Returns (receive_data k t u conn n p packet)
    unfolding receive_data receive_payload
    receive_data-Returns conn n p packet =
        option-Returns (get_stream packet.stream_id p) _ _ tt λ s.
          if-Returns (ltb chunk_size (length packet.payload)) _ _ (λ _. tt)
            (if-Returns (length packet.payload == 0) _ _ (λ _. tt)
              (outcome-Returns (write_stream packet.payload s) _ _
                (write_stream-ne-panic packet.payload s) (λ _. tt) (λ _. tt)))

    handle_service_request-panics :
        (sent : Bytes → Option Error) (conn : ℕ) (n : Node k t) (body : Bytes)
        → handle_service_request k t u sent conn n body ≡ panics
        → (length body ≡ 4) × (p : Provider k.KadId) × (find_provider conn n.providers ≡ some p)
    unfolding handle_service_request
    handle_service_request-panics sent conn n body e =
        let (p, found, inner) = option-panics (find_provider conn n.providers) _ _ tt e in
        (
          (unmarshal_service_request_packet-panic_iff u body).0
              (checked-panics n _ _ (register_request-Returns sent conn n p) inner),
          p,
          found,
        )

    handle_service_request-panic :
        (sent : Bytes → Option Error) (conn : ℕ) (n : Node k t) (body : Bytes)
        (p : Provider k.KadId)
        → find_provider conn n.providers ≡ some p
        → length body ≡ 4
        → handle_service_request k t u sent conn n body ≡ panics
    unfolding handle_service_request
    handle_service_request-panic sent conn n body p found size =
        with_provider-found k t conn n _ p found
        ∙ ap (λ o. checked k t n o (register_request k t u sent conn n p))
            ((unmarshal_service_request_packet-panic_iff u body).1 size)

    handle_message-Returns :
        (sent : Bytes → Option Error) (conn : ℕ) (n : Node k t) (opcode : ℕ) (body : Bytes)
        → opcode ≢ op_code_service_request
        → Returns (handle_message k t u sent conn n (opcode ∷ body))
    unfolding handle_message handle_service_response handle_data handle_find_node_request
    handle_message-Returns sent conn n opcode body other =
        if-Returns (opcode == op_code_handshake) _ _
          (λ _. handle_handshake-Returns sent conn n body)
          (if-Returns (opcode == op_code_service_request) _ _
            (λ e. absurd (other ((==_iff opcode op_code_service_request).0 e)))
            (if-Returns (opcode == op_code_service_response) _ _
              (λ _. option-Returns (find_provider conn n.providers) _ _ tt λ p.
                checked-Returns n _ _ (unmarshal_service_response_packet-ne-panic u body)
                  (receive_header-Returns conn n p))
              (if-Returns (opcode == op_code_data) _ _
                (λ _. option-Returns (find_provider conn n.providers) _ _ tt λ p.
                  checked-Returns n _ _ (unmarshal_data_packet-ne-panic u body)
                    (receive_data-Returns conn n p))
                (if-Returns (opcode == op_code_find_node_request) _ _
                  (λ _. option-Returns (t.unmarshal_find_node_request body) _ _ tt (λ _. tt)) tt))))

    -- A message makes its handler panic exactly if it is a service request of four bytes behind its
    -- opcode and the connection has a provider.
    pub handle_message-panics_iff :
        (sent : Bytes → Option Error) (conn : ℕ) (n : Node k t) (message : Bytes)
        → (handle_message k t u sent conn n message ≡ panics) ↔ (
            (body : Bytes) × (message ≡ op_code_service_request ∷ body)
            × (length body ≡ 4)
            × (p : Provider k.KadId) × (find_provider conn n.providers ≡ some p))
    unfolding handle_message
    handle_message-panics_iff sent conn n message = (only message, back)
      where
        only :
            (message : Bytes)
            → handle_message k t u sent conn n message ≡ panics
            → (body : Bytes) × (message ≡ op_code_service_request ∷ body)
              × (length body ≡ 4)
              × (p : Provider k.KadId) × (find_provider conn n.providers ≡ some p)
        only [] e = absurd (Returns-ne-panics (handle_message k t u sent conn n []) tt e)
        only (opcode ∷ body) e = elim (Bool-cases (opcode == op_code_service_request)) [
          | inl hit ↦
              let is : opcode ≡ op_code_service_request =
                (==_iff opcode op_code_service_request).0 hit in
              let (size, p, found) =
                handle_service_request-panics sent conn n body
                  (subst (λ o. handle_message k t u sent conn n (o ∷ body) ≡ panics) is e) in
              (body, ap (λ o. o ∷ body) is, size, p, found)
          | inr miss ↦ absurd (
              Returns-ne-panics (handle_message k t u sent conn n (opcode ∷ body))
                (handle_message-Returns sent conn n opcode body
                  (λ is. ground (arith, ==_iff opcode op_code_service_request)))
                e)
        ]

        back :
            ((body : Bytes) × (message ≡ op_code_service_request ∷ body)
              × (length body ≡ 4)
              × (p : Provider k.KadId) × (find_provider conn n.providers ≡ some p))
            → handle_message k t u sent conn n message ≡ panics
        back (body, is, size, p, found) =
            ap (handle_message k t u sent conn n) is
            ∙ handle_service_request-panic sent conn n body p found size
