-- ===== src/Rpc/Node/Turns.antt =====
-- The branches of `HandleMessage` one by one: what each leaves behind of the providers.
use carlo.Common.{
  ℕ, ◌≡◌, refl, ap, Bool, true, false, [], ◌∷◌, Option, none, some, Error, ◌++◌, other_error, eof,
  insert, nat_key, bytes_key, ◌==◌, ltb, length, if◌then◌else◌, Outcome, ok, err, panic,
}
use carlo.Bytesutil.{BytesUtil}
use carlo.Kademlia.{Kademlia, Routing}
use carlo.Reader.{Bytes}
use carlo.Rpc.Provider.{Stream, Provider, get_stream, register_stream, close_stream_with_error}
use carlo.Rpc.Providers.{Providers, find_provider}
use carlo.Rpc.Node.{
  Node, Handled, panics, returns, checked, with_provider, put_provider, answer_handshake,
  handle_handshake, dispatch_request, handle_service_request, handle_service_response,
  receive_payload, handle_data, handle_find_node_request, handle_message, create_handshake_packet,
  set_header, register_request, receive_header, receive_data, first_handler,
}
use carlo.Packet.Handshake.{unmarshal_handshake_packet, validate}
use carlo.Packet.Request.{ServiceRequestPacket, unmarshal_service_request_packet}
use carlo.Packet.Response.{ServiceResponsePacket, unmarshal_service_response_packet}
use carlo.Packet.Data.{DataPacket, unmarshal_data_packet}
use carlo.Rpc.Context.{
  chunk_size, op_code_handshake, op_code_service_request, op_code_service_response, op_code_data,
  op_code_find_node_request,
}
use carlo.Rpc.Node.Changes.{
  Change, same, put, registered, insert-IsKeyed, close-IsKeyed, register_stream-IsKeyed,
  close-services, register_stream-services,
}

module _ (k : Kademlia) (t : Routing k) where
  -- What holds of the node that a handler leaves behind when it returns.
  abbrev pub After {ℓ} : (Node k t → Type ℓ) → Handled k t → Type ℓ
  After P panics = Unit
  After P (returns n calls e) = P n

  pub After-map {ℓ κ} :
      {P : Node k t → Type ℓ} {Q : Node k t → Type κ}
      → ((n : Node k t) → P n → Q n)
      → (h : Handled k t) → After P h
      → After Q h
  After-map f panics h = tt
  After-map f (returns n calls e) h = f n h

  pub checked-After {ℓ κ} :
      {A : Type ℓ} (P : Node k t → Type κ) (n : Node k t) (o : Outcome A) (f : A → Handled k t)
      → P n
      → ((a : A) → o ≡ ok a → After P (f a))
      → After P (checked k t n o f)
  checked-After P n panic f h g = tt
  checked-After P n (err e) f h g = h
  checked-After P n (ok a) f h g = g a refl

  pub option-After {ℓ κ} :
      {A : Type ℓ} (P : Node k t → Type κ) (o : Option A) (x : Handled k t) (f : A → Handled k t)
      → (o ≡ none → After P x)
      → ((a : A) → o ≡ some a → After P (f a))
      → After P (elim o [ none ↦ x | some a ↦ f a ])
  option-After P none x f h g = h refl
  option-After P (some a) x f h g = g a refl

  pub with_provider-After {κ} :
      (P : Node k t → Type κ) (conn : ℕ) (n : Node k t) (f : Provider k.KadId → Handled k t)
      → P n
      → ((p : Provider k.KadId) → find_provider conn n.providers ≡ some p → After P (f p))
      → After P (with_provider k t conn n f)
  with_provider-After P conn n f h g =
      option-After P (find_provider conn n.providers) _ f (λ _. h) g

  -- The providers of the node have changed from `ps` as a message on `conn` may change them.
  abbrev pub Changed : ℕ → Providers k.KadId → Node k t → Type 0
  Changed conn ps m = Change conn ps m.providers

  pub with_provider-found :
      (conn : ℕ) (n : Node k t) (f : Provider k.KadId → Handled k t) (p : Provider k.KadId)
      → find_provider conn n.providers ≡ some p
      → with_provider k t conn n f ≡ f p
  with_provider-found conn n f p e =
      ap
        (λ o. elim o as (λ _. Handled k t) [
          | none ↦ returns n [] (some other_error)
          | some q ↦ f q
        ])
        e

  pub checked-ok {ℓ} :
      {A : Type ℓ} (n : Node k t) (f : A → Handled k t) (o : Outcome A) (a : A)
      → o ≡ ok a
      → checked k t n o f ≡ f a
  checked-ok n f o a e = ap (λ o. checked k t n o f) e

  if-After {κ} :
      (P : Node k t → Type κ) (b : Bool) (x y : Handled k t)
      → (b ≡ true → After P x)
      → (b ≡ false → After P y)
      → After P (if b then x else y)
  if-After P true x y h g = h refl
  if-After P false x y h g = g refl

  handle_handshake-Change :
      (sent : Bytes → Option Error) (conn : ℕ) (n : Node k t) (body : Bytes)
      → After (Changed conn n.providers) (handle_handshake k t sent conn n body)
  unfolding handle_handshake answer_handshake
  handle_handshake-Change sent conn n body =
      checked-After (Changed conn n.providers) n (unmarshal_handshake_packet k body) _ (same refl)
        λ packet _.
          checked-After (Changed conn n.providers) n (validate k packet []) _ (same refl) λ _ _.
            checked-After (Changed conn n.providers) _ (create_handshake_packet k t _ []) _
              (registered packet.kad_id packet.services refl)
              (λ answer _. registered packet.kad_id packet.services refl)

  module _ (u : BytesUtil) where
    dispatch_request-Change :
        (sent : Bytes → Option Error) (conn : ℕ) (ps : Providers k.KadId) (n : Node k t)
        (packet : ServiceRequestPacket)
        → Change conn ps n.providers
        → After (Changed conn ps) (dispatch_request k t u sent n packet)
    unfolding dispatch_request
    dispatch_request-Change sent conn ps n packet c =
        option-After (Changed conn ps) (first_handler packet.services n.services) _ _ (λ _. c)
          (λ _ _. c)

    register_request-Change :
        (sent : Bytes → Option Error) (conn : ℕ) (n : Node k t) (p : Provider k.KadId)
        (packet : ServiceRequestPacket)
        → find_provider conn n.providers ≡ some p
        → After (Changed conn n.providers) (register_request k t u sent conn n p packet)
    unfolding register_request
    register_request-Change sent conn n p packet e =
        let change : Change conn n.providers
            (put_provider k t conn (register_stream packet.stream_id p).2 n).providers =
          put p _ e (register_stream-services p packet.stream_id)
            (register_stream-IsKeyed p packet.stream_id) refl in
        if-After (Changed conn n.providers) (register_stream packet.stream_id p).1 _ _
          (λ _. dispatch_request-Change sent conn n.providers _ packet change) (λ _. change)

    receive_header-Change :
        (conn : ℕ) (n : Node k t) (p : Provider k.KadId) (packet : ServiceResponsePacket)
        → find_provider conn n.providers ≡ some p
        → After (Changed conn n.providers) (receive_header k t u conn n p packet)
    unfolding receive_header
    receive_header-Change conn n p packet e =
        option-After (Changed conn n.providers) (get_stream packet.stream_id p) _ _ (λ _. same refl)
          λ stream hit.
            put p _ e refl
              (λ keyed.
                insert-IsKeyed p packet.stream_id (set_header packet stream)
                  (keyed packet.stream_id stream hit) keyed)
              refl

    receive_payload-Change :
        (conn : ℕ) (n : Node k t) (p : Provider k.KadId) (id : ℕ) (stream : Stream)
        (payload : Bytes)
        → find_provider conn n.providers ≡ some p
        → get_stream id p ≡ some stream
        → After (Changed conn n.providers) (receive_payload k t u conn n p id stream payload)
    unfolding receive_payload
    receive_payload-Change conn n p id stream payload e hit =
        if-After (Changed conn n.providers) (ltb chunk_size (length payload)) _ _
          (λ _. closed other_error)
          λ _.
            if-After (Changed conn n.providers) (length payload == 0) _ _ (λ _. closed eof)
              λ _. go (stream.closed)
      where
        closed :
            (x : Error)
            → Changed conn n.providers
                (put_provider k t conn (close_stream_with_error stream x p).1 n)
        closed x =
            put p (close_stream_with_error stream x p).1 e (close-services p stream x)
              (close-IsKeyed p stream x) refl

        go :
            (o : Option Error)
            → After
                (Changed conn n.providers)
                (elim (elim o as (λ x. Outcome Stream) [
                  | none ↦ ok (record stream { written = stream.written ++ payload ∷ [] })
                  | some x ↦ err other_error
                ]) [
                  | ok s ↦
                      returns
                        (put_provider k t conn (record p { streams = insert id s p.streams }) n)
                        []
                        none
                  | err x ↦
                      returns
                        (put_provider k t conn (close_stream_with_error stream x p).1 n)
                        []
                        (some x)
                  | panic ↦ panics
                ])
        go none =
            put p _ e refl
              (λ keyed.
                insert-IsKeyed p id (record stream { written = stream.written ++ payload ∷ [] })
                  (keyed id stream hit) keyed)
              refl
        go (some x) = closed other_error

    receive_data-Change :
        (conn : ℕ) (n : Node k t) (p : Provider k.KadId) (packet : DataPacket)
        → find_provider conn n.providers ≡ some p
        → After (Changed conn n.providers) (receive_data k t u conn n p packet)
    unfolding receive_data
    receive_data-Change conn n p packet e =
        option-After (Changed conn n.providers) (get_stream packet.stream_id p) _ _ (λ _. same refl)
          λ stream hit. receive_payload-Change conn n p packet.stream_id stream packet.payload e hit

    handle_find_node_request-Change :
        (sent : Bytes → Option Error) (conn : ℕ) (n : Node k t) (body : Bytes)
        → After (Changed conn n.providers) (handle_find_node_request k t u sent n body)
    unfolding handle_find_node_request
    handle_find_node_request-Change sent conn n body =
        option-After (Changed conn n.providers) (t.unmarshal_find_node_request body) _ _
          (λ _. same refl) (λ _ _. same refl)

    -- Every message changes the providers in one of the three ways.
    pub handle_message-Change :
        (sent : Bytes → Option Error) (conn : ℕ) (n : Node k t) (message : Bytes)
        → After (Changed conn n.providers) (handle_message k t u sent conn n message)
    unfolding handle_message handle_service_request handle_service_response handle_data
    handle_message-Change sent conn n [] = same refl
    handle_message-Change sent conn n (opcode ∷ body) =
        if-After P (opcode == op_code_handshake) _ _ (λ _. handle_handshake-Change sent conn n body)
          λ _.
            if-After P (opcode == op_code_service_request) _ _
              (λ _. with_provider-After P conn n _ (same refl) λ p e.
                checked-After P n (unmarshal_service_request_packet u body) _ (same refl)
                  λ packet _. register_request-Change sent conn n p packet e)
              λ _.
                if-After P (opcode == op_code_service_response) _ _
                  (λ _. with_provider-After P conn n _ (same refl) λ p e.
                    checked-After P n (unmarshal_service_response_packet u body) _ (same refl)
                      λ packet _. receive_header-Change conn n p packet e)
                  λ _.
                    if-After P (opcode == op_code_data) _ _
                      (λ _. with_provider-After P conn n _ (same refl) λ p e.
                        checked-After P n (unmarshal_data_packet u body) _ (same refl)
                          λ packet _. receive_data-Change conn n p packet e)
                      λ _.
                        if-After P (opcode == op_code_find_node_request) _ _
                          (λ _. handle_find_node_request-Change sent conn n body) (λ _. same refl)
      where
        P : Node k t → Type 0
        P = Changed conn n.providers
