-- ===== src/Transmit/Session/Agreement.antt =====
-- `DoClient` at one end and `DoServer` at the other.
use carlo.Common.{◌≡◌, sym, ap, ◌∙◌, [], ◌∷◌, ◌++◌, Option, none, some, ok, length, ==_refl}
use carlo.Reader.{Bytes}
use carlo.Transmit.Sized
use carlo.Transmit.Session.{Aead}
use carlo.Transmit.Session.Frames.{read_full-append}
use carlo.Transmit.Session.Keys.{
  Crypto, IsKeyExchange, Session, new_session, generate_ephemeral_keys, write, read, establish,
  establish_with, client_exchange, server_answer, do_client, do_server,
}

module _ (c : Crypto) (IsPair : Bytes → Bytes → Type 0) where
  -- An end: its key pair, and the public key that it sends.
  pub record End : Type 0 where
    pub public : Bytes
    pub private : Bytes
    pub point : Bytes
    pub is_pair : IsPair public private
    pub to_x : c.ed_public_to_x public ≡ some point

  abbrev pub generated : End → Option (Bytes × Bytes)
  generated e = some (e.public, e.private)

  abbrev keys_of : End → Bytes × Bytes
  keys_of e = (e.point, c.ed_private_to_x e.private)

  generate-End : (e : End) → generate_ephemeral_keys c (generated e) ≡ ok (keys_of e)
  unfolding generate_ephemeral_keys
  generate-End e = rw e.to_x

  write-whole : (buf : Bytes) → write c (length buf, none) buf ≡ ok tt
  unfolding write Sized.write
  write-whole buf = rw (==_refl (length buf))

  read-point :
      (law : IsKeyExchange c IsPair) (e : End) (rest : Bytes)
      → read c new_session (e.point ++ rest)
        ≡ ok (record new_session { their_pub = some e.point }, rest)
  unfolding read Sized.read
  read-point law e rest =
      rw (
        read_full-append e.point rest c.point_size (sym (law.length-point e.public e.point e.to_x)))

  -- The session of an end with the peer's point and the secret of the two.
  module _ (secret : Bytes) (block : c.Block) (suite : Aead)
      (is_block : c.new_cipher (c.sum256 secret) ≡ some block)
      (is_suite : c.new_gcm block ≡ some suite) where
    abbrev pub session : Bytes → Session
    session their_pub = record {
      suite = some suite;
      their_pub = some their_pub;
      shared_key = c.sum256 secret;
    }

    establish_with-secret :
        (our_priv their_pub rest : Bytes)
        → c.x25519 our_priv their_pub ≡ some secret
        → establish_with c our_priv (record new_session { their_pub = some their_pub }, rest)
          ≡ ok (session their_pub, rest)
    unfolding establish
    establish_with-secret our_priv their_pub rest e = rw (e, is_block, is_suite)

    -- Each end sends its public key, the server after it has read the client's, and both end up with the
    -- same suite and key. Each reads what the other sends; the two keys have a secret from which a suite
    -- is made, and the connection takes all that is written.
    pub do_client-do_server :
        (law : IsKeyExchange c IsPair) (client server : End) (from_server from_client : Bytes)
        → c.x25519 (c.ed_private_to_x client.private) server.point ≡ some secret
        → (do_client c (generated client) (length client.point, none) (server.point ++ from_server)
            ≡ record { sent = client.point ∷ []; result = ok (session server.point, from_server) })
          × (do_server c
                (generated server)
                (length server.point, none)
                (client.point ++ from_client)
              ≡ record {
                sent = server.point ∷ [];
                result = ok (session client.point, from_client);
              })
    unfolding do_client do_server client_exchange server_answer
    do_client-do_server law client server from_server from_client e = (
      rw (generate-End client, write-whole client.point, read-point law server from_server)
          (ap (λ r. record { sent = client.point ∷ []; result = r })
            (establish_with-secret (c.ed_private_to_x client.private) server.point from_server e)),
      rw
          (
            generate-End server,
            read-point law client from_client,
            server_answer,
            write-whole server.point,
          )
          (ap (λ r. record { sent = server.point ∷ []; result = r })
            (establish_with-secret (c.ed_private_to_x server.private) client.point from_client (
              sym (
                law.agree client.public client.private server.public server.private client.point
                  server.point client.is_pair server.is_pair client.to_x server.to_x)
              ∙ e))),
    )
