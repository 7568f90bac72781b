-- ===== src/Rpc/Push/Messages.antt =====
-- What a `Push` sends.
use carlo.Common.{ℕ, ◌+◌, ◌≡◌, refl, List, [], ◌∷◌, ◌++◌, Option, none, Error, map}
use carlo.Bytesutil.{BytesUtil}
use carlo.Reader.{Bytes}
use carlo.Packet.Request.{ServiceRequestPacket}
use carlo.Rpc.Context.{data_message}
use carlo.Rpc.Push.{Read, push_body, push, request_message}

-- A body that is read in the given parts.
abbrev pub parts : List Bytes → List Read
parts [] = []
parts (p ∷ ps) = record { bytes = p; error = none } ∷ parts ps

-- Every call of `Send` succeeds.
abbrev pub no_errors : ℕ → Option Error
no_errors i = none

module _ (u : BytesUtil) where
  push_body-parts :
      (i id : ℕ) (ps : List Bytes)
      → push_body u no_errors i id (parts ps) ≡ record {
        messages = map (data_message u id) ps ++ data_message u id [] ∷ [];
        error = none;
      }
  unfolding push_body
  push_body-parts i id [] = refl
  push_body-parts i id (p ∷ ps) = rw (push_body-parts (i + 1) id ps)

  -- If no call fails, a `Push` sends the request, each part of the body as a data message, and an
  -- empty data message.
  pub push-parts :
      (packet : ServiceRequestPacket) (ps : List Bytes)
      → push u no_errors packet (parts ps) ≡ record {
        messages =
            request_message u packet
            ∷ (map (data_message u packet.stream_id) ps ++ data_message u packet.stream_id [] ∷ []);
        error = none;
      }
  unfolding push
  push-parts packet ps = rw (push_body-parts 1 packet.stream_id ps)
