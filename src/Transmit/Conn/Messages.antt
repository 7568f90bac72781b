-- ===== src/Transmit/Conn/Messages.antt =====
-- Messages on a connection: what is read of a frame that the other end wrote.
use carlo.Common.{
  ℕ, ◌<◌, ◌≡◌, ◌≢◌, ◌↔◌, refl, ◌∙◌, [], ◌∷◌, none, some, ok, err, unexpected_eof, lookup, delete,
  nat_key, arith, length, lookup-delete,
}
use carlo.Common.Words.{IsU32, of_be32-be32}
use carlo.Bytesutil.{BytesUtil, IsBigEndian}
use carlo.Reader.{Bytes}
use carlo.Transmit.Conn.{Conn, frame, receive, response, message, classify}

module _ (u : BytesUtil) (big : IsBigEndian u) (conn : Conn) (seq : ℕ) (payload : Bytes)
    (fits : IsU32 seq) where
  -- A frame is read as the number and the payload that it was made of.
  pub receive-frame :
      receive u (frame seq payload) conn
      ≡ ok
          (classify seq (lookup seq conn.reqs) payload, record conn { reqs = delete seq conn.reqs })
  unfolding receive frame
  receive-frame = rw (big.read32 _ _ _ _ payload, of_be32-be32 seq fits)

  -- A frame with the number of a pending request, which is not 0, goes to that request with the
  -- payload that was sent; the request is pending no more, and the others still are.
  pub receive-frame-response :
      (pr : ℕ)
      → lookup seq conn.reqs ≡ some pr
      → seq ≢ 0
      → (conn' : Conn) × (receive u (frame seq payload) conn ≡ ok (response pr payload, conn'))
        × (lookup seq conn'.reqs ≡ none)
        × ((j : ℕ) → j ≢ seq → lookup j conn'.reqs ≡ lookup j conn.reqs)
  receive-frame-response pr e h = (
    record conn { reqs = delete seq conn.reqs },
    receive-frame ∙ ground (arith, e),
    ground (arith, lookup-delete seq seq conn.reqs),
    λ j other. ground (arith, lookup-delete seq j conn.reqs),
  )

  -- A frame with a number of no pending request is a message for the handler, with that number and
  -- payload; the pending requests stay.
  pub receive-frame_message :
      lookup seq conn.reqs ≡ none
      → (conn' : Conn) × (receive u (frame seq payload) conn ≡ ok (message seq payload, conn'))
        × ((j : ℕ) → lookup j conn'.reqs ≡ lookup j conn.reqs)
  receive-frame_message e = (
    record conn { reqs = delete seq conn.reqs },
    receive-frame ∙ ground (arith, e),
    λ j. ground (arith, lookup-delete seq j conn.reqs),
  )

-- A request that was numbered 0 is lost by the first frame with that number: the payload goes to the
-- handler, and the request, pending no more, has got no response.
pub receive-frame_zero :
    (u : BytesUtil) (big : IsBigEndian u) (conn : Conn) (payload : Bytes) (pr : ℕ)
    → lookup 0 conn.reqs ≡ some pr
    → (conn' : Conn) × (receive u (frame 0 payload) conn ≡ ok (message 0 payload, conn'))
      × (lookup 0 conn'.reqs ≡ none)
receive-frame_zero u big conn payload pr e = (
  record conn { reqs = delete 0 conn.reqs },
  receive-frame u big conn 0 payload (omega arith) ∙ ground (arith, e),
  ground (arith, lookup-delete 0 0 conn.reqs),
)

-- The reader ends with unexpected EOF exactly on the inputs of less than four bytes.
pub receive-eof_iff :
    (u : BytesUtil) (buf : Bytes) (conn : Conn)
    → (receive u buf conn ≡ err unexpected_eof) ↔ (length buf < 4)
unfolding receive
receive-eof_iff u [] conn = ((λ _. omega arith), (λ _. refl))
receive-eof_iff u (a ∷ []) conn = ((λ _. omega arith), (λ _. refl))
receive-eof_iff u (a ∷ b ∷ []) conn = ((λ _. omega arith), (λ _. refl))
receive-eof_iff u (a ∷ b ∷ c ∷ []) conn = ((λ _. omega arith), (λ _. refl))
receive-eof_iff u (a ∷ b ∷ c ∷ d ∷ payload) conn = ((λ e. cc), (λ h. absurd (omega arith)))
