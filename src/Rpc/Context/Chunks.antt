-- ===== src/Rpc/Context/Chunks.antt =====
-- What the messages of `Write` carry.
use carlo.Common.{
  ℕ, zero, suc, ◌+◌, ◌%◌, ◌^◌, ◌≤◌, ◌<◌, ◌≡◌, refl, sym, ap, ◌∙◌, true, List, [], ◌∷◌, ◌++◌, Option,
  none, some, Error, length, take, drop, if◌then◌else◌, arith, length-drop, take-append-drop, All,
  ok, Bool-cases, inl, inr, append-nil, le→ltb, map,
}
use carlo.Common.Words.{IsU32}
use carlo.Bytesutil.{BytesUtil, IsBigEndian}
use carlo.Reader.{Bytes}
use carlo.Packet.Data.{DataPacket}
use carlo.Packet.Data
use carlo.Rpc.Context.{
  chunk_size, op_code_data, Context, Sent, then_send, data_message, header_message, send_chunks,
  write,
}

-- The chunks are not empty, and no longer than the chunk size.
abbrev pub IsChunk : Bytes → Type 0
IsChunk p = (0 < length p) × (length p ≤ chunk_size)

abbrev pub concat : List Bytes → Bytes
concat [] = []
concat (p ∷ ps) = p ++ concat ps

abbrev pub chunks : ℕ → Bytes → List Bytes
chunks zero bytes = []
chunks (suc fuel) [] = []
chunks (suc fuel) (b ∷ bytes) =
    take chunk_size (b ∷ bytes) ∷ chunks fuel (drop chunk_size (b ∷ bytes))

length-take-le : {A : Type 0} (n : ℕ) (xs : List A) → length (take n xs) ≤ n
length-take-le zero xs = omega arith
length-take-le (suc n) [] = omega arith
length-take-le (suc n) (x ∷ xs) = omega (arith, length-take-le n xs)

chunks-IsChunk : (fuel : ℕ) (bytes : Bytes) → All IsChunk (chunks fuel bytes)
chunks-IsChunk zero bytes = tt
chunks-IsChunk (suc fuel) [] = tt
chunks-IsChunk (suc fuel) (b ∷ bytes) = (
  (omega arith, length-take-le chunk_size (b ∷ bytes)),
  chunks-IsChunk fuel (drop chunk_size (b ∷ bytes)),
)

concat-chunks :
    (fuel : ℕ) (bytes : Bytes) → length bytes ≤ fuel → concat (chunks fuel bytes) ≡ bytes
concat-chunks zero [] h = refl
concat-chunks zero (b ∷ bytes) h = absurd (omega arith)
concat-chunks (suc fuel) [] h = refl
concat-chunks (suc fuel) (b ∷ bytes) h =
    rw
      (concat-chunks fuel (drop chunk_size (b ∷ bytes))
        (omega (arith, length-drop chunk_size (b ∷ bytes))))
      (take-append-drop chunk_size (b ∷ bytes))

-- What was sent is a front of what was to be sent, all of it if no call failed.
pub record IsFront (s : Sent) (messages : List Bytes) : Type 0 where
  pub lost : List Bytes
  pub front : s.messages ++ lost ≡ messages
  pub whole : s.error ≡ none → lost ≡ []

then_send-IsFront :
    (e : Option Error) (m : Bytes) (s : Sent) (ms : List Bytes)
    → IsFront s ms
    → IsFront (then_send e m s) (m ∷ ms)
then_send-IsFront none m s ms f = record {
  lost = f.lost;
  front = ap (◌∷◌ m) f.front;
  whole = f.whole;
}
then_send-IsFront (some e) m s ms f = record { lost = m ∷ ms; front = refl; whole = λ h. cc }

module _ (u : BytesUtil) where
  send_chunks-IsFront :
      (fuel id : ℕ) (send : ℕ → Option Error) (i : ℕ) (bytes : Bytes)
      → IsFront (send_chunks u fuel id send i bytes) (map (data_message u id) (chunks fuel bytes))
  unfolding send_chunks
  send_chunks-IsFront zero id send i bytes = record { lost = []; front = refl; whole = λ _. refl }
  send_chunks-IsFront (suc fuel) id send i [] = record {
    lost = [];
    front = refl;
    whole = λ _. refl;
  }
  send_chunks-IsFront (suc fuel) id send i (b ∷ bytes) =
      then_send-IsFront (send i) _ _ _
        (send_chunks-IsFront fuel id send (i + 1) (drop chunk_size (b ∷ bytes)))

  -- The messages that `Write` is to send.
  abbrev pub planned : Context → List Bytes → List Bytes
  planned c ps =
      if c.written
      then map (data_message u c.stream_id) ps
      else header_message u c ∷ map (data_message u c.stream_id) ps

  planned-IsFront :
      (c : Context) (send : ℕ → Option Error) (b : ℕ) (bytes : Bytes)
      → IsFront (write u send (b ∷ bytes) c).1 (planned c (chunks (length (b ∷ bytes)) (b ∷ bytes)))
  unfolding write
  planned-IsFront c send b bytes = elim (Bool-cases c.written) [
    | inl w ↦
        rw (w, write) (send_chunks-IsFront (length (b ∷ bytes)) c.stream_id send 0 (b ∷ bytes))
    | inr w ↦
        rw (w, write)
          (then_send-IsFront (send 0) _ _ _
            (send_chunks-IsFront (length (b ∷ bytes)) c.stream_id send 1 (b ∷ bytes)))
  ]

  -- Data that is not empty is cut into chunks of 1 to 2048 bytes that make it up in order. The
  -- messages sent are a front of one data message for each chunk, behind a response header on the
  -- first `Write` of the context only, and they are all of these if no call of `Send` fails.
  pub write_lem :
      (c : Context) (send : ℕ → Option Error) (b : ℕ) (bytes : Bytes)
      → (ps : List Bytes) × (concat ps ≡ b ∷ bytes)
        × All IsChunk ps
        × IsFront (write u send (b ∷ bytes) c).1 (planned c ps)
        × ((write u send (b ∷ bytes) c).0 ≡ record c { written = true })
  unfolding write
  write_lem c send b bytes = (
    chunks (length (b ∷ bytes)) (b ∷ bytes),
    concat-chunks (length (b ∷ bytes)) (b ∷ bytes) (omega arith),
    chunks-IsChunk (length (b ∷ bytes)) (b ∷ bytes),
    planned-IsFront c send b bytes,
    refl,
  )

module _ (u : BytesUtil) (big : IsBigEndian u) where
  -- Behind its opcode, the data message of a chunk is read back as the chunk on its stream.
  pub unmarshal-data_message :
      (id : ℕ) (p : Bytes)
      → IsU32 id
      → IsChunk p
      → Data.unmarshal_data_packet u (drop 1 (data_message u id p))
        ≡ ok (record { stream_id = id; payload = p })
  unmarshal-data_message id p fits chunk =
      let packet : DataPacket = record { stream_id = id; payload = p } in
      let behind : drop 1 (data_message u id p) ≡ Data.append_to u packet [] =
        ap (drop 1) (Data.append_to_lem u big packet (op_code_data ∷ []))
        ∙ sym (Data.append_to_lem u big packet []) in
      rw (behind, ← append-nil (Data.append_to u packet []))
        (Data.unmarshal_data_packet-append_to u big packet [] fits (omega arith)
          ∙ rw (le→ltb ((length p + 0) % 2 ^ 16) (length p) (omega arith)))
