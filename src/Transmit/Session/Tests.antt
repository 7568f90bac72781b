-- ===== src/Transmit/Session/Tests.antt =====
-- Sessions with a small suite at concrete values.
use carlo.Common.{
  ℕ, ◌*◌, ◌≡◌, refl, ap, ◌∙◌, List, [], ◌∷◌, ◌++◌, Option, none, some, other_error, ok, err, length,
  bytes_eq, bytes_eq_iff, Bool-cases, inl, inr, arith, too_large,
}
use carlo.Bytesutil.Instance.{big_endian, big_endian-IsBigEndian}
use carlo.Reader.{Bytes}
use carlo.Transmit.Sized.{read_sized, write_sized}
use carlo.Transmit.Session.{Aead, SessionConn, new_session_conn, nonce, write, read}
use carlo.Transmit.Session.Instance.{plain_suite, plain_suite-IsAead, take-front}
use carlo.Transmit.Session.Frames.{wire}
use carlo.Transmit.Session.Frames
use carlo.Transmit.Session.Channel.{Call, send, receive, run, run_queue, new_ends}
use carlo.Transmit.Session.Channel
use carlo.Transmit.Session.Nonces.{IsAuthentic, after_writes}
use carlo.Transmit.Session.Nonces
use carlo.Transmit.Session.Keys.{Crypto, IsKeyExchange, do_client, do_server}
use carlo.Transmit.Session.Agreement.{End, generated, session}
use carlo.Transmit.Session.Agreement

plain_suite-IsAuthentic : IsAuthentic plain_suite
plain_suite-IsAuthentic = record {
  open_other = λ nonce other m size size_other differ.
      rw (take-front nonce m size) (elim (Bool-cases (bytes_eq nonce other)) [
        | inl same ↦ absurd (differ ((bytes_eq_iff nonce other).0 same))
        | inr other_nonce ↦ rw other_nonce
      ]);
}

read_sized-write_sized_example :
    read_sized big_endian 2 (wire (write_sized none none (1 ∷ 2 ∷ 3 ∷ [])).0 ++ 9 ∷ [])
    ≡ err too_large
read_sized-write_sized_example =
    Frames.read_sized-write_sized big_endian big_endian-IsBigEndian 2 (1 ∷ 2 ∷ 3 ∷ []) (9 ∷ [])
      (omega arith)

-- A message is sent, two are asked for, and another is sent and received.
abbrev calls : List Call
calls = send (1 ∷ []) ∷ receive ∷ receive ∷ send (2 ∷ 3 ∷ []) ∷ receive ∷ []

run-run_queue_example : run big_endian plain_suite 8 64 new_ends calls ≡ run_queue [] calls
run-run_queue_example =
    Channel.run-run_queue big_endian plain_suite 8 64 big_endian-IsBigEndian plain_suite-IsAead
      calls (omega arith)

write_repeats_example :
    (write plain_suite none none
      (7 ∷ [])
      (after_writes plain_suite ([] ∷ []) new_session_conn)).buffers
    ≡ (write plain_suite none none
        (7 ∷ [])
        (after_writes plain_suite ((1 ∷ []) ∷ []) new_session_conn)).buffers
write_repeats_example = Nonces.write_repeats plain_suite ([] ∷ []) ((1 ∷ []) ∷ []) (7 ∷ []) refl

-- The first frame comes to a reader that has read it.
abbrev reader : SessionConn
reader = record { wn = 0; rn = 1 }

abbrev writer : SessionConn
writer = record { wn = 0; rn = 0 }

read-other_frame_example :
    read plain_suite big_endian 8 64 reader
      (wire (write plain_suite none none (7 ∷ []) writer).buffers ++ [])
    ≡ (err other_error, record { wn = 0; rn = 2 })
read-other_frame_example =
    Nonces.read-other_frame plain_suite big_endian 8 64 writer reader (7 ∷ []) []
      big_endian-IsBigEndian plain_suite-IsAead plain_suite-IsAuthentic (omega arith) (omega arith)
      (omega arith) (omega arith) (omega arith)

-- Keys of one byte; the secret is the product.
abbrev product : Bytes → Bytes → Option Bytes
product (s ∷ []) (y ∷ []) = some (s * y ∷ [])
product _ _ = none

abbrev toy_point : Bytes → Option Bytes
toy_point (p ∷ []) = some (p ∷ [])
toy_point _ = none

abbrev products : Crypto
products = record {
  Block = Bytes;
  point_size = 1;
  ed_public_to_x = toy_point;
  ed_private_to_x = λ s. s;
  x25519 = product;
  sum256 = λ b. b;
  new_cipher = λ b. some b;
  new_gcm = λ b. some plain_suite;
}

abbrev IsSame : Bytes → Bytes → Type 0
IsSame p s = (n : ℕ) × (p ≡ n ∷ []) × (s ≡ n ∷ [])

toy_point_lem : (p x : Bytes) → toy_point p ≡ some x → (x ≡ p) × (length x ≡ 1)
toy_point_lem [] x e = cc
toy_point_lem (b ∷ []) x e = let same : x ≡ b ∷ [] = cc e in (same, rw same)
toy_point_lem (b ∷ d ∷ p) x e = cc

products-agree :
    (p s q r x y : Bytes)
    → IsSame p s
    → IsSame q r
    → toy_point p ≡ some x
    → toy_point q ≡ some y
    → product s y ≡ product r x
products-agree p s q r x y (n, is_p, is_s) (m, is_q, is_r) e f =
    let is_x : x ≡ n ∷ [] = (toy_point_lem p x e).0 ∙ is_p in
    let is_y : y ≡ m ∷ [] = (toy_point_lem q y f).0 ∙ is_q in
    rw (is_x, is_y, is_s, is_r) (ap (λ k. some (k ∷ [])) (omega arith))

products-IsKeyExchange : IsKeyExchange products IsSame
products-IsKeyExchange = record {
  length-point = λ p x e. (toy_point_lem p x e).1;
  agree = products-agree;
}

abbrev client : End products IsSame
client = record {
  public = 2 ∷ [];
  private = 2 ∷ [];
  point = 2 ∷ [];
  is_pair = (2, refl, refl);
  to_x = refl;
}

abbrev server : End products IsSame
server = record {
  public = 3 ∷ [];
  private = 3 ∷ [];
  point = 3 ∷ [];
  is_pair = (3, refl, refl);
  to_x = refl;
}

do_client-do_server_example :
    (do_client products (some (2 ∷ [], 2 ∷ [])) (1, none) (3 ∷ 8 ∷ []) ≡ record {
      sent = (2 ∷ []) ∷ [];
      result =
          ok (session products IsSame (6 ∷ []) (6 ∷ []) plain_suite refl refl (3 ∷ []), 8 ∷ []);
    })
    × (do_server products (some (3 ∷ [], 3 ∷ [])) (1, none) (2 ∷ []) ≡ record {
      sent = (3 ∷ []) ∷ [];
      result = ok (session products IsSame (6 ∷ []) (6 ∷ []) plain_suite refl refl (2 ∷ []), []);
    })
do_client-do_server_example =
    Agreement.do_client-do_server products IsSame (6 ∷ []) (6 ∷ []) plain_suite refl refl
      products-IsKeyExchange client server (8 ∷ []) [] refl

-- A suite with nonces of four bytes repeats them, and its messages are not read.
abbrev short_suite : Aead
short_suite = record plain_suite { nonce_size = 4 }

short_nonces : nonce short_suite 0 ≡ nonce short_suite 1
unfolding nonce
short_nonces = refl
