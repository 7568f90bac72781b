-- ===== src/Transmit/Session/Keys.antt =====
-- `Session` of streaming_transmit/session.go: the exchange of keys at the start of a connection. The
-- cryptography is a parameter. What is read from is the list of the bytes that are to come.
use carlo.Common.{
  ℕ, ◌≡◌, List, [], ◌∷◌, Option, none, some, Error, other_error, Outcome, ok, err, panic, ◌>>=◌,
  length,
}
use carlo.Reader.{Bytes}
use carlo.Transmit.Sized
use carlo.Transmit.Sized.{read_full}
use carlo.Transmit.Session.{Aead}

-- What the code calls of ed25519, x25519, blake2b and aes, with `none` for an error.
pub record Crypto : Type 1 where
  pub Block : Type 0
  pub point_size : ℕ
  pub ed_public_to_x : Bytes → Option Bytes
  pub ed_private_to_x : Bytes → Bytes
  pub x25519 : Bytes → Bytes → Option Bytes
  pub sum256 : Bytes → Bytes
  pub new_cipher : Bytes → Option Block
  pub new_gcm : Block → Option Aead

-- Diffie-Hellman: two key pairs give one secret, whichever of the private keys is used. `IsPair` holds
-- of the public and private keys that `GenerateKey` returns.
pub record IsKeyExchange (c : Crypto) (IsPair : Bytes → Bytes → Type 0) : Type 0 where
  pub length-point : (p x : Bytes) → c.ed_public_to_x p ≡ some x → length x ≡ c.point_size
  pub agree :
      (p s q r x y : Bytes)
      → IsPair p s
      → IsPair q r
      → c.ed_public_to_x p ≡ some x
      → c.ed_public_to_x q ≡ some y
      → c.x25519 (c.ed_private_to_x s) y ≡ c.x25519 (c.ed_private_to_x r) x

-- `suite` is a nil interface before the session is established.
pub record Session : Type 0 where
  pub suite : Option Aead
  pub their_pub : Option Bytes
  pub shared_key : Bytes

abbrev pub new_session : Session
new_session = record { suite = none; their_pub = none; shared_key = [] }

-- An error, or the value.
abbrev pub or_error {ℓ} : {A : Type ℓ} → Option A → Outcome A
or_error none = err other_error
or_error (some x) = ok x

-- `err != nil` of a call that returns an error only.
abbrev pub no_error : Option Error → Outcome (Unit {0})
no_error none = ok tt
no_error (some e) = err e

-- The buffers that were written and what the function returns: the session and the bytes left.
pub record Exchange : Type 0 where
  pub sent : List Bytes
  pub result : Outcome (Session × Bytes)

module _ (c : Crypto) where
  -- `generated` is the answer of `ed25519.GenerateKey`: the public and the private key.
  unfoldable pub generate_ephemeral_keys : Option (Bytes × Bytes) → Outcome (Bytes × Bytes)
  generate_ephemeral_keys generated = or_error generated >>= λ keys.
      or_error (c.ed_public_to_x keys.0) >>= λ our_pub. ok (our_pub, c.ed_private_to_x keys.1)

  unfoldable pub write : ℕ × Option Error → Bytes → Outcome (Unit {0})
  write answer our_pub = no_error (Sized.write answer our_pub)

  unfoldable pub read : Session → Bytes → Outcome (Session × Bytes)
  read s src = Sized.read c.point_size src >>= λ r. ok (record s { their_pub = some r.0 }, r.1)

  unfoldable pub establish : Bytes → Session → Outcome Session
  establish our_priv s = or_error s.their_pub >>= λ their_pub.
      or_error (c.x25519 our_priv their_pub) >>= λ shared.
      or_error (c.new_cipher (c.sum256 shared)) >>= λ block. or_error (c.new_gcm block) >>= λ suite.
      ok (record s { shared_key = c.sum256 shared; suite = some suite })

  abbrev pub establish_with : Bytes → Session × Bytes → Outcome (Session × Bytes)
  establish_with our_priv r = establish our_priv r.0 >>= λ s. ok (s, r.1)

  -- The part of `DoClient` after the keys: write, then read, then establish.
  unfoldable pub client_exchange : ℕ × Option Error → Bytes → Bytes × Bytes → Exchange
  client_exchange answer src keys = record {
    sent = keys.0 ∷ [];
    result = write answer keys.0 >>= λ _. read new_session src >>= establish_with keys.1;
  }

  -- The part of `DoServer` after the peer's key was read: write, then establish.
  unfoldable pub server_answer : ℕ × Option Error → Bytes × Bytes → Session × Bytes → Exchange
  server_answer answer keys r = record {
    sent = keys.0 ∷ [];
    result = write answer keys.0 >>= λ _. establish_with keys.1 r;
  }

  -- `if err != nil { return err }` with nothing written.
  abbrev pub then_exchange {ℓ} : {A : Type ℓ} → Outcome A → (A → Exchange) → Exchange
  then_exchange panic f = record { sent = []; result = panic }
  then_exchange (err e) f = record { sent = []; result = err e }
  then_exchange (ok x) f = f x

  -- `answer` is what the connection's `Write` returns, `src` what the peer sends.
  unfoldable pub do_client : Option (Bytes × Bytes) → ℕ × Option Error → Bytes → Exchange
  do_client generated answer src =
      then_exchange (generate_ephemeral_keys generated) (client_exchange answer src)

  unfoldable pub do_server : Option (Bytes × Bytes) → ℕ × Option Error → Bytes → Exchange
  do_server generated answer src =
      then_exchange (generate_ephemeral_keys generated)
        λ keys. then_exchange (read new_session src) (server_answer answer keys)
