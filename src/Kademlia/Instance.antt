-- ===== src/Kademlia/Instance.antt =====
-- A small instance of the parameters that stand for the kademlia library.
use carlo.Common.{
  ℕ, ◌+◌, ◌%◌, ◌^◌, refl, true, List, [], ◌∷◌, ◌++◌, Option, none, some, bytes_eq, bytes_eq_iff,
}
use carlo.Kademlia.{Kademlia, Routing, IsIdCodec, IsKeyOf}
use carlo.Reader.{Bytes}

abbrev read_one : Bytes → Option (ℕ × Bytes)
read_one [] = none
read_one (b ∷ rest) = some (b, rest)

abbrev sum : Bytes → ℕ
sum [] = 0
sum (b ∷ bs) = b + sum bs

-- Ids of one byte, and a checksum for a signature.
abbrev pub toy : Kademlia
toy = record {
  KadId = ℕ;
  PublicKey = ℕ;
  pub_key = λ id. id;
  append_id = λ id dst. dst ++ id ∷ [];
  unmarshal_id = read_one;
  validate_id = λ id. true;
  size_signature = 1;
  verify = λ s p m. bytes_eq s (((p + sum m) % 2 ^ 8) ∷ []);
}

pub toy-IsIdCodec : IsIdCodec toy
toy-IsIdCodec = record { append_id_lem = λ id dst. refl; unmarshal_id_lem = λ id rest. refl }

-- The secret key of an id is the id; the table is the list of the ids, and all of them are close.
abbrev pub toy_routing : Routing toy
toy_routing = record {
  PrivateKey = ℕ;
  Table = List ℕ;
  sign = λ secret m. ((secret + sum m) % 2 ^ 8) ∷ [];
  update = λ id table. id ∷ table;
  delete = λ key table. [];
  closest_to = λ key table. table;
  unmarshal_find_node_request = λ body. some 0;
  append_find_node_response = λ ids dst. dst ++ ids;
}

pub toy-IsKeyOf : (id : ℕ) → IsKeyOf toy toy_routing id id
toy-IsKeyOf id = record {
  sign_size = λ m. refl;
  verify_sign = λ m. (bytes_eq_iff (((id + sum m) % 2 ^ 8) ∷ []) _).1 refl;
}
