-- ===== src/Kademlia.antt =====
-- What the packets use of github.com/lithdew/kademlia, which is not in this repository: its types
-- and functions are a parameter, and their documented behaviour is a record of laws.
pub mod Instance
use carlo.Common.{ℕ, ◌≡◌, Bool, true, List, [], ◌++◌, Option, some, length}

pub record Kademlia : Type 1 where
  pub KadId : Type 0
  pub PublicKey : Type 0
  pub pub_key : KadId → PublicKey
  -- `ID.AppendTo`, `UnmarshalID` (`none` for an error) and `ID.Validate` (true for no error).
  pub append_id : KadId → List ℕ → List ℕ
  pub unmarshal_id : List ℕ → Option (KadId × List ℕ)
  pub validate_id : KadId → Bool
  -- `SizeSignature` and `Signature.Verify`.
  pub size_signature : ℕ
  pub verify : List ℕ → PublicKey → List ℕ → Bool

-- An id is appended to what is there, and `UnmarshalID` reads it back and returns the leftover.
pub record IsIdCodec (k : Kademlia) : Type 0 where
  pub append_id_lem : (id : k.KadId) (dst : List ℕ) → k.append_id id dst ≡ dst ++ k.append_id id []
  pub unmarshal_id_lem :
      (id : k.KadId) (rest : List ℕ) → k.unmarshal_id (k.append_id id [] ++ rest) ≡ some (id, rest)

-- What a node uses beside: its secret key, the routing table behind its lock, and the packets that
-- ask for the ids near a key. `closest_to` asks for `DefaultBucketSize` ids at most.
pub record Routing (k : Kademlia) : Type 1 where
  pub PrivateKey : Type 0
  pub Table : Type 0
  pub sign : PrivateKey → List ℕ → List ℕ
  pub update : k.KadId → Table → Table
  pub delete : k.PublicKey → Table → Table
  pub closest_to : k.PublicKey → Table → List k.KadId
  -- `UnmarshalFindNodeRequest` (`none` for an error), by its target, and `FindNodeResponse.AppendTo`.
  pub unmarshal_find_node_request : List ℕ → Option k.PublicKey
  pub append_find_node_response : List k.KadId → List ℕ → List ℕ

-- The secret key is the one of the id: what it signs, the id's public key verifies.
pub record IsKeyOf (k : Kademlia) (t : Routing k) (secret : t.PrivateKey) (id : k.KadId)
    : Type 0 where
  pub sign_size : (m : List ℕ) → length (t.sign secret m) ≡ k.size_signature
  pub verify_sign : (m : List ℕ) → k.verify (t.sign secret m) (k.pub_key id) m ≡ true
