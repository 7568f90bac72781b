-- ===== src/Rpc/Selection/Keys.antt =====
-- `ProvidersFor` of a node: a provider for each key.
use carlo.Common.{ℕ, ◌≡◌, true, List, Option, none, some, ok, lookup, Key, nat_key, All}
use carlo.Reader.{Bytes}
use carlo.Rpc.Provider.{Provider}
use carlo.Rpc.Providers.{Providers, exists}
use carlo.Rpc.Providers.Lookup.{offers_any}
use carlo.Rpc.Selection.{providers_by_key}

module _ {KadId PublicKey : Type 0} (pub_key : KadId → PublicKey) ⦃key : Key PublicKey⦄
    (services : List Bytes) where
  -- A provider of one of the services, with an id.
  abbrev pub IsNamed : Option (Provider KadId) → Type 0
  IsNamed r =
      (p : Provider KadId) × (id : KadId) × (r ≡ some p)
      × (offers_any services r ≡ true)
      × (p.kad_id ≡ some id)

  -- A provider with the key, of one of the services.
  abbrev pub IsFor : PublicKey → Provider KadId → Type 0
  IsFor j p =
      (id : KadId) × (p.kad_id ≡ some id) × (pub_key id ≡ j) × (offers_any services (some p) ≡ true)

  abbrev IsMapped : List (PublicKey × Provider KadId) → Type 0
  IsMapped set = (j : PublicKey) (p : Provider KadId) → lookup j set ≡ some p → IsFor j p

  -- The map has the key of the provider.
  abbrev pub Covers : List (PublicKey × Provider KadId) → Option (Provider KadId) → Type 0
  Covers set r =
      (p : Provider KadId) × (id : KadId) × (r ≡ some p)
      × (p.kad_id ≡ some id)
      × (exists (lookup (pub_key id) set) ≡ true)

  abbrev kad_id_of : Option (Provider KadId) → Option KadId
  kad_id_of none = none
  kad_id_of (some p) = p.kad_id

  record Grown (l : List (Option (Provider KadId))) (set : List (PublicKey × Provider KadId))
      : Type 0 where
    grown : List (PublicKey × Provider KadId)
    returns : providers_by_key pub_key l set ≡ ok grown
    mapped : IsMapped grown
    kept : (j : PublicKey) → exists (lookup j set) ≡ true → exists (lookup j grown) ≡ true
    covers : All (Covers grown) l

  -- A map with the providers of the services by their keys: what it holds under a key is such a provider,
  -- and it has the key of each of them.
  pub record ByKey (ps : Providers KadId) (set : List (PublicKey × Provider KadId)) : Type 0 where
    pub sound : (j : PublicKey) (p : Provider KadId) → lookup j set ≡ some p → IsFor j p
    pub complete :
        (c : ℕ) (p : Provider KadId) (id : KadId)
        → lookup c ps.providers ≡ some p
        → offers_any services (some p) ≡ true
        → p.kad_id ≡ some id
        → exists (lookup (pub_key id) set) ≡ true

  -- Each provider of one of the services has an id.
  abbrev pub AllNamed : Providers KadId → Type 0
  AllNamed ps =
      (c : ℕ) (p : Provider KadId)
      → lookup c ps.providers ≡ some p
      → offers_any services (some p) ≡ true
      → (id : KadId) × (p.kad_id ≡ some id)
