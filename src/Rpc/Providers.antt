-- ===== src/Rpc/Providers.antt =====
-- streaming_rpc/providers.go: the providers by connection, and the connections by service name. A
-- `*Provider` is the entry of its connection; nobody uses one that has been deregistered.
pub mod Index
pub mod Lookup
mod Tests
use carlo.Common.{
  ℕ, zero, suc, ◌≡◌, Bool, true, false, List, [], ◌∷◌, ◌++◌, map, Option, none, some, lookup,
  insert, delete, nat_key, bytes_key, if◌then◌else◌,
}
use carlo.Reader.{Bytes}
use carlo.Rpc.Provider.{Stream, Provider, Names, close}

-- A set of connections, and the sets by service name.
abbrev pub Conns : Type 0
Conns = List (ℕ × Unit {0})

abbrev pub ServiceIndex : Type 0
ServiceIndex = List (Bytes × Conns)

pub record Providers (KadId : Type 0) : Type 0 where
  pub services : ServiceIndex
  pub providers : List (ℕ × Provider KadId)

-- `m[k]` of a nil map or a missing key reads as the empty set.
abbrev pub or_empty : Option Conns → Conns
or_empty none = []
or_empty (some cs) = cs

abbrev pub keys {ℓ κ} : {K : Type ℓ} {V : Type κ} → List (K × V) → List K
keys m = map (λ e. e.0) m

-- `if _, exists := p.services[service]; !exists { ... }; p.services[service][conn] = struct{}{}`
unfoldable pub add_conn : ℕ → Bytes → ServiceIndex → ServiceIndex
add_conn conn service index =
    insert service (insert conn tt (or_empty (lookup service index))) index

-- The names of a provider's services, one after the other: `provider.services[service] = struct{}{}`.
unfoldable pub add_names : List Bytes → Names → Names
add_names [] names = names
add_names (service ∷ services) names = add_names services (insert service tt names)

unfoldable pub add_conns : ℕ → List Bytes → ServiceIndex → ServiceIndex
add_conns conn [] index = index
add_conns conn (service ∷ services) index = add_conns conn services (add_conn conn service index)

abbrev pub set_or_delete : Bytes → Conns → ServiceIndex → ServiceIndex
set_or_delete service [] index = delete service index
set_or_delete service (c ∷ cs) index = insert service (c ∷ cs) index

-- `delete(p.services[service], conn)`, and the set itself if nobody is left.
unfoldable pub delete_conn : ℕ → Bytes → ServiceIndex → ServiceIndex
delete_conn conn service index =
    set_or_delete service (delete conn (or_empty (lookup service index))) index

unfoldable pub delete_conns : ℕ → List Bytes → ServiceIndex → ServiceIndex
delete_conns conn [] index = index
delete_conns conn (service ∷ services) index =
    delete_conns conn services (delete_conn conn service index)

-- The connections of all the services, with repetitions.
unfoldable pub service_conns : List Bytes → ServiceIndex → List ℕ
service_conns [] index = []
service_conns (service ∷ services) index =
    keys (or_empty (lookup service index)) ++ service_conns services index

abbrev pub exists {ℓ} : {A : Type ℓ} → Option A → Bool
exists none = false
exists (some a) = true

module _ {KadId : Type 0} where
  abbrev pub new_providers : Providers KadId
  new_providers = record { services = []; providers = [] }

  unfoldable pub find_provider : ℕ → Providers KadId → Option (Provider KadId)
  find_provider conn ps = lookup conn ps.providers

  -- `none` for a nil pointer in the result.
  unfoldable pub get_providers : List Bytes → Providers KadId → List (Option (Provider KadId))
  get_providers services ps =
      map (λ conn. lookup conn ps.providers) (service_conns services ps.services)

  -- A provider that is made for a connection: outgoing connections number their streams from 1.
  abbrev pub new_provider : ℕ → Bool → Provider KadId
  new_provider conn outgoing = record {
    kad_id = none;
    conn = conn;
    services = [];
    counter = if outgoing then 1 else 0;
    streams = [];
  }

  abbrev pub or_new : ℕ → Bool → Option (Provider KadId) → Provider KadId
  or_new conn outgoing none = new_provider conn outgoing
  or_new conn outgoing (some p) = p

  unfoldable pub register_provider :
      ℕ
      → Option KadId
      → List Bytes
      → Bool
      → Providers KadId
      → Provider KadId × Bool × Providers KadId
  register_provider conn id services outgoing ps =
      let found = lookup conn ps.providers in
      let old = or_new conn outgoing found in
      let provider = record old {
        kad_id = id;
        conn = conn;
        services = add_names services old.services;
      } in
      (
        provider,
        exists found,
        record {
          services = add_conns conn services ps.services;
          providers = insert conn provider ps.providers;
        },
      )

  -- The provider after its `Close`, if there was one.
  unfoldable pub deregister_provider :
      ℕ → Providers KadId → Option (Provider KadId) × Providers KadId
  deregister_provider conn ps = elim (lookup conn ps.providers) [
    | none ↦ (none, ps)
    | some p ↦ (
      some (close p).1,
      record {
        services = delete_conns conn (keys p.services) ps.services;
        providers = delete conn ps.providers;
      },
    )
  ]
