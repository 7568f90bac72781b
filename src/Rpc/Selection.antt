-- ===== src/Rpc/Selection.antt =====
-- `Push` and `ProvidersFor` of streaming_rpc/streamnode.go: the choice among the providers of services.
-- What a provider's `Push` returns at each attempt is an argument; `none` in a list is a nil pointer.
pub mod Attempts
pub mod Keys
pub mod Nameless
mod Tests
use carlo.Common.{
  ℕ, ◌+◌, List, [], ◌∷◌, Option, none, some, Error, other_error, Outcome, ok, err, panic, insert,
  Key,
}
use carlo.Rpc.Provider.{Stream, Provider}

-- A stream, `ErrProviderNotAvailable`, or another error.
pub data Pushed : Type 0 where
  pushed : Stream → Pushed
  not_available : Pushed
  failed : Error → Pushed

-- `if errors.Is(err, ErrProviderNotAvailable) { continue }; return nil, err`
abbrev pub or_next : Pushed → Outcome Stream → Outcome Stream
or_next (pushed s) rest = ok s
or_next not_available rest = rest
or_next (failed e) rest = err e

module _ {KadId : Type 0} where
  -- The loop of `Push` over the providers, the `i`-th attempt first.
  unfoldable pub push_any :
      (ℕ → Provider KadId → Pushed) → ℕ → List (Option (Provider KadId)) → Outcome Stream
  push_any result i [] = err other_error
  push_any result i (none ∷ providers) = panic
  push_any result i (some p ∷ providers) =
      let rest = push_any result (i + 1) providers in or_next (result i p) rest

module _ {KadId PublicKey : Type 0} (pub_key : KadId → PublicKey) ⦃key : Key PublicKey⦄ where
  -- `set[provider.kadId.Pub] = provider`
  abbrev pub put_id :
      Option KadId
      → Provider KadId
      → List (PublicKey × Provider KadId)
      → Outcome (List (PublicKey × Provider KadId))
  put_id none p set = panic
  put_id (some id) p set = ok (insert (pub_key id) p set)

  abbrev pub put_all_after :
      Outcome (List (PublicKey × Provider KadId))
      → (List (PublicKey × Provider KadId) → Outcome (List (PublicKey × Provider KadId)))
      → Outcome (List (PublicKey × Provider KadId))
  put_all_after panic f = panic
  put_all_after (err e) f = err e
  put_all_after (ok set) f = f set

  -- The loop of `ProvidersFor`; what it returns are the values of the map.
  unfoldable pub providers_by_key :
      List (Option (Provider KadId))
      → List (PublicKey × Provider KadId)
      → Outcome (List (PublicKey × Provider KadId))
  providers_by_key [] set = ok set
  providers_by_key (none ∷ providers) set = panic
  providers_by_key (some p ∷ providers) set =
      put_all_after (put_id p.kad_id p set) (providers_by_key providers)
