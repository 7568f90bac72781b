-- ===== src/Rpc/Node/Closing.antt =====
-- The end of a connection.
use carlo.Common.{
  ℕ, ◌≡◌, ◌≢◌, sym, ◌∙◌, none, arith, ◌==◌, ==_iff, if◌then◌else◌, Option-cases, Bool-cases, inl,
  inr, lookup, nat_key, lookup-delete,
}
use carlo.Kademlia.{Kademlia, Routing}
use carlo.Rpc.Providers.{Providers, find_provider, deregister_provider}
use carlo.Rpc.Providers.Index.{deregister_provider-IsConsistent}
use carlo.Rpc.Node.{Node, handle_conn_closed}
use carlo.Rpc.Node.Isolation.{IsValid, AllKeyed}

module _ {KadId : Type 0} where
  deregister_provider-found :
      (conn : ℕ) (ps : Providers KadId) (c : ℕ)
      → find_provider c (deregister_provider conn ps).1
        ≡ (if conn == c then none else find_provider c ps)
  unfolding find_provider deregister_provider
  deregister_provider-found conn ps c = ground (
    arith,
    Option-cases (lookup conn ps.providers),
    lookup-delete conn c ps.providers,
    ==_iff conn c,
  )

  deregister_provider-keyed :
      (conn : ℕ) (ps : Providers KadId) → AllKeyed ps → AllKeyed (deregister_provider conn ps).1
  deregister_provider-keyed conn ps keyed c p found = elim (Bool-cases (conn == c)) [
    | inl hit ↦ cc (sym (rw hit at (deregister_provider-found conn ps c)) ∙ found)
    | inr miss ↦ keyed c p (sym (rw miss at (deregister_provider-found conn ps c)) ∙ found)
  ]

module _ (k : Kademlia) (t : Routing k) where
  handle_conn_closed-providers :
      (conn : ℕ) (n : Node k t)
      → (handle_conn_closed k t conn n).providers ≡ (deregister_provider conn n.providers).1
  unfolding handle_conn_closed deregister_provider
  handle_conn_closed-providers conn n =
      ground (arith, Option-cases (lookup conn n.providers.providers))

  -- When a connection has closed, it has no provider, the other connections keep theirs, and the
  -- index by service agrees with the providers that are left, if it agreed before.
  pub handle_conn_closed-IsValid :
      (conn : ℕ) (n : Node k t)
      → IsValid n.providers
      → IsValid (handle_conn_closed k t conn n).providers
        × (find_provider conn (handle_conn_closed k t conn n).providers ≡ none)
        × ((c : ℕ)
            → c ≢ conn
            → find_provider c (handle_conn_closed k t conn n).providers
              ≡ find_provider c n.providers)
  handle_conn_closed-IsValid conn n v = rw (handle_conn_closed-providers conn n) (
    record {
      consistent = (deregister_provider-IsConsistent conn n.providers v.consistent).0;
      keyed = deregister_provider-keyed conn n.providers v.keyed;
    },
    ground (arith, deregister_provider-found conn n.providers conn),
    λ c other. ground (arith, deregister_provider-found conn n.providers c, ==_iff conn c),
  )
