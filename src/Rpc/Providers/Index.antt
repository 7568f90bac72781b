-- ===== src/Rpc/Providers/Index.antt =====
-- The index by service agrees with the services of the providers.
use carlo.Common.{
  ℕ, ◌≡◌, refl, ◌∙◌, Bool, false, not, ◌&&◌, ◌||◌, List, [], ◌∷◌, Option, none, some, lookup,
  insert, delete, nat_key, bytes_key, arith, lookup-insert, lookup-delete, ==_iff, bytes_eq,
  bytes_eq_iff, if◌then◌else◌, ◌==◌, inl, inr, Option-cases,
}
use carlo.Reader.{Bytes}
use carlo.Rpc.Provider.{Provider, Names}
use carlo.Rpc.Providers.{
  Conns, ServiceIndex, Providers, or_empty, keys, add_conn, add_names, add_conns, delete_conn,
  delete_conns, new_providers, register_provider, deregister_provider, or_new, exists,
  set_or_delete,
}

abbrev pub has_conn : ℕ → Option Conns → Bool
has_conn conn none = false
has_conn conn (some cs) = exists (lookup conn cs)

-- The index has the connection under the service.
abbrev pub serves : Bytes → ℕ → ServiceIndex → Bool
serves service conn index = has_conn conn (lookup service index)

serves-add_conn :
    (c : ℕ) (s : Bytes) (index : ServiceIndex) (service : Bytes) (conn : ℕ)
    → serves service conn (add_conn c s index)
      ≡ (bytes_eq s service && c == conn || serves service conn index)
unfolding add_conn
serves-add_conn c s index service conn = ground (
  arith,
  lookup-insert s service (insert c tt (or_empty (lookup s index))) index,
  lookup-insert c conn tt (or_empty (lookup s index)),
  bytes_eq_iff s service,
)

serves-set_or_delete :
    (s : Bytes) (cs : Conns) (index : ServiceIndex) (service : Bytes) (conn : ℕ)
    → serves service conn (set_or_delete s cs index)
      ≡ (if bytes_eq s service then exists (lookup conn cs) else serves service conn index)
serves-set_or_delete s [] index service conn = ground (arith, lookup-delete s service index)
serves-set_or_delete s (c ∷ cs) index service conn =
    ground (arith, lookup-insert s service (c ∷ cs) index)

serves-delete_conn :
    (c : ℕ) (s : Bytes) (index : ServiceIndex) (service : Bytes) (conn : ℕ)
    → serves service conn (delete_conn c s index)
      ≡ (not (bytes_eq s service && c == conn) && serves service conn index)
unfolding delete_conn
serves-delete_conn c s index service conn =
    serves-set_or_delete s (delete c (or_empty (lookup s index))) index service conn
    ∙ ground (arith, lookup-delete c conn (or_empty (lookup s index)), bytes_eq_iff s service)

-- The service stands in the list.
abbrev pub names_service : Bytes → List Bytes → Bool
names_service service [] = false
names_service service (s ∷ ss) = bytes_eq s service || names_service service ss

abbrev pub has_name : Bytes → Names → Bool
has_name service names = exists (lookup service names)

pub serves-add_conns :
    (c : ℕ) (ss : List Bytes) (index : ServiceIndex) (service : Bytes) (conn : ℕ)
    → serves service conn (add_conns c ss index)
      ≡ (names_service service ss && c == conn || serves service conn index)
unfolding add_conns
serves-add_conns c [] index service conn = refl
serves-add_conns c (s ∷ ss) index service conn =
    serves-add_conns c ss (add_conn c s index) service conn
    ∙ ground (arith, serves-add_conn c s index service conn)

serves-delete_conns :
    (c : ℕ) (ss : List Bytes) (index : ServiceIndex) (service : Bytes) (conn : ℕ)
    → serves service conn (delete_conns c ss index)
      ≡ (not (names_service service ss && c == conn) && serves service conn index)
unfolding delete_conns
serves-delete_conns c [] index service conn = refl
serves-delete_conns c (s ∷ ss) index service conn =
    serves-delete_conns c ss (delete_conn c s index) service conn
    ∙ ground (arith, serves-delete_conn c s index service conn)

pub has_name-add_names :
    (ss : List Bytes) (names : Names) (service : Bytes)
    → has_name service (add_names ss names) ≡ (names_service service ss || has_name service names)
unfolding add_names
has_name-add_names [] names service = refl
has_name-add_names (s ∷ ss) names service =
    has_name-add_names ss (insert s tt names) service
    ∙ ground (arith, lookup-insert s service tt names)

names_service-keys :
    (names : Names) (service : Bytes) → names_service service (keys names) ≡ has_name service names
names_service-keys [] service = refl
names_service-keys ((s, u) ∷ names) service = ground (arith, names_service-keys names service)

module _ {KadId : Type 0} where
  abbrev pub offers : Bytes → Option (Provider KadId) → Bool
  offers service none = false
  offers service (some p) = has_name service p.services

  -- A connection stands under a service exactly if it has a provider that announced the service.
  abbrev pub IsConsistent : Providers KadId → Type 0
  IsConsistent ps =
      (service : Bytes) (conn : ℕ)
      → serves service conn ps.services ≡ offers service (lookup conn ps.providers)

  pub new_providers-IsConsistent : (ps : Providers KadId) → ps ≡ new_providers → IsConsistent ps
  new_providers-IsConsistent ps e service conn = ground arith

  -- Registering keeps the index consistent.
  pub register_provider-IsConsistent :
      (c : ℕ) (id : Option KadId) (ss : List Bytes) (outgoing : Bool) (ps : Providers KadId)
      → IsConsistent ps
      → IsConsistent (register_provider c id ss outgoing ps).2
  unfolding register_provider
  register_provider-IsConsistent c id ss outgoing ps inv service conn =
      let old = or_new c outgoing (lookup c ps.providers) in
      let p = record old { kad_id = id; conn = c; services = add_names ss old.services } in
      serves-add_conns c ss ps.services service conn
      ∙ ground (
        arith,
        lookup-insert c conn p ps.providers,
        has_name-add_names ss old.services service,
        inv service conn,
        inv service c,
        ==_iff c conn,
      )

  -- Deregistering keeps the index consistent, and leaves the connection under no service.
  pub deregister_provider-IsConsistent :
      (c : ℕ) (ps : Providers KadId)
      → IsConsistent ps
      → IsConsistent (deregister_provider c ps).1
        × ((service : Bytes) → serves service c (deregister_provider c ps).1.services ≡ false)
  unfolding deregister_provider
  deregister_provider-IsConsistent c ps inv = (agrees, gone)
    where
      deleted :
          (p : Provider KadId) (service : Bytes) (conn : ℕ)
          → lookup c ps.providers ≡ some p
          → serves service conn (delete_conns c (keys p.services) ps.services)
            ≡ offers service (lookup conn (delete c ps.providers))
      deleted p service conn e =
          serves-delete_conns c (keys p.services) ps.services service conn
          ∙ ground (
            arith,
            lookup-delete c conn ps.providers,
            names_service-keys p.services service,
            inv service conn,
            ==_iff c conn,
          )

      agrees : IsConsistent (deregister_provider c ps).1
      agrees service conn = elim (Option-cases (lookup c ps.providers)) [
        | inl e ↦ rw (e, deregister_provider) (inv service conn)
        | inr (p, e) ↦ rw (e, deregister_provider) (deleted p service conn e)
      ]

      gone : (service : Bytes) → serves service c (deregister_provider c ps).1.services ≡ false
      gone service = elim (Option-cases (lookup c ps.providers)) [
        | inl e ↦ rw (e, deregister_provider) (ground (arith, inv service c))
        | inr (p, e) ↦
            rw (e, deregister_provider)
              (deleted p service c e ∙ ground (arith, lookup-delete c c ps.providers))
      ]
