-- ===== src/Rpc/Node/Isolation.antt =====
-- A message on one connection and the providers of the node.
use carlo.Common.{
  ℕ, ◌≡◌, sym, ap, ◌∙◌, subst, ◌≢◌, false, List, Option, some, Error, lookup, insert, nat_key,
  arith, ◌==◌, ==_iff, if◌then◌else◌, Option-cases, inl, inr, lookup-insert, Bool-cases,
}
use carlo.Bytesutil.{BytesUtil}
use carlo.Kademlia.{Kademlia, Routing}
use carlo.Reader.{Bytes}
use carlo.Rpc.Provider.{Provider, get_stream}
use carlo.Rpc.Providers.{Providers, find_provider, register_provider}
use carlo.Rpc.Providers.Index.{IsConsistent, register_provider-IsConsistent}
use carlo.Rpc.Node.{Node, handle_message}
use carlo.Rpc.Node.Changes.{IsKeyed, Change, same, put, registered}
use carlo.Rpc.Node.Turns.{After, After-map, handle_message-Change}

module _ {KadId : Type 0} where
  abbrev pub AllKeyed : Providers KadId → Type 0
  AllKeyed ps = (conn : ℕ) (p : Provider KadId) → find_provider conn ps ≡ some p → IsKeyed p

  -- The index agrees with the providers, and every stream stands under its own number.
  pub record IsValid (ps : Providers KadId) : Type 0 where
    pub consistent : IsConsistent ps
    pub keyed : AllKeyed ps

  put-IsConsistent :
      (conn : ℕ) (ps : Providers KadId) (p q : Provider KadId)
      → find_provider conn ps ≡ some p
      → q.services ≡ p.services
      → IsConsistent ps
      → IsConsistent (record ps { providers = insert conn q ps.providers })
  unfolding find_provider
  put-IsConsistent conn ps p q e services inv service c =
      ground (arith, lookup-insert conn c q ps.providers, inv service c, ==_iff conn c)

  register_provider-found :
      (conn : ℕ) (id : Option KadId) (services : List Bytes) (ps : Providers KadId) (c : ℕ)
      → find_provider c (register_provider conn id services false ps).2 ≡ (
          if conn == c
          then some (register_provider conn id services false ps).0
          else find_provider c ps)
  unfolding find_provider register_provider
  register_provider-found conn id services ps c = lookup-insert conn c _ ps.providers

  register_provider-IsKeyed :
      (conn : ℕ) (id : Option KadId) (services : List Bytes) (ps : Providers KadId)
      → ((p : Provider KadId) → find_provider conn ps ≡ some p → IsKeyed p)
      → IsKeyed (register_provider conn id services false ps).0
  unfolding find_provider register_provider get_stream
  register_provider-IsKeyed conn id services ps keyed =
      elim (Option-cases (lookup conn ps.providers)) [
        | inl e ↦ rw (e, register_provider) (λ j s found. cc)
        | inr (p, e) ↦ rw (e, register_provider) (keyed p e)
      ]

  put-found :
      (conn : ℕ) (q : Provider KadId) (ps : Providers KadId) (c : ℕ)
      → find_provider c (record ps { providers = insert conn q ps.providers })
        ≡ (if conn == c then some q else find_provider c ps)
  unfolding find_provider
  put-found conn q ps c = lookup-insert conn c q ps.providers

  -- The providers of `qs` are those of `ps` but for the one of `conn`, which is `q`.
  abbrev Replaces : ℕ → Provider KadId → Providers KadId → Providers KadId → Type 0
  Replaces conn q ps qs =
      (c : ℕ) → find_provider c qs ≡ (if conn == c then some q else find_provider c ps)

  Replaces-keyed :
      (conn : ℕ) (q : Provider KadId) (ps qs : Providers KadId)
      → Replaces conn q ps qs
      → IsKeyed q
      → AllKeyed ps
      → AllKeyed qs
  Replaces-keyed conn q ps qs r keyed_q keyed c p found = elim (Bool-cases (conn == c)) [
    | inl hit ↦ subst IsKeyed (cc (sym (rw hit at (r c)) ∙ found)) keyed_q
    | inr miss ↦ keyed c p (sym (rw miss at (r c)) ∙ found)
  ]

  Replaces-other :
      (conn : ℕ) (q : Provider KadId) (ps qs : Providers KadId) (c : ℕ)
      → Replaces conn q ps qs
      → c ≢ conn
      → find_provider c qs ≡ find_provider c ps
  Replaces-other conn q ps qs c r other = ground (arith, r c, ==_iff conn c)

  Change-IsValid :
      (conn : ℕ) (ps qs : Providers KadId) → Change conn ps qs → IsValid ps → IsValid qs
  Change-IsValid conn ps qs (same e) v = subst IsValid (sym e) v
  Change-IsValid conn ps qs (put p q found services keyed e) v = subst IsValid (sym e) (record {
    consistent = put-IsConsistent conn ps p q found services v.consistent;
    keyed = Replaces-keyed conn q ps _ (put-found conn q ps) (keyed (v.keyed conn p found)) v.keyed;
  })
  Change-IsValid conn ps qs (registered id services e) v = subst IsValid (sym e) (record {
    consistent = register_provider-IsConsistent conn id services false ps v.consistent;
    keyed =
        Replaces-keyed conn _ ps _ (register_provider-found conn id services ps)
          (register_provider-IsKeyed conn id services ps (v.keyed conn)) v.keyed;
  })

  Change-other :
      (conn : ℕ) (ps qs : Providers KadId) (c : ℕ)
      → c ≢ conn
      → Change conn ps qs
      → find_provider c qs ≡ find_provider c ps
  Change-other conn ps qs c other (same e) = ap (find_provider c) e
  Change-other conn ps qs c other (put p q found services keyed e) =
      ap (find_provider c) e ∙ Replaces-other conn q ps _ c (put-found conn q ps) other
  Change-other conn ps qs c other (registered id services e) =
      ap (find_provider c) e
      ∙ Replaces-other conn _ ps _ c (register_provider-found conn id services ps) other

module _ (k : Kademlia) (t : Routing k) (u : BytesUtil) where
  -- Whatever a message holds, and whatever the connection answers, the index by service goes on agreeing
  -- with the providers and every stream stays under its own number.
  pub handle_message-IsValid :
      (sent : Bytes → Option Error) (conn : ℕ) (n : Node k t) (message : Bytes)
      → IsValid n.providers
      → After k t (λ m. IsValid m.providers) (handle_message k t u sent conn n message)
  handle_message-IsValid sent conn n message v =
      After-map k t (λ m c. Change-IsValid conn n.providers m.providers c v)
        (handle_message k t u sent conn n message) (handle_message-Change k t u sent conn n message)

  -- A message on one connection leaves the providers of all other connections, and their streams, as they
  -- are.
  pub handle_message-other_conn :
      (sent : Bytes → Option Error) (conn c : ℕ) (n : Node k t) (message : Bytes)
      → c ≢ conn
      → After k t
          (λ m. find_provider c m.providers ≡ find_provider c n.providers)
          (handle_message k t u sent conn n message)
  handle_message-other_conn sent conn c n message other =
      After-map k t (λ m. Change-other conn n.providers m.providers c other)
        (handle_message k t u sent conn n message) (handle_message-Change k t u sent conn n message)
