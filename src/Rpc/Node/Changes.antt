-- ===== src/Rpc/Node/Changes.antt =====
-- What a message can do to the providers of a node.
use carlo.Common.{
  ℕ, ◌≡◌, refl, false, List, Option, some, Error, lookup, insert, nat_key, bytes_key, arith, ==_iff,
  Option-cases, inl, inr, lookup-insert, lookup-delete,
}
use carlo.Reader.{Bytes}
use carlo.Rpc.Provider.{
  Stream, new_stream, Provider, get_stream, register_stream, close_stream_with_error,
}
use carlo.Rpc.Providers.{Providers, find_provider, register_provider}

module _ {KadId : Type 0} where
  -- Every stream stands under its own number.
  abbrev pub IsKeyed : Provider KadId → Type 0
  IsKeyed p = (id : ℕ) (s : Stream) → get_stream id p ≡ some s → s.id ≡ id

  -- What the handling of a message on the connection `conn` can do to the providers: nothing, a change
  -- to the streams of the connection's provider, or a registration of the connection.
  pub data Change (conn : ℕ) (ps qs : Providers KadId) : Type 0 where
    same : qs ≡ ps → Change conn ps qs
    put :
        (p q : Provider KadId)
        → find_provider conn ps ≡ some p
        → q.services ≡ p.services
        → (IsKeyed p → IsKeyed q)
        → qs ≡ record ps { providers = insert conn q ps.providers }
        → Change conn ps qs
    registered :
        (id : Option KadId) (services : List Bytes)
        → qs ≡ (register_provider conn id services false ps).2
        → Change conn ps qs

  pub insert-IsKeyed :
      (p : Provider KadId) (id : ℕ) (s : Stream)
      → s.id ≡ id
      → IsKeyed p
      → IsKeyed (record p { streams = insert id s p.streams })
  unfolding get_stream
  insert-IsKeyed p id s e keyed j r found =
      ground (arith, lookup-insert id j s p.streams, keyed j r, ==_iff id j)

  pub close-IsKeyed :
      (p : Provider KadId) (stream : Stream) (e : Error)
      → IsKeyed p
      → IsKeyed (close_stream_with_error stream e p).1
  unfolding get_stream close_stream_with_error
  close-IsKeyed p stream e keyed j r found =
      ground (arith, lookup-delete stream.id j p.streams, keyed j r)

  pub register_stream-IsKeyed :
      (p : Provider KadId) (id : ℕ) → IsKeyed p → IsKeyed (register_stream id p).2
  unfolding register_stream
  register_stream-IsKeyed p id keyed = elim (Option-cases (lookup id p.streams)) [
    | inl e ↦ rw (e, register_stream) (insert-IsKeyed p id (new_stream id) refl keyed)
    | inr (s, e) ↦ rw (e, register_stream) keyed
  ]

  pub close-services :
      (p : Provider KadId) (stream : Stream) (e : Error)
      → (close_stream_with_error stream e p).1.services ≡ p.services
  unfolding close_stream_with_error
  close-services p stream e = refl

  pub register_stream-services :
      (p : Provider KadId) (id : ℕ) → (register_stream id p).2.services ≡ p.services
  unfolding register_stream
  register_stream-services p id = ground arith
