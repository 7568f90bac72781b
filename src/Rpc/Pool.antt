-- ===== src/Rpc/Pool.antt =====
-- streaming_rpc/contextpool.go: the contexts of handlers and their reuse. `sync.Pool` returns any object that
-- was put into it, or none, and may drop objects.
pub mod Fresh
mod Tests
use carlo.Common.{
  ℕ, ◌≡◌, refl, sym, ap, ◌∙◌, subst, Bool, true, false, List, [], ◌∷◌, ◌++◌, Option, none, some,
  delete, bytes_key, Key, All, if◌then◌else◌, arith,
}
use carlo.Reader.{Bytes}
use carlo.Rpc.Context.{Context}
use carlo.Rpc.Providers.{keys}

-- A context with the fields that the request fills; a body and a connection are named by numbers.
pub record PooledContext (KadId : Type 0) : Type 0 where
  pub kad_id : KadId
  pub headers : Option (List (Bytes × Bytes))
  pub body : Option ℕ
  pub conn : Option ℕ
  pub context : Context

-- The arguments of `acquire`.
pub record Args (KadId : Type 0) : Type 0 where
  pub kad_id : KadId
  pub headers : Option (List (Bytes × Bytes))
  pub body : Option ℕ
  pub stream_id : ℕ
  pub conn : Option ℕ

-- `for key := range m { delete(m, key) }`
unfoldable pub delete_keys : List Bytes → List (Bytes × Bytes) → List (Bytes × Bytes)
delete_keys [] m = m
delete_keys (key ∷ keys) m = delete_keys keys (delete key m)

unfoldable pub release : {KadId : Type 0} → PooledContext KadId → PooledContext KadId
release ctx = record ctx {
  context = record ctx.context {
    written = false;
    response_headers = delete_keys (keys ctx.context.response_headers) ctx.context.response_headers;
  };
}

-- The pool and the contexts in use.
pub record System (KadId : Type 0) : Type 0 where
  pub pool : List (PooledContext KadId)
  pub used : List (PooledContext KadId)

module _ {KadId : Type 0} (zero_id : KadId) where
  -- `v == nil`: a new context, with an empty map.
  abbrev pub or_new : Option (PooledContext KadId) → PooledContext KadId
  or_new none = record {
    kad_id = zero_id;
    headers = none;
    body = none;
    conn = none;
    context = record { stream_id = 0; response_headers = []; written = false };
  }
  or_new (some ctx) = ctx

  unfoldable pub acquire : Option (PooledContext KadId) → Args KadId → PooledContext KadId
  acquire got a =
      let ctx = or_new got in
      record ctx {
        kad_id = a.kad_id;
        headers = a.headers;
        body = a.body;
        conn = a.conn;
        context = record ctx.context { stream_id = a.stream_id };
      }

  abbrev pub start : System KadId
  start = record { pool = []; used = [] }

  pub data Step (s : System KadId) : System KadId → Type 0 where
    acquire_new : (a : Args KadId) → Step s (record s { used = acquire none a ∷ s.used })
    acquire_pooled :
        (before after : List (PooledContext KadId)) (ctx : PooledContext KadId) (a : Args KadId)
        → s.pool ≡ before ++ ctx ∷ after
        → Step s (record { pool = before ++ after; used = acquire (some ctx) a ∷ s.used })
    -- A handler changes its context.
    change :
        (before after : List (PooledContext KadId)) (ctx changed : PooledContext KadId)
        → s.used ≡ before ++ ctx ∷ after
        → Step s (record s { used = before ++ changed ∷ after })
    put :
        (before after : List (PooledContext KadId)) (ctx : PooledContext KadId)
        → s.used ≡ before ++ ctx ∷ after
        → Step s (record { pool = release ctx ∷ s.pool; used = before ++ after })
    drop :
        (before after : List (PooledContext KadId)) (ctx : PooledContext KadId)
        → s.pool ≡ before ++ ctx ∷ after
        → Step s (record s { pool = before ++ after })

  pub data Reach : System KadId → Type 0 where
    here : Reach start
    next : {s r : System KadId} → Reach s → Step s r → Reach r
