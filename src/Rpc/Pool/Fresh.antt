-- ===== src/Rpc/Pool/Fresh.antt =====
-- A context from the pool is as good as a new one.
use carlo.Common.{
  ◌≡◌, refl, subst, Bool, true, false, ◌||◌, List, [], ◌∷◌, ◌++◌, none, some, delete, bytes_key,
  bytes_eq, bytes_eq_iff, All, All-map, arith, Bool-cases, inl, inr,
}
use carlo.Reader.{Bytes}
use carlo.Rpc.Providers.{keys}
use carlo.Rpc.Pool.{
  PooledContext, Args, delete_keys, acquire, release, System, Step, acquire_new, acquire_pooled,
  change, put, drop, Reach, here, next,
}

abbrev among : Bytes → List Bytes → Bool
among j [] = false
among j (k ∷ ks) = bytes_eq j k || among j ks

delete-among :
    (k : Bytes) (ks : List Bytes) (m : List (Bytes × Bytes))
    → All (λ e. among e.0 (k ∷ ks) ≡ true) m
    → All (λ e. among e.0 ks ≡ true) (delete k m)
delete-among k ks [] h = tt
delete-among k ks ((j, v) ∷ m) h = elim (Bool-cases (bytes_eq j k)) [
  | inl e ↦ rw e (delete-among k ks m h.1)
  | inr e ↦ rw e (rw e at h.0, delete-among k ks m h.1)
]

delete_keys-among :
    (ks : List Bytes) (m : List (Bytes × Bytes))
    → All (λ e. among e.0 ks ≡ true) m
    → delete_keys ks m ≡ []
unfolding delete_keys
delete_keys-among [] [] h = refl
delete_keys-among [] (e ∷ m) h = cc (h.0)
delete_keys-among (k ∷ ks) m h = delete_keys-among ks (delete k m) (delete-among k ks m h)

among-keys : (m : List (Bytes × Bytes)) → All (λ e. among e.0 (keys m) ≡ true) m
among-keys [] = tt
among-keys ((j, v) ∷ m) = (
  rw ((bytes_eq_iff j j).1 refl) refl,
  All-map (λ e. among e.0 (keys m) ≡ true) (λ e. among e.0 (j ∷ keys m) ≡ true)
      (λ e h. ground (arith, h)) m (among-keys m),
)

module _ {KadId : Type 0} (zero_id : KadId) where
  -- Nothing is left of an earlier request but what `acquire` replaces.
  abbrev IsClean : PooledContext KadId → Type 0
  IsClean ctx = (ctx.context.written ≡ false) × (ctx.context.response_headers ≡ [])

  release-IsClean : (ctx : PooledContext KadId) → IsClean (release ctx)
  unfolding release
  release-IsClean ctx = (
    refl,
    delete_keys-among (keys ctx.context.response_headers) ctx.context.response_headers
        (among-keys ctx.context.response_headers),
  )

  All_middle :
      (before after : List (PooledContext KadId)) (ctx : PooledContext KadId)
      → All IsClean (before ++ ctx ∷ after)
      → IsClean ctx × All IsClean (before ++ after)
  All_middle [] after ctx h = h
  All_middle (b ∷ before) after ctx h =
      let (clean, rest) = All_middle before after ctx h.1 in (clean, (h.0, rest))

  Reach-IsClean : (s : System KadId) → Reach zero_id s → All IsClean s.pool
  Reach-IsClean s here = tt
  Reach-IsClean s (next {s = r} reach step) = kept r s step (Reach-IsClean r reach)
    where
      kept : (r s : System KadId) → Step zero_id r s → All IsClean r.pool → All IsClean s.pool
      kept r s (acquire_new a) h = h
      kept r s (acquire_pooled before after ctx a e) h =
          (All_middle before after ctx (subst (All IsClean) e h)).1
      kept r s (change before after ctx changed e) h = h
      kept r s (put before after ctx e) h = (release-IsClean ctx, h)
      kept r s (drop before after ctx e) h =
          (All_middle before after ctx (subst (All IsClean) e h)).1

  acquire_clean :
      (ctx : PooledContext KadId) (a : Args KadId)
      → IsClean ctx
      → acquire zero_id (some ctx) a ≡ acquire zero_id none a
  unfolding acquire
  acquire_clean ctx a clean = rw (clean.0, clean.1) refl

  -- In every reachable state, whatever handlers did to their contexts, a request gets from the pool the
  -- context that it would get as a new one.
  pub acquire_fresh :
      (s : System KadId) (before after : List (PooledContext KadId)) (ctx : PooledContext KadId)
      (a : Args KadId)
      → Reach zero_id s
      → s.pool ≡ before ++ ctx ∷ after
      → acquire zero_id (some ctx) a ≡ acquire zero_id none a
  acquire_fresh s before after ctx a reach e =
      acquire_clean ctx a
        (All_middle before after ctx (subst (All IsClean) e (Reach-IsClean s reach))).0
